-- ===== src/Utils/KubeConfig/Tests.antt =====
-- An instance of the theorem on the configurations of kubeconfig.go.
use external_crd.Prelude.{◌≡◌, none, some, true}
use external_crd.Prelude.Text.{codes}
use external_crd.Utils.KubeConfig.{
  Cluster, create_kube_config_with_token, resolve, create_kube_config_with_token_resolves,
}

abbrev insecure : Cluster
insecure = record {
  server = codes "https://server";
  insecure_skip_tls_verify = true;
  certificate_authority_data = none;
}

config_resolves :
    resolve (create_kube_config_with_token (codes "https://server") (codes "secret") none)
    ≡ some (insecure, codes "secret")
config_resolves =
    create_kube_config_with_token_resolves (codes "https://server") (codes "secret") none
