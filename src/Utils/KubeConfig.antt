-- ===== src/Utils/KubeConfig.antt =====
-- pkg/utils/kubeconfig.go: the configurations for a server and a token, and how a configuration is
-- loaded. What it calls of k8s.io/client-go is a parameter.
mod Tests
use external_crd.Prelude.{
  ◌≡◌, refl, Bool, true, false, Option, none, some, [], ◌∷◌, ◌++◌, arith, if◌then◌else◌,
}
use external_crd.Prelude.Text.{Text, codes, str_eq, is_empty}
use external_crd.Prelude.Text.Laws.{str_eq_refl}
use external_crd.Prelude.Maps.{Map, lookup, put, lookup-put}
use external_crd.Prelude.Int.{ℤ}
use external_crd.Prelude.Outcome.{Outcome, ok, err, panic, then_do, other}

-- clientcmdapi.Cluster
pub record Cluster : Type 0 where
  pub server : Text
  pub insecure_skip_tls_verify : Bool
  pub certificate_authority_data : Option Text

-- clientcmdapi.Context
pub record ConfigContext : Type 0 where
  pub cluster : Text
  pub auth_info : Text

-- clientcmdapi.Config; an AuthInfo is its token
pub record Config : Type 0 where
  pub clusters : Map Cluster
  pub contexts : Map ConfigContext
  pub auth_infos : Map Text
  pub current_context : Text

-- caCert == nil
abbrev is_nil : Option Text → Bool
is_nil none = true
is_nil (some _) = false

unfoldable pub create_basic_kube_config : Text → Text → Text → Option Text → Config
create_basic_kube_config server_url cluster_name user_name ca_cert =
    let context_name = user_name ++ (b'@' ∷ cluster_name) in
    record {
      clusters =
          (
            cluster_name,
            record {
              server = server_url;
              insecure_skip_tls_verify = is_nil ca_cert;
              certificate_authority_data = ca_cert;
            },
          )
          ∷ [];
      contexts = (context_name, record { cluster = cluster_name; auth_info = user_name }) ∷ [];
      auth_infos = [];
      current_context = context_name;
    }

unfoldable pub create_kube_config_with_token : Text → Text → Option Text → Config
unfolding create_basic_kube_config
create_kube_config_with_token server_url token ca_cert =
    let user_name = codes "external-crd" in
    let config =
      create_basic_kube_config server_url (codes "external-crd-cluster") user_name ca_cert in
    record config { auth_infos = put user_name token config.auth_infos }

-- What the file calls of k8s.io/client-go, for `R` the type rest.Config.
pub record ClientLoader (R : Type 0) : Type 0 where
  pub in_cluster_config : Outcome R
  pub load_from_file : Text → Outcome Config
  pub client_config : Config → Outcome R

module _ {R : Type 0} (l : ClientLoader R) where
  -- LoadsKubeConfig, for the Kubeconfig of the settings, or for nil settings
  unfoldable pub loads_kube_config : Option Text → Outcome R
  loads_kube_config none = err (other (codes "nil ClientConnectionConfiguration"))
  loads_kube_config (some path) =
      if is_empty path then l.in_cluster_config else wrap (l.load_from_file path)
    where
      wrap : Outcome Config → Outcome R
      wrap (ok config) = l.client_config config
      wrap (err e) = err (other (codes "error while loading kubeconfig from file"))
      wrap panic = panic

  -- GenerateKubeConfigFromToken, whose flow rate is not used
  pub generate_kube_config_from_token : Text → Text → Option Text → ℤ → Outcome R
  generate_kube_config_from_token server_url token ca_cert flow_rate =
      wrap (l.client_config (create_kube_config_with_token server_url token ca_cert))
    where
      wrap : Outcome R → Outcome R
      wrap (ok config) = ok config
      wrap (err e) = err (other (codes "error while creating kubeconfig"))
      wrap panic = panic

-- The current context of a configuration with its cluster and its token, as a client resolves them.
unfoldable pub resolve : Config → Option (Cluster × Text)
resolve config = elim (lookup config.current_context config.contexts) [
  | none ↦ none
  | some context ↦ elim (lookup context.cluster config.clusters) [
    | none ↦ none
    | some cluster ↦ elim (lookup context.auth_info config.auth_infos) [
      | none ↦ none
      | some token ↦ some (cluster, token)
    ]
  ]
]

-- The current context of a configuration that `CreateKubeConfigWithToken` makes resolves to the
-- server and the token that it was given, with the certificate, and skips the check of the
-- server's certificate exactly if there is none.
pub create_kube_config_with_token_resolves :
    (server_url token : Text) (ca_cert : Option Text)
    → resolve (create_kube_config_with_token server_url token ca_cert)
      ≡ some (
        record {
          server = server_url;
          insecure_skip_tls_verify = is_nil ca_cert;
          certificate_authority_data = ca_cert;
        },
        token,
      )
unfolding resolve create_kube_config_with_token create_basic_kube_config lookup put codes str_eq
create_kube_config_with_token_resolves server_url token ca_cert = refl
