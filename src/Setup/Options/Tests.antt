-- ===== src/Setup/Options/Tests.antt =====
-- A run of `Config` of pkg/apiserver/options.go, for a library that accepts all.
use external_crd.Prelude.{◌≡◌, refl, true, false, none, [], ◌∷◌, ◌++◌}
use external_crd.Prelude.Text.{Text, codes}
use external_crd.Prelude.Int.{ℤ, pos}
use external_crd.Prelude.Outcome.{ok, then_do}
use external_crd.Setup.Options.{
  default_initializers, ApiserverOptions, OverlayServerOptions, in_turn, with_client, on_config,
  initialize, extra_admission_initializers, apply_calls, recommended_options_apply_to, disabling,
  prepared, server_config,
}

-- The rest of the options and the configuration are texts; each `ApplyTo` adds a letter to the
-- configuration.
abbrev library : ApiserverOptions Text Text
library = record {
  new_recommended_options = λ prefix. record {
    rest = prefix;
    core_api_kubeconfig_path = [];
    disable_plugins = [];
    extra_admission_initializers = default_initializers;
  };
  secure_serving_validate = λ g. [];
  authentication_validate = λ g. [];
  authorization_validate = λ g. [];
  audit_log_validate = λ g. [];
  features_validate = λ g. [];
  core_api_validate = λ g. [];
  default_certs = λ g. ok (codes "certs");
  secure_serving_apply = λ s. (ok tt, (s.0, s.1 ++ codes "s"));
  authentication_apply = λ s. (ok tt, (s.0, s.1 ++ codes "n"));
  authorization_apply = λ s. (ok tt, (s.0, s.1 ++ codes "z"));
  audit_apply = λ s. (ok tt, (s.0, s.1 ++ codes "a"));
  features_apply = λ s. (ok tt, (s.0, s.1 ++ codes "f"));
  core_api_apply = λ s. (ok tt, (s.0, s.1 ++ codes "k"));
  admission_apply = λ s. (ok tt, (s.0, s.1 ++ codes "m"));
  default_initialize = λ s. (ok tt, s);
  new_client = λ c. ok tt;
  loopback_timeout = λ c. pos 0;
  new_recommended_config = λ timeout. [];
  lifecycle_plugin = codes "NamespaceLifecycle";
}

abbrev options : OverlayServerOptions Text ℤ Text
options = record {
  tunnel_logging = false;
  anonymous_auth_supported = true;
  reserved_namespace = codes "reserved";
  recommended_options = library.new_recommended_options (codes "fake");
  loopback_shared_informer_factory = none;
  controller_options = record {
    leader_election = record { resource_lock = []; resource_name = []; resource_namespace = [] };
    kubeconfig = codes "k";
  };
}

-- The configuration is made in the order of the calls.
in_order : then_do (server_config library options) (λ s. ok s.config) ≡ ok (codes "snzafkm")
unfolding server_config prepared disabling recommended_options_apply_to apply_calls in_turn
    on_config extra_admission_initializers initialize with_client codes
in_order = refl

-- The plugin of namespaces is disabled in the options that `Config` leaves.
plugin_disabled :
    then_do (server_config library options) (λ s. ok s.options.recommended_options.disable_plugins)
    ≡ ok (codes "NamespaceLifecycle" ∷ [])
unfolding server_config prepared disabling recommended_options_apply_to apply_calls in_turn
    on_config extra_admission_initializers initialize with_client codes
plugin_disabled = refl
