-- ===== src/Setup/Options.antt =====
-- The options of the server, of pkg/apiserver/options.go: their defaults, completion and validation, and
-- the configuration that they give. What they call of k8s.io/apiserver is a parameter.
mod Tests
use external_crd.Prelude.{Bool, true, false, Option, none, some, List, [], ◌∷◌, ◌++◌, if◌then◌else◌}
use external_crd.Prelude.Text.{Text, codes, str_eq}
use external_crd.Prelude.Int.{ℤ, pos}
use external_crd.Prelude.Outcome.{
  Outcome, ok, err, panic, then_do, ApiError, other, Exec, pure, lift, ◌>>=◌,
}
use external_crd.Utils.Constants.{kcrd_system_namespace, kcrd_reserved_namespace}
use external_crd.Rest.Crud.{mapping}
use external_crd.Handler.Groups.{to_lower}
use external_crd.Setup.Factory.{Factory, new_shared_informer_factory}

-- LeaderElectionConfiguration, by the fields that the program sets
pub record LeaderElection : Type 0 where
  pub resource_lock : Text
  pub resource_name : Text
  pub resource_namespace : Text

-- ControllerOptions; of its ClientConnection the program reads the path of the kubeconfig
pub record ControllerOptions : Type 0 where
  pub leader_election : LeaderElection
  pub kubeconfig : Text

-- What is called of k8s.io/component-base: the recommended defaults and the conversions of a scheme.
pub record ComponentBase : Type 0 where
  pub default_kubeconfig : Text
  pub default_election : LeaderElection → LeaderElection
  pub convert_connection : Text → Outcome Text
  pub convert_election : LeaderElection → Outcome LeaderElection

unfoldable pub new_controller_options : ComponentBase → Text → Text → Outcome ControllerOptions
new_controller_options b resource_name resource_namespace =
    let election : LeaderElection = record {
      resource_lock = codes "lease";
      resource_name = resource_name;
      resource_namespace = resource_namespace;
    } in
    then_do (b.convert_connection b.default_kubeconfig) λ kubeconfig.
      then_do (b.convert_election (b.default_election election)) λ leader_election.
        ok (record { leader_election = leader_election; kubeconfig = kubeconfig })

-- ExtraAdmissionInitializers: the function of NewRecommendedOptions, or the one that `Config` sets, which
-- makes a client and a factory of informers.
pub data Initializers : Type 0 where
  default_initializers loopback_initializers : Initializers

-- genericoptions.RecommendedOptions, for `G` the rest of it: what the program reads or sets stands apart.
pub record RecommendedOptions (G : Type 0) : Type 0 where
  pub rest : G
  pub core_api_kubeconfig_path : Text
  pub disable_plugins : List Text
  pub extra_admission_initializers : Initializers

-- OverlayServerOptions, with a factory of `N` informers.
pub record OverlayServerOptions (G N T : Type 0) : Type 0 where
  pub tunnel_logging : Bool
  pub anonymous_auth_supported : Bool
  pub reserved_namespace : Text
  pub recommended_options : RecommendedOptions G
  pub loopback_shared_informer_factory : Option (Factory N T)
  pub controller_options : ControllerOptions

-- What is called of k8s.io/apiserver, for `C` the type RecommendedConfig. An `ApplyTo` may change the
-- options that it is a method of, as well as the configuration. `new_client` is kcrd.NewForConfig of the
-- loopback configuration, and `loopback_timeout` its timeout.
pub record ApiserverOptions (G C : Type 0) : Type 0 where
  pub new_recommended_options : Text → RecommendedOptions G
  pub secure_serving_validate : RecommendedOptions G → List ApiError
  pub authentication_validate : RecommendedOptions G → List ApiError
  pub authorization_validate : RecommendedOptions G → List ApiError
  pub audit_log_validate : RecommendedOptions G → List ApiError
  pub features_validate : RecommendedOptions G → List ApiError
  pub core_api_validate : RecommendedOptions G → List ApiError
  pub default_certs : G → Outcome G
  pub secure_serving_apply : Exec (RecommendedOptions G × C) (Unit {0})
  pub authentication_apply : Exec (RecommendedOptions G × C) (Unit {0})
  pub authorization_apply : Exec (RecommendedOptions G × C) (Unit {0})
  pub audit_apply : Exec (RecommendedOptions G × C) (Unit {0})
  pub features_apply : Exec (RecommendedOptions G × C) (Unit {0})
  pub core_api_apply : Exec (RecommendedOptions G × C) (Unit {0})
  pub admission_apply : Exec (RecommendedOptions G × C) (Unit {0})
  pub default_initialize : Exec (RecommendedOptions G × C) (Unit {0})
  pub new_client : C → Outcome (Unit {0})
  pub loopback_timeout : C → ℤ
  pub new_recommended_config : ℤ → C
  pub lifecycle_plugin : Text

-- The LongRunningFunc of `Config`, for the values of the query "watch" and what
-- BasicLongRunningRequestCheck answers.
unfoldable pub long_running : List Text → Bool → Bool
long_running [] basic = basic
long_running (value ∷ _) basic = str_eq (to_lower value) (codes "true")

-- utilerrors.NewAggregate, nil for no errors
abbrev pub aggregate : List ApiError → Outcome (Unit {0})
aggregate [] = ok tt
aggregate (e ∷ _) = err (other (codes "aggregate"))

-- The options with the configuration that they are applied to.
pub record Applied (G C N T : Type 0) : Type 0 where
  pub options : OverlayServerOptions G N T
  pub config : C

-- One call after another, up to the first that returns an error.
unfoldable pub in_turn : {S : Type 0} → List (Exec S (Unit {0})) → Exec S (Unit {0})
in_turn [] = pure tt
in_turn (m ∷ ms) = let rest = in_turn ms in m >>= λ _. rest

module _ {G C N T : Type 0} (a : ApiserverOptions G C) where
  -- NewOverlayServerOptions
  unfoldable pub new_overlay_server_options : ComponentBase → Outcome (OverlayServerOptions G N T)
  new_overlay_server_options b =
      then_do (new_controller_options b (codes "external-crd") kcrd_system_namespace)
        λ controller_options. ok (record {
          tunnel_logging = false;
          anonymous_auth_supported = true;
          reserved_namespace = kcrd_reserved_namespace;
          recommended_options = a.new_recommended_options (codes "fake");
          loopback_shared_informer_factory = none;
          controller_options = controller_options;
        })

  -- Complete
  unfoldable pub complete : OverlayServerOptions G N T → OverlayServerOptions G N T
  complete o = record o {
    recommended_options = record (o.recommended_options) {
      core_api_kubeconfig_path = o.controller_options.kubeconfig;
    };
  }

  unfoldable pub validate_recommended_options : OverlayServerOptions G N T → List ApiError
  validate_recommended_options o =
      let g = o.recommended_options in
      a.secure_serving_validate g
      ++ (a.authentication_validate g
          ++ (a.authorization_validate g
              ++ (a.audit_log_validate g ++ (a.features_validate g ++ a.core_api_validate g))))

  -- Validate
  unfoldable pub validate : OverlayServerOptions G N T → Outcome (Unit {0})
  validate o = aggregate (validate_recommended_options o)

  -- A call that changes the recommended options and the configuration.
  unfoldable pub on_config :
      Exec (RecommendedOptions G × C) (Unit {0}) → Exec (Applied G C N T) (Unit {0})
  on_config apply s =
      let (r, applied) = apply (s.options.recommended_options, s.config) in
      (
        r,
        record s {
          options = record (s.options) { recommended_options = applied.0 };
          config = applied.1;
        },
      )

  -- The ExtraAdmissionInitializers of `Config`, which give no initializer, by what NewForConfig returns.
  unfoldable pub with_client : Outcome (Unit {0}) → Exec (Applied G C N T) (Unit {0})
  with_client (ok _) s = (
    ok tt,
    record s {
      options = record (s.options) {
        loopback_shared_informer_factory =
            some (new_shared_informer_factory (a.loopback_timeout s.config));
      };
    },
  )
  with_client (err e) s = (err e, s)
  with_client panic s = (panic, s)

  -- o.RecommendedOptions.ExtraAdmissionInitializers(config)
  unfoldable pub initialize : Initializers → Exec (Applied G C N T) (Unit {0})
  unfolding with_client on_config
  initialize default_initializers s = on_config a.default_initialize s
  initialize loopback_initializers s = with_client (a.new_client s.config) s

  unfoldable pub extra_admission_initializers : Exec (Applied G C N T) (Unit {0})
  unfolding initialize
  extra_admission_initializers s =
      initialize s.options.recommended_options.extra_admission_initializers s

  -- The calls of `recommendedOptionsApplyTo`, each of which returns its error.
  unfoldable pub apply_calls : List (Exec (Applied G C N T) (Unit {0}))
  apply_calls =
      on_config a.secure_serving_apply
      ∷ on_config a.authentication_apply
      ∷ on_config a.authorization_apply
      ∷ on_config a.audit_apply
      ∷ on_config a.features_apply
      ∷ on_config a.core_api_apply
      ∷ extra_admission_initializers
      ∷ on_config a.admission_apply
      ∷ []

  -- recommendedOptionsApplyTo
  unfoldable pub recommended_options_apply_to : Exec (Applied G C N T) (Unit {0})
  recommended_options_apply_to = in_turn apply_calls

  -- The options that `Config` applies: with certificates, the initializers set, and NamespaceLifecycle
  -- disabled.
  unfoldable pub disabling :
      OverlayServerOptions G N T → Outcome G → Outcome (OverlayServerOptions G N T)
  disabling o (ok g) = ok (record o {
    recommended_options = record (o.recommended_options) {
      rest = g;
      extra_admission_initializers = loopback_initializers;
      disable_plugins = o.recommended_options.disable_plugins ++ a.lifecycle_plugin ∷ [];
    };
  })
  disabling o (err e) = err (other (codes "error creating self-signed certificates"))
  disabling o panic = panic

  unfoldable pub prepared : OverlayServerOptions G N T → Outcome (OverlayServerOptions G N T)
  unfolding disabling
  prepared o = disabling o (a.default_certs o.recommended_options.rest)

  -- Config, with the changed options; the request timeout is 40 seconds
  unfoldable pub server_config : OverlayServerOptions G N T → Outcome (Applied G C N T)
  server_config o = then_do (prepared o) λ o'.
      let (r, s) =
        recommended_options_apply_to
          (record { options = o'; config = a.new_recommended_config (pos 40) }) in
      then_do r λ _. ok s
