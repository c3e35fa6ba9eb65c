-- ===== src/Setup/Server.antt =====
-- The server of pkg/apiserver/server.go, with `New` of options.go, `PrintAndExitIfRequested` of
-- pkg/utils/version.go and the command of cmd/main.go.
pub mod Serving
mod Tests
use external_crd.Prelude.{Bool, true, false, Option, none, some, List, [], ◌∷◌, ◌++◌, if◌then◌else◌}
use external_crd.Prelude.Text.{Text, codes, str_eq}
use external_crd.Prelude.Int.{ℤ, pos}
use external_crd.Prelude.Outcome.{
  Outcome, ok, err, panic, then_do, ApiError, other, Exec, lift, ◌>>=◌,
}
use external_crd.Utils.ApiResource.{ApiGroupResources}
use external_crd.Utils.KubeConfig.{ClientLoader, loads_kube_config}
use external_crd.Handler.Crd.{CrdFunctions}
use external_crd.Handler.State.{WebServices}
use external_crd.Handler.Groups.{Containers, Server, new_overlay_api_server, install_overlay}
use external_crd.Setup.Factory.{
  Factory, new_shared_informer_factory, kubernetes_crd_informer, start, wait_for_cache_sync,
}
use external_crd.Setup.Options.{
  ApiserverOptions, OverlayServerOptions, Applied, complete, validate, server_config,
}

-- DefaultResync, in hours
abbrev pub default_resync : ℤ
default_resync = pos 12

-- The hooks that run in goroutines of their own when the generic server has started.
pub data Hook : Type 0 where
  start_external_crd_overlay_apis start_shared_informers_controllers : Hook

-- OverlayServer, less the clients and the factories of other libraries
pub record OverlayServer (G N T : Type 0) : Type 0 where
  pub options : OverlayServerOptions G N T
  pub kcrd_informer_factory : Factory N T

-- ExternalCrdAPIServer, for `V` generic servers, with the hooks that are added to it
pub record ApiServer (V : Type 0) : Type 0 where
  pub generic_api_server : V
  pub hooks : List Hook

-- What the server calls of client-go and k8s.io/apiserver, for `R` client configurations, `C` server
-- configurations, `V` generic servers and `N` informers. The constructors of clients with OrDie, the
-- aggregator's among them, panic, as
-- does the registration with the scheme; `make` makes an informer of manifests.
pub record ServerLibrary (R C V N T : Type 0) : Type 0 where
  pub new_clients : R → Outcome (Unit {0})
  pub add_to_scheme : Outcome (Unit {0})
  pub complete_config : C → C
  pub new_generic_server : C → Outcome V
  pub make : Text → ℤ → Option T → N
  pub synced : N → Bool
  pub prepare_and_run : ApiServer V → Outcome (Unit {0})

module _ {R C V N T : Type 0} (l : ServerLibrary R C V N T) where
  -- New of completedConfig, which asks for the informer of manifests
  unfoldable pub new_server : C → Exec (Factory N T) (ApiServer V)
  new_server config = lift (l.new_generic_server config) >>= λ generic f. (
    ok (record { generic_api_server = generic; hooks = start_external_crd_overlay_apis ∷ [] }),
    (kubernetes_crd_informer l.make f).1,
  )

  -- What a hook does to the factory of informers of manifests: the hook of the overlay asks for the
  -- lister, and with it for the informer; the other hook starts the factory.
  unfoldable pub run_hook : Hook → Factory N T → Factory N T
  run_hook start_external_crd_overlay_apis f = (kubernetes_crd_informer l.make f).1
  run_hook start_shared_informers_controllers f = start f

module _ {R G C V N T : Type 0} (loader : ClientLoader R) (a : ApiserverOptions G C)
    (l : ServerLibrary R C V N T) where
  -- NewOverlayServer
  unfoldable pub new_overlay_server : OverlayServerOptions G N T → Outcome (OverlayServer G N T)
  new_overlay_server o =
      then_do (loads_kube_config loader (some o.controller_options.kubeconfig)) λ config.
        then_do (l.new_clients config) λ _. then_do l.add_to_scheme λ _. ok (record {
          options = o;
          kcrd_informer_factory = new_shared_informer_factory default_resync;
        })

  -- Run, up to the end of the generic server; the factory is as the hooks find it
  unfoldable pub run : OverlayServer G N T → Outcome (Unit {0}) × Factory N T
  run s =
      (lift (server_config a s.options) >>= λ applied.
      new_server l (l.complete_config applied.config) >>= λ server. lift (
        l.prepare_and_run
          (record server { hooks = server.hooks ++ start_shared_informers_controllers ∷ [] })))
        s.kcrd_informer_factory

module _ {W K I : Type 0} (f : CrdFunctions) (w : WebServices W) (c : Containers W K I) where
  -- The hook of the overlay, on the container of the generic server: NewOverlayAPIServer and
  -- InstallOverlayAPIGroups. The informers of definitions, which it starts in between, are left out.
  unfoldable pub start_overlay_apis :
      (Text → Text → ℤ)
      → Option (Text × Text)
      → Outcome (List ApiGroupResources)
      → K
      → ℤ
      → ℤ
      → Text
      → Outcome (Unit {0}) × Server W K I
  start_overlay_apis compare options discovered container max_bytes min_timeout reserved_namespace =
      install_overlay f w c compare options discovered
        (new_overlay_api_server f w c container max_bytes min_timeout reserved_namespace)

-- How `PrintAndExitIfRequested` ends: it returns, or prints the version and exits.
pub data Printed : Type 0 where
  not_requested printed : Printed

-- PrintAndExitIfRequested, for the value of the flag and what Marshal of yaml and json gives
unfoldable pub print_and_exit_if_requested :
    Text → Outcome (Unit {0}) → Outcome (Unit {0}) → Outcome Printed
print_and_exit_if_requested flag yaml json =
    if str_eq flag []
    then ok not_requested
    else if str_eq flag (codes "short")
    then ok printed
    else if str_eq flag (codes "yaml")
    then then_do yaml (λ _. ok printed)
    else if str_eq flag (codes "json")
    then then_do json (λ _. ok printed)
    else err (other (codes "invalid output format"))

-- How the process ends.
pub data Ending : Type 0 where
  stopped exited_printed crashed : Ending
  exited_with : ApiError → Ending

module _ {R G C V N T : Type 0} (loader : ClientLoader R) (a : ApiserverOptions G C)
    (l : ServerLibrary R C V N T) where
  ended : Outcome (Unit {0}) → Ending
  ended (ok _) = stopped
  ended (err e) = exited_with e
  ended panic = crashed

  served : OverlayServerOptions G N T → Outcome (Unit {0})
  served o =
      then_do (validate a o)
        λ _. then_do (new_overlay_server loader a l o) λ server. (run loader a l server).0

  run_printed : Outcome Printed → OverlayServerOptions G N T → Ending
  unfolding served ended
  run_printed (ok not_requested) o = ended (served (complete a o))
  run_printed (ok printed) o = exited_printed
  run_printed (err e) o = exited_with e
  run_printed panic o = crashed

  -- The Run of the command of NewExternalCrdServerCmd; klog.Exit ends the process at an error.
  unfoldable pub run_command :
      Text → Outcome (Unit {0}) → Outcome (Unit {0}) → OverlayServerOptions G N T → Ending
  unfolding run_printed
  run_command flag yaml json o = run_printed (print_and_exit_if_requested flag yaml json) o
