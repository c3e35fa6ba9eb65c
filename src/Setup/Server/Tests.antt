-- ===== src/Setup/Server/Tests.antt =====
-- Instances of the theorems on the server of pkg/apiserver/server.go, where an informer is its namespace.
use external_crd.Prelude.{refl, true, [], ◌∷◌, ◌++◌}
use external_crd.Prelude.Text.{Text, codes}
use external_crd.Prelude.Outcome.{ok}
use external_crd.Setup.Factory.{Factory, kubernetes_crd_informer, new_shared_informer_factory}
use external_crd.Setup.Factory.Calls.{IsShared}
use external_crd.Setup.Server.{
  start_external_crd_overlay_apis, start_shared_informers_controllers, ApiServer, ServerLibrary,
  default_resync, new_server,
}
use external_crd.Setup.Server.Serving.{run_hooks, manifests, hooks-IsShared}

abbrev library : ServerLibrary Text Text Text Text Text
library = record {
  new_clients = λ r. ok tt;
  add_to_scheme = ok tt;
  complete_config = λ c. c;
  new_generic_server = λ c. ok c;
  make = λ namespace resync tweak. namespace;
  synced = λ n. true;
  prepare_and_run = λ s. ok tt;
}

abbrev server : ApiServer Text
server = record { generic_api_server = []; hooks = start_external_crd_overlay_apis ∷ [] }

abbrev factory : Factory Text Text
factory = (kubernetes_crd_informer library.make (new_shared_informer_factory default_resync)).1

hooks-IsShared_example : IsShared (codes "KubernetesCrd") (manifests library) (
    run_hooks library
      ((start_external_crd_overlay_apis ∷ []) ++ start_shared_informers_controllers ∷ [])
      factory)
hooks-IsShared_example =
    hooks-IsShared library [] server factory (start_external_crd_overlay_apis ∷ []) []
      (unfold new_server in refl)
