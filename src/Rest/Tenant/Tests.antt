-- ===== src/Rest/Tenant/Tests.antt =====
-- Instances of the theorems on the objects of one caller, at the API server of Rest/Example.antt: a create, a
-- create of the same name, an update, and two deletes.
use external_crd.Prelude.{true, ◌≡◌, refl, none, List, [], ◌∷◌}
use external_crd.Prelude.Text.{Text, codes, is_empty}
use external_crd.Prelude.Outcome.{ok}
use external_crd.Rest.Objects.{unstructured}
use external_crd.Rest.Crud.{get}
use external_crd.Rest.Crud.Isolation.{Write, creating, updating, deleting}
use external_crd.Rest.Example.{
  machinery, machinery_laws, backend, stored, frame_laws, create_laws, synced,
}
use external_crd.Rest.Example.Changing.{update_laws, delete_laws}
use external_crd.Rest.Example.Requests.{foos, request, item, request_authorized, foos_moves}
use external_crd.Rest.Tenant.{AllowsAll, changes, objects, after_all}
use external_crd.Rest.Tenant.Refines.{found, tenant_refines, get_refines}

abbrev writes : List (Write Text Text)
writes =
    creating (unstructured item) none []
    ∷ creating (unstructured item) none []
    ∷ updating (codes "x") (λ u. ok (unstructured u)) none []
    ∷ deleting (codes "x") none []
    ∷ deleting (codes "x") none []
    ∷ []

tenant_refines_example :
    AllowsAll
      (objects machinery backend stored foos request (codes "c1") [])
      (changes machinery backend stored foos request
        (codes "c1")
        update_laws.is_dry_run
        delete_laws.is_at_once
        writes
        [])
      (objects machinery backend stored foos request
        (codes "c1")
        (after_all machinery backend foos request writes []))
tenant_refines_example =
    tenant_refines machinery backend stored machinery_laws frame_laws create_laws update_laws
      delete_laws foos request (codes "c1") request_authorized writes [] foos_moves

get_refines_example :
    get machinery backend foos request
      (codes "x")
      []
      (after_all machinery backend foos request writes [])
    ≡ found machinery backend stored foos request (codes "c1") request_authorized (codes "x") (
        objects machinery backend stored foos request
          (codes "c1")
          (after_all machinery backend foos request writes [])
          (codes "x"))
get_refines_example =
    get_refines machinery backend stored foos request (codes "c1") request_authorized (codes "x") []
      (after_all machinery backend foos request writes []) (synced _) is_latest
  where
    is_latest : is_empty (backend.resource_version_of []) ≡ true
    is_latest = unfold is_empty in refl
