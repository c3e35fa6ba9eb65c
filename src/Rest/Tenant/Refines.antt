-- ===== src/Rest/Tenant/Refines.antt =====
-- The writes of rest.go do to the objects of their caller what their answers say.
use external_crd.Prelude.{◌≡◌, refl, true, Option, none, some, List, [], ◌∷◌}
use external_crd.Prelude.Text.{Text, is_empty}
use external_crd.Prelude.Outcome.{Outcome, then_do, not_found, ok, err}
use external_crd.Rest.User.{Context, get_user}
use external_crd.Rest.Objects.{Rest, Machinery, MachineryLaws, Backend, KubernetesCrd}
use external_crd.Rest.Manifest.{transform_manifest}
use external_crd.Rest.DryRun.{moves_namespace}
use external_crd.Rest.Crud.{get, group_resource, read_error, map_error, manifest_name}
use external_crd.Rest.Crud.Store.{FrameLaws, CreateLaws, UpdateLaws, DeleteLaws, IsSynced}
use external_crd.Rest.Crud.Isolation.{Write, creating, updating, deleting, after}
use external_crd.Rest.Tenant.{
  read_back, View, Allows, AllowsAll, change, after_all, changes, objects,
}
use external_crd.Rest.Tenant.Views.{view}
use external_crd.Rest.Tenant.Created.{create_refines}
use external_crd.Rest.Tenant.Changed.{delete_refines, update_refines}

module _ {S U O : Type 0} (k : Machinery U) (b : Backend S U O)
    (stored : S → Text → Text → Option (KubernetesCrd U)) (machinery : MachineryLaws k)
    (frames : FrameLaws k b stored) (creates : CreateLaws k b stored)
    (updates : UpdateLaws k b stored) (deletes : DeleteLaws k b stored) (r : Rest) (ctx : Context)
    (cluster : Text) (caller : get_user ctx ≡ ok cluster) where
  abbrev here : S → View U
  here = view k b stored r ctx cluster

  after_refines :
      (w : Write U O) (s : S)
      → moves_namespace r ≡ true
      → Allows
          (here s)
          (change k b stored r ctx cluster updates.is_dry_run deletes.is_at_once w s)
          (here (after k b r ctx w s))
  after_refines (creating obj v o) s moves =
      create_refines k b stored machinery frames creates r ctx cluster caller obj v o s moves
  after_refines (updating name f v o) s moves =
      update_refines k b stored machinery frames r ctx cluster caller updates deletes.is_at_once
        name f v o s
  after_refines (deleting name v o) s moves =
      delete_refines k b stored machinery frames r ctx cluster caller deletes updates.is_dry_run
        name v o s

  -- For a namespaced resource that is not of kind Namespace and a caller whom `getUser` lets
  -- through for a cluster, any list of creates, updates and deletes does to the caller's objects,
  -- a map by name, what the specification allows for their answers: a create that succeeds is of a
  -- free name and puts the object that it returns there; an update that succeeds is of a name that
  -- is there and puts the object that it returns there, or changes nothing if its options ask for
  -- a dry run, or touches no other name if its object is being deleted; a delete that succeeds is
  -- of a name that is there, and removes its object if its options ask for that at once and the
  -- manifest has no finalizers, or else touches no other name; and a write that is not answered
  -- with success touches the object of one name at most, given the documented behaviour of the
  -- accessors and of the server.
  pub tenant_refines :
      (ws : List (Write U O)) (s : S)
      → moves_namespace r ≡ true
      → AllowsAll
          (objects k b stored r ctx cluster s)
          (changes k b stored r ctx cluster updates.is_dry_run deletes.is_at_once ws s)
          (objects k b stored r ctx cluster (after_all k b r ctx ws s))
  tenant_refines [] s moves = refl
  tenant_refines (w ∷ ws) s moves =
      (_, after_refines w s moves, tenant_refines ws (after k b r ctx w s) moves)

module _ {S U O : Type 0} (k : Machinery U) (b : Backend S U O)
    (stored : S → Text → Text → Option (KubernetesCrd U)) (r : Rest) (ctx : Context)
    (cluster : Text) (caller : get_user ctx ≡ ok cluster) where
  -- What the specification makes of a read.
  abbrev pub found : Text → Option (Outcome U) → Outcome U
  found name none = err (not_found (group_resource r) name)
  found name (some x) = x

  get_found :
      (name : Text) (o : O) (s : S)
      → IsSynced k b stored s
      → (q : Option (KubernetesCrd U))
      → stored s r.reserved_namespace (manifest_name k b r ctx cluster name) ≡ q
      → then_do
          (map_error
            (read_error r name)
            (b.lister_get r.reserved_namespace (manifest_name k b r ctx cluster name) s))
          (transform_manifest k)
        ≡ found name (read_back k b stored r ctx cluster q)
  get_found name o s synced none e =
      let (g, missing) = synced.absent r.reserved_namespace _ e in rw missing refl
  get_found name o s synced (some crd) e = rw (synced.present r.reserved_namespace _ crd e) refl

  -- `Get` by a caller whom `getUser` lets through for a cluster, without a resource version,
  -- answers once the lister has caught up with the object that the map of the caller's objects has
  -- under the name, or with NotFound for the resource and the name if it has none.
  pub get_refines :
      (name : Text) (o : O) (s : S)
      → IsSynced k b stored s
      → is_empty (b.resource_version_of o) ≡ true
      → get k b r ctx name o s ≡ found name (objects k b stored r ctx cluster s name)
  unfolding get
  get_refines name o s synced latest = rw (caller, latest) (get_found name o s synced _ refl)
