-- ===== src/Rest/Crud.antt =====
-- `Create`, `Get`, `Update` and `Delete` of pkg/apiserver/overlay/rest.go, as actions on the API
-- server's state.
pub mod Store
pub mod ReadWrite
pub mod Rewrite
pub mod Frame
pub mod Labelled
pub mod Isolation
use external_crd.Prelude.{◌≡◌, Bool, true, false, Option, none, some, List, [], if◌then◌else◌}
use external_crd.Prelude.Text.{Text, codes, is_empty}
use external_crd.Prelude.Int.{pos}
use external_crd.Prelude.Outcome.{
  GroupResource, ApiError, already_exists, not_found, internal, method_not_supported, Outcome, ok,
  err, panic, then_do, Exec, pure, raise, lift, reads, ◌>>=◌,
}
use external_crd.Rest.User.{Context, get_user}
use external_crd.Rest.Objects.{
  Rest, Machinery, Backend, RuntimeObject, unstructured, foreign, ObjectMeta, RawExtension,
  KubernetesCrd,
}
use external_crd.Rest.Names.{get_resource_name, get_normalized_manifest_name}
use external_crd.Rest.Manifest.{create_labels, update_labels, trim_result, transform_manifest}
use external_crd.Rest.DryRun.{dry_run_create}

-- schema.GroupResource{Group: r.group, Resource: r.name}
abbrev pub group_resource : Rest → GroupResource
group_resource r = record { group = r.group; resource = r.name }

-- The error of the client's Create, by errors.IsAlreadyExists.
abbrev pub create_error : Rest → Text → ApiError → ApiError
create_error r name (already_exists _ _) = already_exists (group_resource r) name
create_error r name e = e

-- The error of a read, by errors.IsNotFound.
abbrev pub read_error : Rest → Text → ApiError → ApiError
read_error r name (not_found _ _) = not_found (group_resource r) name
read_error r name e = internal e

-- The error of the client's Delete, by errors.IsNotFound.
abbrev pub delete_error : Rest → Text → ApiError → ApiError
delete_error r name (not_found _ _) = not_found (group_resource r) name
delete_error r name e = e

abbrev pub map_error {ℓ} : {A : Type ℓ} → (ApiError → ApiError) → Outcome A → Outcome A
map_error f (ok a) = ok a
map_error f (err e) = err (f e)
map_error f panic = panic

pub map_error-eq-ok {ℓ} :
    {A : Type ℓ} (f : ApiError → ApiError) (r : Outcome A) (a : A) → map_error f r ≡ ok a → r ≡ ok a
map_error-eq-ok f (ok x) a h = h
map_error-eq-ok f (err e) a h = cc
map_error-eq-ok f panic a h = cc

-- An action whose error is mapped.
abbrev pub mapping {ℓ} : {S A : Type ℓ} → (ApiError → ApiError) → Exec S A → Exec S A
mapping f m s = let (r, s') = m s in (map_error f r, s')

-- The ObjectMeta of a composite literal: what is not named has its zero value.
abbrev new_meta : Text → Text → Option (List (Text × Text)) → ObjectMeta
new_meta name namespace labels = record {
  name = name;
  namespace = namespace;
  labels = labels;
  generation = pos 0;
  creation_timestamp = [];
  resource_version = [];
  uid = [];
  deletion_grace_period_seconds = none;
  deletion_timestamp = none;
  finalizers = [];
}

-- What `Update` returns beside its error: the object, and whether it was created.
abbrev pub Updated : Type 0 → Type 0
Updated U = Outcome U × Bool

-- err != nil
abbrev pub is_error {ℓ} : {A : Type ℓ} → Outcome A → Bool
is_error (ok _) = false
is_error _ = true

module _ {S U O : Type 0} (k : Machinery U) (b : Backend S U O) (r : Rest) (ctx : Context) where
  -- The manifest that `Create` stores.
  unfoldable pub created_manifest : Text → U → KubernetesCrd U
  created_manifest cluster actual =
      let name = k.get_name actual in
      let namespace = k.get_namespace actual in
      record {
        meta =
            new_meta (get_normalized_manifest_name r cluster namespace name) r.reserved_namespace
              (some (create_labels r cluster name namespace (k.get_labels actual)));
        manifest = record { raw = []; object = some actual };
      }

  -- The second half of `Create`: to store the manifest, and to return it as an object.
  unfoldable pub store_created : Text → U → Exec S U
  store_created cluster actual = do
    saved ←
        mapping (create_error r (k.get_name actual))
          (b.create r.reserved_namespace (created_manifest cluster actual) b.default_options)
    lift (transform_manifest k saved)

  -- Create; the validation function is not called
  unfoldable pub create : RuntimeObject U → Option (U → Outcome (Unit {0})) → O → Exec S U
  create obj create_validation options = do
    cluster ← lift (get_user ctx)
    actual ← reads (dry_run_create k b r ctx obj options)
    store_created cluster actual

  -- The name of the manifest that a request names.
  abbrev pub manifest_name : Text → Text → Text
  manifest_name cluster name = get_normalized_manifest_name r cluster ctx.namespace name

  -- Get: from the lister, or from the server if a resource version is given
  unfoldable pub get : Text → O → S → Outcome U
  get name options s = then_do (get_user ctx) λ cluster.
      then_do
        (map_error (read_error r name) (
          if is_empty (b.resource_version_of options)
          then b.lister_get r.reserved_namespace (manifest_name cluster name) s
          else b.get r.reserved_namespace (manifest_name cluster name) options s))
        (transform_manifest k)

  abbrev unmarshalled : Outcome U → Outcome U
  unmarshalled r = map_error internal r

  -- newObj.(*unstructured.Unstructured), which panics at another type
  abbrev as_unstructured : RuntimeObject U → Outcome U
  as_unstructured (unstructured u) = ok u
  as_unstructured (foreign _) = panic

  -- The validation runs on copies, if there is one.
  abbrev validated :
      Option (RuntimeObject U → U → Outcome (Unit {0})) → RuntimeObject U → U → Outcome (Unit {0})
  validated none new old = ok tt
  validated (some validate) new old = validate new old

  -- The manifest that `Update` stores in place of `manifest`.
  unfoldable pub updated_manifest : Text → U → KubernetesCrd U → KubernetesCrd U
  updated_manifest cluster result manifest = record {
    meta = record (manifest.meta) {
      labels = some (
          update_labels r cluster (k.get_name result) (k.get_namespace result) (k.get_labels result)
            manifest.meta.labels);
    };
    manifest = record { raw = []; object = some result };
  }

  -- The manifest that the lister has for the name of an update.
  abbrev pub current_manifest : Text → Text → S → Outcome (KubernetesCrd U)
  current_manifest cluster name s =
      map_error (read_error r name)
        (b.lister_get r.reserved_namespace (manifest_name cluster name) s)

  -- The new object, made from the old one that the manifest holds, and validated.
  unfoldable pub updated_result :
      (U → Outcome (RuntimeObject U))
      → Option (RuntimeObject U → U → Outcome (Unit {0}))
      → KubernetesCrd U
      → Outcome U
  updated_result updated_object update_validation manifest =
      then_do (unmarshalled (k.unmarshal manifest.manifest.raw)) λ old.
        then_do (updated_object old)
          λ new. then_do (validated update_validation new old) λ _. as_unstructured new

  -- The body of `Update`, up to the call that saves the updates.
  unfoldable pub save_update :
      Text
      → (U → Outcome (RuntimeObject U))
      → Option (RuntimeObject U → U → Outcome (Unit {0}))
      → O
      → Exec S (KubernetesCrd U)
  save_update name updated_object update_validation options = do
    cluster ← lift (get_user ctx)
    manifest ← reads (current_manifest cluster name)
    u ← lift (updated_result updated_object update_validation manifest)
    b.update r.reserved_namespace (updated_manifest cluster (trim_result k u) manifest) options

  -- return result, err != nil, err
  abbrev pub report : Outcome (KubernetesCrd U) → Updated U
  report (ok crd) = let result = transform_manifest k crd in (result, is_error result)
  report (err e) = (err e, false)
  report panic = (panic, false)

  -- Update: a subresource is refused
  unfoldable pub update :
      Text
      → (U → Outcome (RuntimeObject U))
      → Option (RuntimeObject U → U → Outcome (Unit {0}))
      → O
      → S
      → Updated U × S
  update name updated_object update_validation options s =
      if is_empty (get_resource_name r).1
      then (let (saved, s') = save_update name updated_object update_validation options s in
          (report saved, s'))
      else ((err (method_not_supported (group_resource r) []), false), s)

  -- Delete; its Boolean result is whether there was no error, and the validation is not called
  unfoldable pub delete : Text → Option (U → Outcome (Unit {0})) → O → Exec S (Unit {0})
  delete name delete_validation options = do
    cluster ← lift (get_user ctx)
    mapping (delete_error r name)
        (b.delete r.reserved_namespace (manifest_name cluster name) options)
