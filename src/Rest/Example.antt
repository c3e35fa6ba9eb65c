-- ===== src/Rest/Example.antt =====
-- A small API server: the interfaces of Rest/Objects.antt at concrete functions, on which the theorems
-- about rest.go are tried. An object is the length of its name, its name and its namespace.
pub mod Requests
mod Tests
mod CrudTests
mod LabelTests
mod PoolTests
mod ListTests
mod ListingTests
pub mod Changing
use external_crd.Prelude.{
  ◌≡◌, refl, ap, ◌≢◌, Bool, Bool-cases, true, false, inl, inr, Option, none, some, List, [], ◌∷◌,
  ◌++◌, arith, if◌then◌else◌, length, take, drop, take-append, drop-append,
}
use external_crd.Prelude.Text.{Text, codes, str_eq}
use external_crd.Prelude.Text.Laws.{str_eq_iff, str_eq_refl, str_eq-ne}
use external_crd.Prelude.Maps.{Map, lookup, put, delete, lookup-put, lookup-delete}
use external_crd.Prelude.Outcome.{
  Outcome, ok, ok_injective, err, panic, GroupResource, not_found, already_exists,
}
use external_crd.Rest.Objects.{
  ObjectMeta, RawExtension, KubernetesCrd, KubernetesCrdList, GroupVersionKind, Machinery,
  MachineryLaws, Request, Query, Backend, UnstructuredList,
}
use external_crd.Rest.Crud.Store.{FrameLaws, CreateLaws, IsSynced}

abbrev pub name_of : Text → Text
name_of [] = []
name_of (n ∷ rest) = take n rest

abbrev pub namespace_of : Text → Text
namespace_of [] = []
namespace_of (n ∷ rest) = drop n rest

abbrev pub object : Text → Text → Text
object name namespace = length name ∷ (name ++ namespace)

abbrev pub machinery : Machinery Text
machinery = record {
  new = [];
  get_labels = λ u. none;
  set_labels = λ u m. u;
  get_name = name_of;
  get_namespace = namespace_of;
  set_namespace = λ u n. object (name_of u) n;
  get_annotations = λ u. none;
  set_annotations = λ u a. u;
  set_generation = λ u g. u;
  set_creation_timestamp = λ u t. u;
  set_resource_version = λ u v. u;
  set_uid = λ u i. u;
  set_deletion_grace_period_seconds = λ u g. u;
  set_deletion_timestamp = λ u t. u;
  set_finalizers = λ u fs. u;
  set_group_version_kind = λ u g. u;
  remove_nested_field = λ u path. u;
  marshal_json = ok;
  unmarshal = ok;
  validate_namespace_name = λ n. [];
  group_version_string = λ g v. g ++ (b'/' ∷ v);
  extract_list = λ l. ok l.items;
  accessor_name = λ u. ok (name_of u);
}

pub machinery_laws : MachineryLaws machinery
machinery_laws = record {
  get_namespace-set_namespace = λ u n. drop-append (name_of u) n;
  get_name-set_namespace = λ u n. take-append (name_of u) n;
  set_annotations-keeps = λ a u. (refl, refl, refl);
  set_generation-keeps = λ g u. (refl, refl, refl);
  set_creation_timestamp-keeps = λ t u. (refl, refl, refl);
  set_resource_version-keeps = λ v u. (refl, refl, refl);
  set_uid-keeps = λ i u. (refl, refl, refl);
  set_deletion_grace_period_seconds-keeps = λ g u. (refl, refl, refl);
  set_deletion_timestamp-keeps = λ t u. (refl, refl, refl);
  set_finalizers-keeps = λ fs u. (refl, refl, refl);
  remove_nested_field-keeps = λ field x y z u. (refl, refl, refl);
}

-- The manifests by their names.
abbrev pub Server : Type 0
Server = Map (KubernetesCrd Text)

abbrev manifests_resource : GroupResource
manifests_resource = record { group = codes "crd"; resource = codes "kubernetescrds" }

abbrev pub named : Text → Option (KubernetesCrd Text) → Option (KubernetesCrd Text)
named n none = none
named n (some crd) = some (record crd { meta = record crd.meta { name = n } })

abbrev pub stored : Server → Text → Text → Option (KubernetesCrd Text)
stored s ns n = named n (lookup n s)

abbrev encoded : RawExtension Text → RawExtension Text
encoded e = elim e.object [ none ↦ e | some u ↦ record { raw = u; object = none } ]

abbrev pub accepted : KubernetesCrd Text → KubernetesCrd Text
accepted crd = record crd { manifest = encoded crd.manifest }

abbrev pub found : Text → Option (KubernetesCrd Text) → Outcome (KubernetesCrd Text)
found n none = err (not_found manifests_resource n)
found n (some crd) = ok crd

abbrev pub created :
    KubernetesCrd Text
    → Server
    → Option (KubernetesCrd Text)
    → Outcome (KubernetesCrd Text) × Server
created crd s none = (ok (accepted crd), put crd.meta.name (accepted crd) s)
created crd s (some _) = (err (already_exists manifests_resource crd.meta.name), s)

abbrev pub updated :
    KubernetesCrd Text
    → Server
    → Option (KubernetesCrd Text)
    → Outcome (KubernetesCrd Text) × Server
updated crd s none = (err (not_found manifests_resource crd.meta.name), s)
updated crd s (some _) = (ok (accepted crd), put crd.meta.name (accepted crd) s)

abbrev pub deleted : Text → Server → Option (KubernetesCrd Text) → Outcome (Unit {0}) × Server
deleted n s none = (err (not_found manifests_resource n), s)
deleted n s (some _) = (ok tt, delete n s)

-- The options of a request are a resource version.
abbrev pub backend : Backend Server Text Text
backend = record {
  create = λ ns crd o s. created crd s (lookup crd.meta.name s);
  get = λ ns n o s. found n (stored s ns n);
  update = λ ns crd o s. updated crd s (lookup crd.meta.name s);
  delete = λ ns n o s. deleted n s (lookup n s);
  list = λ ns q s. ok (record { resource_version = []; continue_token = []; items = [] });
  lister_get = λ ns n s. found n (stored s ns n);
  dry_run = λ q s. ok q.body;
  default_options = [];
  resource_version_of = λ o. o;
  versioned_params = λ o. [];
}

put_frame :
    (n j : Text) (crd : KubernetesCrd Text) (s : Server)
    → j ≢ n
    → stored (put n crd s) [] j ≡ stored s [] j
put_frame n j crd s h = rw (lookup-put n j crd s, str_eq-ne n j (λ e. h (cc e))) refl

create_frame_lem :
    (crd : KubernetesCrd Text) (s : Server) (j : Text) (o : Option (KubernetesCrd Text))
    → j ≢ crd.meta.name
    → stored (created crd s o).1 [] j ≡ stored s [] j
create_frame_lem crd s j none h = put_frame crd.meta.name j (accepted crd) s h
create_frame_lem crd s j (some _) h = refl

update_frame_lem :
    (crd : KubernetesCrd Text) (s : Server) (j : Text) (o : Option (KubernetesCrd Text))
    → j ≢ crd.meta.name
    → stored (updated crd s o).1 [] j ≡ stored s [] j
update_frame_lem crd s j none h = refl
update_frame_lem crd s j (some _) h = put_frame crd.meta.name j (accepted crd) s h

delete_frame_lem :
    (n : Text) (s : Server) (j : Text) (o : Option (KubernetesCrd Text))
    → j ≢ n
    → stored (deleted n s o).1 [] j ≡ stored s [] j
delete_frame_lem n s j none h = refl
delete_frame_lem n s j (some _) h = rw (lookup-delete n j s, str_eq-ne n j (λ e. h (cc e))) refl

found_name :
    (n : Text) (o : Option (KubernetesCrd Text)) (crd : KubernetesCrd Text)
    → found n (named n o) ≡ ok crd
    → crd.meta.name ≡ n
found_name n none crd h = absurd (ground arith)
found_name n (some c) crd h = cc

created_taken :
    (crd old : KubernetesCrd Text) (s : Server) (o : Option (KubernetesCrd Text))
    → named crd.meta.name o ≡ some old
    → created crd s o ≡ (err (already_exists manifests_resource crd.meta.name), s)
created_taken crd old s none h = absurd (ground arith)
created_taken crd old s (some c) h = refl

put_stores :
    (crd saved : KubernetesCrd Text) (s s' : Server)
    → accepted crd ≡ saved
    → put crd.meta.name (accepted crd) s ≡ s'
    → (stored s' [] crd.meta.name ≡ some saved) × (saved ≡ accepted crd)
put_stores crd saved s s' e t = (
  rw (← t, lookup-put crd.meta.name crd.meta.name (accepted crd) s, str_eq_refl crd.meta.name)
      (ap some e),
  cc e,
)

created_stores :
    (crd saved : KubernetesCrd Text) (s s' : Server) (o : Option (KubernetesCrd Text))
    → created crd s o ≡ (ok saved, s')
    → (stored s' [] crd.meta.name ≡ some saved) × (saved ≡ accepted crd)
created_stores crd saved s s' none h =
    put_stores crd saved s s' (ok_injective (ap (λ x. x.0) h)) (ap (λ x. x.1) h)
created_stores crd saved s s' (some c) h = absurd (ground arith)

pub updated_stores :
    (crd saved : KubernetesCrd Text) (s s' : Server) (o : Option (KubernetesCrd Text))
    → updated crd s o ≡ (ok saved, s')
    → (stored s' [] crd.meta.name ≡ some saved) × (saved ≡ accepted crd)
updated_stores crd saved s s' none h = absurd (ground arith)
updated_stores crd saved s s' (some c) h =
    put_stores crd saved s s' (ok_injective (ap (λ x. x.0) h)) (ap (λ x. x.1) h)

pub encoded_raw : (e : RawExtension Text) (u : Text) → e.object ≡ some u → (encoded e).raw ≡ u
encoded_raw e u h = rw h refl

found_synced :
    (n : Text) (o : Option (KubernetesCrd Text)) (crd : KubernetesCrd Text)
    → o ≡ some crd
    → found n o ≡ ok crd
found_synced n o crd h = rw h refl

found_missing :
    (n : Text) (o : Option (KubernetesCrd Text))
    → o ≡ none
    → found n o ≡ err (not_found manifests_resource n)
found_missing n o h = rw h refl

pub frame_laws : FrameLaws machinery backend stored
frame_laws = record {
  create_frame = λ ns crd o s n h. create_frame_lem crd s n (lookup crd.meta.name s) h;
  update_frame = λ ns crd o s n h. update_frame_lem crd s n (lookup crd.meta.name s) h;
  delete_frame = λ ns name o s n h. delete_frame_lem name s n (lookup name s) h;
  lister_name = λ ns name s crd h. found_name name (lookup name s) crd h;
}

pub create_laws : CreateLaws machinery backend stored
create_laws = record {
  create_taken =
      λ ns crd old s h. (manifests_resource, created_taken crd old s (lookup crd.meta.name s) h);
  create_stores =
      λ ns crd saved s s' h. (created_stores crd saved s s' (lookup crd.meta.name s) h).0;
  create_encodes = λ ns crd saved s s' u h e.
      rw ((created_stores crd saved s s' (lookup crd.meta.name s) h).1)
        (ap ok (encoded_raw crd.manifest u e));
  create_labelled =
      λ ns crd saved s s' h. rw ((created_stores crd saved s s' (lookup crd.meta.name s) h).1) refl;
}

pub synced : (s : Server) → IsSynced machinery backend stored s
synced s = record {
  present = λ ns name crd h. found_synced name (stored s ns name) crd h;
  absent = λ ns name h. (manifests_resource, found_missing name (stored s ns name) h);
}
