-- ===== src/Rest/Objects.antt =====
-- The objects that the REST storage handles (pkg/apis/kcrd/v1alpha1/kubernetescrd_types.go and the
-- structs of rest.go), and the interfaces of what it calls: k8s.io/apimachinery, the typed client
-- and the lister of KubernetesCrd, and the REST client of the dry run.
use external_crd.Prelude.{ℕ, ◌≡◌, ◌≢◌, Bool, Option, List, [], ◌∷◌}
use external_crd.Prelude.Text.{Text, codes}
use external_crd.Prelude.Maps.{Map}
use external_crd.Prelude.Int.{ℤ}
use external_crd.Prelude.Outcome.{Outcome, Exec}

-- What the program copies of metav1.ObjectMeta. `labels` is `none` for a nil map; times and uids are
-- only copied, and stand as texts.
pub record ObjectMeta : Type 0 where
  pub name : Text
  pub namespace : Text
  pub labels : Option (Map Text)
  pub generation : ℤ
  pub creation_timestamp : Text
  pub resource_version : Text
  pub uid : Text
  pub deletion_grace_period_seconds : Option ℤ
  pub deletion_timestamp : Option Text
  pub finalizers : List Text

-- runtime.RawExtension: the bytes, and the object that was set
pub record RawExtension (U : Type 0) : Type 0 where
  pub raw : Text
  pub object : Option U

-- KubernetesCrd
pub record KubernetesCrd (U : Type 0) : Type 0 where
  pub meta : ObjectMeta
  pub manifest : RawExtension U

-- KubernetesCrdList, of whose ListMeta the program reads two fields
pub record KubernetesCrdList (U : Type 0) : Type 0 where
  pub resource_version : Text
  pub continue_token : Text
  pub items : List (KubernetesCrd U)

-- schema.GroupVersionKind
pub record GroupVersionKind : Type 0 where
  pub group : Text
  pub version : Text
  pub kind : Text

-- A runtime.Object: an *unstructured.Unstructured, or a value of another type, by its name.
pub data RuntimeObject (U : Type 0) : Type 0 where
  unstructured : U → RuntimeObject U
  foreign : Text → RuntimeObject U

-- unstructured.UnstructuredList
pub record UnstructuredList (U : Type 0) : Type 0 where
  pub api_version : Text
  pub kind : Text
  pub resource_version : Text
  pub continue_token : Text
  pub items : List U

-- What rest.go calls of k8s.io/apimachinery, for `U` the type unstructured.Unstructured.
pub record Machinery (U : Type 0) : Type 0 where
  pub new : U
  pub get_labels : U → Option (Map Text)
  pub set_labels : U → Map Text → U
  pub get_name : U → Text
  pub get_namespace : U → Text
  pub set_namespace : U → Text → U
  pub get_annotations : U → Option (Map Text)
  pub set_annotations : U → Option (Map Text) → U
  pub set_generation : U → ℤ → U
  pub set_creation_timestamp : U → Text → U
  pub set_resource_version : U → Text → U
  pub set_uid : U → Text → U
  pub set_deletion_grace_period_seconds : U → Option ℤ → U
  pub set_deletion_timestamp : U → Option Text → U
  pub set_finalizers : U → List Text → U
  pub set_group_version_kind : U → GroupVersionKind → U
  pub remove_nested_field : U → List Text → U
  pub marshal_json : U → Outcome Text
  pub unmarshal : Text → Outcome U
  pub validate_namespace_name : Text → List Text
  pub group_version_string : Text → Text → Text
  pub extract_list : UnstructuredList U → Outcome (List U)
  pub accessor_name : U → Outcome Text

-- A call that leaves the name, the namespace and the labels of an object as they were.
abbrev pub KeepsIdentity : {U : Type 0} → Machinery U → (U → U) → Type 0
KeepsIdentity {U} k f =
    (u : U)
    → (k.get_name (f u) ≡ k.get_name u)
      × (k.get_namespace (f u) ≡ k.get_namespace u)
      × (k.get_labels (f u) ≡ k.get_labels u)

-- The documented behaviour of the accessors: each setter writes its own field and no other.
pub record MachineryLaws {U : Type 0} (k : Machinery U) : Type 0 where
  pub get_namespace-set_namespace : (u : U) (n : Text) → k.get_namespace (k.set_namespace u n) ≡ n
  pub get_name-set_namespace : (u : U) (n : Text) → k.get_name (k.set_namespace u n) ≡ k.get_name u
  pub set_annotations-keeps : (a : Option (Map Text)) → KeepsIdentity k (λ u. k.set_annotations u a)
  pub set_generation-keeps : (g : ℤ) → KeepsIdentity k (λ u. k.set_generation u g)
  pub set_creation_timestamp-keeps :
      (t : Text) → KeepsIdentity k (λ u. k.set_creation_timestamp u t)
  pub set_resource_version-keeps : (v : Text) → KeepsIdentity k (λ u. k.set_resource_version u v)
  pub set_uid-keeps : (i : Text) → KeepsIdentity k (λ u. k.set_uid u i)
  pub set_deletion_grace_period_seconds-keeps :
      (g : Option ℤ) → KeepsIdentity k (λ u. k.set_deletion_grace_period_seconds u g)
  pub set_deletion_timestamp-keeps :
      (t : Option Text) → KeepsIdentity k (λ u. k.set_deletion_timestamp u t)
  pub set_finalizers-keeps : (f : List Text) → KeepsIdentity k (λ u. k.set_finalizers u f)
  pub remove_nested_field-keeps :
      (field : Text)
      → field ≢ codes "name"
      → field ≢ codes "namespace"
      → field ≢ codes "labels"
      → KeepsIdentity k (λ u. k.remove_nested_field u (codes "metadata" ∷ field ∷ []))

-- The request that `dryRunCreate` builds: the path prefix, the namespace if it was set, the
-- resource, the query parameters and the body of a POST.
pub record Request : Type 0 where
  pub prefix : List Text
  pub namespace : Option Text
  pub resource : Text
  pub params : List (Text × Text)
  pub body : Text

-- internalversion.ListOptions and metav1.ListOptions, but for their selectors.
pub record ListParams : Type 0 where
  pub watch : Bool
  pub allow_watch_bookmarks : Bool
  pub resource_version : Text
  pub resource_version_match : Text
  pub timeout_seconds : Option ℤ
  pub limit : ℤ
  pub continue_token : Text

-- metav1.ListOptions: the selectors as texts
pub record Query : Type 0 where
  pub label_selector : Text
  pub field_selector : Text
  pub params : ListParams

-- The API server as `REST` sees it, over a state `S`: kcrdClient's calls, the lister's cache, and the
-- dry run, which by its parameter changes nothing. `O` is the type of the options of a request,
-- which are passed on.
pub record Backend (S U O : Type 0) : Type 0 where
  pub create : Text → KubernetesCrd U → O → Exec S (KubernetesCrd U)
  pub get : Text → Text → O → S → Outcome (KubernetesCrd U)
  pub update : Text → KubernetesCrd U → O → Exec S (KubernetesCrd U)
  pub delete : Text → Text → O → Exec S (Unit {0})
  pub list : Text → Query → S → Outcome (KubernetesCrdList U)
  pub lister_get : Text → Text → S → Outcome (KubernetesCrd U)
  pub dry_run : Request → S → Outcome U
  pub default_options : O
  pub resource_version_of : O → Text
  pub versioned_params : O → List (Text × Text)

-- REST, without the clients and the codec
pub record Rest : Type 0 where
  pub name : Text
  pub short_names : List Text
  pub namespaced : Bool
  pub kind : Text
  pub group : Text
  pub version : Text
  pub delete_collection_workers : ℕ
  pub reserved_namespace : Text
