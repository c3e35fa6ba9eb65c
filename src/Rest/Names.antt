-- ===== src/Rest/Names.antt =====
-- The names of rest.go: of the resource, of the manifest that stores an object, of the kinds; the
-- setters and the constructor of `REST`.
pub mod Laws
use external_crd.Prelude.{ℕ, Bool, false, List, [], ◌∷◌, ◌++◌, if◌then◌else◌}
use external_crd.Prelude.Text.{Text, codes, contains_byte, split_first}
use external_crd.Utils.Constants.{category}
use external_crd.Rest.Objects.{Rest, GroupVersionKind, Machinery, UnstructuredList}

-- DefaultDeleteCollectionWorkers
abbrev pub default_delete_collection_workers : ℕ
default_delete_collection_workers = 2

-- NewREST: a `REST` with no resource yet
abbrev pub new_rest : Text → Rest
new_rest reserved_namespace = record {
  name = [];
  short_names = [];
  namespaced = false;
  kind = [];
  group = [];
  version = [];
  delete_collection_workers = default_delete_collection_workers;
  reserved_namespace = reserved_namespace;
}

-- SetShortNames, SetName, SetNamespaceScoped, SetGroup, SetVersion, SetKind
abbrev pub set_short_names : Rest → List Text → Rest
set_short_names r short_names = record r { short_names = short_names }

abbrev pub set_name : Rest → Text → Rest
set_name r name = record r { name = name }

abbrev pub set_namespace_scoped : Rest → Bool → Rest
set_namespace_scoped r namespaced = record r { namespaced = namespaced }

abbrev pub set_group : Rest → Text → Rest
set_group r group = record r { group = group }

abbrev pub set_version : Rest → Text → Rest
set_version r version = record r { version = version }

abbrev pub set_kind : Rest → Text → Rest
set_kind r kind = record r { kind = kind }

-- ShortNames, NamespaceScoped
pub short_names_of : Rest → List Text
short_names_of r = r.short_names

pub namespace_scoped : Rest → Bool
namespace_scoped r = r.namespaced

-- GroupVersion, as the pair of the group and the version
pub group_version : Rest → Text × Text
group_version r = (r.group, r.version)

-- Categories
pub categories : Rest → List Text
categories r = category ∷ []

-- resources[1]; the name has a second part where this is called
second_part : List Text → Text
second_part [] = []
second_part (s ∷ _) = s

-- The resource, and the subresource, empty if the name has none.
unfoldable pub get_resource_name : Rest → Text × Text
unfolding second_part
get_resource_name r =
    if contains_byte b'/' r.name
    then (let (first, rest) = split_first b'/' r.name in (first, second_part rest))
    else (r.name, [])

-- fmt.Sprintf("%s.%s.%s.%s", resource, clusterid, namespace, name)
unfoldable pub get_normalized_manifest_name : Rest → Text → Text → Text → Text
get_normalized_manifest_name r cluster namespace name =
    (get_resource_name r).0 ++ (b'.' ∷ (cluster ++ (b'.' ∷ (namespace ++ (b'.' ∷ name)))))

pub get_list_kind : Rest → Text
get_list_kind r = if contains_byte b'/' r.name then r.kind else r.kind ++ codes "List"

-- GroupVersionKind, which keeps the original group and version
unfoldable pub group_version_kind : Rest → GroupVersionKind
group_version_kind r = record { group = r.group; version = r.version; kind = r.kind }

module _ {U : Type 0} (k : Machinery U) where
  -- New
  pub new_object : Rest → U
  new_object r = k.set_group_version_kind k.new (group_version_kind r)

  -- NewList: the kind "meta.k8s.io/v1 List", which `List` replaces
  pub new_list : Rest → UnstructuredList U
  new_list r = record {
    api_version = k.group_version_string (codes "meta.k8s.io") (codes "v1");
    kind = codes "List";
    resource_version = [];
    continue_token = [];
    items = [];
  }
