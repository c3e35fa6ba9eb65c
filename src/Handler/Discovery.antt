-- ===== src/Handler/Discovery.antt =====
-- `versionDiscoveryHandler` of customresource_handler.go: the API resources that discovery lists. Its
-- lock makes each method one step.
pub mod Laws
pub mod Listed
use external_crd.Prelude.{
  Bool, true, false, not, ◌&&◌, ◌||◌, Option, none, some, List, [], ◌∷◌, ◌++◌, keep, if◌then◌else◌,
}
use external_crd.Prelude.Text.{Text, codes, str_eq, has_prefix}
use external_crd.Utils.Constants.{category}
use external_crd.Handler.Crd.{
  Scope, cluster_scoped, namespace_scoped, Subresources, CrdVersion, Crd, CrdFunctions,
}

-- metav1.APIResource
pub record ApiResource : Type 0 where
  pub name : Text
  pub singular_name : Text
  pub namespaced : Bool
  pub group : Text
  pub version : Text
  pub kind : Text
  pub verbs : List Text
  pub short_names : List Text
  pub categories : List Text
  pub storage_version_hash : Text

-- versionDiscoveryHandler
pub record Discovery : Type 0 where
  pub non_crd_api_resources : List ApiResource
  pub crd_api_resources : List ApiResource

-- newVersionDiscoveryHandler
unfoldable pub new_discovery : List ApiResource → Discovery
new_discovery non_crd = record { non_crd_api_resources = non_crd; crd_api_resources = [] }

-- The first resource of the same name is replaced; if there is none the resource goes to the end.
unfoldable pub replace_or_append : ApiResource → List ApiResource → List ApiResource
replace_or_append a [] = a ∷ []
replace_or_append a (x ∷ xs) = if str_eq x.name a.name then a ∷ xs else x ∷ replace_or_append a xs

abbrev pub categorized : ApiResource → ApiResource
categorized a = record a { categories = category ∷ [] }

unfoldable pub update_crd_api_resource : Discovery → ApiResource → Discovery
update_crd_api_resource h a = record h {
  crd_api_resources = replace_or_append (categorized a) h.crd_api_resources;
}

-- scope == apiextensionsv1.NamespaceScoped
unfoldable pub is_namespaced : Scope → Bool
is_namespaced cluster_scoped = false
is_namespaced namespace_scoped = true

-- version.Subresources != nil && version.Subresources.Scale != nil
abbrev has_scale : Option Subresources → Bool
has_scale none = false
has_scale (some s) = s.scale

-- The name of the first version that is stored and served, and whether it has the scale subresource;
-- their zero values if there is none.
unfoldable pub served_version : List CrdVersion → Text × Bool
served_version [] = ([], false)
served_version (v ∷ vs) =
    if v.storage && v.served then (v.name, has_scale v.subresources) else served_version vs

abbrev all_verbs : List Text
all_verbs =
    codes "delete"
    ∷ codes "deletecollection"
    ∷ codes "get"
    ∷ codes "list"
    ∷ codes "patch"
    ∷ codes "create"
    ∷ codes "update"
    ∷ codes "watch"
    ∷ []

unfoldable pub crd_resource : CrdFunctions → Crd → ApiResource
crd_resource f crd = record {
  name = crd.plural;
  singular_name = crd.singular;
  namespaced = is_namespaced crd.scope;
  group = [];
  version = [];
  kind = crd.kind;
  verbs = all_verbs;
  short_names = crd.short_names;
  categories = [];
  storage_version_hash = f.storage_version_hash crd.group (served_version crd.versions).0 crd.kind;
}

-- fmt.Sprintf("%s/scale", apiResource.Name)
abbrev pub scale_name : Text → Text
scale_name plural = plural ++ (b'/' ∷ codes "scale")

unfoldable pub scale_resource : CrdFunctions → Crd → ApiResource
scale_resource f crd = record (crd_resource f crd) {
  name = scale_name crd.plural;
  group = f.autoscaling_group;
  version = f.autoscaling_version;
  kind = codes "Scale";
  verbs = codes "get" ∷ codes "patch" ∷ codes "update" ∷ [];
  storage_version_hash = [];
}

unfoldable pub update_crd : CrdFunctions → Discovery → Crd → Discovery
update_crd f h crd =
    let updated = update_crd_api_resource h (crd_resource f crd) in
    if (served_version crd.versions).1
    then update_crd_api_resource updated (scale_resource f crd)
    else updated

-- A resource stays if it is neither the definition's own nor one of its subresources.
unfoldable pub survives : Text → ApiResource → Bool
survives plural a = not (str_eq a.name plural) && not (has_prefix a.name (plural ++ b'/' ∷ []))

unfoldable pub remove_crd : Discovery → Crd → Discovery
remove_crd h crd = record h { crd_api_resources = keep (survives crd.plural) h.crd_api_resources }

unfoldable pub list_api_resources : Discovery → List ApiResource
list_api_resources h = h.non_crd_api_resources ++ h.crd_api_resources
