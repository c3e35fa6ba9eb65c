-- ===== src/Handler/Discovery/Listed.antt =====
-- What discovery lists for a definition: `updateCRD` and `removeCRD` of customresource_handler.go.
use external_crd.Prelude.{
  ◌≡◌, refl, ◌⊎◌, Bool, Bool-cases, true, false, not, ◌&&◌, ◌||◌, inl, inr, Option, none, some,
  List, [], ◌∷◌, ◌++◌, arith, keep, if◌then◌else◌,
}
use external_crd.Prelude.Text.{Text, codes, str_eq, has_prefix}
use external_crd.Prelude.Text.Laws.{str_eq_iff}
use external_crd.Utils.Constants.{category}
use external_crd.Handler.Crd.{
  Scope, cluster_scoped, namespace_scoped, Subresources, CrdVersion, Crd, CrdFunctions,
}
use external_crd.Handler.Discovery.{
  ApiResource, Discovery, categorized, update_crd_api_resource, replace_or_append, is_namespaced,
  has_scale, served_version, crd_resource, scale_resource, update_crd, survives, remove_crd,
}
use external_crd.Handler.Discovery.Laws.{
  find, IsUnique, find-replace_or_append, IsUnique-replace_or_append, IsUnique-keep,
}

-- Whether a version's subresources have the scale.
pub data Scales : Option Subresources → Bool → Type 0 where
  unset : Scales none false
  set : (s : Subresources) → Scales (some s) s.scale

-- The first of the versions that is stored and served has the name, and tells about the scale; without
-- one the name is empty, and there is no scale.
pub data Serves : List CrdVersion → Text → Bool → Type 0 where
  nothing : Serves [] [] false
  this :
      {vs : List CrdVersion} {scale : Bool} (v : CrdVersion)
      → v.storage ≡ true
      → v.served ≡ true
      → Scales v.subresources scale
      → Serves (v ∷ vs) v.name scale
  later :
      {vs : List CrdVersion} {name : Text} {scale : Bool} (v : CrdVersion)
      → (v.storage ≡ false) ⊎ (v.served ≡ false)
      → Serves vs name scale
      → Serves (v ∷ vs) name scale

abbrev pub in_namespaces : Scope → Bool
in_namespaces namespace_scoped = true
in_namespaces cluster_scoped = false

-- The entry of a definition, whose served version has the name.
abbrev pub entry : CrdFunctions → Crd → Text → ApiResource
entry f crd version = record {
  name = crd.plural;
  singular_name = crd.singular;
  namespaced = in_namespaces crd.scope;
  group = [];
  version = [];
  kind = crd.kind;
  verbs =
      codes "delete"
      ∷ codes "deletecollection"
      ∷ codes "get"
      ∷ codes "list"
      ∷ codes "patch"
      ∷ codes "create"
      ∷ codes "update"
      ∷ codes "watch"
      ∷ [];
  short_names = crd.short_names;
  categories = category ∷ [];
  storage_version_hash = f.storage_version_hash crd.group version crd.kind;
}

-- The entry of its scale subresource.
abbrev pub scale_entry : CrdFunctions → Crd → ApiResource
scale_entry f crd = record {
  name = crd.plural ++ codes "/scale";
  singular_name = crd.singular;
  namespaced = in_namespaces crd.scope;
  group = f.autoscaling_group;
  version = f.autoscaling_version;
  kind = codes "Scale";
  verbs = codes "get" ∷ codes "patch" ∷ codes "update" ∷ [];
  short_names = crd.short_names;
  categories = category ∷ [];
  storage_version_hash = [];
}

pub in_namespaces_lem : (s : Scope) → is_namespaced s ≡ in_namespaces s
unfolding is_namespaced
in_namespaces_lem cluster_scoped = refl
in_namespaces_lem namespace_scoped = refl

has_scale_lem : {o : Option Subresources} {scale : Bool} → Scales o scale → has_scale o ≡ scale
has_scale_lem unset = refl
has_scale_lem (set s) = refl

served_version_lem :
    {vs : List CrdVersion} {name : Text} {scale : Bool}
    → Serves vs name scale
    → served_version vs ≡ (name, scale)
unfolding served_version
served_version_lem nothing = refl
served_version_lem (this v stored served scales) = rw (stored, served, has_scale_lem scales) refl
served_version_lem (later v (inl denied) rest) = rw denied (served_version_lem rest)
served_version_lem (later v (inr denied) rest) = ground (arith, served_version_lem rest)

own_entry :
    (f : CrdFunctions) (crd : Crd) (version : Text) (scale : Bool)
    → Serves crd.versions version scale
    → categorized (crd_resource f crd) ≡ entry f crd version
unfolding crd_resource
own_entry f crd version scale h = rw (in_namespaces_lem crd.scope, served_version_lem h) refl

own_scale_entry :
    (f : CrdFunctions) (crd : Crd) → categorized (scale_resource f crd) ≡ scale_entry f crd
unfolding scale_resource crd_resource codes
own_scale_entry f crd = rw (in_namespaces_lem crd.scope) refl

-- After a definition is added, discovery lists under the name of its scale subresource an entry
-- for that subresource if the first version that is stored and served has one, under its plural
-- name an entry with its names, its scope, its kind, all eight verbs and the hash of that version,
-- and under any other name what it listed before.
pub find-update_crd :
    (f : CrdFunctions) (h : Discovery) (crd : Crd) (n version : Text) (scale : Bool)
    → Serves crd.versions version scale
    → find n (update_crd f h crd).crd_api_resources ≡ (
        if scale && str_eq (crd.plural ++ codes "/scale") n
        then some (scale_entry f crd)
        else if str_eq crd.plural n
        then some (entry f crd version)
        else find n h.crd_api_resources)
unfolding update_crd update_crd_api_resource
find-update_crd f h crd n version scale serves =
    let own = entry f crd version in
    let sub = scale_entry f crd in
    rw (served_version_lem serves, own_entry f crd version scale serves, own_scale_entry f crd)
      (elim (Bool-cases scale) [
        | inl e ↦ rw (e, find-replace_or_append sub n, find-replace_or_append own n)
        | inr e ↦ rw (e, find-replace_or_append own n)
      ])

-- A name that the removal of a definition takes: its plural, or a subresource's.
abbrev pub is_taken : Text → Text → Bool
is_taken plural n = str_eq n plural || has_prefix n (plural ++ codes "/")

survives-taken :
    (plural n : Text) (x : ApiResource)
    → str_eq x.name n ≡ true
    → survives plural x ≡ not (is_taken plural n)
unfolding survives codes
survives-taken plural n x e =
    rw (← (str_eq_iff x.name n).0 e)
      (not_or (str_eq x.name plural) (has_prefix x.name (plural ++ b'/' ∷ [])))
  where
    not_or : (a b : Bool) → (not a && not b) ≡ not (a || b)
    not_or true b = refl
    not_or false b = refl

find-keep :
    (plural n : Text) (xs : List ApiResource)
    → find n (keep (survives plural) xs) ≡ (if is_taken plural n then none else find n xs)
unfolding find keep survives codes
find-keep plural n [] = ground arith
find-keep plural n (x ∷ xs) = ground (arith, find-keep plural n xs, survives-taken plural n x)

-- If no two resources of the definitions have one name, then that holds after a definition is
-- added and after it is removed; and after the removal discovery lists nothing under its plural
-- name and under every name of a subresource of it, and under any other name what it listed
-- before.
pub discovery_keeps_names :
    (f : CrdFunctions) (h : Discovery) (crd : Crd) (n : Text)
    → IsUnique h.crd_api_resources
    → IsUnique (update_crd f h crd).crd_api_resources
      × IsUnique (remove_crd h crd).crd_api_resources
      × (find n (remove_crd h crd).crd_api_resources
          ≡ (if is_taken crd.plural n then none else find n h.crd_api_resources))
unfolding remove_crd update_crd update_crd_api_resource
discovery_keeps_names f h crd n u =
    let own = categorized (crd_resource f crd) in
    let scale = categorized (scale_resource f crd) in
    let added = IsUnique-replace_or_append own h.crd_api_resources u in
    (
      elim (Bool-cases (served_version crd.versions).1) [
        | inl e ↦
            rw e
              (IsUnique-replace_or_append scale (replace_or_append own h.crd_api_resources) added)
        | inr e ↦ rw e added
      ],
      IsUnique-keep (survives crd.plural) h.crd_api_resources u,
      find-keep crd.plural n h.crd_api_resources,
    )
