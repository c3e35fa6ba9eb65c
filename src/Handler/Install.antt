-- ===== src/Handler/Install.antt =====
-- `InstallOverlayAPIGroups` of pkg/apiserver/overlay/apiserver.go: the storage of namespaces, which is
-- served beside the definitions, in a group info for `installAPIGroups`.
pub mod Tests
use external_crd.Prelude.{
  ◌≡◌, refl, ◌∙◌, ap, Bool, Bool-cases, true, false, ◌&&◌, ◌||◌, inl, inr, ◌⊎◌, Option, none, some,
  List, [], ◌∷◌, arith, if◌then◌else◌,
}
use external_crd.Prelude.Text.{Text, codes, str_eq}
use external_crd.Prelude.Maps.{Map}
use external_crd.Prelude.Int.{ℤ}
use external_crd.Prelude.Outcome.{Outcome, ok, err, panic, then_do}
use external_crd.Rest.Objects.{Rest, GroupVersionKind}
use external_crd.Rest.Names.{
  new_rest, set_namespace_scoped, set_name, set_short_names, set_kind, set_group, set_version,
}
use external_crd.Handler.Discovery.{ApiResource}
use external_crd.Handler.State.{overlay_group, overlay_version}
use external_crd.Utils.ApiResource.{ApiGroupResources, collect, normalize_api_group_resources}
use external_crd.Utils.ApiResource.Picks.{has_name, normalize_api_group_resources_names}

abbrev pub namespaces : Text
namespaces = codes "namespaces"

-- The inner loop, for the resources of the core group: up to the first of the name.
unfoldable pub first_namespaces : List ApiResource → Option ApiResource
first_namespaces [] = none
first_namespaces (a ∷ rest) = if str_eq a.name namespaces then some a else first_namespaces rest

-- The outer loop: up to the first group that sets `nsRESTSet`.
unfoldable pub namespaces_resource : (Text → Text → ℤ) → List ApiGroupResources → Option ApiResource
namespaces_resource compare [] = none
namespaces_resource compare (g ∷ rest) =
    let later = namespaces_resource compare rest in
    if str_eq g.group []
    then elim (first_namespaces (normalize_api_group_resources compare g)) [
      | some a ↦ some a
      | none ↦ later
    ]
    else later

-- The storage of a resource that discovery gives.
abbrev pub rest_of : Text → ApiResource → Rest
rest_of reserved_namespace a =
    let r0 = new_rest reserved_namespace in
    let r1 = set_namespace_scoped r0 a.namespaced in
    let r2 = set_name r1 a.name in
    let r3 = set_short_names r2 a.short_names in
    let r4 = set_kind r3 a.kind in let r5 = set_group r4 a.group in set_version r5 a.version

-- The APIGroupInfo that `installAPIGroups` is given, with the kind that is added to the scheme.
pub record GroupInfo : Type 0 where
  pub prioritized_versions : List (Text × Text)
  pub storages : Map (Map Rest)
  pub options_external_version : Option (Text × Text)
  pub known_type : Option GroupVersionKind

abbrev storage_map : Text → Option ApiResource → Map Rest
storage_map reserved_namespace none = []
storage_map reserved_namespace (some a) = (a.name, rest_of reserved_namespace a) ∷ []

abbrev known : Option ApiResource → Option GroupVersionKind
known none = none
known (some a) = some (record { group = []; version = a.version; kind = a.kind })

-- NewDefaultAPIGroupInfo gives the version of the options.
unfoldable pub overlay_group_info : Text → Option (Text × Text) → Option ApiResource → GroupInfo
overlay_group_info reserved_namespace options found = record {
  prioritized_versions = (overlay_group, overlay_version) ∷ [];
  storages = (codes "v1alpha1", storage_map reserved_namespace found) ∷ [];
  options_external_version = options;
  known_type = known found;
}

-- The argument of the last call, for what restmapper.GetAPIGroupResources gives.
unfoldable pub install_overlay_api_groups :
    (Text → Text → ℤ)
    → Text
    → Option (Text × Text)
    → Outcome (List ApiGroupResources)
    → Outcome GroupInfo
install_overlay_api_groups compare reserved_namespace options discovered =
    then_do discovered λ groups.
      ok (overlay_group_info reserved_namespace options (namespaces_resource compare groups))

-- Whether a version of a core group has namespaces.
unfoldable pub has_namespaces : List ApiGroupResources → Bool
has_namespaces [] = false
has_namespaces (g ∷ rest) =
    (str_eq g.group [] && has_name namespaces (collect g.group g.versioned_resources))
    || has_namespaces rest

abbrev pub is_there : Option ApiResource → Bool
is_there none = false
is_there (some a) = str_eq a.name namespaces

first_namespaces-has_name :
    (rest : List ApiResource) → is_there (first_namespaces rest) ≡ has_name namespaces rest
unfolding first_namespaces has_name
first_namespaces-has_name [] = refl
first_namespaces-has_name (a ∷ rest) = elim (Bool-cases (str_eq a.name namespaces)) [
  | inl e ↦ rw e e
  | inr e ↦ rw e (first_namespaces-has_name rest)
]

choose :
    (o later : Option ApiResource)
    → (is_there o ≡ true) ⊎ (o ≡ none)
    → is_there (elim o [ some a ↦ some a | none ↦ later ]) ≡ (is_there o || is_there later)
choose none later h = refl
choose (some a) later (inl h) = rw h refl
choose (some a) later (inr h) = absurd (ground arith)

pub first_namespaces-cases :
    (rest : List ApiResource)
    → (is_there (first_namespaces rest) ≡ true) ⊎ (first_namespaces rest ≡ none)
unfolding first_namespaces
first_namespaces-cases [] = inr refl
first_namespaces-cases (a ∷ rest) = elim (Bool-cases (str_eq a.name namespaces)) [
  | inl e ↦ inl (rw e e)
  | inr e ↦ rw e (first_namespaces-cases rest)
]

either_way : {x y z w : Bool} → x ≡ y → z ≡ w → (x || z) ≡ (y || w)
either_way h k = cc

-- The storage of namespaces is installed exactly if a version of a group with the empty name has
-- the resource "namespaces", and then it is for a resource of that name.
pub namespaces_resource-has_namespaces :
    (compare : Text → Text → ℤ) (groups : List ApiGroupResources)
    → is_there (namespaces_resource compare groups) ≡ has_namespaces groups
unfolding namespaces_resource has_namespaces
namespaces_resource-has_namespaces compare [] = refl
namespaces_resource-has_namespaces compare (g ∷ rest) =
    let later = namespaces_resource-has_namespaces compare rest in
    let normalized = normalize_api_group_resources compare g in
    elim (Bool-cases (str_eq g.group [])) [
      | inl core ↦ rw core (
          choose (first_namespaces normalized) (namespaces_resource compare rest)
            (first_namespaces-cases normalized)
          ∙ either_way
              (first_namespaces-has_name normalized
                ∙ (normalize_api_group_resources_names compare g namespaces).1)
              later)
      | inr other ↦ rw other later
    ]

choose_found :
    (o later : Option ApiResource)
    → (is_there o ≡ true) ⊎ (o ≡ none)
    → ((a : ApiResource) → later ≡ some a → str_eq a.name namespaces ≡ true)
    → (a : ApiResource) → elim o [ some b ↦ some b | none ↦ later ] ≡ some a
    → str_eq a.name namespaces ≡ true
choose_found none later h k a e = k a e
choose_found (some b) later (inl h) k a e = cc
choose_found (some b) later (inr h) k a e = absurd (ground arith)

-- The resource that is found has the name.
pub namespaces_resource_found :
    (compare : Text → Text → ℤ) (groups : List ApiGroupResources) (a : ApiResource)
    → namespaces_resource compare groups ≡ some a
    → str_eq a.name namespaces ≡ true
unfolding namespaces_resource
namespaces_resource_found compare [] a e = absurd (ground arith)
namespaces_resource_found compare (g ∷ rest) a e =
    let later = namespaces_resource_found compare rest in
    let normalized = normalize_api_group_resources compare g in
    elim (Bool-cases (str_eq g.group [])) [
      | inl core ↦
          choose_found (first_namespaces normalized) (namespaces_resource compare rest)
            (first_namespaces-cases normalized) later a (rw core at e)
      | inr other ↦ later a (rw other at e)
    ]
