-- ===== src/Utils/ApiResource.antt =====
-- pkg/utils/apiresource.go: `NormalizeAPIGroupResources`, which picks one version of each resource of a
-- group.
pub mod Picks
pub mod Preferred
pub mod Group
mod Tests
use external_crd.Prelude.{Bool, true, false, ◌||◌, List, [], ◌∷◌, ◌++◌, map, if◌then◌else◌}
use external_crd.Prelude.Text.{Text, str_eq, str_lt}
use external_crd.Prelude.Int.{ℤ, pos, ltb_ℤ}
use external_crd.Prelude.Maps.{Map}
use external_crd.Handler.Discovery.{ApiResource}

-- restmapper.APIGroupResources: the name and the preferred version of its group, and its resources by
-- version, in the order in which the map is ranged over.
pub record ApiGroupResources : Type 0 where
  pub group : Text
  pub preferred_version : Text
  pub versioned_resources : Map (List ApiResource)

abbrev pub stamped : Text → Text → ApiResource → ApiResource
stamped group version a = record a { group = group; version = version }

unfoldable pub collect : Text → Map (List ApiResource) → List ApiResource
collect group [] = []
collect group ((version, resources) ∷ rest) =
    map (stamped group version) resources ++ collect group rest

-- registered[name]
unfoldable pub is_registered : Text → List Text → Bool
is_registered name [] = false
is_registered name (n ∷ registered) = str_eq n name || is_registered name registered

-- The loop that keeps the first resource of each name.
unfoldable pub pick : List Text → List ApiResource → List ApiResource
pick registered [] = []
pick registered (a ∷ rest) = elim (is_registered a.name registered) [
  | true ↦ pick registered rest
  | false ↦ a ∷ pick (a.name ∷ registered) rest
]

-- `compare` is version.CompareKubeAwareVersionStrings of k8s.io/apimachinery.
module _ (compare : Text → Text → ℤ) where
  -- The function that sort.SliceStable is given.
  unfoldable pub less : Text → ApiResource → ApiResource → Bool
  less preferred a b =
      if str_eq a.version b.version
      then str_lt a.name b.name
      else if str_eq a.version preferred
      then true
      else if str_eq b.version preferred
      then false
      else ltb_ℤ (pos 0) (compare a.version b.version)

  -- The resource behind those that are not above it.
  unfoldable pub insert : Text → ApiResource → List ApiResource → List ApiResource
  insert preferred a [] = a ∷ []
  insert preferred a (b ∷ rest) =
      if less preferred a b then a ∷ b ∷ rest else b ∷ insert preferred a rest

  -- sort.SliceStable: each resource goes behind its equals that come before it.
  unfoldable pub sort : Text → List ApiResource → List ApiResource → List ApiResource
  sort preferred sorted [] = sorted
  sort preferred sorted (a ∷ rest) = sort preferred (insert preferred a sorted) rest

  unfoldable pub normalize_api_group_resources : ApiGroupResources → List ApiResource
  normalize_api_group_resources g =
      pick [] (sort g.preferred_version [] (collect g.group g.versioned_resources))
