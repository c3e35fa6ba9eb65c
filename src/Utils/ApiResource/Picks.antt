-- ===== src/Utils/ApiResource/Picks.antt =====
-- What `NormalizeAPIGroupResources` picks: each name of the group, once.
use external_crd.Prelude.{
  ◌≡◌, refl, ◌∙◌, Bool, Bool-cases, true, false, ◌||◌, inl, inr, List, [], ◌∷◌, arith, All,
}
use external_crd.Prelude.Text.{Text, str_eq}
use external_crd.Prelude.Text.Laws.{str_eq_iff, str_eq_refl}
use external_crd.Prelude.Int.{ℤ}
use external_crd.Handler.Discovery.{ApiResource}
use external_crd.Handler.Discovery.Laws.{find, IsUnique}
use external_crd.Utils.ApiResource.{
  ApiGroupResources, collect, is_registered, pick, less, insert, sort,
  normalize_api_group_resources,
}

-- Whether a resource of the name is in the list.
unfoldable pub has_name : Text → List ApiResource → Bool
has_name n [] = false
has_name n (a ∷ rest) = str_eq a.name n || has_name n rest

pub or_left_comm : (x y z : Bool) → (x || (y || z)) ≡ (y || (x || z))
or_left_comm true true z = refl
or_left_comm true false z = refl
or_left_comm false y z = refl

module _ (registered : List Text) (a : ApiResource) (rest : List ApiResource) where
  pub pick-registered :
      is_registered a.name registered ≡ true → pick registered (a ∷ rest) ≡ pick registered rest
  unfolding pick
  pick-registered e = rw (pick, e) refl

  pub pick-new :
      is_registered a.name registered ≡ false
      → pick registered (a ∷ rest) ≡ a ∷ pick (a.name ∷ registered) rest
  unfolding pick
  pick-new e = rw (pick, e) refl

pick-absent :
    (registered : List Text) (n : Text) (rest : List ApiResource)
    → is_registered n registered ≡ true
    → All (λ b. str_eq b.name n ≡ false) (pick registered rest)
unfolding pick is_registered
pick-absent registered n [] h = tt
pick-absent registered n (a ∷ rest) h = elim (Bool-cases (is_registered a.name registered)) [
  | inl e ↦ rw (pick-registered registered a rest e) (pick-absent registered n rest h)
  | inr e ↦
      rw (pick-new registered a rest e) (
        ground (arith, str_eq_iff a.name n),
        pick-absent (a.name ∷ registered) n rest (ground arith),
      )
]

pick-IsUnique : (registered : List Text) (rest : List ApiResource) → IsUnique (pick registered rest)
unfolding pick is_registered
pick-IsUnique registered [] = tt
pick-IsUnique registered (a ∷ rest) = elim (Bool-cases (is_registered a.name registered)) [
  | inl e ↦ rw (pick-registered registered a rest e) (pick-IsUnique registered rest)
  | inr e ↦ rw (pick-new registered a rest e) (
    pick-absent (a.name ∷ registered) a.name rest (ground (arith, str_eq_refl a.name)),
    pick-IsUnique (a.name ∷ registered) rest,
  )
]

-- The first resource of a name that is not registered is the one that is picked.
find-pick :
    (registered : List Text) (n : Text) (rest : List ApiResource)
    → is_registered n registered ≡ false
    → find n (pick registered rest) ≡ find n rest
unfolding pick is_registered find
find-pick registered n [] h = refl
find-pick registered n (a ∷ rest) h = elim (Bool-cases (is_registered a.name registered)) [
  | inl e ↦
      rw (pick-registered registered a rest e)
        (ground (arith, find-pick registered n rest, str_eq_iff a.name n))
  | inr e ↦
      rw (pick-new registered a rest e)
        (ground (arith, find-pick (a.name ∷ registered) n rest, str_eq_iff a.name n))
]

has_name-pick :
    (registered : List Text) (n : Text) (rest : List ApiResource)
    → is_registered n registered ≡ false
    → has_name n (pick registered rest) ≡ has_name n rest
unfolding pick is_registered has_name
has_name-pick registered n [] h = refl
has_name-pick registered n (a ∷ rest) h = elim (Bool-cases (is_registered a.name registered)) [
  | inl e ↦
      rw (pick-registered registered a rest e)
        (ground (arith, has_name-pick registered n rest, str_eq_iff a.name n))
  | inr e ↦
      rw (pick-new registered a rest e)
        (ground (arith, has_name-pick (a.name ∷ registered) n rest, str_eq_iff a.name n))
]

module _ (compare : Text → Text → ℤ) (preferred : Text) where
  has_name-insert :
      (n : Text) (a : ApiResource) (rest : List ApiResource)
      → has_name n (insert compare preferred a rest) ≡ (str_eq a.name n || has_name n rest)
  unfolding insert has_name
  has_name-insert n a [] = refl
  has_name-insert n a (b ∷ rest) = elim (Bool-cases (less compare preferred a b)) [
    | inl e ↦ rw e refl
    | inr e ↦
        rw (e, has_name, has_name-insert n a rest)
          (or_left_comm (str_eq b.name n) (str_eq a.name n) (has_name n rest))
  ]

  has_name-sort :
      (n : Text) (sorted rest : List ApiResource)
      → has_name n (sort compare preferred sorted rest) ≡ (has_name n sorted || has_name n rest)
  unfolding sort has_name
  has_name-sort n sorted [] = ground arith
  has_name-sort n sorted (a ∷ rest) =
      has_name-sort n (insert compare preferred a sorted) rest
      ∙ rw (has_name-insert n a sorted) (ground arith)

-- The result of `NormalizeAPIGroupResources` has no name twice, and has a resource of a name
-- exactly if a version of the group has; it is the first of that name in the sorted list.
pub normalize_api_group_resources_names :
    (compare : Text → Text → ℤ) (g : ApiGroupResources) (n : Text)
    → IsUnique (normalize_api_group_resources compare g)
      × (has_name n (normalize_api_group_resources compare g)
          ≡ has_name n (collect g.group g.versioned_resources))
      × (find n (normalize_api_group_resources compare g)
          ≡ find n (sort compare g.preferred_version [] (collect g.group g.versioned_resources)))
unfolding normalize_api_group_resources is_registered has_name
normalize_api_group_resources_names compare g n =
    let all = collect g.group g.versioned_resources in
    let sorted = sort compare g.preferred_version [] all in
    (
      pick-IsUnique [] sorted,
      has_name-pick [] n sorted refl ∙ has_name-sort compare g.preferred_version n [] all,
      find-pick [] n sorted refl,
    )
