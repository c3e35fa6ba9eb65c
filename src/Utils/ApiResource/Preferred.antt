-- ===== src/Utils/ApiResource/Preferred.antt =====
-- Which version of a resource `NormalizeAPIGroupResources` picks: the preferred one, if it has it.
use external_crd.Prelude.{
  ◌≡◌, refl, sym, ◌∙◌, Bool, Bool-cases, true, false, ◌||◌, ◌&&◌, inl, inr, Option, none, some,
  List, [], ◌∷◌, arith, All, if◌then◌else◌,
}
use external_crd.Prelude.Text.{Text, str_eq}
use external_crd.Prelude.Text.Laws.{str_eq_iff}
use external_crd.Prelude.Int.{ℤ}
use external_crd.Handler.Discovery.{ApiResource}
use external_crd.Handler.Discovery.Laws.{find}
use external_crd.Utils.ApiResource.{less, insert, sort}
use external_crd.Utils.ApiResource.Picks.{or_left_comm}

-- Whether the resource is there, of that version.
unfoldable pub is_version : Text → Option ApiResource → Bool
is_version v none = false
is_version v (some a) = str_eq a.version v

-- Whether the list has the name at that version.
unfoldable pub has_version : Text → Text → List ApiResource → Bool
has_version n v [] = false
has_version n v (a ∷ rest) = (str_eq a.name n && str_eq a.version v) || has_version n v rest

module _ (preferred : Text) where
  -- No resource is of the preferred version.
  abbrev pub IsOther : List ApiResource → Type 0
  IsOther = All (λ a. str_eq a.version preferred ≡ false)

  -- The preferred resources come first.
  abbrev pub IsLed : List ApiResource → Type 0
  IsLed [] = Unit
  IsLed (a ∷ rest) = if str_eq a.version preferred then IsLed rest else IsOther rest

  IsOther-has_version :
      (n : Text) (rest : List ApiResource) → IsOther rest → has_version n preferred rest ≡ false
  unfolding has_version
  IsOther-has_version n [] h = refl
  IsOther-has_version n (a ∷ rest) h = ground (arith, h.0, IsOther-has_version n rest h.1)

  IsOther-find :
      (n : Text) (rest : List ApiResource)
      → IsOther rest
      → is_version preferred (find n rest) ≡ false
  unfolding is_version find
  IsOther-find n [] h = refl
  IsOther-find n (a ∷ rest) h = elim (Bool-cases (str_eq a.name n)) [
    | inl e ↦ rw e (h.0)
    | inr e ↦ rw e (IsOther-find n rest h.1)
  ]

  -- The first of a name is of the preferred version exactly if the name has that version.
  pub IsLed-find :
      (n : Text) (xs : List ApiResource)
      → IsLed xs
      → is_version preferred (find n xs) ≡ has_version n preferred xs
  unfolding is_version find has_version
  IsLed-find n [] h = refl
  IsLed-find n (a ∷ rest) h = elim (Bool-cases (str_eq a.version preferred)) [
    | inl e ↦
        let later = IsLed-find n rest (rw e at h) in
        elim (Bool-cases (str_eq a.name n)) [
          | inl same ↦ rw (same, e) refl
          | inr other ↦ rw other later
        ]
    | inr e ↦
        let others : IsOther rest = rw e at h in
        IsOther-find n (a ∷ rest) (e, others) ∙ sym (IsOther-has_version n (a ∷ rest) (e, others))
  ]

module _ (compare : Text → Text → ℤ) (preferred : Text) where
  has_version-insert :
      (n v : Text) (a : ApiResource) (xs : List ApiResource)
      → has_version n v (insert compare preferred a xs)
        ≡ ((str_eq a.name n && str_eq a.version v) || has_version n v xs)
  unfolding insert has_version
  has_version-insert n v a [] = refl
  has_version-insert n v a (b ∷ rest) = elim (Bool-cases (less compare preferred a b)) [
    | inl e ↦ rw e refl
    | inr e ↦
        rw (e, has_version, has_version-insert n v a rest)
          (or_left_comm (str_eq b.name n && str_eq b.version v)
            (str_eq a.name n && str_eq a.version v) (has_version n v rest))
  ]

  pub has_version-sort :
      (n v : Text) (sorted rest : List ApiResource)
      → has_version n v (sort compare preferred sorted rest)
        ≡ (has_version n v sorted || has_version n v rest)
  unfolding sort has_version
  has_version-sort n v sorted [] = ground arith
  has_version-sort n v sorted (a ∷ rest) =
      has_version-sort n v (insert compare preferred a sorted) rest
      ∙ rw (has_version-insert n v a sorted) (ground arith)

  -- A resource of the preferred version is above the others, and none of the others above it.
  less-preferred :
      (a b : ApiResource)
      → str_eq a.version preferred ≡ true
      → str_eq b.version preferred ≡ false
      → less compare preferred a b ≡ true
  unfolding less
  less-preferred a b h g = ground (arith, str_eq_iff a.version b.version)

  less-other :
      (a b : ApiResource)
      → str_eq a.version preferred ≡ false
      → str_eq b.version preferred ≡ true
      → less compare preferred a b ≡ false
  unfolding less
  less-other a b h g = ground (arith, str_eq_iff a.version b.version)

  insert-IsOther :
      (a : ApiResource) (xs : List ApiResource)
      → str_eq a.version preferred ≡ false
      → IsOther preferred xs
      → IsOther preferred (insert compare preferred a xs)
  unfolding insert
  insert-IsOther a [] h g = (h, tt)
  insert-IsOther a (b ∷ rest) h g = elim (Bool-cases (less compare preferred a b)) [
    | inl e ↦ rw e (h, g)
    | inr e ↦ rw e (g.0, insert-IsOther a rest h g.1)
  ]

  insert-IsLed :
      (a : ApiResource) (xs : List ApiResource)
      → IsLed preferred xs
      → IsLed preferred (insert compare preferred a xs)
  unfolding insert
  insert-IsLed a [] h = elim (Bool-cases (str_eq a.version preferred)) [
    | inl e ↦ rw e tt
    | inr e ↦ rw e tt
  ]
  insert-IsLed a (b ∷ rest) h = elim (Bool-cases (less compare preferred a b)) [
    | inl above ↦ rw above (elim (Bool-cases (str_eq a.version preferred)) [
      | inl e ↦ rw e h
      | inr e ↦ elim (Bool-cases (str_eq b.version preferred)) [
        | inl e' ↦ absurd (ground (arith, less-other a b e e'))
        | inr e' ↦ rw e (e', rw e' at h)
      ]
    ])
    | inr below ↦ rw below (elim (Bool-cases (str_eq b.version preferred)) [
      | inl e ↦ rw e (insert-IsLed a rest (rw e at h))
      | inr e ↦ elim (Bool-cases (str_eq a.version preferred)) [
        | inl e' ↦ absurd (ground (arith, less-preferred a b e' e))
        | inr e' ↦ rw e (insert-IsOther a rest e' (rw e at h))
      ]
    ])
  ]

  pub sort-IsLed :
      (sorted rest : List ApiResource)
      → IsLed preferred sorted
      → IsLed preferred (sort compare preferred sorted rest)
  unfolding sort
  sort-IsLed sorted [] h = h
  sort-IsLed sorted (a ∷ rest) h =
      sort-IsLed (insert compare preferred a sorted) rest (insert-IsLed a sorted h)
