-- ===== src/Utils/ApiResource/Group.antt =====
-- What `NormalizeAPIGroupResources` picks, in terms of the versions of the group.
use external_crd.Prelude.{
  ◌≡◌, refl, ◌∙◌, ap, Bool, Bool-cases, false, ◌||◌, ◌&&◌, ◌⊎◌, inl, inr, List, [], ◌∷◌, ◌++◌, map,
  arith, All, All-append, Occurs,
}
use external_crd.Prelude.Text.{Text, str_eq}
use external_crd.Prelude.Maps.{Map}
use external_crd.Prelude.Int.{ℤ}
use external_crd.Handler.Discovery.{ApiResource}
use external_crd.Handler.Discovery.Laws.{find, IsUnique}
use external_crd.Utils.ApiResource.{
  ApiGroupResources, stamped, collect, is_registered, pick, less, insert, sort,
  normalize_api_group_resources,
}
use external_crd.Utils.ApiResource.Picks.{
  has_name, pick-registered, pick-new, normalize_api_group_resources_names,
}
use external_crd.Utils.ApiResource.Preferred.{
  is_version, has_version, IsLed-find, has_version-sort, sort-IsLed,
}

-- Whether some version has a resource of the name.
unfoldable pub is_listed : Text → Map (List ApiResource) → Bool
is_listed n [] = false
is_listed n ((version, resources) ∷ rest) = has_name n resources || is_listed n rest

-- Whether the given version has one.
unfoldable pub is_listed_at : Text → Text → Map (List ApiResource) → Bool
is_listed_at n v [] = false
is_listed_at n v ((version, resources) ∷ rest) =
    (str_eq version v && has_name n resources) || is_listed_at n v rest

-- The version has this resource.
abbrev pub IsIn : Text → ApiResource → Map (List ApiResource) → Type 0
IsIn v a [] = ⊥
IsIn v a ((version, resources) ∷ rest) = ((v ≡ version) × Occurs a resources) ⊎ IsIn v a rest

-- A resource of one of the group's versions, with the names of the group and of that version.
pub record IsOriginal (g : ApiGroupResources) (a : ApiResource) : Type 0 where
  pub original : ApiResource
  pub is_in : IsIn a.version original g.versioned_resources
  pub named : a ≡ record original { group = g.group; version = a.version }

has_name-append :
    (n : Text) (xs ys : List ApiResource) → has_name n (xs ++ ys) ≡ (has_name n xs || has_name n ys)
unfolding has_name
has_name-append n [] ys = refl
has_name-append n (x ∷ xs) ys = ground (arith, has_name-append n xs ys)

has_name-stamped :
    (group version n : Text) (xs : List ApiResource)
    → has_name n (map (stamped group version) xs) ≡ has_name n xs
unfolding has_name
has_name-stamped group version n [] = refl
has_name-stamped group version n (x ∷ xs) = rw (has_name-stamped group version n xs)

has_name-collect :
    (group n : Text) (m : Map (List ApiResource)) → has_name n (collect group m) ≡ is_listed n m
unfolding collect is_listed has_name
has_name-collect group n [] = refl
has_name-collect group n ((version, xs) ∷ rest) =
    has_name-append n (map (stamped group version) xs) (collect group rest)
    ∙ rw (has_name-stamped group version n xs, has_name-collect group n rest)

has_version-append :
    (n v : Text) (xs ys : List ApiResource)
    → has_version n v (xs ++ ys) ≡ (has_version n v xs || has_version n v ys)
unfolding has_version
has_version-append n v [] ys = refl
has_version-append n v (x ∷ xs) ys = ground (arith, has_version-append n v xs ys)

has_version-stamped :
    (group version n v : Text) (xs : List ApiResource)
    → has_version n v (map (stamped group version) xs) ≡ (str_eq version v && has_name n xs)
unfolding has_version has_name
has_version-stamped group version n v [] = ground arith
has_version-stamped group version n v (x ∷ xs) =
    ground (arith, has_version-stamped group version n v xs)

has_version-collect :
    (group n v : Text) (m : Map (List ApiResource))
    → has_version n v (collect group m) ≡ is_listed_at n v m
unfolding collect is_listed_at has_version
has_version-collect group n v [] = refl
has_version-collect group n v ((version, xs) ∷ rest) =
    has_version-append n v (map (stamped group version) xs) (collect group rest)
    ∙ rw (has_version-stamped group version n v xs, has_version-collect group n v rest)

module _ (P : ApiResource → Type 0) where
  All-map :
      (f : ApiResource → ApiResource) (xs : List ApiResource)
      → ((x : ApiResource) → Occurs x xs → P (f x))
      → All P (map f xs)
  All-map f [] h = tt
  All-map f (x ∷ xs) h = (
    h x (record { before = []; after = xs; split = refl }),
    All-map f xs λ y o.
        h y (record { before = x ∷ o.before; after = o.after; split = ap (λ l. x ∷ l) o.split }),
  )

  All-collect :
      (group : Text) (m : Map (List ApiResource))
      → ((v : Text) (x : ApiResource) → IsIn v x m → P (stamped group v x))
      → All P (collect group m)
  unfolding collect
  All-collect group [] h = tt
  All-collect group ((version, xs) ∷ rest) h =
      All-append P (map (stamped group version) xs) (collect group rest)
        (All-map (stamped group version) xs (λ x o. h version x (inl (refl, o))))
        (All-collect group rest (λ v x i. h v x (inr i)))

  All-insert :
      (compare : Text → Text → ℤ) (preferred : Text) (a : ApiResource) (xs : List ApiResource)
      → P a
      → All P xs
      → All P (insert compare preferred a xs)
  unfolding insert
  All-insert compare preferred a [] p h = (p, tt)
  All-insert compare preferred a (b ∷ xs) p h = elim (Bool-cases (less compare preferred a b)) [
    | inl e ↦ rw e (p, h)
    | inr e ↦ rw e (h.0, All-insert compare preferred a xs p h.1)
  ]

  All-sort :
      (compare : Text → Text → ℤ) (preferred : Text) (sorted rest : List ApiResource)
      → All P sorted
      → All P rest
      → All P (sort compare preferred sorted rest)
  unfolding sort
  All-sort compare preferred sorted [] h k = h
  All-sort compare preferred sorted (a ∷ rest) h k =
      All-sort compare preferred (insert compare preferred a sorted) rest
        (All-insert compare preferred a sorted k.0 h) k.1

  All-pick :
      (registered : List Text) (xs : List ApiResource) → All P xs → All P (pick registered xs)
  unfolding pick
  All-pick registered [] h = tt
  All-pick registered (a ∷ xs) h = elim (Bool-cases (is_registered a.name registered)) [
    | inl e ↦ rw (pick-registered registered a xs e) (All-pick registered xs h.1)
    | inr e ↦ rw (pick-new registered a xs e) (h.0, All-pick (a.name ∷ registered) xs h.1)
  ]

normalized-IsOriginal :
    (compare : Text → Text → ℤ) (g : ApiGroupResources)
    → All (IsOriginal g) (normalize_api_group_resources compare g)
unfolding normalize_api_group_resources
normalized-IsOriginal compare g = All-pick (IsOriginal g) [] _ (
    All-sort (IsOriginal g) compare g.preferred_version [] _ tt (
      All-collect (IsOriginal g) g.group g.versioned_resources
        λ v x i. record { original = x; is_in = i; named = refl }))

-- The result of `NormalizeAPIGroupResources` has no name twice; each resource in it is one of the
-- resources of a version of the group, with the names of the group and of that version; it has a
-- resource of a name exactly if a version of the group has; and that resource is of the preferred
-- version exactly if the preferred version has one of that name, however the other versions
-- compare.
pub normalize_api_group_resources_lem :
    (compare : Text → Text → ℤ) (g : ApiGroupResources) (n : Text)
    → IsUnique (normalize_api_group_resources compare g)
      × All (IsOriginal g) (normalize_api_group_resources compare g)
      × (has_name n (normalize_api_group_resources compare g) ≡ is_listed n g.versioned_resources)
      × (is_version g.preferred_version (find n (normalize_api_group_resources compare g))
          ≡ is_listed_at n g.preferred_version g.versioned_resources)
unfolding has_version
normalize_api_group_resources_lem compare g n =
    let all = collect g.group g.versioned_resources in
    let sorted = sort compare g.preferred_version [] all in
    let (unique, named, first) = normalize_api_group_resources_names compare g n in
    (
      unique,
      normalized-IsOriginal compare g,
      named ∙ has_name-collect g.group n g.versioned_resources,
      ap (is_version g.preferred_version) first
          ∙ IsLed-find g.preferred_version n sorted
              (sort-IsLed compare g.preferred_version [] all tt)
          ∙ has_version-sort compare g.preferred_version n g.preferred_version [] all
          ∙ has_version-collect g.group n g.preferred_version g.versioned_resources,
    )
