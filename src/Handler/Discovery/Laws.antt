-- ===== src/Handler/Discovery/Laws.antt =====
-- What discovery lists after a definition was added, updated or removed.
use external_crd.Prelude.{
  ◌≡◌, refl, Bool, Bool-cases, false, inl, inr, Option, none, some, List, [], ◌∷◌, ◌++◌,
  append_assoc, arith, All, keep, if◌then◌else◌,
}
use external_crd.Prelude.Text.{Text, codes, str_eq}
use external_crd.Prelude.Text.Laws.{str_eq_iff, str_eq_refl, has_prefix-append}
use external_crd.Handler.Crd.{Crd, CrdFunctions}
use external_crd.Handler.Discovery.{
  ApiResource, Discovery, replace_or_append, categorized, update_crd_api_resource, served_version,
  crd_resource, scale_resource, update_crd, survives, remove_crd,
}

-- The resource that discovery lists under a name.
unfoldable pub find : Text → List ApiResource → Option ApiResource
find n [] = none
find n (a ∷ rest) = if str_eq a.name n then some a else find n rest

-- No two resources have one name.
abbrev pub IsUnique : List ApiResource → Type 0
IsUnique [] = Unit
IsUnique (a ∷ rest) = All (λ b. str_eq b.name a.name ≡ false) rest × IsUnique rest

pub find-replace_or_append :
    (a : ApiResource) (n : Text) (rest : List ApiResource)
    → find n (replace_or_append a rest) ≡ (if str_eq a.name n then some a else find n rest)
unfolding find replace_or_append
find-replace_or_append a n [] = refl
find-replace_or_append a n (x ∷ xs) = ground (
  arith,
  find-replace_or_append a n xs,
  str_eq_iff x.name a.name,
  str_eq_iff x.name n,
  str_eq_iff a.name n,
)

All-replace_or_append :
    (a x : ApiResource) (rest : List ApiResource)
    → str_eq a.name x.name ≡ false
    → All (λ b. str_eq b.name x.name ≡ false) rest
    → All (λ b. str_eq b.name x.name ≡ false) (replace_or_append a rest)
unfolding replace_or_append
All-replace_or_append a x [] h k = (h, tt)
All-replace_or_append a x (y ∷ ys) h k = elim (Bool-cases (str_eq y.name a.name)) [
  | inl e ↦ rw e (h, k.1)
  | inr e ↦ rw e (k.0, All-replace_or_append a x ys h k.1)
]

All-renamed :
    (a x : ApiResource) (rest : List ApiResource)
    → x.name ≡ a.name
    → All (λ b. str_eq b.name x.name ≡ false) rest
    → All (λ b. str_eq b.name a.name ≡ false) rest
All-renamed a x rest e h = rw (← e) h

pub IsUnique-replace_or_append :
    (a : ApiResource) (rest : List ApiResource)
    → IsUnique rest
    → IsUnique (replace_or_append a rest)
unfolding replace_or_append
IsUnique-replace_or_append a [] h = (tt, tt)
IsUnique-replace_or_append a (x ∷ xs) h = elim (Bool-cases (str_eq x.name a.name)) [
  | inl e ↦ rw e (All-renamed a x xs ((str_eq_iff x.name a.name).0 e) h.0, h.1)
  | inr e ↦ rw e (
    All-replace_or_append a x xs
        (ground (arith, str_eq_iff x.name a.name, str_eq_iff a.name x.name)) h.0,
    IsUnique-replace_or_append a xs h.1,
  )
]

All-keep :
    (P : ApiResource → Type 0) (p : ApiResource → Bool) (rest : List ApiResource)
    → All P rest
    → All P (keep p rest)
unfolding keep
All-keep P p [] h = tt
All-keep P p (a ∷ rest) h = elim (Bool-cases (p a)) [
  | inl e ↦ rw e (h.0, All-keep P p rest h.1)
  | inr e ↦ rw e (All-keep P p rest h.1)
]

pub IsUnique-keep :
    (p : ApiResource → Bool) (rest : List ApiResource) → IsUnique rest → IsUnique (keep p rest)
unfolding keep
IsUnique-keep p [] h = tt
IsUnique-keep p (a ∷ rest) h = elim (Bool-cases (p a)) [
  | inl e ↦ rw e (All-keep _ p rest h.0, IsUnique-keep p rest h.1)
  | inr e ↦ rw e (IsUnique-keep p rest h.1)
]

-- The resources that survive a removal depend on their names only.
survives-name :
    (plural : Text) (a x : ApiResource) → x.name ≡ a.name → survives plural x ≡ survives plural a
unfolding survives
survives-name plural a x e = rw e

keep-replace_or_append :
    (plural : Text) (a : ApiResource) (rest : List ApiResource)
    → survives plural a ≡ false
    → keep (survives plural) (replace_or_append a rest) ≡ keep (survives plural) rest
unfolding keep replace_or_append
keep-replace_or_append plural a [] h = rw h
keep-replace_or_append plural a (x ∷ xs) h = elim (Bool-cases (str_eq x.name a.name)) [
  | inl e ↦ rw (e, h, survives-name plural a x ((str_eq_iff x.name a.name).0 e), h)
  | inr e ↦ rw (e, keep, keep-replace_or_append plural a xs h)
]

survives-own :
    (f : CrdFunctions) (crd : Crd) → survives crd.plural (categorized (crd_resource f crd)) ≡ false
unfolding survives crd_resource
survives-own f crd = rw (str_eq_refl crd.plural)

survives-scale :
    (f : CrdFunctions) (crd : Crd)
    → survives crd.plural (categorized (scale_resource f crd)) ≡ false
unfolding survives scale_resource
survives-scale f crd =
    let sub = has_prefix-append (crd.plural ++ b'/' ∷ []) (codes "scale") in
    ground (arith, append_assoc crd.plural (b'/' ∷ []) (codes "scale"), sub)

-- To add a definition to discovery and to remove it again leaves what its removal alone leaves.
pub remove_crd-update_crd :
    (f : CrdFunctions) (h : Discovery) (crd : Crd)
    → remove_crd (update_crd f h crd) crd ≡ remove_crd h crd
unfolding remove_crd update_crd update_crd_api_resource
remove_crd-update_crd f h crd =
    let own =
      keep-replace_or_append crd.plural (categorized (crd_resource f crd)) h.crd_api_resources
        (survives-own f crd) in
    let scale =
      keep-replace_or_append crd.plural (categorized (scale_resource f crd))
        (replace_or_append (categorized (crd_resource f crd)) h.crd_api_resources)
        (survives-scale f crd) in
    elim (Bool-cases (served_version crd.versions).1) [
      | inl e ↦ rw (e, scale, own)
      | inr e ↦ rw (e, own)
    ]
