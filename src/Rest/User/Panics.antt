-- ===== src/Rest/User/Panics.antt =====
-- Which names make `getClusterNamespace` of pkg/apiserver/overlay/rest.go panic.
use external_crd.Prelude.{
  ℕ, ◌≤◌, ◌<◌, ◌≡◌, sym, ◌↔◌, ◌⊎◌, inl, inr, Bool-cases, true, some, ◌++◌, arith, length, take,
  drop, take-append-drop,
}
use native.Mathlib.Decide.{dec_lt}
use mathlib.Core.Path.{subst}
use external_crd.Prelude.Text.{Text, has_prefix, last_index}
use external_crd.Prelude.Text.Laws.{
  has_prefix-append, eq-append_of_has_prefix, last_index_of_has_prefix,
}
use external_crd.Prelude.Outcome.{panic}
use external_crd.Rest.User.{username_prefix, get_cluster_namespace}
use external_crd.Rest.User.Parts.{
  get_cluster_namespace_unprefixed, get_cluster_namespace_short, get_cluster_namespace_once,
  get_cluster_namespace_overlap, get_cluster_namespace_parts,
}

-- What follows the prefix is too short for a delimiter, or its last delimiter begins less than six
-- bytes behind the first one, but not at it.
pub record IsCut (u : Text) : Type 0 where
  pub rest : Text
  pub prefixed : u ≡ username_prefix ++ rest
  pub cut :
      (length rest < 5)
      ⊎ ((i : ℕ) × (last_index rest (take 5 rest) ≡ some i) × (0 < i) × (i < 6) × (5 ≤ length rest))

IsCut-long :
    (t : Text) (i : ℕ)
    → 5 ≤ length t
    → last_index t (take 5 t) ≡ some i
    → get_cluster_namespace (username_prefix ++ t) ≡ panic
    → (0 < i) × (i < 6)
IsCut-long t i enough found e = elim (dec_lt 0 i) [
  | no none ↦ absurd (ground (arith, get_cluster_namespace_once t i enough found (omega arith)))
  | yes some_bytes ↦ elim (dec_lt i 6) [
    | yes few ↦ (some_bytes, few)
    | no many ↦ absurd (ground (arith, get_cluster_namespace_parts t i enough found (omega arith)))
  ]
]

IsCut-prefix :
    (t : Text) → get_cluster_namespace (username_prefix ++ t) ≡ panic → IsCut (username_prefix ++ t)
IsCut-prefix t e = record { rest = t; prefixed = ground arith; cut = how }
  where
    how :
        (length t < 5)
        ⊎ ((i : ℕ) × (last_index t (take 5 t) ≡ some i) × (0 < i) × (i < 6) × (5 ≤ length t))
    how = elim (dec_lt (length t) 5) [
      | yes short ↦ inl short
      | no long ↦
          let (i, found) = last_index_of_has_prefix t (take 5 t) (
            subst (λ w. has_prefix w (take 5 t) ≡ true) (take-append-drop 5 t)
              (has_prefix-append (take 5 t) (drop 5 t))) in
          let enough : 5 ≤ length t = omega arith in
          let (lo, hi) = IsCut-long t i enough found e in inr (i, found, lo, hi, enough)
    ]

IsCut-panics : (u : Text) → get_cluster_namespace u ≡ panic → IsCut u
IsCut-panics u e = elim (Bool-cases (has_prefix u username_prefix)) [
  | inl yes_prefix ↦
      let shape = eq-append_of_has_prefix u username_prefix yes_prefix in
      subst IsCut (sym shape) (
        IsCut-prefix (drop (length username_prefix) u)
          (subst (λ w. get_cluster_namespace w ≡ panic) shape e))
  | inr no_prefix ↦ absurd (ground (arith, get_cluster_namespace_unprefixed u no_prefix))
]

panics-IsCut : (u : Text) → IsCut u → get_cluster_namespace u ≡ panic
panics-IsCut u c = rw (c.prefixed) (elim c.cut [
  | inl short ↦ get_cluster_namespace_short c.rest short
  | inr (i, found, lo, hi, enough) ↦ get_cluster_namespace_overlap c.rest i enough found lo hi
])

-- `getClusterNamespace` panics on a user name exactly when it has the prefix and what follows is
-- shorter than five bytes, or has the first five bytes again for the last time less than six bytes
-- behind the first, but not at it.
pub get_cluster_namespace_panics_iff : (u : Text) → (get_cluster_namespace u ≡ panic) ↔ IsCut u
get_cluster_namespace_panics_iff u = (IsCut-panics u, panics-IsCut u)
