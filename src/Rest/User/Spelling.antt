-- ===== src/Rest/User/Spelling.antt =====
-- Which names `getClusterNamespace` takes apart: exactly those that are spelled as its comment says,
-- up to the byte between the cluster and the second delimiter, which it does not look at.
use external_crd.Prelude.{
  ℕ, suc, ◌+◌, ◌-◌, ◌≤◌, ◌≡◌, ap, ◌∙◌, sym, ◌↔◌, inl, inr, Bool-cases, true, some, [], ◌∷◌, ◌++◌,
  arith, length, take, drop, length-append, drop-append, take-append, length-take_of_le,
  take-append-drop, drop-add, drop-cons,
}
use native.Mathlib.Decide.{dec_lt}
use mathlib.Core.Path.{subst, subst₂}
use external_crd.Prelude.Text.{Text, codes, has_prefix, last_index}
use external_crd.Prelude.Text.Laws.{
  has_prefix-append, eq-append_of_has_prefix, last_index-append, last_index-occurs,
  last_index_of_has_prefix, last_index-drop,
}
use external_crd.Prelude.Outcome.{ok}
use external_crd.Rest.User.{username_prefix, get_cluster_namespace}
use external_crd.Rest.User.Parts.{
  drop-prefix, get_cluster_namespace_unprefixed, get_cluster_namespace_short,
  get_cluster_namespace_once, get_cluster_namespace_overlap, get_cluster_namespace_parts, fits,
}

-- The user name of cluster `c` and namespace `n`, with the random delimiter `d`.
abbrev pub username : Text → Text → Text → Text
username d c n = username_prefix ++ (d ++ (c ++ (codes "-" ++ (d ++ n))))

-- `u` names cluster `c` and namespace `n`: between the prefix and `n` it has a delimiter of five
-- bytes, `c`, any one byte and the delimiter again, for the last time.
pub record Names (u c n : Text) : Type 0 where
  pub delimiter : Text
  pub separator : ℕ
  pub five : length delimiter ≡ 5
  pub spelled : u ≡ username_prefix ++ (delimiter ++ (c ++ separator ∷ (delimiter ++ n)))
  pub last : last_index (delimiter ++ n) delimiter ≡ some 0

module _ (d c n : Text) (x : ℕ) (five : length d ≡ 5) where
  abbrev tail : Text
  tail = d ++ (c ++ x ∷ (d ++ n))

  take-tail : take 5 tail ≡ d
  take-tail = rw (← five) (take-append d (c ++ x ∷ (d ++ n)))

  drop-tail : drop 5 tail ≡ c ++ x ∷ (d ++ n)
  drop-tail = rw (← five) (drop-append d (c ++ x ∷ (d ++ n)))

  drop-tail_end : drop (length d + (length c + suc (length d))) tail ≡ n
  drop-tail_end =
      drop-prefix d (c ++ x ∷ (d ++ n)) (length c + suc (length d))
      ∙ drop-prefix c (x ∷ (d ++ n)) (suc (length d))
      ∙ drop-append d n

  last_index-tail :
      last_index (d ++ n) d ≡ some 0 → last_index tail (take 5 tail) ≡ some (length c + 6)
  last_index-tail last = rw take-tail (
      ground (
        arith,
        last_index-append d (c ++ x ∷ (d ++ n)) d (length c + 1),
        last_index-append c (x ∷ (d ++ n)) d 1,
        last_index-append (x ∷ []) (d ++ n) d 0 last,
      ))

  parts-tail :
      last_index (d ++ n) d ≡ some 0
      → get_cluster_namespace (username_prefix ++ tail) ≡ ok (some (c, n))
  parts-tail last =
      let width : length c + 6 - 6 ≡ length c = omega arith in
      let end : length c + 6 + 5 ≡ length d + (length c + suc (length d)) = omega arith in
      get_cluster_namespace_parts tail (length c + 6)
        (omega (arith, length-append d (c ++ x ∷ (d ++ n)))) (last_index-tail last) (omega arith)
      ∙ rw (width, end, drop-tail, drop-tail_end, take-append c (x ∷ (d ++ n)))

-- A name that is spelled like this is taken apart into its cluster and namespace.
pub get_cluster_namespace-Names :
    {u c n : Text} → Names u c n → get_cluster_namespace u ≡ ok (some (c, n))
get_cluster_namespace-Names {c = c} {n = n} v =
    rw (v.spelled) (parts-tail v.delimiter c n v.separator v.five v.last)

module _ (t : Text) (i : ℕ) (enough : 5 ≤ length t) (found : last_index t (take 5 t) ≡ some i) where
  last-part : drop i t ≡ take 5 t ++ drop (i + 5) t
  last-part =
      eq-append_of_has_prefix (drop i t) (take 5 t) (last_index-occurs t (take 5 t) i found)
      ∙ rw (length-take_of_le 5 t enough, ← drop-add i 5 t)

  Names-parts : 6 ≤ i → Names (username_prefix ++ t) (take (i - 6) (drop 5 t)) (drop (i + 5) t)
  Names-parts lo =
      let (x, at) = drop-cons (i - 1) t (omega (arith, fits t i enough found)) in
      let back : suc (i - 1) ≡ i = omega arith in
      let to_x : 5 + (i - 6) ≡ i - 1 = omega arith in
      let middle : drop (i - 6) (drop 5 t) ≡ x ∷ (take 5 t ++ drop (i + 5) t) =
        sym (drop-add 5 (i - 6) t) ∙ rw (to_x, at, back, last-part) in
      record {
        delimiter = take 5 t;
        separator = x;
        five = length-take_of_le 5 t enough;
        spelled =
            ap (λ w. username_prefix ++ w)
              (sym (take-append-drop 5 t)
                ∙ ap (λ w. take 5 t ++ w)
                    (sym (take-append-drop (i - 6) (drop 5 t))
                      ∙ ap (λ w. take (i - 6) (drop 5 t) ++ w) middle));
        last = rw (← last-part) (last_index-drop t (take 5 t) i found);
      }

  Names-tail :
      (c n : Text)
      → get_cluster_namespace (username_prefix ++ t) ≡ ok (some (c, n))
      → Names (username_prefix ++ t) c n
  Names-tail c n e = elim (dec_lt i 6) [
    | yes low ↦ absurd (
        ground (
          arith,
          get_cluster_namespace_overlap t i enough found,
          get_cluster_namespace_once t i enough found,
        ))
    | no high ↦
        let same = get_cluster_namespace_parts t i enough found (omega arith) in
        subst₂ (λ c n. Names (username_prefix ++ t) c n) (ground arith) (ground arith)
          (Names-parts (omega arith))
  ]

Names-prefix :
    (t c n : Text)
    → get_cluster_namespace (username_prefix ++ t) ≡ ok (some (c, n))
    → Names (username_prefix ++ t) c n
Names-prefix t c n e = elim (dec_lt (length t) 5) [
  | yes short ↦ absurd (ground (arith, get_cluster_namespace_short t short))
  | no long ↦
      let (i, found) = last_index_of_has_prefix t (take 5 t) (
        subst (λ w. has_prefix w (take 5 t) ≡ true) (take-append-drop 5 t)
          (has_prefix-append (take 5 t) (drop 5 t))) in
      Names-tail t i (omega arith) found c n e
]

-- And only such a name is: each result was spelled in the name.
pub Names-get_cluster_namespace :
    (u c n : Text) → get_cluster_namespace u ≡ ok (some (c, n)) → Names u c n
Names-get_cluster_namespace u c n e = elim (Bool-cases (has_prefix u username_prefix)) [
  | inl yes_prefix ↦
      let t = drop (length username_prefix) u in
      let shape = eq-append_of_has_prefix u username_prefix yes_prefix in
      subst (λ w. Names w c n) (sym shape)
        (Names-prefix t c n (subst (λ w. get_cluster_namespace w ≡ ok (some (c, n))) shape e))
  | inr no_prefix ↦ absurd (ground (arith, get_cluster_namespace_unprefixed u no_prefix))
]

-- `getClusterNamespace` returns a cluster and a namespace for a user name exactly when the name
-- spells them: the prefix, a delimiter of five bytes, the cluster, one byte and the delimiter,
-- where the delimiter stands for the last time, and the namespace.
pub get_cluster_namespace_iff :
    (u c n : Text) → (get_cluster_namespace u ≡ ok (some (c, n))) ↔ Names u c n
get_cluster_namespace_iff u c n = (Names-get_cluster_namespace u c n, get_cluster_namespace-Names)
