-- ===== src/Prelude/Text/Laws.antt =====
-- The laws of the text functions: equality, prefixes, the last occurrence, the first separator.
use Prim.Native.Nat.{ℕ, zero, suc, ◌+◌, ◌≤◌}
use mathlib.Core.Path.{◌≡◌, refl}
use mathlib.Core.Logic.{◌≢◌, ◌↔◌, inl, inr}
use mathlib.Core.Bool.{true, false}
use mathlib.Core.Option.{some}
use mathlib.Core.List.{[], ◌∷◌, ◌++◌}
use native.Mathlib.Omega.{arith}
use external_crd.Prelude.Lists.{length, drop}
use external_crd.Prelude.Tests.{Option-cases}
use external_crd.Prelude.Text.{
  Text, str_eq, has_prefix, contains_byte, last_index, split_first, Lacks,
}

pub str_eq_refl : (s : Text) → str_eq s s ≡ true
unfolding str_eq
str_eq_refl [] = refl
str_eq_refl (a ∷ s) = ground (arith, str_eq_refl s)

pub eq_of_str_eq : (s t : Text) → str_eq s t ≡ true → s ≡ t
unfolding str_eq
eq_of_str_eq [] [] h = refl
eq_of_str_eq [] (b ∷ t) h = cc
eq_of_str_eq (a ∷ s) [] h = cc
eq_of_str_eq (a ∷ s) (b ∷ t) h = ground (arith, eq_of_str_eq s t)

pub str_eq_iff : (s t : Text) → (str_eq s t ≡ true) ↔ (s ≡ t)
str_eq_iff s t = (eq_of_str_eq s t, λ e. rw e (str_eq_refl t))

pub str_eq-ne : (s t : Text) → s ≢ t → str_eq s t ≡ false
str_eq-ne s t h = ground (arith, str_eq_iff s t)

pub has_prefix-append : (p s : Text) → has_prefix (p ++ s) p ≡ true
unfolding has_prefix
has_prefix-append [] [] = refl
has_prefix-append [] (c ∷ s) = refl
has_prefix-append (a ∷ p) s = ground (arith, has_prefix-append p s)

-- A text with the prefix is the prefix followed by the rest.
pub eq-append_of_has_prefix : (s p : Text) → has_prefix s p ≡ true → s ≡ p ++ drop (length p) s
unfolding has_prefix
eq-append_of_has_prefix [] [] h = refl
eq-append_of_has_prefix (a ∷ s) [] h = refl
eq-append_of_has_prefix [] (b ∷ p) h = cc
eq-append_of_has_prefix (a ∷ s) (b ∷ p) h = ground (arith, eq-append_of_has_prefix s p)

pub contains_byte-append : (c : ℕ) (s t : Text) → contains_byte c (s ++ c ∷ t) ≡ true
unfolding contains_byte
contains_byte-append c [] t = ground arith
contains_byte-append c (a ∷ s) t = ground (arith, contains_byte-append c s t)

pub contains_byte-Lacks : (c : ℕ) (s : Text) → Lacks c s → contains_byte c s ≡ false
unfolding contains_byte
contains_byte-Lacks c [] h = refl
contains_byte-Lacks c (a ∷ s) h = ground (arith, contains_byte-Lacks c s h.1)

-- What stands before the last occurrence does not matter to where it is.
pub last_index-append :
    (s t sep : Text) (i : ℕ)
    → last_index t sep ≡ some i
    → last_index (s ++ t) sep ≡ some (length s + i)
unfolding last_index
last_index-append [] t sep i h = ground arith
last_index-append (a ∷ s) t sep i h = ground (arith, last_index-append s t sep i h)

-- The last occurrence is one.
pub last_index-occurs :
    (s sep : Text) (i : ℕ) → last_index s sep ≡ some i → has_prefix (drop i s) sep ≡ true
unfolding last_index
last_index-occurs [] sep i h = ground arith
last_index-occurs (a ∷ s) sep zero h = ground arith
last_index-occurs (a ∷ s) sep (suc i) h = ground (arith, last_index-occurs s sep i)

pub split_first-Lacks : (c : ℕ) (s t : Text) → Lacks c s → (split_first c (s ++ c ∷ t)).0 ≡ s
unfolding split_first
split_first-Lacks c [] t h = ground arith
split_first-Lacks c (a ∷ s) t h = ground (arith, split_first-Lacks c s t h.1)

-- Cutting at the first separator is unambiguous where the parts before it lack it.
pub cut_injective :
    (c : ℕ) (s t s' t' : Text)
    → Lacks c s
    → Lacks c s'
    → s ++ c ∷ t ≡ s' ++ c ∷ t'
    → (s ≡ s') × (t ≡ t')
cut_injective c [] t [] t' h h' e = (refl, cc)
cut_injective c [] t (b ∷ s') t' h h' e = absurd (h'.0 (cc))
cut_injective c (a ∷ s) t [] t' h h' e = absurd (h.0 (cc))
cut_injective c (a ∷ s) t (b ∷ s') t' h h' e =
    let r = cut_injective c s t s' t' h.1 h'.1 (cc) in (cc (r.0), r.1)

pub length-le_of_has_prefix : (s p : Text) → has_prefix s p ≡ true → length p ≤ length s
unfolding has_prefix
length-le_of_has_prefix [] [] h = omega arith
length-le_of_has_prefix (a ∷ s) [] h = omega arith
length-le_of_has_prefix [] (b ∷ p) h = cc
length-le_of_has_prefix (a ∷ s) (b ∷ p) h = ground (arith, length-le_of_has_prefix s p)

-- A prefix occurs.
pub last_index_of_has_prefix :
    (s sep : Text) → has_prefix s sep ≡ true → (i : ℕ) × (last_index s sep ≡ some i)
unfolding last_index
last_index_of_has_prefix [] sep h = (0, ground arith)
last_index_of_has_prefix (a ∷ s) sep h = elim (Option-cases (last_index s sep)) [
  | inl e ↦ (0, ground arith)
  | inr (i, e) ↦ (suc i, ground arith)
]

-- From the last occurrence on there is no other.
pub last_index-drop :
    (s sep : Text) (i : ℕ) → last_index s sep ≡ some i → last_index (drop i s) sep ≡ some 0
unfolding last_index
last_index-drop [] sep zero h = h
last_index-drop [] sep (suc i) h = ground arith
last_index-drop (a ∷ s) sep zero h = h
last_index-drop (a ∷ s) sep (suc i) h = ground (arith, last_index-drop s sep i)
