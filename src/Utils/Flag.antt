-- ===== src/Utils/Flag.antt =====
-- pkg/utils/flag.go: `WordSepNormalizeFunc`, by which flags are known under one name.
mod Tests
use external_crd.Prelude.{
  ◌≡◌, ◌==◌, refl, ap, ◌∙◌, sym, Bool, Bool-cases, true, false, inl, inr, [], ◌∷◌, arith, All,
  length, if◌then◌else◌,
}
use external_crd.Prelude.Text.{Text, contains_byte, Lacks}

-- strings.Replace(s, "_", "-", -1)
unfoldable pub dashed : Text → Text
dashed [] = []
dashed (a ∷ s) = (if a == b'_' then b'-' else a) ∷ dashed s

unfoldable pub word_sep_normalize_func : Text → Text
word_sep_normalize_func name = if contains_byte b'_' name then dashed name else name

dashed-Lacks : (s : Text) → Lacks b'_' (dashed s)
unfolding dashed
dashed-Lacks [] = tt
dashed-Lacks (a ∷ s) = (λ h. ground arith, dashed-Lacks s)

length-dashed : (s : Text) → length (dashed s) ≡ length s
unfolding dashed
length-dashed [] = refl
length-dashed (a ∷ s) = omega (arith, length-dashed s)

dashed-same : (s : Text) → contains_byte b'_' s ≡ false → dashed s ≡ s
unfolding dashed contains_byte
dashed-same [] h = refl
dashed-same (a ∷ s) h = ground (arith, dashed-same s)

word_sep-dashed : (s : Text) → word_sep_normalize_func s ≡ dashed s
unfolding word_sep_normalize_func
word_sep-dashed s = elim (Bool-cases (contains_byte b'_' s)) [
  | inl e ↦ rw e refl
  | inr e ↦ rw e (sym (dashed-same s e))
]

-- The normalised name of a flag has no "_", is as long as the name, and is its own normalised
-- name.
pub word_sep_normalize_func-Lacks :
    (s : Text)
    → Lacks b'_' (word_sep_normalize_func s)
      × (length (word_sep_normalize_func s) ≡ length s)
      × (word_sep_normalize_func (word_sep_normalize_func s) ≡ word_sep_normalize_func s)
unfolding dashed
word_sep_normalize_func-Lacks s =
    rw (word_sep-dashed s, word_sep-dashed (dashed s))
      (dashed-Lacks s, length-dashed s, dashed-twice s)
  where
    dashed-twice : (t : Text) → dashed (dashed t) ≡ dashed t
    dashed-twice [] = refl
    dashed-twice (a ∷ t) = ground (arith, dashed-twice t)
