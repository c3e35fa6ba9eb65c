-- ===== src/Prelude/Text.antt =====
-- Go strings as lists of bytes, and the functions of package `strings` that the program calls.
pub mod Laws
use Prim.Native.Char.{code}
use Prim.Native.String.{String}
use Prim.Native.Nat.{ℕ, suc}
use mathlib.Core.Logic.{◌≢◌}
use mathlib.Core.Bool.{Bool, true, false, ◌&&◌, ◌||◌}
use mathlib.Core.Option.{Option, none, some}
use mathlib.Core.List.{List, [], ◌∷◌, ◌++◌}
use external_crd.Prelude.Tests.{◌==◌, ltb, if◌then◌else◌}
use external_crd.Prelude.Lists.{All}

abbrev pub Text : Type 0
Text = List ℕ

-- The bytes of a literal, which is ASCII throughout the program.
unfoldable pub codes : String → Text
codes String.[] = []
codes (String.◌∷◌ c s) = code c ∷ codes s

-- s == t
unfoldable pub str_eq : Text → Text → Bool
str_eq [] [] = true
str_eq (a ∷ s) (b ∷ t) = a == b && str_eq s t
str_eq _ _ = false

-- len(s) == 0
unfoldable pub is_empty : Text → Bool
is_empty [] = true
is_empty (_ ∷ _) = false

-- strings.HasPrefix(s, prefix)
unfoldable pub has_prefix : Text → Text → Bool
has_prefix s [] = true
has_prefix [] (_ ∷ _) = false
has_prefix (a ∷ s) (b ∷ p) = a == b && has_prefix s p

-- strings.HasSuffix(s, suffix)
unfoldable pub has_suffix : Text → Text → Bool
has_suffix [] p = str_eq [] p
has_suffix (a ∷ s) p = str_eq (a ∷ s) p || has_suffix s p

-- strings.Contains(s, c) for a text `c` of one byte
unfoldable pub contains_byte : ℕ → Text → Bool
contains_byte c [] = false
contains_byte c (a ∷ s) = a == c || contains_byte c s

-- strings.LastIndex(s, sep); `none` is its -1
unfoldable pub last_index : Text → Text → Option ℕ
last_index [] sep = if has_prefix [] sep then some 0 else none
last_index (a ∷ s) sep = elim (last_index s sep) [
  | some i ↦ some (suc i)
  | none ↦ if has_prefix (a ∷ s) sep then some 0 else none
]

-- strings.Split(s, c) for a text `c` of one byte: the first part, and the other parts
unfoldable pub split_first : ℕ → Text → Text × List Text
split_first c [] = ([], [])
split_first c (a ∷ s) =
    let (first, rest) = split_first c s in if a == c then ([], first ∷ rest) else (a ∷ first, rest)

-- strings.Join(parts, sep)
unfoldable pub join : List Text → Text → Text
join [] sep = []
join (p ∷ []) sep = p
join (p ∷ q ∷ ps) sep = p ++ (sep ++ join (q ∷ ps) sep)

-- s < t, by bytes
unfoldable pub str_lt : Text → Text → Bool
str_lt [] [] = false
str_lt [] (_ ∷ _) = true
str_lt (_ ∷ _) [] = false
str_lt (a ∷ s) (b ∷ t) = let rest = str_lt s t in if a == b then rest else ltb a b

-- No byte of the text is `c`.
abbrev pub Lacks : ℕ → Text → Type 0
Lacks c = All (λ b. b ≢ c)
