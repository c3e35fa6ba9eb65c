-- ===== src/Prelude/Int.antt =====
-- Signed machine integers whose values the program only stores and compares, over the native
-- numbers.
use mathlib.Core.Bool.{Bool}
use external_crd.Prelude.Tests.{ltb}
use Prim.Native.Nat.{ℕ, suc, ◌+◌}

-- `negsuc n` is -(n + 1).
pub data ℤ : Type 0 where
  pos : ℕ → ℤ
  negsuc : ℕ → ℤ

abbrev pub pos_part : ℤ → ℕ
pos_part (pos n) = n
pos_part (negsuc n) = 0

abbrev pub neg_part : ℤ → ℕ
neg_part (pos n) = 0
neg_part (negsuc n) = suc n

-- a < b
abbrev pub ltb_ℤ : ℤ → ℤ → Bool
ltb_ℤ a b = ltb (pos_part a + neg_part b) (pos_part b + neg_part a)
