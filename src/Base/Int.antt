-- ===== src/Base/Int.antt =====
-- Signed integers over the native numbers, and the machine's 64-bit `int`.
use Prim.Native.Nat.{ℕ, suc, ◌+◌, ◌-◌, ◌*◌, ◌%◌, ◌^◌, ◌≤◌}
use Prim.Native.String.{String, ◌++◌}
use mathlib.Core.Bool.{Bool}
use architecture_playground.Base.Tests.{ltb, leb, if◌then◌else◌}
use architecture_playground.Base.Texts.{show_nat}

-- `negsuc n` is -(n + 1).
pub data ℤ : Type 0 where
  pos : ℕ → ℤ
  negsuc : ℕ → ℤ

abbrev pub pos_part : ℤ → ℕ
pos_part (pos n) = n
pos_part (negsuc n) = 0

abbrev pub neg_part : ℤ → ℕ
neg_part (pos n) = 0
neg_part (negsuc n) = suc n

infix 50 ◌≤ℤ◌
abbrev pub ◌≤ℤ◌ : ℤ → ℤ → Type 0
a ≤ℤ b = pos_part a + neg_part b ≤ pos_part b + neg_part a

abbrev pub leb_ℤ : ℤ → ℤ → Bool
leb_ℤ a b = leb (pos_part a + neg_part b) (pos_part b + neg_part a)

-- `%d`
unfoldable pub show_int : ℤ → String
unfolding show_nat
show_int (pos n) = show_nat n
show_int (negsuc n) = "-" ++ show_nat (suc n)

-- The 64-bit integer whose bit pattern is n.
abbrev pub of_bits64 : ℕ → ℤ
of_bits64 n = let m = n % 2 ^ 64 in if ltb m (2 ^ 63) then pos m else negsuc (2 ^ 64 - m - 1)

-- `a * k` in 64-bit arithmetic, for a factor k that is not negative.
unfoldable pub mul64 : ℤ → ℕ → ℤ
mul64 (pos n) k = of_bits64 (n * k)
mul64 (negsuc n) k = of_bits64 (2 ^ 64 - suc n * k % 2 ^ 64)
