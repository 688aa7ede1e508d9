-- ===== src/Base/Int.antt =====
-- Integers over the native numbers, and two's complement.
use Prim.Native.Nat.{ℕ, ◌-◌, ◌*◌, ◌%◌}
use mathlib.Core.Path.{◌≡◌}
use mathlib.Core.Bool.{Bool, true}
use native.Mathlib.Omega.{arith}
use gzb.Base.Tests.{ltb, if◌then◌else◌}

-- `negsuc n` is -(n + 1).
pub data ℤ : Type 0 where
  pos : ℕ → ℤ
  negsuc : ℕ → ℤ

-- The value of a bit pattern of which the top half stands for the negative numbers: `half` is
-- 2 ^ (bits - 1).
abbrev pub signed : ℕ → ℕ → ℤ
signed half b = if ltb b half then pos b else negsuc (2 * half - 1 - b)

-- The pattern of a value: a conversion to the unsigned type of the same width.
abbrev pub pattern_of : ℕ → ℤ → ℕ
pattern_of half (pos n) = n % (2 * half)
pattern_of half (negsuc n) = 2 * half - 1 - n % (2 * half)

-- Within the range of the width.
abbrev pub in_range : ℕ → ℤ → Bool
in_range half (pos n) = ltb n half
in_range half (negsuc n) = ltb n half

-- A value within the range of its width is read back from its pattern.
pub signed-pattern_of :
    (half : ℕ) (z : ℤ) → in_range half z ≡ true → signed half (pattern_of half z) ≡ z
signed-pattern_of half (pos n) h = grind (arith, native.Mathlib.Nat.mod-eq_of_lt)
signed-pattern_of half (negsuc n) h = grind (arith, native.Mathlib.Nat.mod-eq_of_lt)
