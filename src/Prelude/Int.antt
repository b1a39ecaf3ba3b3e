-- ===== src/Prelude/Int.antt =====
-- Signed integers over the native numbers, and the range of a signed word of 64 bits.
use Prim.Native.Nat.{ℕ, zero, suc, ◌+◌, ◌≤◌}
use mathlib.Core.Bool.{Bool}
use nslc.Prelude.Tests.{ltb}

-- `negsuc n` is -(n + 1).
pub data ℤ : Type 0 where
  pos : ℕ → ℤ
  negsuc : ℕ → ℤ

abbrev pub pos_part : ℤ → ℕ
pos_part (pos n) = n
pos_part (negsuc n) = 0

abbrev pub neg_part : ℤ → ℕ
neg_part (pos n) = 0
neg_part (negsuc n) = suc n

abbrev pub ltb_ℤ : ℤ → ℤ → Bool
ltb_ℤ a b = ltb (pos_part a + neg_part b) (pos_part b + neg_part a)

abbrev pub negate : ℤ → ℤ
negate (pos zero) = pos zero
negate (pos (suc n)) = negsuc n
negate (negsuc n) = pos (suc n)

abbrev pub int64_max : ℤ
int64_max = pos 9223372036854775807

abbrev pub int64_min : ℤ
int64_min = negsuc 9223372036854775807

abbrev pub IsInt64 : ℤ → Type 0
IsInt64 (pos n) = n ≤ 9223372036854775807
IsInt64 (negsuc n) = n ≤ 9223372036854775807
