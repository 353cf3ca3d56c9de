-- ===== src/Common/Int.antt =====
-- Signed integers over the native numbers, under the library's names (its ℤ stands on another ℕ),
-- and Go's conversions between the 64-bit `uint64` and `int`.
use mathlib.Core.Bool.{Bool, true, false}
use redis_agent.Common.Tests.{◌==◌, ltb, leb, if◌then◌else◌}
use Prim.Native.Nat.{ℕ, suc, ◌+◌, ◌-◌, ◌%◌, ◌^◌}

-- `negsuc n` is -(n + 1).
pub data ℤ : Type 0 where
  pos : ℕ → ℤ
  negsuc : ℕ → ℤ

abbrev pub pos_part : ℤ → ℕ
pos_part (pos n) = n
pos_part (negsuc n) = 0

abbrev pub neg_part : ℤ → ℕ
neg_part (pos n) = 0
neg_part (negsuc n) = suc n

-- a - b, as an integer.
abbrev pub sub_ℕ : ℕ → ℕ → ℤ
sub_ℕ a b = if leb b a then pos (a - b) else negsuc (b - a - 1)

-- The signed reading of a w-bit pattern: `int8(b)`, `int16(v)`, `int32(v)`, `int64(v)`.
abbrev pub signed : ℕ → ℕ → ℤ
signed w v = if ltb v (2 ^ (w - 1)) then pos v else negsuc (2 ^ w - v - 1)

-- `int(n)` of a `uint64`; `int` has 64 bits.
abbrev pub int_of_u64 : ℕ → ℤ
int_of_u64 = signed 64

-- The rounds of `for i := 0; i < size; i++`.
abbrev pub rounds : ℤ → ℕ
rounds (pos n) = n
rounds (negsuc n) = 0

-- The 64-bit pattern of an `int64`, and sums that wrap around.
abbrev pub word64 : ℤ → ℕ
word64 (pos n) = n % 2 ^ 64
word64 (negsuc n) = 2 ^ 64 - 1 - n % 2 ^ 64

unfoldable pub add64 : ℤ → ℤ → ℤ
add64 a b = signed 64 ((word64 a + word64 b) % 2 ^ 64)

unfoldable pub sub64 : ℤ → ℤ → ℤ
sub64 a b = signed 64 ((word64 a + (2 ^ 64 - word64 b)) % 2 ^ 64)

abbrev pub is_zero : ℤ → Bool
is_zero (pos n) = n == 0
is_zero (negsuc n) = false

abbrev pub is_negative : ℤ → Bool
is_negative (pos n) = false
is_negative (negsuc n) = true
