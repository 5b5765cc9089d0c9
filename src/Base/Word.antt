-- ===== src/Base/Word.antt =====
-- Go's `int64` (and `int`, on the 64-bit platforms that the program is built for) as its bit
-- pattern, a number below 2^64. Sums and differences wrap, comparisons read the sign.
use Prim.Native.Nat.{ℕ, ◌+◌, ◌-◌, ◌%◌, ◌^◌, ◌≤◌, ◌<◌}
use mathlib.Core.Path.{◌≡◌}
use mathlib.Core.Bool.{Bool}
use native.Mathlib.Omega.{arith}
use unpacker.Base.Tests.{ltb}

abbrev pub I64 : Type 0
I64 = ℕ

abbrev pub modulus : ℕ
modulus = 2 ^ 64

-- 2^63: the patterns from here on stand for negative numbers.
abbrev pub sign_bit : ℕ
sign_bit = 2 ^ 63

abbrev pub max_i64 : I64
max_i64 = 2 ^ 63 - 1

unfoldable pub add_i64 : I64 → I64 → I64
add_i64 a b = (a + b) % modulus

unfoldable pub sub_i64 : I64 → I64 → I64
sub_i64 a b = (a + modulus - b) % modulus

-- `a < b` on the integers that the patterns stand for.
unfoldable pub lt_i64 : I64 → I64 → Bool
lt_i64 a b = ltb ((a + sign_bit) % modulus) ((b + sign_bit) % modulus)

-- Not negative.
abbrev pub IsNat : I64 → Type 0
IsNat a = a < sign_bit

pub lt_i64-nat : (a b : I64) → IsNat a → IsNat b → lt_i64 a b ≡ ltb a b
unfolding lt_i64
lt_i64-nat a b ha hb = ground arith

pub sub_i64-nat : (a b : I64) → IsNat a → b ≤ a → sub_i64 a b ≡ a - b
unfolding sub_i64
sub_i64-nat a b ha h = omega arith

pub add_i64-nat : (a b : I64) → a + b < modulus → add_i64 a b ≡ a + b
unfolding add_i64
add_i64-nat a b h = omega arith
