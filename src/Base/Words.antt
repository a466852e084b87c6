-- ===== src/Base/Words.antt =====
-- Machine integers. An `int64_t` is its bit pattern, a number below 2 ^ 64 (two's complement), so a
-- cast between `int64_t` and `uint64_t` changes nothing; signed tests and sums are written out.
use Prim.Native.Nat.{ℕ, ◌+◌, ◌%◌, ◌^◌, ◌<◌}
use mathlib.Core.Path.{◌≡◌}
use mathlib.Core.Bool.{Bool}
use native.Mathlib.Omega.{arith}
use configraft.Base.Tests.{ltb, leb}

abbrev pub Int64 : Type 0
Int64 = ℕ

abbrev pub Int32 : Type 0
Int32 = ℕ

abbrev pub sign_bit : ℕ
sign_bit = 2 ^ 63

-- `v < 0`
abbrev pub is_negative : Int64 → Bool
is_negative v = leb sign_bit v

-- `v < 0` of an `int`
abbrev pub is_negative32 : Int32 → Bool
is_negative32 v = leb (2 ^ 31) v

-- `a < b` of signed integers: the order of the patterns with the sign bit flipped.
abbrev pub slt : Int64 → Int64 → Bool
slt a b = ltb ((a + sign_bit) % 2 ^ 64) ((b + sign_bit) % 2 ^ 64)

-- `a + 1`; where the source's sum would overflow, the pattern wraps.
abbrev pub increment : Int64 → Int64
increment v = (v + 1) % 2 ^ 64

-- On values that are not negative the signed order is that of the numbers.
pub slt-ltb : (a b : ℕ) → a < 2 ^ 63 → b < 2 ^ 63 → slt a b ≡ ltb a b
slt-ltb a b ha hb = ground arith
