-- ===== src/Common/Words.antt =====
-- Go's fixed-width integers as bit patterns: an `int64` is the number of its bits, below 2 ^ 64,
-- and one at 2 ^ 63 or above is negative.
use Prim.Native.Nat.{ℕ, ◌+◌, ◌-◌, ◌%◌, ◌^◌, ◌≤◌}
use mathlib.Core.Path.{◌≡◌}
use mathlib.Core.Bool.{Bool}
use native.Mathlib.Omega.{arith}
use lcache.Common.Tests.{ltb, leb}

abbrev pub max_int64 : ℕ
max_int64 = 2 ^ 63 - 1

-- `int64(n)` for an int that is at least 0
abbrev pub to_int64 : ℕ → ℕ
to_int64 n = n % 2 ^ 64

-- `a + b`
abbrev pub add64 : ℕ → ℕ → ℕ
add64 a b = (a + b) % 2 ^ 64

-- `a - b`
abbrev pub sub64 : ℕ → ℕ → ℕ
sub64 a b = (a + (2 ^ 64 - b % 2 ^ 64)) % 2 ^ 64

-- `a > b`, of signed integers: the order of the patterns with the sign bit flipped
abbrev pub gt64 : ℕ → ℕ → Bool
gt64 a b = ltb ((b + 2 ^ 63) % 2 ^ 64) ((a + 2 ^ 63) % 2 ^ 64)

-- `a >= b`
abbrev pub ge64 : ℕ → ℕ → Bool
ge64 a b = leb ((b + 2 ^ 63) % 2 ^ 64) ((a + 2 ^ 63) % 2 ^ 64)

pub gt64_small : (a b : ℕ) → a ≤ max_int64 → b ≤ max_int64 → gt64 a b ≡ ltb b a
gt64_small a b ha hb = ground arith
