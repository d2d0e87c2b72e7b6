-- ===== src/Common/Floats.antt =====
-- float64, which no type here has: a type with the operations that the program uses. An int64 is its
-- bit pattern.
use Prim.Native.Nat.{ℕ}
use mathlib.Core.Bool.{Bool}

pub record Float64 (F : Type 0) : Type 0 where
  pub of_int : ℕ → F
  pub to_int : F → ℕ
  pub sub : F → F → F
  pub mul : F → F → F
  pub div : F → F → F
  pub abs : F → F
  pub gt : F → F → Bool
