-- ===== src/Common/Families.antt =====
-- Families `ℕ → A`, such as a heap or the goroutines of a program, with one member changed.
use Prim.Native.Nat.{ℕ}
use mathlib.Core.Path.{◌≡◌}
use mathlib.Core.Logic.{◌≢◌, ite, if_pos, if_neg}
use native.Mathlib.Decide.{ℕ_discrete}
use lcache.Common.Tests.{ite-cases}

abbrev pub assign {ℓ} : {A : Type ℓ} → (ℕ → A) → ℕ → A → ℕ → A
assign f i a j = ite (ℕ_discrete i j) a (f j)

module _ {ℓ} {A : Type ℓ} (f : ℕ → A) (i : ℕ) (a : A) where
  pub assign-cases {κ} :
      (P : A → Type κ) (j : ℕ) → (i ≡ j → P a) → (i ≢ j → P (f j)) → P (assign f i a j)
  assign-cases P j same other = ite-cases P (ℕ_discrete i j) a (f j) same other

  pub assign-at : (j : ℕ) → i ≡ j → assign f i a j ≡ a
  assign-at j e = if_pos (ℕ_discrete i j) e _ _

  pub assign_other : (j : ℕ) → i ≢ j → assign f i a j ≡ f j
  assign_other j h = if_neg (ℕ_discrete i j) h _ _
