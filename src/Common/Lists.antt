-- ===== src/Common/Lists.antt =====
-- Lists measured by native numbers, under the library's names, and predicates over them.
use Prim.Native.Nat.{ℕ, suc, ◌+◌, ◌<◌}
use mathlib.Core.Path.{◌≡◌, refl, sym, subst}
use mathlib.Core.Logic.{◌⊎◌, inl, inr}
use mathlib.Core.List.{List, [], ◌∷◌, ◌++◌}
use native.Mathlib.Omega.{arith}

module _ {ℓ} {A : Type ℓ} where
  abbrev pub length : List A → ℕ
  length [] = 0
  length (x ∷ xs) = suc (length xs)

  pub length-append : (xs ys : List A) → length (xs ++ ys) ≡ length xs + length ys
  length-append [] ys = omega arith
  length-append (x ∷ xs) ys = omega (arith, length-append xs ys)

  -- A predicate by recursion computes to tuples, which the tactics read and build.
  abbrev pub All {κ} : (A → Type κ) → List A → Type κ
  All P [] = Unit
  All P (x ∷ xs) = P x × All P xs

-- Membership by recursion, which is taken apart by cases.
abbrev pub Elem : {A : Type 0} → A → List A → Type 0
Elem z [] = ⊥
Elem z (x ∷ xs) = (z ≡ x) ⊎ Elem z xs

pub All-Elem {κ} : {A : Type 0} (P : A → Type κ) (xs : List A) (z : A) → All P xs → Elem z xs → P z
All-Elem P [] z h m = elim m [ ]
All-Elem P (x ∷ xs) z h (inl e) = subst P (sym e) h.0
All-Elem P (x ∷ xs) z h (inr m) = All-Elem P xs z h.1 m

pub Elem-length : {A : Type 0} (z : A) (xs : List A) → Elem z xs → 0 < length xs
Elem-length z [] m = elim m [ ]
Elem-length z (x ∷ xs) m = omega arith

pub All-from-Elem {κ} :
    {A : Type 0} (P : A → Type κ) (xs : List A) → ((z : A) → Elem z xs → P z) → All P xs
All-from-Elem P [] f = tt
All-from-Elem P (x ∷ xs) f = (f x (inl refl), All-from-Elem P xs (λ z m. f z (inr m)))

pub Elem-append : {A : Type 0} (z : A) (xs ys : List A) → Elem z (xs ++ ys) → Elem z xs ⊎ Elem z ys
Elem-append z [] ys m = inr m
Elem-append z (x ∷ xs) ys (inl e) = inl (inl e)
Elem-append z (x ∷ xs) ys (inr m) = elim (Elem-append z xs ys m) [
  | inl h ↦ inl (inr h)
  | inr h ↦ inr h
]

pub Elem-append_left : {A : Type 0} (z : A) (xs ys : List A) → Elem z xs → Elem z (xs ++ ys)
Elem-append_left z [] ys m = elim m [ ]
Elem-append_left z (x ∷ xs) ys (inl e) = inl e
Elem-append_left z (x ∷ xs) ys (inr m) = inr (Elem-append_left z xs ys m)

pub All-prefix {ℓ κ} : {A : Type ℓ} (P : A → Type κ) (xs ys : List A) → All P (xs ++ ys) → All P xs
All-prefix P [] ys h = tt
All-prefix P (x ∷ xs) ys h = (h.0, All-prefix P xs ys h.1)

pub All-append {ℓ κ} :
    {A : Type ℓ} (P : A → Type κ) (xs ys : List A) → All P xs → All P ys → All P (xs ++ ys)
All-append P [] ys hx hy = hy
All-append P (x ∷ xs) ys hx hy = (hx.0, All-append P xs ys hx.1 hy)

pub All-mono {ℓ κ μ} :
    {A : Type ℓ} (P : A → Type κ) (Q : A → Type μ) (xs : List A)
    → ((x : A) → P x → Q x)
    → All P xs
    → All Q xs
All-mono P Q [] f h = tt
All-mono P Q (x ∷ xs) f h = (f x h.0, All-mono P Q xs f h.1)
