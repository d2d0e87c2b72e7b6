-- ===== src/Common/GoMap.antt =====
-- A Go map as an association list with at most one entry for a key. The order of the list is the
-- order of no Go program: where the code ranges over a map, the order is a parameter.
use mathlib.Core.List.{List, [], ◌∷◌}
use mathlib.Core.Logic.{ite, if_pos}
use mathlib.Core.Option.{Option, none, some}
use mathlib.Core.Path.{◌≡◌, refl}
use native.Mathlib.Omega.{arith}

abbrev pub GoMap {ℓ} : Type ℓ → Type ℓ → Type ℓ
GoMap K V = List (K × V)

module _ {ℓ} {K V : Type ℓ} (dec : Discrete K) where
  -- `v, ok := m[k]`
  unfoldable pub lookup : K → GoMap K V → Option V
  lookup k [] = none
  lookup k ((j, v) ∷ m) = ite (dec j k) (some v) (lookup k m)

  -- `delete(m, k)`
  unfoldable pub delete : K → GoMap K V → GoMap K V
  delete k [] = []
  delete k ((j, v) ∷ m) = ite (dec j k) (delete k m) ((j, v) ∷ delete k m)

  -- `m[k] = v`
  unfoldable pub insert : K → V → GoMap K V → GoMap K V
  insert k v m = (k, v) ∷ delete k m

  -- No key has two entries.
  abbrev pub IsUnique : GoMap K V → Type ℓ
  IsUnique [] = Unit
  IsUnique ((j, v) ∷ m) = (lookup j m ≡ none) × IsUnique m

  pub lookup-delete :
      (k j : K) (m : GoMap K V) → lookup j (delete k m) ≡ ite (dec k j) none (lookup j m)
  unfolding lookup delete
  lookup-delete k j [] = ground arith
  lookup-delete k j ((i, v) ∷ m) = ground (arith, lookup-delete k j m)

  pub lookup-insert :
      (k j : K) (v : V) (m : GoMap K V)
      → lookup j (insert k v m) ≡ ite (dec k j) (some v) (lookup j m)
  unfolding lookup insert
  lookup-insert k j v m = ground (arith, lookup-delete k j m)

  pub delete-IsUnique : (k : K) (m : GoMap K V) → IsUnique m → IsUnique (delete k m)
  unfolding lookup delete
  delete-IsUnique k [] u = tt
  delete-IsUnique k ((i, v) ∷ m) u = ground (arith, delete-IsUnique k m u.1, lookup-delete k i m)

  pub insert-IsUnique : (k : K) (v : V) (m : GoMap K V) → IsUnique m → IsUnique (insert k v m)
  unfolding insert
  insert-IsUnique k v m u = (rw lookup-delete (if_pos (dec k k) refl _ _), delete-IsUnique k m u)

  pub delete_absent : (k : K) (m : GoMap K V) → lookup k m ≡ none → delete k m ≡ m
  unfolding lookup delete
  delete_absent k [] h = refl
  delete_absent k ((i, v) ∷ m) h = ground (arith, delete_absent k m)
