-- ===== src/Level/Order.antt =====
-- The nodes of a level of store/lru2.go in the order of the ring, most recent first.
use lcache.Common.{
  ℕ, zero, suc, ◌+◌, ◌≡◌, refl, sym, ap, ◌∙◌, List, [], ◌∷◌, ◌++◌, map, Option, none, some, ite,
  arith,
}
use lcache.Value.{Key, key_eq}

-- The first index whose node has the key.
unfoldable pub locate : (ℕ → Key) → Key → List ℕ → Option ℕ
locate κ k [] = none
locate κ k (i ∷ xs) = ite (key_eq (κ i) k) (some i) (locate κ k xs)

abbrev pub Distinct : (ℕ → Key) → List ℕ → Type 0
Distinct κ [] = Unit
Distinct κ (i ∷ xs) = (locate κ (κ i) xs ≡ none) × Distinct κ xs

module _ (κ : ℕ → Key) where
  pub key-locate : (k : Key) (i : ℕ) (xs : List ℕ) → locate κ k xs ≡ some i → κ i ≡ k
  unfolding locate
  key-locate k i [] e = ground arith
  key-locate k i (x ∷ xs) e = ground (arith, key-locate k i xs)

  -- Where the index stands.
  pub locate_split :
      (k : Key) (i : ℕ) (xs : List ℕ)
      → locate κ k xs ≡ some i
      → (ys : List ℕ) × (zs : List ℕ) × (xs ≡ ys ++ i ∷ zs)
  unfolding locate
  locate_split k i [] e = absurd (ground arith)
  locate_split k i (x ∷ xs) e = elim (key_eq (κ x) k) [
    | yes p ↦ ([], xs, ground arith)
    | no p ↦ let (ys, zs, q) = locate_split k i xs (ground arith) in (x ∷ ys, zs, ap (◌∷◌ x) q)
  ]

  pub locate_middle :
      (k : Key) (xs : List ℕ) (i : ℕ) (ys : List ℕ)
      → Distinct κ (xs ++ i ∷ ys)
      → locate κ k (xs ++ i ∷ ys) ≡ ite (key_eq (κ i) k) (some i) (locate κ k (xs ++ ys))
  unfolding locate
  locate_middle k [] i ys d = refl
  locate_middle k (x ∷ xs) i ys d =
      ground (arith, locate_middle k xs i ys d.1, locate_middle (κ x) xs i ys d.1)

  pub Distinct-middle :
      (xs : List ℕ) (i : ℕ) (ys : List ℕ)
      → Distinct κ (xs ++ i ∷ ys)
      → (locate κ (κ i) (xs ++ ys) ≡ none) × Distinct κ (xs ++ ys)
  unfolding locate
  Distinct-middle [] i ys d = d
  Distinct-middle (x ∷ xs) i ys d =
      ground (arith, Distinct-middle xs i ys d.1, locate_middle (κ x) xs i ys d.1)

  pub locate_last :
      (k : Key) (xs : List ℕ) (i : ℕ)
      → locate κ (κ i) xs ≡ none
      → locate κ k (xs ++ i ∷ []) ≡ ite (key_eq (κ i) k) (some i) (locate κ k xs)
  unfolding locate
  locate_last k [] i e = refl
  locate_last k (x ∷ xs) i e = ground (arith, locate_last k xs i)

  pub Distinct-last :
      (xs : List ℕ) (i : ℕ) → locate κ (κ i) xs ≡ none → Distinct κ xs → Distinct κ (xs ++ i ∷ [])
  unfolding locate
  Distinct-last [] i e d = (refl, tt)
  Distinct-last (x ∷ xs) i e d = ground (arith, Distinct-last xs i, locate_last (κ x) xs i)

-- Changing the key of an index that is not there, or to the key that it has, finds the same.
pub locate-congr :
    (κ κ' : ℕ → Key) (k : Key) (xs : List ℕ)
    → lcache.Common.All (λ i. κ i ≡ κ' i) xs
    → locate κ k xs ≡ locate κ' k xs
unfolding locate
locate-congr κ κ' k [] h = refl
locate-congr κ κ' k (x ∷ xs) h = rw (h.0, locate-congr κ κ' k xs h.1)
