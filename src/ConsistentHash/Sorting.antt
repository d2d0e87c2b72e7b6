-- ===== src/ConsistentHash/Sorting.antt =====
-- What consistenthash/con_hash.go does with a slice of ints: `sort.Ints`, an index, and the removal of
-- the first occurrence.
use lcache.Common.{
  ℕ, zero, suc, ◌≤◌, ◌<◌, ◌≡◌, ◌≢◌, refl, ◌∙◌, ite-cases, ◌⊎◌, inl, inr, List, [], ◌∷◌, ite, arith,
  All, length, All-mono, Elem, ℕ_discrete, dec_le,
}

abbrev pub get_or : List ℕ → ℕ → ℕ → ℕ
get_or [] i d = d
get_or (x ∷ xs) zero d = x
get_or (x ∷ xs) (suc i) d = get_or xs i d

unfoldable pub remove_first : ℕ → List ℕ → List ℕ
remove_first y [] = []
remove_first y (x ∷ xs) = ite (ℕ_discrete x y) xs (x ∷ remove_first y xs)

unfoldable pub put_sorted : ℕ → List ℕ → List ℕ
put_sorted y [] = y ∷ []
put_sorted y (x ∷ xs) = ite (dec_le y x) (y ∷ x ∷ xs) (x ∷ put_sorted y xs)

-- `sort.Ints`
unfoldable pub sort : List ℕ → List ℕ
sort [] = []
sort (x ∷ xs) = put_sorted x (sort xs)

abbrev pub IsSorted : List ℕ → Type 0
IsSorted [] = Unit
IsSorted (x ∷ xs) = All (λ y. x ≤ y) xs × IsSorted xs

-- Sorting keeps what holds of all, what is there, and puts it in order.
pub All-put_sorted {κ} :
    (P : ℕ → Type κ) (y : ℕ) (xs : List ℕ) → P y → All P xs → All P (put_sorted y xs)
unfolding put_sorted
All-put_sorted P y [] h hs = (h, tt)
All-put_sorted P y (x ∷ xs) h hs =
    ite-cases (All P) (dec_le y x) (y ∷ x ∷ xs) (x ∷ put_sorted y xs) (λ p. (h, hs))
      (λ p. (hs.0, All-put_sorted P y xs h hs.1))

pub All-sort {κ} : (P : ℕ → Type κ) (xs : List ℕ) → All P xs → All P (sort xs)
unfolding sort
All-sort P [] h = tt
All-sort P (x ∷ xs) h = All-put_sorted P x (sort xs) h.0 (All-sort P xs h.1)

Elem-put_sorted : (z y : ℕ) (xs : List ℕ) → (z ≡ y) ⊎ Elem z xs → Elem z (put_sorted y xs)
unfolding put_sorted
Elem-put_sorted z y [] m = m
Elem-put_sorted z y (x ∷ xs) m =
    ite-cases (Elem z) (dec_le y x) (y ∷ x ∷ xs) (x ∷ put_sorted y xs) (λ p. m)
      (λ p. elim m [
        | inl e ↦ inr (Elem-put_sorted z y xs (inl e))
        | inr (inl e) ↦ inl e
        | inr (inr h) ↦ inr (Elem-put_sorted z y xs (inr h))
      ])

pub Elem-sort : (z : ℕ) (xs : List ℕ) → Elem z xs → Elem z (sort xs)
unfolding sort
Elem-sort z [] m = elim m [ ]
Elem-sort z (x ∷ xs) (inl e) = Elem-put_sorted z x (sort xs) (inl e)
Elem-sort z (x ∷ xs) (inr m) = Elem-put_sorted z x (sort xs) (inr (Elem-sort z xs m))

put_sorted-IsSorted : (y : ℕ) (xs : List ℕ) → IsSorted xs → IsSorted (put_sorted y xs)
unfolding put_sorted
put_sorted-IsSorted y [] s = (tt, tt)
put_sorted-IsSorted y (x ∷ xs) s =
    ite-cases IsSorted (dec_le y x) (y ∷ x ∷ xs) (x ∷ put_sorted y xs)
      (λ p. ((p, All-mono (λ z. x ≤ z) (λ z. y ≤ z) xs (λ z h. omega arith) s.0), s))
      (λ p. (All-put_sorted (λ z. x ≤ z) y xs (omega arith) s.0, put_sorted-IsSorted y xs s.1))

pub sort-IsSorted : (xs : List ℕ) → IsSorted (sort xs)
unfolding sort
sort-IsSorted [] = tt
sort-IsSorted (x ∷ xs) = put_sorted-IsSorted x (sort xs) (sort-IsSorted xs)

-- Removing the first occurrence.
pub All-remove_first {κ} :
    (P : ℕ → Type κ) (y : ℕ) (xs : List ℕ) → All P xs → All P (remove_first y xs)
unfolding remove_first
All-remove_first P y [] h = tt
All-remove_first P y (x ∷ xs) h =
    ite-cases (All P) (ℕ_discrete x y) xs (x ∷ remove_first y xs) (λ p. h.1)
      (λ p. (h.0, All-remove_first P y xs h.1))

pub Elem-remove_first : (z y : ℕ) (xs : List ℕ) → z ≢ y → Elem z xs → Elem z (remove_first y xs)
unfolding remove_first
Elem-remove_first z y [] d m = elim m [ ]
Elem-remove_first z y (x ∷ xs) d m =
    ite-cases (Elem z) (ℕ_discrete x y) xs (x ∷ remove_first y xs)
      (λ p. elim m [ inl e ↦ absurd (d (e ∙ p)) | inr h ↦ h ])
      (λ p. elim m [ inl e ↦ inl e | inr h ↦ inr (Elem-remove_first z y xs d h) ])

pub remove_first-IsSorted : (y : ℕ) (xs : List ℕ) → IsSorted xs → IsSorted (remove_first y xs)
unfolding remove_first
remove_first-IsSorted y [] s = tt
remove_first-IsSorted y (x ∷ xs) s =
    ite-cases IsSorted (ℕ_discrete x y) xs (x ∷ remove_first y xs) (λ p. s.1)
      (λ p. (All-remove_first (λ z. x ≤ z) y xs s.0, remove_first-IsSorted y xs s.1))

-- A sorted list by its indices.
pub All-get_or {κ} :
    (P : ℕ → Type κ) (xs : List ℕ) (i : ℕ) → All P xs → i < length xs → P (get_or xs i 0)
All-get_or P [] i h b = absurd (omega arith)
All-get_or P (x ∷ xs) zero h b = h.0
All-get_or P (x ∷ xs) (suc i) h b = All-get_or P xs i h.1 (omega arith)

pub All-from-get_or {κ} :
    (P : ℕ → Type κ) (xs : List ℕ) → ((i : ℕ) → i < length xs → P (get_or xs i 0)) → All P xs
All-from-get_or P [] f = tt
All-from-get_or P (x ∷ xs) f =
    (f 0 (omega arith), All-from-get_or P xs (λ i b. f (suc i) (omega arith)))

pub Elem-get_or : (xs : List ℕ) (i : ℕ) → i < length xs → Elem (get_or xs i 0) xs
Elem-get_or [] i b = absurd (omega arith)
Elem-get_or (x ∷ xs) zero b = inl refl
Elem-get_or (x ∷ xs) (suc i) b = inr (Elem-get_or xs i (omega arith))

pub get_or_mono :
    (xs : List ℕ) (i j : ℕ) → IsSorted xs → i ≤ j → j < length xs → get_or xs i 0 ≤ get_or xs j 0
get_or_mono [] i j s h b = absurd (omega arith)
get_or_mono (x ∷ xs) zero zero s h b = omega arith
get_or_mono (x ∷ xs) zero (suc j) s h b = All-get_or (λ y. x ≤ y) xs j s.0 (omega arith)
get_or_mono (x ∷ xs) (suc i) zero s h b = absurd (omega arith)
get_or_mono (x ∷ xs) (suc i) (suc j) s h b = get_or_mono xs i j s.1 (omega arith) (omega arith)
