-- ===== src/Lru/Elements.antt =====
-- The list of elements of store/lru.go, read through the heap: what finding by key, removing,
-- moving and overwriting do to it.
use lcache.Common.{
  ℕ, ◌+◌, ◌<◌, ◌≡◌, refl, List, [], ◌∷◌, ◌++◌, Option, none, some, ite, true, false, arith, All,
  All-append,
}
use lcache.Value.{Key, key_eq}
use lcache.Lru.{Entry, cost, remove, contains, move_to_back, update}

-- The first element whose entry has the key.
unfoldable pub find : (ℕ → Entry) → Key → List ℕ → Option ℕ
find h k [] = none
find h k (i ∷ l) = ite (key_eq (h i).key k) (some i) (find h k l)

-- No two elements have one key.
abbrev pub Distinct : (ℕ → Entry) → List ℕ → Type 0
Distinct h [] = Unit
Distinct h (i ∷ l) = (find h (h i).key l ≡ none) × Distinct h l

-- The bytes that the entries take.
unfoldable pub total : (ℕ → Entry) → List ℕ → ℕ
total h [] = 0
total h (i ∷ l) = cost (h i) + total h l

module _ (h : ℕ → Entry) where
  pub key-find : (k : Key) (i : ℕ) (l : List ℕ) → find h k l ≡ some i → (h i).key ≡ k
  unfolding find
  key-find k i [] e = ground arith
  key-find k i (x ∷ l) e = ground (arith, key-find k i l)

  pub contains-find : (k : Key) (i : ℕ) (l : List ℕ) → find h k l ≡ some i → contains i l ≡ true
  unfolding find contains
  contains-find k i [] e = ground arith
  contains-find k i (x ∷ l) e = ground (arith, contains-find k i l)

  pub not-contains : (i : ℕ) (l : List ℕ) → find h (h i).key l ≡ none → contains i l ≡ false
  unfolding find contains
  not-contains i [] e = refl
  not-contains i (x ∷ l) e = ground (arith, not-contains i l)

  pub find-contains :
      (i : ℕ) (l : List ℕ) → Distinct h l → contains i l ≡ true → find h (h i).key l ≡ some i
  unfolding find contains
  find-contains i [] d e = ground arith
  find-contains i (x ∷ l) d e = ground (arith, find-contains i l d.1)

  find-remove-none :
      (k : Key) (i : ℕ) (l : List ℕ) → find h k l ≡ none → find h k (remove i l) ≡ none
  unfolding find remove
  find-remove-none k i [] e = refl
  find-remove-none k i (x ∷ l) e = ground (arith, find-remove-none k i l)

  -- An element that is removed takes its key with it, and no other.
  pub find-remove :
      (k j : Key) (i : ℕ) (l : List ℕ)
      → Distinct h l
      → find h k l ≡ some i
      → find h j (remove i l) ≡ ite (key_eq k j) none (find h j l)
  unfolding find remove
  find-remove k j i [] d e = ground arith
  find-remove k j i (x ∷ l) d e = ground (arith, find-remove k j i l d.1, key-find k i l)

  pub remove-Distinct : (i : ℕ) (l : List ℕ) → Distinct h l → Distinct h (remove i l)
  unfolding remove
  remove-Distinct i [] d = tt
  remove-Distinct i (x ∷ l) d =
      ground (arith, remove-Distinct i l d.1, find-remove-none (h x).key i l)

  pub total-remove :
      (k : Key) (i : ℕ) (l : List ℕ)
      → find h k l ≡ some i
      → total h (remove i l) + cost (h i) ≡ total h l
  unfolding find remove total
  total-remove k i [] e = ground arith
  total-remove k i (x ∷ l) e = ground (arith, total-remove k i l)

  pub find-append :
      (k : Key) (l : List ℕ) (i : ℕ)
      → find h k (l ++ i ∷ [])
        ≡ (elim (find h k l) [ some j ↦ some j | none ↦ ite (key_eq (h i).key k) (some i) none ])
  unfolding find
  find-append k [] i = refl
  find-append k (x ∷ l) i = ground (arith, find-append k l i)

  pub append-Distinct :
      (l : List ℕ) (i : ℕ) → Distinct h l → find h (h i).key l ≡ none → Distinct h (l ++ i ∷ [])
  unfolding find
  append-Distinct [] i d e = (refl, tt)
  append-Distinct (x ∷ l) i d e = ground (arith, append-Distinct l i d.1, find-append (h x).key l i)

  pub total-append : (l : List ℕ) (i : ℕ) → total h (l ++ i ∷ []) ≡ total h l + cost (h i)
  unfolding total
  total-append [] i = ground arith
  total-append (x ∷ l) i = ground (arith, total-append l i)

  pub find-move_to_back :
      (k j : Key) (i : ℕ) (l : List ℕ)
      → Distinct h l
      → find h k l ≡ some i
      → find h j (move_to_back i l) ≡ find h j l
  unfolding move_to_back
  find-move_to_back k j i l d e = ground (
    arith,
    contains-find k i l e,
    find-append j (remove i l) i,
    find-remove k j i l d e,
    key-find k i l e,
  )

  pub move_to_back-Distinct :
      (k : Key) (i : ℕ) (l : List ℕ)
      → Distinct h l
      → find h k l ≡ some i
      → Distinct h (move_to_back i l)
  unfolding move_to_back
  move_to_back-Distinct k i l d e = ground (
    arith,
    contains-find k i l e,
    append-Distinct (remove i l) i (remove-Distinct i l d),
    find-remove k k i l d e,
    key-find k i l e,
  )

  pub total-move_to_back :
      (k : Key) (i : ℕ) (l : List ℕ) → find h k l ≡ some i → total h (move_to_back i l) ≡ total h l
  unfolding move_to_back
  total-move_to_back k i l e =
      ground (arith, contains-find k i l e, total-append (remove i l) i, total-remove k i l e)

pub remove-All : (n i : ℕ) (l : List ℕ) → All (λ j. j < n) l → All (λ j. j < n) (remove i l)
unfolding remove
remove-All n i [] a = tt
remove-All n i (x ∷ l) a = ground (arith, remove-All n i l a.1)

pub contains-lt : (n i : ℕ) (l : List ℕ) → All (λ j. j < n) l → contains i l ≡ true → i < n
unfolding contains
contains-lt n i [] a e = ground arith
contains-lt n i (x ∷ l) a e = ground (arith, contains-lt n i l a.1)

pub move_to_back-All :
    (n i : ℕ) (l : List ℕ) → All (λ j. j < n) l → All (λ j. j < n) (move_to_back i l)
unfolding move_to_back
move_to_back-All n i l a =
    ground (
      arith,
      contains-lt n i l a,
      All-append (λ j. j < n) (remove i l) (i ∷ []) (remove-All n i l a),
    )

pub update_self : (h : ℕ → Entry) (i : ℕ) (e : Entry) → update h i e i ≡ e
unfolding update
update_self h i e = ground arith

-- Finding reads the keys alone.
module _ (h : ℕ → Entry) (i : ℕ) (e : Entry) where
  pub find-update :
      (k : Key) (l : List ℕ) → e.key ≡ (h i).key → find (update h i e) k l ≡ find h k l
  unfolding find update
  find-update k [] same = refl
  find-update k (x ∷ l) same = ground (arith, find-update k l same)

  pub update-Distinct : (l : List ℕ) → e.key ≡ (h i).key → Distinct h l → Distinct (update h i e) l
  unfolding update
  update-Distinct [] same d = tt
  update-Distinct (x ∷ l) same d =
      ground (arith, update-Distinct l same d.1, find-update (h x).key l same)

  total-update_absent : (l : List ℕ) → contains i l ≡ false → total (update h i e) l ≡ total h l
  unfolding total contains update
  total-update_absent [] c = refl
  total-update_absent (x ∷ l) c = ground (arith, total-update_absent l)

  pub total-update :
      (k : Key) (l : List ℕ)
      → Distinct h l
      → find h k l ≡ some i
      → total (update h i e) l + cost (h i) ≡ total h l + cost e
  unfolding find total update
  total-update k [] d f = ground arith
  total-update k (x ∷ l) d f =
      ground (arith, total-update k l d.1, total-update_absent l, not-contains h i l)

-- A fresh address is in no list.
module _ (h : ℕ → Entry) (n : ℕ) (e : Entry) where
  pub find-update_fresh :
      (k : Key) (l : List ℕ) → All (λ j. j < n) l → find (update h n e) k l ≡ find h k l
  unfolding find update
  find-update_fresh k [] a = refl
  find-update_fresh k (x ∷ l) a = ground (arith, find-update_fresh k l a.1)

  pub update_fresh-Distinct :
      (l : List ℕ) → All (λ j. j < n) l → Distinct h l → Distinct (update h n e) l
  unfolding update
  update_fresh-Distinct [] a d = tt
  update_fresh-Distinct (x ∷ l) a d =
      ground (arith, update_fresh-Distinct l a.1 d.1, find-update_fresh (h x).key l a.1)

  pub total-update_fresh : (l : List ℕ) → All (λ j. j < n) l → total (update h n e) l ≡ total h l
  unfolding total update
  total-update_fresh [] a = refl
  total-update_fresh (x ∷ l) a = ground (arith, total-update_fresh l a.1)
