-- ===== src/ConsistentHash/Nearest.antt =====
-- What `Get` of consistenthash/con_hash.go looks for: the first virtual node clockwise from a hash.
use lcache.Common.{
  ℕ, zero, suc, ◌+◌, ◌-◌, ◌/◌, ◌≤◌, ◌<◌, ◌≡◌, ◌≢◌, refl, inl, inr, Bool, true, false, List, [], ◌∷◌,
  arith, All, Elem, All-Elem, All-from-Elem, length, leb, ◌==◌, if◌then◌else◌, Bool-cases, dec_lt,
  lt→ltb, ge→ltb, leb→le, leb→gt, ==_eq, ==_ne, dec_le,
}
use native.Mathlib.Nat.{le_trans}
use lcache.ConsistentHash.Sorting.{
  get_or, remove_first, sort, IsSorted, All-sort, Elem-sort, All-remove_first, Elem-remove_first,
  All-from-get_or, Elem-get_or, get_or_mono,
}
use lcache.Value.{Key}
use lcache.ConsistentHash.{Map, node_at, search, place, get}

-- Clockwise from the hash, `x` comes no later than `y`: those from the hash up are before those below.
unfoldable pub is_before : (hash x y : ℕ) → Bool
is_before hash x y =
    if leb hash x
    then (if leb hash y then leb x y else true)
    else (if leb hash y then false else leb x y)

-- `x` is on the ring, and no other place is before it.
abbrev pub IsNearest : (hash x : ℕ) → List ℕ → Type 0
IsNearest hash x keys = Elem x keys × All (λ y. is_before hash x y ≡ true) keys

before_antisym : (hash x y : ℕ) → is_before hash x y ≡ true → is_before hash y x ≡ true → x ≡ y
unfolding is_before
before_antisym hash x y h k = ground arith

pub IsNearest-unique :
    (hash x y : ℕ) (keys : List ℕ) → IsNearest hash x keys → IsNearest hash y keys → x ≡ y
IsNearest-unique hash x y keys p q =
    before_antisym hash x y (All-Elem _ keys y p.1 q.0) (All-Elem _ keys x q.1 p.0)

pub IsNearest-length : (hash x : ℕ) (keys : List ℕ) → IsNearest hash x keys → 0 < length keys
IsNearest-length hash x [] p = elim p.0 [ ]
IsNearest-length hash x (y ∷ keys) p = omega arith

-- The order of the list does not matter, nor what is removed elsewhere.
pub IsNearest-sort :
    (hash x : ℕ) (keys : List ℕ) → IsNearest hash x keys → IsNearest hash x (sort keys)
IsNearest-sort hash x keys p = (Elem-sort x keys p.0, All-sort _ keys p.1)

pub IsNearest-unsort :
    (hash x : ℕ) (keys : List ℕ) → IsNearest hash x (sort keys) → IsNearest hash x keys
IsNearest-unsort hash x keys p = (
  All-Elem (λ z. Elem z keys) (sort keys) x
      (All-sort _ keys (All-from-Elem (λ z. Elem z keys) keys (λ z e. e))) p.0,
  All-from-Elem _ keys (λ z e. All-Elem _ (sort keys) z p.1 (Elem-sort z keys e)),
)

pub IsNearest-remove_first :
    (hash x y : ℕ) (keys : List ℕ)
    → x ≢ y
    → IsNearest hash x keys
    → IsNearest hash x (remove_first y keys)
IsNearest-remove_first hash x y keys d p =
    (Elem-remove_first x y keys d p.0, All-remove_first _ y keys p.1)

-- The binary search ends, with its fuel, at the place that splits the list at the hash.
record Splits (keys : List ℕ) (hash r : ℕ) : Type 0 where
  within : r ≤ length keys
  below : (i : ℕ) → i < r → get_or keys i 0 < hash
  above : (i : ℕ) → r ≤ i → i < length keys → hash ≤ get_or keys i 0

search-Splits :
    (fuel : ℕ) (keys : List ℕ) (hash i j : ℕ)
    → IsSorted keys
    → i ≤ j
    → j ≤ length keys
    → j - i ≤ fuel
    → ((k : ℕ) → k < i → get_or keys k 0 < hash)
    → ((k : ℕ) → j ≤ k → k < length keys → hash ≤ get_or keys k 0)
    → Splits keys hash (search fuel keys hash i j)
unfolding search
search-Splits zero keys hash i j s h b m low high = record {
  within = omega arith;
  below = low;
  above = λ k p q. high k (omega arith) q;
}
search-Splits (suc fuel) keys hash i j s h b m low high =
    let mid = (i + j) / 2 in
    elim (dec_lt i j) [
      | no e ↦
          rw (ge→ltb i j (omega arith))
            (record { within = omega arith; below = low; above = λ k p q. high k (omega arith) q })
      | yes lt ↦ rw (lt→ltb i j lt) (elim (Bool-cases (leb hash (get_or keys mid 0))) [
        | inl e ↦ rw e (
            search-Splits fuel keys hash i mid s (omega arith) (omega arith) (omega arith) low
              (λ k p q.
                le_trans (leb→le hash (get_or keys mid 0) e) (get_or_mono keys mid k s p q)))
        | inr e ↦ rw e (
            search-Splits fuel keys hash (mid + 1) j s (omega arith) b (omega arith)
              (λ k p. omega (
                arith,
                get_or_mono keys k mid s (omega arith) (omega arith),
                leb→gt hash (get_or keys mid 0) e,
              ))
              high)
      ])
    ]

Splits-IsNearest :
    (keys : List ℕ) (hash r : ℕ)
    → IsSorted keys
    → 0 < length keys
    → Splits keys hash r
    → IsNearest hash (get_or keys (if r == length keys then 0 else r) 0) keys
unfolding is_before
Splits-IsNearest keys hash r s full p = elim (dec_le (length keys) r) [
  | yes past ↦ rw (==_eq r (length keys) (omega (arith, p.within))) (
    Elem-get_or keys 0 full,
    All-from-get_or _ keys (λ i b. ground (arith, p.below i, p.below 0, get_or_mono keys 0 i s)),
  )
  | no inside ↦ rw (==_ne r (length keys) (omega arith)) (
    Elem-get_or keys r (omega arith),
    All-from-get_or _ keys
        (λ i b. ground (arith, p.below i, p.above i, p.above r, get_or_mono keys r i s)),
  )
]

-- On a sorted ring that is not empty, `place` is that of the nearest virtual node.
pub place-IsNearest :
    (hash : ℕ) (keys : List ℕ)
    → IsSorted keys
    → 0 < length keys
    → IsNearest hash (get_or keys (place hash keys) 0) keys
unfolding place
place-IsNearest hash keys s full = Splits-IsNearest keys hash _ s full (
    search-Splits (length keys) keys hash 0 (length keys) s (omega arith) (omega arith)
      (omega arith) (λ k h. absurd (omega arith)) (λ k h h'. absurd (omega arith)))

-- `Get` of a key on a sorted ring returns the owner of the one virtual node that is nearest clockwise.
pub get-IsNearest :
    {F : Type 0} (key : Key) (m : Map F)
    → IsSorted m.keys
    → 0 < length key
    → 0 < length m.keys
    → (x : ℕ) × IsNearest (m.config.hash_func key) x m.keys × ((get key m).1 ≡ node_at x m.hash_map)
unfolding get
get-IsNearest key m s h full = (
  get_or m.keys (place (m.config.hash_func key) m.keys) 0,
  place-IsNearest (m.config.hash_func key) m.keys s full,
  rw (==_ne (length key) 0 (omega arith), ==_ne (length m.keys) 0 (omega arith)) refl,
)
