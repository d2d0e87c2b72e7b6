-- ===== src/Lru/Evict.antt =====
-- `evict` of store/lru.go: it drops what has expired, then the least recently used elements, and
-- no more than it must.
use lcache.Common.{
  ℕ, zero, suc, ◌≤◌, ◌<◌, ◌^◌, ◌≡◌, refl, ap, ◌∙◌, List, [], ◌∷◌, ◌++◌, inl, inr, arith, false,
  ◌&&◌, ltb, if◌then◌else◌, length, length-append, Bool-cases,
}
use lcache.Common.GoMap.{GoMap}
use lcache.Common.Words.{gt64, max_int64}
use lcache.Value.{Key}
use lcache.Lru.Elements.{total}
use lcache.Lru.Invariant.{IsValid, evict_expired-IsValid, drop_front-IsValid}
use lcache.Lru.Expiry.{unexpired, expired-list, total-unexpired-le, evict_expired-heap}
use lcache.Lru.{
  Lru, Entry, Range, remove, remove_element, expire_one, evict_expired, is_over, drop_front, shrink,
  evict,
}

-- The longest end of the list that takes at most `max` bytes.
unfoldable pub keep : (ℕ → Entry) → ℕ → List ℕ → List ℕ
keep h max [] = []
keep h max (i ∷ l) = if ltb max (total h (i ∷ l)) then keep h max l else i ∷ l

module _ (h : ℕ → Entry) (max : ℕ) where
  pub total-keep-le : (l : List ℕ) → total h (keep h max l) ≤ max
  unfolding keep total
  total-keep-le [] = omega arith
  total-keep-le (i ∷ l) = ground (arith, total-keep-le l)

  pub keep_suffix : (l : List ℕ) → (ds : List ℕ) × (l ≡ ds ++ keep h max l)
  unfolding keep
  keep_suffix [] = ([], refl)
  keep_suffix (i ∷ l) = elim (Bool-cases (ltb max (total h (i ∷ l)))) [
    | inl e ↦ let (ds, q) = keep_suffix l in (i ∷ ds, rw e (ap (◌∷◌ i) q))
    | inr e ↦ ([], rw e)
  ]

  pub keep_longest :
      (l ds ks : List ℕ) → l ≡ ds ++ ks → total h ks ≤ max → length ks ≤ length (keep h max l)
  unfolding keep
  keep_longest [] ds ks e fits = omega (arith, ap length e, length-append ds ks)
  keep_longest (i ∷ l) [] ks e fits = ground arith
  keep_longest (i ∷ l) (d ∷ ds) ks e fits =
      ground (arith, keep_longest l ds ks, length-append ds ks)

drop_front-heap : (c : Lru) → (drop_front c).heap ≡ c.heap
unfolding drop_front remove_element
drop_front-heap c = ground arith

drop_front-max_bytes : (c : Lru) → (drop_front c).max_bytes ≡ c.max_bytes
unfolding drop_front remove_element
drop_front-max_bytes c = ground arith

drop_front-list : (c : Lru) (i : ℕ) (l : List ℕ) → c.list ≡ i ∷ l → (drop_front c).list ≡ l
unfolding drop_front remove_element remove
drop_front-list c i l e = rw (e, drop_front, remove_element, e) (ground arith)

is_over_empty : (c : Lru) → c.list ≡ [] → is_over c ≡ false
unfolding is_over
is_over_empty c e = rw (e, is_over) (ground arith)

is_over-ltb :
    (c : Lru) (max used i : ℕ) (l : List ℕ)
    → c.max_bytes ≡ max
    → c.used_bytes ≡ used
    → c.list ≡ i ∷ l
    → max < 2 ^ 64
    → used ≤ max_int64
    → is_over c ≡ (gt64 max 0 && ltb max used)
unfolding is_over
is_over-ltb c max used i l em eu el word small = rw (em, eu, el, is_over) (ground arith)

-- The second loop, on a cache whose bytes an `int64` can count.
module _ (h : ℕ → Entry) (max : ℕ) (word : max < 2 ^ 64) where
  shrink-list :
      (fuel : ℕ) (c : Lru) (l : List ℕ)
      → IsValid c
      → c.heap ≡ h
      → c.max_bytes ≡ max
      → c.list ≡ l
      → length l ≤ fuel
      → total h l ≤ max_int64
      → (shrink fuel c).list ≡ (if gt64 max 0 then keep h max l else l)
  unfolding shrink keep total
  shrink-list zero c [] v eh em el enough small = ground arith
  shrink-list zero c (i ∷ l) v eh em el enough small = absurd (omega arith)
  shrink-list (suc fuel) c [] v eh em el enough small = rw (is_over_empty c el) (ground arith)
  shrink-list (suc fuel) c (i ∷ l) v eh em el enough small =
      let used : c.used_bytes ≡ total h (i ∷ l) = rw (v.sized, eh, el) (omega arith) in
      let rest =
        shrink-list fuel (drop_front c) l (drop_front-IsValid v) (drop_front-heap c ∙ eh)
          (drop_front-max_bytes c ∙ em) (drop_front-list c i l el) (omega arith) (omega arith) in
      rw (is_over-ltb c max (total h (i ∷ l)) i l em used el word small) (ground (arith, rest))

shrink-heap : (fuel : ℕ) (c : Lru) → (shrink fuel c).heap ≡ c.heap
unfolding shrink
shrink-heap zero c = refl
shrink-heap (suc fuel) c = elim (Bool-cases (is_over c)) [
  | inl e ↦ rw e (shrink-heap fuel (drop_front c) ∙ drop_front-heap c)
  | inr e ↦ rw e
]

pub evict-heap : (r : Range) (now : ℕ) (c : Lru) → (evict r now c).heap ≡ c.heap
unfolding evict
evict-heap r now c = shrink-heap _ _ ∙ evict_expired-heap now (r.visit c.expires) c

evict_expired-max_bytes :
    (now : ℕ) (m : GoMap Key ℕ) (c : Lru) → (evict_expired now m c).max_bytes ≡ c.max_bytes
unfolding evict_expired expire_one remove_element
evict_expired-max_bytes now [] c = refl
evict_expired-max_bytes now ((k, t) ∷ m) c =
    evict_expired-max_bytes now m (expire_one now k t c) ∙ ground arith

module _ (r : Range) (now : ℕ) (c : Lru) (v : IsValid c) where
  pub evict-list :
      total c.heap c.list ≤ max_int64
      → c.max_bytes < 2 ^ 64
      → (evict r now c).list ≡ (
          if gt64 c.max_bytes 0
          then keep c.heap c.max_bytes (unexpired now c c.list)
          else unexpired now c c.list)
  unfolding evict
  evict-list small word =
      shrink-list c.heap c.max_bytes word _ c' (unexpired now c c.list)
        (evict_expired-IsValid now (r.visit c.expires) c v)
        (evict_expired-heap now (r.visit c.expires) c)
        (evict_expired-max_bytes now (r.visit c.expires) c) left
        (omega (arith, ap (length {A = ℕ}) left)) (omega (arith, total-unexpired-le now c c.list))
    where
      c' : Lru
      c' = evict_expired now (r.visit c.expires) c

      left : c'.list ≡ unexpired now c c.list
      left = expired-list r now c v

  module _ (small : total c.heap c.list ≤ max_int64) (positive : 0 < c.max_bytes)
      (word : c.max_bytes ≤ max_int64) where
    kept : (evict r now c).list ≡ keep c.heap c.max_bytes (unexpired now c c.list)
    kept = evict-list small (omega arith) ∙ ground arith

    pub evict_fits :
        (ds : List ℕ) × (unexpired now c c.list ≡ ds ++ (evict r now c).list)
        × (total (evict r now c).heap (evict r now c).list ≤ c.max_bytes)
        × ((evict r now c).heap ≡ c.heap)
    evict_fits =
        let (ds, q) = keep_suffix c.heap c.max_bytes (unexpired now c c.list) in
        rw (evict-heap r now c, kept) (ds, q, total-keep-le c.heap c.max_bytes _, refl)

    -- With a limit above 0, what `evict` leaves are the most recently used of the elements that have
    -- not expired; together they take no more bytes than the limit, and none of their entries
    -- changes. It drops no more than it must: among the elements that have not expired, no run of most
    -- recently used ones that takes no more bytes than the limit is longer than what it leaves.
    pub evict_keeps_longest :
        (es ks : List ℕ)
        → unexpired now c c.list ≡ es ++ ks
        → total c.heap ks ≤ c.max_bytes
        → (ds : List ℕ) × (unexpired now c c.list ≡ ds ++ (evict r now c).list)
          × (total (evict r now c).heap (evict r now c).list ≤ c.max_bytes)
          × ((evict r now c).heap ≡ c.heap)
          × (length ks ≤ length (evict r now c).list)
    evict_keeps_longest es ks e fits =
        let (ds, q, small, same) = evict_fits in
        (ds, q, small, same, rw kept (keep_longest c.heap c.max_bytes _ es ks e fits))
