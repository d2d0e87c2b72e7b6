-- ===== src/Lru/Reads.antt =====
-- What `Get` of store/lru.go returns after a write, and what it changes.
use lcache.Common.{
  ℕ, zero, suc, ◌+◌, ◌≤◌, ◌<◌, ◌^◌, ◌≡◌, refl, ap, subst, ◌∙◌, inl, inr, List, [], ◌∷◌, ◌++◌, some,
  arith, true, false, Bool-cases, Option-cases,
}
use lcache.Common.GoMap.{GoMap, lookup, lookup-delete}
use lcache.Common.Words.{gt64, max_int64}
use lcache.Value.{Key, key_eq, Value}
use lcache.Lru.Elements.{find, total, find-contains, update_self, total-append, total-update_fresh}
use lcache.Lru.Invariant.{IsSound, IsValid, evict-IsValid}
use lcache.Lru.Writes.{set_expiry-IsSound, lookup-set_expiry, items-set_expiry, inserted-IsValid}
use lcache.Lru.Expiry.{unexpired}
use lcache.Lru.Evict.{keep, evict-list, evict-heap}
use lcache.Lru.{
  Lru, Entry, Range, cost, remove_element, expire_one, evict_expired, is_expired, is_over,
  drop_front, front, shrink, evict, get, read, set_expiry, overwrite, push_back,
  set_with_expiration, contains, update,
}

-- A key that has not expired, or is gone, has not expired after `evict` either.
remove_element-live :
    (t i : ℕ) (k : Key) (c : Lru)
    → is_expired t k c ≡ false
    → is_expired t k (remove_element i c) ≡ false
unfolding remove_element is_expired
remove_element-live t i k c e = ground (arith, lookup-delete key_eq (c.heap i).key k c.expires)

expire_one-live :
    (t now : ℕ) (j : Key) (s : ℕ) (k : Key) (c : Lru)
    → is_expired t k c ≡ false
    → is_expired t k (expire_one now j s c) ≡ false
unfolding expire_one
expire_one-live t now j s k c e = elim (Option-cases (lookup key_eq j c.items)) [
  | inl absent ↦ ground arith
  | inr (i, found) ↦ ground (arith, remove_element-live t i k c e)
]

evict_expired-live :
    (t now : ℕ) (m : GoMap Key ℕ) (k : Key) (c : Lru)
    → is_expired t k c ≡ false
    → is_expired t k (evict_expired now m c) ≡ false
unfolding evict_expired
evict_expired-live t now [] k c e = e
evict_expired-live t now ((j, s) ∷ m) k c e =
    evict_expired-live t now m k (expire_one now j s c) (expire_one-live t now j s k c e)

drop_front-live :
    (t : ℕ) (k : Key) (c : Lru) → is_expired t k c ≡ false → is_expired t k (drop_front c) ≡ false
unfolding drop_front
drop_front-live t k c e = elim (Option-cases (front c.list)) [
  | inl absent ↦ rw (absent, drop_front) e
  | inr (i, found) ↦ rw (found, drop_front) (remove_element-live t i k c e)
]

shrink-live :
    (t fuel : ℕ) (k : Key) (c : Lru)
    → is_expired t k c ≡ false
    → is_expired t k (shrink fuel c) ≡ false
unfolding shrink
shrink-live t zero k c e = e
shrink-live t (suc fuel) k c e = elim (Bool-cases (is_over c)) [
  | inl over ↦ rw over (shrink-live t fuel k (drop_front c) (drop_front-live t k c e))
  | inr fits ↦ rw fits e
]

evict-live :
    (r : Range) (t now : ℕ) (k : Key) (c : Lru)
    → is_expired t k c ≡ false
    → is_expired t k (evict r now c) ≡ false
unfolding evict
evict-live r t now k c e = shrink-live t _ k _ (evict_expired-live t now (r.visit c.expires) k c e)

-- The newest element stays if it has not expired and fits.
contains_last : (i : ℕ) (l : List ℕ) → contains i (l ++ i ∷ []) ≡ true
unfolding contains
contains_last i [] = ground arith
contains_last i (x ∷ l) = ground (arith, contains_last i l)

unexpired_last :
    (now i : ℕ) (c : Lru) (l : List ℕ)
    → is_expired now (c.heap i).key c ≡ false
    → unexpired now c (l ++ i ∷ []) ≡ unexpired now c l ++ i ∷ []
unfolding unexpired
unexpired_last now i c [] e = rw e
unexpired_last now i c (x ∷ l) e = ground (arith, unexpired_last now i c l e)

keep_last :
    (h : ℕ → Entry) (max i : ℕ) (l : List ℕ)
    → cost (h i) ≤ max
    → contains i (keep h max (l ++ i ∷ [])) ≡ true
unfolding keep total
keep_last h max i [] fits = ground (arith, contains_last i [])
keep_last h max i (x ∷ l) fits = ground (arith, keep_last h max i l fits, contains_last i (x ∷ l))

-- The newest element survives `evict` if its key has not expired and its entry fits alone.
newest_stays :
    (r : Range) (now i : ℕ) (l : List ℕ) (c : Lru)
    → IsValid c
    → c.list ≡ l ++ i ∷ []
    → is_expired now (c.heap i).key c ≡ false
    → total c.heap c.list ≤ max_int64
    → c.max_bytes < 2 ^ 64
    → (gt64 c.max_bytes 0 ≡ true → cost (c.heap i) ≤ c.max_bytes)
    → contains i (evict r now c).list ≡ true
newest_stays r now i l c v e live small word fits = elim (Bool-cases (gt64 c.max_bytes 0)) [
  | inl limited ↦
      rw (evict-list r now c v small word, left, limited)
        (keep_last c.heap c.max_bytes i (unexpired now c l) (fits limited))
  | inr free ↦
      rw (evict-list r now c v small word, left, free) (contains_last i (unexpired now c l))
]
  where
    left : unexpired now c c.list ≡ unexpired now c l ++ i ∷ []
    left = ap (unexpired now c) e ∙ unexpired_last now i c l live

get_of_item :
    (now i : ℕ) (k : Key) (c : Lru)
    → lookup key_eq k c.items ≡ some i
    → is_expired now k c ≡ false
    → (get now k c).1 ≡ some (c.heap i).value
unfolding get read
get_of_item now i k c found live = rw (found, get, read, live)

-- The time until which a write made at `t` counts: for ever, or to the end of its expiration.
abbrev pub InTime : (t expiration now : ℕ) → Type 0
InTime t expiration now = gt64 expiration 0 ≡ true → now ≤ t + expiration

set_expiry-live :
    (t e now : ℕ) (k : Key) (c : Lru)
    → InTime t e now
    → is_expired now k (set_expiry t k e c) ≡ false
unfolding is_expired
set_expiry-live t e now k c h = ground (arith, lookup-set_expiry t k k e c)

get-overwrite :
    (later i : ℕ) (k : Key) (x : Value) (c : Lru)
    → lookup key_eq k c.items ≡ some i
    → is_expired later k c ≡ false
    → (get later k (overwrite i x c)).1 ≡ some x
unfolding overwrite is_expired
get-overwrite later i k x c found live =
    get_of_item later i k (overwrite i x c) found live
    ∙ ap (λ e. some e.value) (update_self c.heap i (record (c.heap i) { value = x }))

get-evict :
    (r : Range) (now later i : ℕ) (k : Key) (c : Lru)
    → IsValid c
    → (c.heap i).key ≡ k
    → contains i (evict r now c).list ≡ true
    → is_expired later k c ≡ false
    → (get later k (evict r now c)).1 ≡ some (c.heap i).value
get-evict r now later i k c v named stays live =
    get_of_item later i k c' (v'.agree k ∙ found) (evict-live r later now k c live)
    ∙ ap (λ h. some (h i).value) (evict-heap r now c)
  where
    c' : Lru
    c' = evict r now c

    v' : IsValid c'
    v' = evict-IsValid r now v

    named' : (c'.heap i).key ≡ k
    named' = ap (λ h. (h i).key) (evict-heap r now c) ∙ named

    found : find c'.heap k c'.list ≡ some i
    found =
        subst (λ n. find c'.heap n c'.list ≡ some i) named'
          (find-contains c'.heap i c'.list v'.distinct stays)

get-push_back :
    (r : Range) (now later : ℕ) (k : Key) (x : Value) (c : Lru)
    → IsSound c
    → IsValid (push_back k x c)
    → is_expired now k c ≡ false
    → is_expired later k c ≡ false
    → total c.heap c.list + cost (record { key = k; value = x }) ≤ max_int64
    → c.max_bytes < 2 ^ 64
    → (gt64 c.max_bytes 0 ≡ true → cost (record { key = k; value = x }) ≤ c.max_bytes)
    → (get later k (evict r now (push_back k x c))).1 ≡ some x
unfolding push_back is_expired
get-push_back r now later k x c v v' at_once at_get small word fits =
    get-evict r now later c.next k (push_back k x c) v' (ap (λ e. e.key) new)
      (newest_stays r now c.next c.list (push_back k x c) v' refl (rw new at_once)
        (rw
          (total-append h c.list c.next, new, total-update_fresh c.heap c.next entry c.list v.fresh)
          small)
        word (rw new fits))
      at_get
    ∙ ap (λ e. some e.value) new
  where
    entry : Entry
    entry = record { key = k; value = x }

    h : ℕ → Entry
    h = update c.heap c.next entry

    new : h c.next ≡ entry
    new = update_self c.heap c.next entry

pub set_expiry_same :
    (t : ℕ) (k : Key) (e : ℕ) (c : Lru)
    → ((set_expiry t k e c).list ≡ c.list)
      × ((set_expiry t k e c).heap ≡ c.heap)
      × ((set_expiry t k e c).max_bytes ≡ c.max_bytes)
unfolding set_expiry
set_expiry_same t k e c = ground arith

module _ (r : Range) (t now later e : ℕ) (k : Key) (x : Value) (c : Lru) (v : IsValid c)
    (word : c.max_bytes < 2 ^ 64)
    (small : total c.heap c.list + cost (record { key = k; value = x }) ≤ max_int64)
    (fits : gt64 c.max_bytes 0 ≡ true → cost (record { key = k; value = x }) ≤ c.max_bytes)
    (at_once : InTime t e now) (at_get : InTime t e later) where
  -- A value that is written is read back as long as it has not expired, whatever was there before:
  -- the eviction that the write starts never takes the new entry, provided that the entry fits into
  -- the limit by itself (where there is one) and that an `int64` counts the bytes in use.
  pub set-get : (get later k (set_with_expiration r t now k (some x) e c)).1 ≡ some x
  unfolding set_with_expiration
  set-get = elim (Option-cases (lookup key_eq k c.items)) [
    | inr (i, found) ↦
        rw (items, found, set_with_expiration)
          (get-overwrite later i k x c' (items ∙ found) (set_expiry-live t e later k c at_get))
    | inl absent ↦
        rw (items, absent, set_with_expiration)
          (get-push_back r now later k x c' (set_expiry-IsSound t k e v.sound)
            (inserted-IsValid t k x e v absent) (set_expiry-live t e now k c at_once)
            (set_expiry-live t e later k c at_get) (rw (same.0, same.1) small) (rw same.2 word)
            (rw same.2 fits))
  ]
    where
      c' : Lru
      c' = set_expiry t k e c

      same : (c'.list ≡ c.list) × (c'.heap ≡ c.heap) × (c'.max_bytes ≡ c.max_bytes)
      same = set_expiry_same t k e c

      items : lookup key_eq k c'.items ≡ lookup key_eq k c.items
      items = ap (lookup key_eq k) (items-set_expiry t k e c)
