-- ===== src/Lru/Holds.antt =====
-- What the cache of store/lru.go holds for a key, and how the methods change it.
use lcache.Common.{
  ℕ, zero, suc, ◌≡◌, refl, ap, ◌∙◌, ◌⊎◌, inl, inr, [], ◌∷◌, Option, none, some, ite, arith, length,
  Bool-cases, Option-cases,
}
use lcache.Common.GoMap.{GoMap, lookup, lookup-delete, lookup-insert}
use lcache.Value.{Key, key_eq, Value, Options}
use lcache.Lru.Elements.{key-find, contains-find, contains-lt}
use lcache.Lru.Invariant.{IsSound, IsValid, find_of_item}
use lcache.Lru.Writes.{set_expiry-IsSound}
use lcache.Lru.{
  Lru, Range, update, front, remove_element, expire_one, evict_expired, is_over, drop_front, shrink,
  evict, delete_key, touch, get, set_expiry, overwrite, push_back, set_with_expiration, clear,
  get_with_expiration, update_expiration, set_max_bytes, new_lru,
}

-- The value that the cache holds for a key, expired or not.
unfoldable pub value_of : Key → Lru → Option Value
value_of k c = elim (lookup key_eq k c.items) [ none ↦ none | some i ↦ some (c.heap i).value ]

-- `d` holds for each key what `c` holds, or nothing.
abbrev pub Forgets : Lru → Lru → Type 0
Forgets c d = (j : Key) → (value_of j d ≡ none) ⊎ (value_of j d ≡ value_of j c)

pub remove_element-Forgets : (i : ℕ) (c : Lru) → Forgets c (remove_element i c)
unfolding remove_element value_of
remove_element-Forgets i c j = ground (arith, lookup-delete key_eq (c.heap i).key j c.items)

pub delete_key-Forgets : (k : Key) (c : Lru) → Forgets c (delete_key k c).0
unfolding delete_key
delete_key-Forgets k c j = elim (Option-cases (lookup key_eq k c.items)) [
  | inl e ↦ rw (e, delete_key) (inr refl)
  | inr (i, e) ↦ rw (e, delete_key) (remove_element-Forgets i c j)
]

pub value_of-delete_key : (k : Key) (c : Lru) → IsValid c → value_of k (delete_key k c).0 ≡ none
unfolding delete_key value_of remove_element
value_of-delete_key k c v = elim (Option-cases (lookup key_eq k c.items)) [
  | inl e ↦ ground arith
  | inr (i, e) ↦ ground (
    arith,
    lookup-delete key_eq (c.heap i).key k c.items,
    key-find c.heap k i c.list (find_of_item k v.sound e),
  )
]

pub expire_one-Forgets : (now : ℕ) (k : Key) (t : ℕ) (c : Lru) → Forgets c (expire_one now k t c)
unfolding expire_one
expire_one-Forgets now k t c j = elim (Option-cases (lookup key_eq k c.items)) [
  | inl e ↦ inr (ground arith)
  | inr (i, e) ↦ ground (arith, remove_element-Forgets i c j)
]

pub evict_expired-Forgets :
    (now : ℕ) (m : GoMap Key ℕ) (c : Lru) → Forgets c (evict_expired now m c)
unfolding evict_expired
evict_expired-Forgets now [] c j = inr refl
evict_expired-Forgets now ((k, t) ∷ m) c j =
    ground
      (arith, expire_one-Forgets now k t c j, evict_expired-Forgets now m (expire_one now k t c) j)

pub drop_front-Forgets : (c : Lru) → Forgets c (drop_front c)
unfolding drop_front
drop_front-Forgets c j = elim (Option-cases (front c.list)) [
  | inl e ↦ rw (e, drop_front) (inr refl)
  | inr (i, e) ↦ rw (e, drop_front) (remove_element-Forgets i c j)
]

pub shrink-Forgets : (fuel : ℕ) (c : Lru) → Forgets c (shrink fuel c)
unfolding shrink
shrink-Forgets zero c j = inr refl
shrink-Forgets (suc fuel) c j = elim (Bool-cases (is_over c)) [
  | inl e ↦ rw e (ground (arith, drop_front-Forgets c j, shrink-Forgets fuel (drop_front c) j))
  | inr e ↦ rw e (inr refl)
]

pub evict-Forgets : (r : Range) (now : ℕ) (c : Lru) → Forgets c (evict r now c)
unfolding evict
evict-Forgets r now c j =
    let c' = evict_expired now (r.visit c.expires) c in
    ground (
      arith,
      evict_expired-Forgets now (r.visit c.expires) c j,
      shrink-Forgets (length c'.list) c' j,
    )

pub value_of-get :
    (j : Key) (now : ℕ) (k : Key) (c : Lru) → value_of j (get now k c).0 ≡ value_of j c
unfolding get touch value_of
value_of-get j now k c = ground arith

pub value_of-get_with_expiration :
    (j : Key) (now : ℕ) (k : Key) (c : Lru)
    → value_of j (get_with_expiration now k c).0 ≡ value_of j c
unfolding get_with_expiration value_of
value_of-get_with_expiration j now k c = ground arith

pub value_of-set_expiry :
    (j : Key) (t : ℕ) (k : Key) (e : ℕ) (c : Lru) → value_of j (set_expiry t k e c) ≡ value_of j c
unfolding set_expiry value_of
value_of-set_expiry j t k e c = ground arith

pub value_of-update_expiration :
    (j : Key) (t : ℕ) (k : Key) (e : ℕ) (c : Lru)
    → value_of j (update_expiration t k e c).0 ≡ value_of j c
unfolding update_expiration
value_of-update_expiration j t k e c = ground (arith, value_of-set_expiry j t k e c)

module _ (j k : Key) (x : Value) (c : Lru) (v : IsSound c) where
  pub value_of-overwrite :
      (i : ℕ)
      → lookup key_eq k c.items ≡ some i
      → value_of j (overwrite i x c) ≡ ite (key_eq k j) (some x) (value_of j c)
  unfolding overwrite value_of update
  value_of-overwrite i found = elim (Option-cases (lookup key_eq j c.items)) [
    | inl e ↦ ground arith
    | inr (i', e) ↦ ground (
      arith,
      key-find c.heap k i c.list (find_of_item k v found),
      key-find c.heap j i' c.list (find_of_item j v e),
    )
  ]

  pub value_of-push_back : value_of j (push_back k x c) ≡ ite (key_eq k j) (some x) (value_of j c)
  unfolding push_back value_of update
  value_of-push_back = elim (Option-cases (lookup key_eq j c.items)) [
    | inl e ↦ ground (arith, lookup-insert key_eq k j c.next c.items)
    | inr (i', e) ↦ ground (
      arith,
      lookup-insert key_eq k j c.next c.items,
      contains-lt c.next i' c.list v.fresh (contains-find c.heap j i' c.list (find_of_item j v e)),
    )
  ]

-- After a write the key has the new value or, if it had to go at once, none; another key has the
-- value it had, or has been evicted.
pub value_of-set :
    (r : Range) (j : Key) (t now : ℕ) (k : Key) (x : Value) (e : ℕ) (c : Lru)
    → IsValid c
    → (value_of j (set_with_expiration r t now k (some x) e c) ≡ none)
      ⊎ (value_of j (set_with_expiration r t now k (some x) e c)
          ≡ ite (key_eq k j) (some x) (value_of j c))
unfolding set_with_expiration
value_of-set r j t now k x e c v =
    let c' = set_expiry t k e c in
    let sound = set_expiry-IsSound t k e v.sound in
    elim (Option-cases (lookup key_eq k c'.items)) [
      | inl absent ↦
          rw (absent, set_with_expiration)
            (ground (
              arith,
              evict-Forgets r now (push_back k x c') j,
              value_of-push_back j k x c' sound,
              value_of-set_expiry j t k e c,
            ))
      | inr (i, found) ↦
          rw (found, set_with_expiration)
            (inr (
              value_of-overwrite j k x c' sound i found
              ∙ ap (ite (key_eq k j) (some x)) (value_of-set_expiry j t k e c)))
    ]

pub set_nil :
    (r : Range) (t now : ℕ) (k : Key) (e : ℕ) (c : Lru)
    → set_with_expiration r t now k none e c ≡ (delete_key k c).0
unfolding set_with_expiration
set_nil r t now k e c = refl

pub value_of-clear : (r : Range) (j : Key) (c : Lru) → value_of j (clear r c) ≡ none
unfolding clear value_of lookup
value_of-clear r j c = refl

pub value_of-new_lru : (opts : Options) (j : Key) → value_of j (new_lru opts) ≡ none
unfolding new_lru value_of lookup
value_of-new_lru opts j = refl

pub set_max_bytes-Forgets :
    (r : Range) (now max : ℕ) (c : Lru) → Forgets c (set_max_bytes r now max c)
unfolding set_max_bytes value_of
set_max_bytes-Forgets r now max c j =
    ground (arith, evict-Forgets r now (record c { max_bytes = max }) j)
