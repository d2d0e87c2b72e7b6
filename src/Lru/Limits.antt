-- ===== src/Lru/Limits.antt =====
-- How far store/lru.go keeps to its limit in bytes.
use lcache.Common.{ℕ, ◌+◌, ◌≤◌, ◌<◌, ◌≡◌, refl, ap, ◌∙◌, none, some, ite, arith}
use lcache.Common.GoMap.{lookup}
use lcache.Common.Words.{max_int64}
use lcache.Value.{Key, key_eq, Value, len}
use lcache.Lru.Elements.{
  find, total, find-update, total-update, total-move_to_back, total-append, total-update_fresh,
  update_self,
}
use lcache.Lru.Invariant.{IsSound, IsValid, find_of_item}
use lcache.Lru.Writes.{set_expiry-IsSound, items-set_expiry, inserted-IsValid}
use lcache.Lru.Evict.{evict_fits}
use lcache.Lru.Holds.{value_of, value_of-overwrite, value_of-set_expiry}
use lcache.Lru.Reads.{set_expiry_same}
use lcache.Lru.{
  Lru, Entry, Range, cost, update, set_expiry, overwrite, push_back, set_with_expiration,
}

-- The bytes that the entries of the cache take.
abbrev pub size : Lru → ℕ
size c = total c.heap c.list

size-push_back :
    (k : Key) (x : Value) (c : Lru)
    → IsSound c
    → size (push_back k x c) ≡ size c + cost (record { key = k; value = x })
unfolding push_back
size-push_back k x c v =
    rw (total-append h c.list c.next, new, total-update_fresh c.heap c.next entry c.list v.fresh)
  where
    entry : Entry
    entry = record { key = k; value = x }

    h : ℕ → Entry
    h = update c.heap c.next entry

    new : h c.next ≡ entry
    new = update_self c.heap c.next entry

max_bytes-push_back : (k : Key) (x : Value) (c : Lru) → (push_back k x c).max_bytes ≡ c.max_bytes
unfolding push_back
max_bytes-push_back k x c = refl

size-overwrite :
    (k : Key) (i : ℕ) (x : Value) (c : Lru)
    → IsSound c
    → find c.heap k c.list ≡ some i
    → size (overwrite i x c) + len (c.heap i).value ≡ size c + len x
unfolding overwrite
size-overwrite k i x c v e = omega (
  arith,
  total-move_to_back h k i c.list (find-update c.heap i entry k c.list refl ∙ e),
  total-update c.heap i entry k c.list v.distinct e,
)
  where
    entry : Entry
    entry = record (c.heap i) { value = x }

    h : ℕ → Entry
    h = update c.heap i entry

items-overwrite : (i : ℕ) (x : Value) (c : Lru) → (overwrite i x c).items ≡ c.items
unfolding overwrite
items-overwrite i x c = refl

module _ (r : Range) (t now e : ℕ) (k : Key) (x : Value) (c : Lru) (v : IsValid c) where
  items : lookup key_eq k (set_expiry t k e c).items ≡ lookup key_eq k c.items
  items = ap (lookup key_eq k) (items-set_expiry t k e c)

  size-set_expiry : size (set_expiry t k e c) ≡ size c
  size-set_expiry = let same = set_expiry_same t k e c in rw (same.0, same.1)

  -- Writing a key that is not there leaves a cache with a limit above 0 within that limit, if an
  -- `int64` counts the bytes with the new entry.
  pub set-fits :
      lookup key_eq k c.items ≡ none
      → size c + cost (record { key = k; value = x }) ≤ max_int64
      → 0 < c.max_bytes
      → c.max_bytes ≤ max_int64
      → size (set_with_expiration r t now k (some x) e c) ≤ c.max_bytes
  unfolding set_with_expiration
  set-fits absent small positive word =
      let c' = set_expiry t k e c in
      let same = set_expiry_same t k e c in
      let fits =
        evict_fits r now (push_back k x c') (inserted-IsValid t k x e v absent)
          (omega (arith, size-push_back k x c' (set_expiry-IsSound t k e v.sound), size-set_expiry))
          (rw (max_bytes-push_back k x c', same.2) positive)
          (rw (max_bytes-push_back k x c', same.2) word) in
      rw (items, absent, set_with_expiration)
        (omega (arith, fits.2, max_bytes-push_back k x c', same.2))

  -- Writing a key that is there evicts nothing, whatever the limit: `items` stays, each key has the
  -- value that it had, and the key the new one, and the size changes by the difference of the two.
  pub overwrite_evicts_nothing :
      (i : ℕ)
      → lookup key_eq k c.items ≡ some i
      → ((set_with_expiration r t now k (some x) e c).items ≡ c.items)
        × ((j : Key)
            → value_of j (set_with_expiration r t now k (some x) e c)
              ≡ ite (key_eq k j) (some x) (value_of j c))
        × (size (set_with_expiration r t now k (some x) e c) + len (c.heap i).value
            ≡ size c + len x)
  unfolding set_with_expiration
  overwrite_evicts_nothing i found =
      let c' = set_expiry t k e c in
      let sound = set_expiry-IsSound t k e v.sound in
      let at : lookup key_eq k c'.items ≡ some i = items ∙ found in
      let same = set_expiry_same t k e c in
      let written : set_with_expiration r t now k (some x) e c ≡ overwrite i x c' =
        rw (set_with_expiration, items, found) refl in
      rw written (
        items-overwrite i x c' ∙ items-set_expiry t k e c,
        λ j.
            value_of-overwrite j k x c' sound i at
            ∙ ap (ite (key_eq k j) (some x)) (value_of-set_expiry j t k e c),
        omega (
          arith,
          size-overwrite k i x c' sound (find_of_item k sound at),
          size-set_expiry,
          ap (λ h. len (h i).value) same.1,
        ),
      )

  -- So whenever the new value is too large the cache exceeds its limit.
  pub set-exceeds :
      (i : ℕ)
      → lookup key_eq k c.items ≡ some i
      → c.max_bytes + len (c.heap i).value < size c + len x
      → c.max_bytes < size (set_with_expiration r t now k (some x) e c)
  set-exceeds i found large = omega (arith, (overwrite_evicts_nothing i found).2)
