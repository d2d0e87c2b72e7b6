-- ===== src/Lru/Coherence.antt =====
-- What a client of store/lru.go can read: never anything but the value that was written last.
use lcache.Common.{ℕ, ◌≡◌, ◌⊎◌, inl, List, [], ◌∷◌, Option, none, some, ite, arith}
use lcache.Value.{Key, key_eq, Value, Options}
use lcache.Lru.Invariant.{IsValid, new_lru-IsValid, evict-IsValid, delete_key-IsValid, get-IsValid}
use lcache.Lru.Writes.{set_with_expiration-IsValid}
use lcache.Lru.Changes.{
  clear-IsValid, get_with_expiration-IsValid, update_expiration-IsValid, set_max_bytes-IsValid,
}
use lcache.Lru.Holds.{
  value_of, delete_key-Forgets, value_of-delete_key, evict-Forgets, value_of-get,
  value_of-get_with_expiration, value_of-update_expiration, value_of-set, set_nil, value_of-clear,
  value_of-new_lru, set_max_bytes-Forgets,
}
use lcache.Lru.{
  Lru, Range, evict, delete_key, get, set_with_expiration, clear, get_with_expiration,
  update_expiration, set_max_bytes, new_lru,
}

-- The calls of the interface, with the clock readings of each.
pub data Call : Type 0 where
  gets : (now : ℕ) → Key → Call
  sets : (t now : ℕ) → Key → Option Value → (expiration : ℕ) → Call
  deletes : Key → Call
  cleans : (now : ℕ) → Call
  clears : Call
  gets_expiring : (now : ℕ) → Key → Call
  updates : (now : ℕ) → Key → (expiration : ℕ) → Call
  resizes : (now max : ℕ) → Call

unfoldable pub apply : Range → Call → Lru → Lru
apply r (gets now k) c = (get now k c).0
apply r (sets t now k x e) c = set_with_expiration r t now k x e c
apply r (deletes k) c = (delete_key k c).0
apply r (cleans now) c = evict r now c
apply r clears c = clear r c
apply r (gets_expiring now k) c = (get_with_expiration now k c).0
apply r (updates now k e) c = (update_expiration now k e c).0
apply r (resizes now max) c = set_max_bytes r now max c

unfoldable pub run : Range → List Call → Lru → Lru
unfolding apply
run r [] c = c
run r (call ∷ calls) c = run r calls (apply r call c)

-- What was last written to a key, after one call and after many. A deletion and `Clear` take back
-- what was written; no other call but a write changes it.
unfoldable pub written_by : Key → Call → Option Value → Option Value
written_by j (sets t now k y e) x = ite (key_eq k j) y x
written_by j (deletes k) x = ite (key_eq k j) none x
written_by j clears x = none
written_by j _ x = x

unfoldable pub last_written : Key → List Call → Option Value → Option Value
unfolding written_by
last_written j [] x = x
last_written j (call ∷ calls) x = last_written j calls (written_by j call x)

apply-IsValid : {c : Lru} (r : Range) (call : Call) → IsValid c → IsValid (apply r call c)
unfolding apply
apply-IsValid r (gets now k) v = get-IsValid now k v
apply-IsValid r (sets t now k x e) v = set_with_expiration-IsValid r t now k x e v
apply-IsValid r (deletes k) v = delete_key-IsValid k v
apply-IsValid r (cleans now) v = evict-IsValid r now v
apply-IsValid r clears v = clear-IsValid r v
apply-IsValid r (gets_expiring now k) v = get_with_expiration-IsValid now k v
apply-IsValid r (updates now k e) v = update_expiration-IsValid now k e v
apply-IsValid r (resizes now max) v = set_max_bytes-IsValid r now max v

-- The cache agrees with what was last written, as far as it holds anything.
abbrev Tracks : (Key → Option Value) → Lru → Type 0
Tracks written c = (j : Key) → (value_of j c ≡ none) ⊎ (value_of j c ≡ written j)

apply-Tracks :
    (r : Range) (call : Call) (c : Lru) (written : Key → Option Value)
    → IsValid c
    → Tracks written c
    → Tracks (λ j. written_by j call (written j)) (apply r call c)
unfolding apply written_by
apply-Tracks r (gets now k) c w v h j = ground (arith, value_of-get j now k c, h j)
apply-Tracks r (sets t now k none e) c w v h j =
    ground (arith, set_nil r t now k e c, delete_key-Forgets k c j, value_of-delete_key k c v, h j)
apply-Tracks r (sets t now k (some x) e) c w v h j =
    ground (arith, value_of-set r j t now k x e c v, h j)
apply-Tracks r (deletes k) c w v h j =
    ground (arith, delete_key-Forgets k c j, value_of-delete_key k c v, h j)
apply-Tracks r (cleans now) c w v h j = ground (arith, evict-Forgets r now c j, h j)
apply-Tracks r clears c w v h j = inl (value_of-clear r j c)
apply-Tracks r (gets_expiring now k) c w v h j =
    ground (arith, value_of-get_with_expiration j now k c, h j)
apply-Tracks r (updates now k e) c w v h j =
    ground (arith, value_of-update_expiration j now k e c, h j)
apply-Tracks r (resizes now max) c w v h j =
    ground (arith, set_max_bytes-Forgets r now max c j, h j)

run-Tracks :
    (r : Range) (calls : List Call) (c : Lru) (written : Key → Option Value)
    → IsValid c
    → Tracks written c
    → Tracks (λ j. last_written j calls (written j)) (run r calls c)
unfolding run last_written
run-Tracks r [] c written v h = h
run-Tracks r (call ∷ calls) c written v h =
    run-Tracks r calls (apply r call c) (λ j. written_by j call (written j))
      (apply-IsValid r call v) (apply-Tracks r call c written v h)

get-value_of :
    (now : ℕ) (k : Key) (c : Lru) → ((get now k c).1 ≡ none) ⊎ ((get now k c).1 ≡ value_of k c)
unfolding get value_of
get-value_of now k c = ground arith

-- After any calls on a new cache, `Get` returns nothing or the value that was last written to the
-- key: no value that was overwritten, deleted or cleared comes back, and none of another key.
pub get_coherent :
    (opts : Options) (r : Range) (calls : List Call) (now : ℕ) (k : Key)
    → ((get now k (run r calls (new_lru opts))).1 ≡ none)
      ⊎ ((get now k (run r calls (new_lru opts))).1 ≡ last_written k calls none)
get_coherent opts r calls now k = ground (
  arith,
  get-value_of now k (run r calls (new_lru opts)),
  run-Tracks r calls (new_lru opts) (λ j. none) (new_lru-IsValid opts)
      (λ j. inl (value_of-new_lru opts j)) k,
)
