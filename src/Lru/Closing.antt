-- ===== src/Lru/Closing.antt =====
-- No method of store/lru.go but `Close` closes the cache.
use lcache.Common.{ℕ, zero, suc, ◌≡◌, refl, ◌∙◌, [], ◌∷◌, Option, none, some, length, arith}
use lcache.Common.GoMap.{GoMap}
use lcache.Value.{Key, Value}
use lcache.Lru.{
  Lru, Range, remove_element, expire_one, evict_expired, drop_front, shrink, evict, delete_key,
  touch, get, set_expiry, overwrite, push_back, set_with_expiration,
}

closed-expire_one : (now : ℕ) (k : Key) (t : ℕ) (c : Lru) → (expire_one now k t c).closed ≡ c.closed
unfolding expire_one remove_element
closed-expire_one now k t c = ground arith

closed-evict_expired :
    (now : ℕ) (m : GoMap Key ℕ) (c : Lru) → (evict_expired now m c).closed ≡ c.closed
unfolding evict_expired
closed-evict_expired now [] c = refl
closed-evict_expired now ((k, t) ∷ m) c =
    closed-evict_expired now m (expire_one now k t c) ∙ closed-expire_one now k t c

closed-drop_front : (c : Lru) → (drop_front c).closed ≡ c.closed
unfolding drop_front remove_element
closed-drop_front c = ground arith

closed-shrink : (fuel : ℕ) (c : Lru) → (shrink fuel c).closed ≡ c.closed
unfolding shrink
closed-shrink zero c = refl
closed-shrink (suc fuel) c = ground (arith, closed-shrink fuel (drop_front c), closed-drop_front c)

closed-evict : (r : Range) (now : ℕ) (c : Lru) → (evict r now c).closed ≡ c.closed
unfolding evict
closed-evict r now c =
    closed-shrink (length (evict_expired now (r.visit c.expires) c).list) _
    ∙ closed-evict_expired now (r.visit c.expires) c

pub closed-delete_key : (k : Key) (c : Lru) → (delete_key k c).0.closed ≡ c.closed
unfolding delete_key remove_element
closed-delete_key k c = ground arith

pub closed-get : (now : ℕ) (k : Key) (c : Lru) → (get now k c).0.closed ≡ c.closed
unfolding get touch
closed-get now k c = ground arith

closed-set_expiry : (t : ℕ) (k : Key) (e : ℕ) (c : Lru) → (set_expiry t k e c).closed ≡ c.closed
unfolding set_expiry
closed-set_expiry t k e c = ground arith

pub closed-set_with_expiration :
    (r : Range) (t now : ℕ) (k : Key) (x : Option Value) (e : ℕ) (c : Lru)
    → (set_with_expiration r t now k x e c).closed ≡ c.closed
unfolding set_with_expiration overwrite push_back
closed-set_with_expiration r t now k none e c = closed-delete_key k c
closed-set_with_expiration r t now k (some x) e c =
    ground
      (arith, closed-evict r now (push_back k x (set_expiry t k e c)), closed-set_expiry t k e c)
