-- ===== src/Lru/Changes.antt =====
-- `Clear`, `GetWithExpiration`, `UpdateExpiration` and `SetMaxBytes` of store/lru.go keep the cache
-- well-formed.
use lcache.Common.{ℕ, refl, inl, inr, Option-cases, Bool-cases, ltb}
use lcache.Common.GoMap.{lookup}
use lcache.Common.Words.{gt64}
use lcache.Value.{Key, key_eq, Value}
use lcache.Lru.Elements.{find, total}
use lcache.Lru.Invariant.{IsValid, find_of_item, evict-IsValid, move-IsValid}
use lcache.Lru.Writes.{set_expiry-IsValid}
use lcache.Lru.{Lru, Range, clear, get_with_expiration, update_expiration, set_max_bytes}

pub clear-IsValid : {c : Lru} (r : Range) → IsValid c → IsValid (clear r c)
unfolding clear lookup find total
clear-IsValid {c} r v = record {
  sound = record {
    fresh = tt;
    distinct = tt;
    agree = λ k. refl;
    one_item = tt;
    one_expiry = tt;
    sized = refl;
  };
  timed = λ k h. refl;
}

pub get_with_expiration-IsValid :
    {c : Lru} (now : ℕ) (k : Key) → IsValid c → IsValid (get_with_expiration now k c).0
unfolding get_with_expiration
get_with_expiration-IsValid {c} now k v = elim (Option-cases (lookup key_eq k c.items)) [
  | inl e ↦ rw (e, get_with_expiration) v
  | inr (i, e) ↦ elim (Option-cases (lookup key_eq k c.expires)) [
    | inl never ↦ rw (e, get_with_expiration, never) (move-IsValid k i v (find_of_item k v.sound e))
    | inr (t, at) ↦ elim (Bool-cases (ltb t now)) [
      | inl late ↦ rw (e, get_with_expiration, at, late) v
      | inr live ↦
          rw (e, get_with_expiration, at, live) (move-IsValid k i v (find_of_item k v.sound e))
    ]
  ]
]

pub update_expiration-IsValid :
    {c : Lru} (now : ℕ) (k : Key) (expiration : ℕ)
    → IsValid c
    → IsValid (update_expiration now k expiration c).0
unfolding update_expiration
update_expiration-IsValid {c} now k expiration v = elim (Option-cases (lookup key_eq k c.items)) [
  | inl e ↦ rw (e, update_expiration) v
  | inr (i, e) ↦
      rw (e, update_expiration) (set_expiry-IsValid now k (Value.other 0 0) expiration v e)
]

pub set_max_bytes-IsValid :
    {c : Lru} (r : Range) (now max : ℕ) → IsValid c → IsValid (set_max_bytes r now max c)
unfolding set_max_bytes
set_max_bytes-IsValid {c} r now max v =
    let resized : IsValid (record c { max_bytes = max }) = record {
      sound = record {
        fresh = v.fresh;
        distinct = v.distinct;
        agree = v.agree;
        one_item = v.one_item;
        one_expiry = v.one_expiry;
        sized = v.sized;
      };
      timed = v.timed;
    } in
    elim (Bool-cases (gt64 max 0)) [
      | inl e ↦ rw e (evict-IsValid r now resized)
      | inr e ↦ rw e resized
    ]
