-- ===== src/Lru/Invariant.antt =====
-- Well-formedness of the cache of store/lru.go, and that the steps of its methods keep it.
use lcache.Common.{
  ℕ, zero, suc, ◌<◌, ◌≡◌, refl, sym, ◌∙◌, List, [], ◌∷◌, none, some, arith, All, ◌⊎◌, inl, inr,
  Option-cases, Bool-cases, ltb,
}
use lcache.Common.GoMap.{GoMap, lookup, IsUnique, lookup-delete, delete-IsUnique}
use lcache.Common.Words.{to_int64}
use lcache.Value.{Key, key_eq, Value, Options}
use lcache.Lru.Elements.{
  find, Distinct, total, key-find, find-remove, remove-Distinct, total-remove, remove-All,
  find-move_to_back, move_to_back-Distinct, total-move_to_back, move_to_back-All, find-contains,
}
use lcache.Lru.{
  Lru, Entry, Range, remove_element, expire_one, evict_expired, is_over, drop_front, front, shrink,
  evict, delete_key, touch, Found, miss, outdated, hit, read, get, contains, move_to_back, new_lru,
}

-- The list holds allocated elements with distinct keys, `items` finds exactly them, a key has at
-- most one expiry, and `used_bytes` is what the entries take (modulo 2 ^ 64).
pub record IsSound (c : Lru) : Type 0 where
  pub fresh : All (λ j. j < c.next) c.list
  pub distinct : Distinct c.heap c.list
  pub agree : (k : Key) → lookup key_eq k c.items ≡ find c.heap k c.list
  pub one_item : IsUnique key_eq c.items
  pub one_expiry : IsUnique key_eq c.expires
  pub sized : c.used_bytes ≡ to_int64 (total c.heap c.list)

-- Moreover an expiry belongs to a key that is there.
pub record IsValid (c : Lru) : Type 0 where
  pub sound : IsSound c
  pub open sound use *
  pub timed : (k : Key) → lookup key_eq k c.items ≡ none → lookup key_eq k c.expires ≡ none

Found-cases : (f : Found) → (f ≡ miss) ⊎ ((f ≡ outdated) ⊎ ((i : ℕ) × (x : Value) × (f ≡ hit i x)))
Found-cases miss = inl refl
Found-cases outdated = inr (inl refl)
Found-cases (hit i x) = inr (inr (i, x, refl))

pub new_lru-IsValid : (opts : Options) → IsValid (new_lru opts)
unfolding new_lru lookup find total
new_lru-IsValid opts = record {
  sound = record {
    fresh = tt;
    distinct = tt;
    agree = λ k. refl;
    one_item = tt;
    one_expiry = tt;
    sized = refl;
  };
  timed = λ k h. refl;
}

pub find_of_item :
    {c : Lru} (k : Key) {i : ℕ}
    → IsSound c
    → lookup key_eq k c.items ≡ some i
    → find c.heap k c.list ≡ some i
find_of_item k v e = sym (v.agree k) ∙ e

pub remove_element-IsValid :
    {c : Lru} (k : Key) (i : ℕ)
    → IsValid c
    → find c.heap k c.list ≡ some i
    → IsValid (remove_element i c)
unfolding remove_element
remove_element-IsValid {c} k i v e = record {
  sound = record {
    fresh = remove-All c.next i c.list v.fresh;
    distinct = remove-Distinct c.heap i c.list v.distinct;
    agree = λ j. ground (
      arith,
      lookup-delete key_eq (c.heap i).key j c.items,
      find-remove c.heap k j i c.list v.distinct e,
      key-find c.heap k i c.list e,
      v.agree j,
    );
    one_item = delete-IsUnique key_eq (c.heap i).key c.items v.one_item;
    one_expiry = delete-IsUnique key_eq (c.heap i).key c.expires v.one_expiry;
    sized = omega (arith, total-remove c.heap k i c.list e, v.sized);
  };
  timed = λ j h. ground (
    arith,
    lookup-delete key_eq (c.heap i).key j c.items,
    lookup-delete key_eq (c.heap i).key j c.expires,
    v.timed j,
  );
}

pub delete_key-IsValid : {c : Lru} (k : Key) → IsValid c → IsValid (delete_key k c).0
unfolding delete_key
delete_key-IsValid {c} k v = elim (Option-cases (lookup key_eq k c.items)) [
  | inl e ↦ rw (e, delete_key) v
  | inr (i, e) ↦ rw (e, delete_key) (remove_element-IsValid k i v (find_of_item k v.sound e))
]

pub expire_one-IsValid :
    {c : Lru} (now : ℕ) (k : Key) (t : ℕ) → IsValid c → IsValid (expire_one now k t c)
unfolding expire_one
expire_one-IsValid {c} now k t v = elim (Bool-cases (ltb t now)) [
  | inr e ↦ rw e v
  | inl late ↦ elim (Option-cases (lookup key_eq k c.items)) [
    | inl e ↦ rw (late, e, expire_one) v
    | inr (i, e) ↦
        rw (late, e, expire_one) (remove_element-IsValid k i v (find_of_item k v.sound e))
  ]
]

pub evict_expired-IsValid :
    (now : ℕ) (m : GoMap Key ℕ) (c : Lru) → IsValid c → IsValid (evict_expired now m c)
unfolding evict_expired
evict_expired-IsValid now [] c v = v
evict_expired-IsValid now ((k, t) ∷ m) c v =
    evict_expired-IsValid now m (expire_one now k t c) (expire_one-IsValid now k t v)

pub find-front :
    (h : ℕ → Entry) (i : ℕ) (l : List ℕ) → front l ≡ some i → find h (h i).key l ≡ some i
unfolding find
find-front h i [] e = ground arith
find-front h i (x ∷ l) e = ground arith

pub drop_front-IsValid : {c : Lru} → IsValid c → IsValid (drop_front c)
unfolding drop_front
drop_front-IsValid {c} v = elim (Option-cases (front c.list)) [
  | inl e ↦ rw (e, drop_front) v
  | inr (i, e) ↦
      rw (e, drop_front) (remove_element-IsValid (c.heap i).key i v (find-front c.heap i c.list e))
]

pub shrink-IsValid : (fuel : ℕ) (c : Lru) → IsValid c → IsValid (shrink fuel c)
unfolding shrink
shrink-IsValid zero c v = v
shrink-IsValid (suc fuel) c v = elim (Bool-cases (is_over c)) [
  | inl e ↦ rw e (shrink-IsValid fuel (drop_front c) (drop_front-IsValid v))
  | inr e ↦ rw e v
]

pub evict-IsValid : {c : Lru} (r : Range) (now : ℕ) → IsValid c → IsValid (evict r now c)
unfolding evict
evict-IsValid {c} r now v = shrink-IsValid _ _ (evict_expired-IsValid now (r.visit c.expires) c v)

pub move-IsValid :
    {c : Lru} (k : Key) (i : ℕ)
    → IsValid c
    → find c.heap k c.list ≡ some i
    → IsValid (record c { list = move_to_back i c.list })
move-IsValid {c} k i v e = record {
  sound = record {
    fresh = move_to_back-All c.next i c.list v.fresh;
    distinct = move_to_back-Distinct c.heap k i c.list v.distinct e;
    agree = λ j. ground (arith, find-move_to_back c.heap k j i c.list v.distinct e, v.agree j);
    one_item = v.one_item;
    one_expiry = v.one_expiry;
    sized = omega (arith, total-move_to_back c.heap k i c.list e, v.sized);
  };
  timed = v.timed;
}

-- The second part of `Get` may come late: its element may be gone by then, or have lost its key to
-- another element.
pub touch-IsValid : {c : Lru} (k : Key) (i : ℕ) → IsValid c → IsValid (touch k i c)
unfolding touch move_to_back
touch-IsValid {c} k i v = elim (Option-cases (lookup key_eq k c.items)) [
  | inl e ↦ rw (e, touch) v
  | inr (j, e) ↦ elim (Bool-cases (contains i c.list)) [
    | inl here ↦
        rw (e, touch)
          (move-IsValid (c.heap i).key i v (find-contains c.heap i c.list v.distinct here))
    | inr gone ↦ rw (e, touch, move_to_back, gone) v
  ]
]

pub get-IsValid : {c : Lru} (now : ℕ) (k : Key) → IsValid c → IsValid (get now k c).0
unfolding get
get-IsValid {c} now k v = elim (Found-cases (read now k c)) [
  | inl e ↦ rw (e, get) v
  | inr (inl e) ↦ rw (e, get) v
  | inr (inr (i, x, e)) ↦ rw (e, get) (touch-IsValid k i v)
]
