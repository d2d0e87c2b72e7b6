-- ===== src/Lru/Writes.antt =====
-- The writes of store/lru.go keep the cache well-formed.
use lcache.Common.{
  ℕ, ◌+◌, ◌<◌, ◌≡◌, refl, sym, ap, ◌∙◌, [], ◌∷◌, Option, none, some, ite, inl, inr, arith,
  All-append, All-mono, Option-cases, Bool-cases, if◌then◌else◌,
}
use lcache.Common.GoMap.{lookup, lookup-delete, lookup-insert, delete-IsUnique, insert-IsUnique}
use lcache.Common.Words.{gt64}
use lcache.Value.{Key, key_eq, Value}
use lcache.Lru.Elements.{
  find, Distinct, find-append, append-Distinct, total-append, find-move_to_back,
  move_to_back-Distinct, total-move_to_back, move_to_back-All, find-update, update-Distinct,
  total-update, find-update_fresh, update_fresh-Distinct, total-update_fresh, update_self,
}
use lcache.Lru.Invariant.{IsSound, IsValid, find_of_item, delete_key-IsValid, evict-IsValid}
use lcache.Lru.{
  Lru, Entry, Range, update, cost, set_expiry, overwrite, push_back, set_with_expiration,
}

pub lookup-set_expiry :
    (now : ℕ) (k j : Key) (expiration : ℕ) (c : Lru)
    → lookup key_eq j (set_expiry now k expiration c).expires
      ≡ ite
          (key_eq k j)
          (if gt64 expiration 0 then some (now + expiration) else none)
          (lookup key_eq j c.expires)
unfolding set_expiry
lookup-set_expiry now k j expiration c = ground (
  arith,
  lookup-insert key_eq k j (now + expiration) c.expires,
  lookup-delete key_eq k j c.expires,
)

pub set_expiry-IsSound :
    {c : Lru} (now : ℕ) (k : Key) (expiration : ℕ)
    → IsSound c
    → IsSound (set_expiry now k expiration c)
unfolding set_expiry
set_expiry-IsSound {c} now k expiration v = elim (Bool-cases (gt64 expiration 0)) [
  | inl e ↦
      rw (e, set_expiry)
        (record {
          fresh = v.fresh;
          distinct = v.distinct;
          agree = v.agree;
          one_item = v.one_item;
          one_expiry = insert-IsUnique key_eq k (now + expiration) c.expires v.one_expiry;
          sized = v.sized;
        })
  | inr e ↦
      rw (e, set_expiry)
        (record {
          fresh = v.fresh;
          distinct = v.distinct;
          agree = v.agree;
          one_item = v.one_item;
          one_expiry = delete-IsUnique key_eq k c.expires v.one_expiry;
          sized = v.sized;
        })
]

pub overwrite-IsSound :
    {c : Lru} (k : Key) (i : ℕ) (x : Value)
    → IsSound c
    → find c.heap k c.list ≡ some i
    → IsSound (overwrite i x c)
unfolding overwrite
overwrite-IsSound {c} k i x v e = record {
  fresh = move_to_back-All c.next i c.list v.fresh;
  distinct = move_to_back-Distinct h k i c.list distinct found;
  agree = λ j. ground (
    arith,
    find-move_to_back h k j i c.list distinct found,
    find-update c.heap i entry j c.list refl,
    v.agree j,
  );
  one_item = v.one_item;
  one_expiry = v.one_expiry;
  sized = omega (
    arith,
    total-move_to_back h k i c.list found,
    total-update c.heap i entry k c.list v.distinct e,
    v.sized,
  );
}
  where
    entry : Entry
    entry = record (c.heap i) { value = x }

    h : ℕ → Entry
    h = update c.heap i entry

    found : find h k c.list ≡ some i
    found = find-update c.heap i entry k c.list refl ∙ e

    distinct : Distinct h c.list
    distinct = update-Distinct c.heap i entry c.list refl v.distinct

pub push_back-IsSound :
    {c : Lru} (k : Key) (x : Value)
    → IsSound c
    → find c.heap k c.list ≡ none
    → IsSound (push_back k x c)
unfolding push_back
push_back-IsSound {c} k x v e = record {
  fresh =
      All-append _ c.list (c.next ∷ [])
        (All-mono (λ j. j < c.next) (λ j. j < c.next + 1) c.list (λ j a. omega arith) v.fresh)
        (omega arith, tt);
  distinct =
      append-Distinct h c.list c.next
        (update_fresh-Distinct c.heap c.next entry c.list v.fresh v.distinct) absent;
  agree = λ j. ground (
    arith,
    lookup-insert key_eq k j c.next c.items,
    find-append h j c.list c.next,
    find-update_fresh c.heap c.next entry j c.list v.fresh,
    new,
    v.agree j,
    v.agree k,
  );
  one_item = insert-IsUnique key_eq k c.next c.items v.one_item;
  one_expiry = v.one_expiry;
  sized = omega (
    arith,
    total-append h c.list c.next,
    total-update_fresh c.heap c.next entry c.list v.fresh,
    ap cost new,
    v.sized,
  );
}
  where
    entry : Entry
    entry = record { key = k; value = x }

    h : ℕ → Entry
    h = update c.heap c.next entry

    new : h c.next ≡ entry
    new = update_self c.heap c.next entry

    absent : find h (h c.next).key c.list ≡ none
    absent = rw new (find-update_fresh c.heap c.next entry k c.list v.fresh ∙ e)

pub items-set_expiry :
    (t : ℕ) (k : Key) (expiration : ℕ) (c : Lru) → (set_expiry t k expiration c).items ≡ c.items
unfolding set_expiry
items-set_expiry t k expiration c = ground arith

module _ {c : Lru} (t : ℕ) (k : Key) (x : Value) (expiration : ℕ) (v : IsValid c) where
  pub inserted-IsValid :
      lookup key_eq k c.items ≡ none → IsValid (push_back k x (set_expiry t k expiration c))
  unfolding push_back
  inserted-IsValid e = record {
    sound =
        push_back-IsSound k x sound
          (sym (sound.agree k) ∙ ap (lookup key_eq k) (items-set_expiry t k expiration c) ∙ e);
    timed = λ j h. ground (
      arith,
      lookup-insert key_eq k j c'.next c'.items,
      lookup-set_expiry t k j expiration c,
      items-set_expiry t k expiration c,
      v.timed j,
    );
  }
    where
      c' : Lru
      c' = set_expiry t k expiration c

      sound : IsSound c'
      sound = set_expiry-IsSound t k expiration v.sound

  -- Setting the expiry of a key that is there.
  pub set_expiry-IsValid :
      {i : ℕ} → lookup key_eq k c.items ≡ some i → IsValid (set_expiry t k expiration c)
  set_expiry-IsValid e = record {
    sound = set_expiry-IsSound t k expiration v.sound;
    timed = λ j h.
        ground (
          arith,
          lookup-set_expiry t k j expiration c,
          items-set_expiry t k expiration c,
          v.timed j,
        );
  }

  pub overwritten-IsValid :
      {i : ℕ}
      → lookup key_eq k c.items ≡ some i
      → IsValid (overwrite i x (set_expiry t k expiration c))
  unfolding overwrite
  overwritten-IsValid {i} e = record {
    sound =
        overwrite-IsSound k i x valid.sound (
          find_of_item k valid.sound
            (ap (lookup key_eq k) (items-set_expiry t k expiration c) ∙ e));
    timed = valid.timed;
  }
    where
      valid : IsValid (set_expiry t k expiration c)
      valid = set_expiry-IsValid e

-- Every call of `SetWithExpiration` keeps the cache well-formed, also one that evicts or deletes.
pub set_with_expiration-IsValid :
    {c : Lru} (r : Range) (t now : ℕ) (k : Key) (x : Option Value) (expiration : ℕ)
    → IsValid c
    → IsValid (set_with_expiration r t now k x expiration c)
unfolding set_with_expiration
set_with_expiration-IsValid {c} r t now k none expiration v = delete_key-IsValid k v
set_with_expiration-IsValid {c} r t now k (some x) expiration v =
    elim (Option-cases (lookup key_eq k c.items)) [
      | inl e ↦
          rw (items-set_expiry t k expiration c, e, set_with_expiration)
            (evict-IsValid r now (inserted-IsValid t k x expiration v e))
      | inr (i, e) ↦
          rw (items-set_expiry t k expiration c, e, set_with_expiration)
            (overwritten-IsValid t k x expiration v e)
    ]
