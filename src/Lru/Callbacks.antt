-- ===== src/Lru/Callbacks.antt =====
-- The callback of store/lru.go: an entry that leaves the cache is handed to it once.
use mathlib.Core.List.{Perm, append_assoc}
use mathlib.Core.List.Perm
use lcache.Common.{
  ℕ, zero, suc, ◌≡◌, refl, sym, ap, ◌∙◌, inl, inr, List, [], ◌∷◌, ◌++◌, map, some, arith, true,
  Bool-cases, Option-cases, ltb, ℕ_discrete, if_pos, if_neg,
}
use lcache.Common.GoMap.{GoMap, lookup, IsUnique}
use lcache.Value.{Key, key_eq}
use lcache.Lru.Elements.{find, Distinct, contains-find, find-remove, remove-Distinct}
use lcache.Lru.Invariant.{IsValid, find_of_item, expire_one-IsValid}
use lcache.Lru.{
  Lru, Entry, Range, remove, contains, remove_element, expire_one, evict_expired, is_over, front,
  drop_front, shrink, evict, delete_key, clear,
}

-- The entries that were handed to the callback, and those that are still there.
abbrev pub accounts : Lru → List Entry
accounts c = c.calls ++ map c.heap c.list

remove-perm : (i : ℕ) (l : List ℕ) → contains i l ≡ true → Perm (i ∷ remove i l) l
unfolding contains remove
remove-perm i [] e = ground arith
remove-perm i (x ∷ l) e = elim (ℕ_discrete x i) [
  | yes same ↦ rw (if_pos _ same, ← same) (Perm.refl (x ∷ l))
  | no other ↦
      rw (if_neg _ other)
        (Perm.trans (Perm.swap x i (remove i l)) (Perm.cons x (remove-perm i l (ground arith))))
]

remove_element-accounts :
    (i : ℕ) (c : Lru)
    → c.on_evicted ≡ true
    → contains i c.list ≡ true
    → Perm (accounts (remove_element i c)) (accounts c)
unfolding remove_element
remove_element-accounts i c reports here =
    rw (reports, append_assoc)
      (Perm.append_left c.calls (Perm.map c.heap (remove-perm i c.list here)))

map_items : (h : ℕ → Entry) (m : GoMap Key ℕ) → map (λ p. h p.1) m ≡ map h (map (λ p. p.1) m)
map_items h [] = refl
map_items h ((k, i) ∷ m) = ap (◌∷◌ (h i)) (map_items h m)

contains-front : (i : ℕ) (l : List ℕ) → front l ≡ some i → contains i l ≡ true
unfolding contains
contains-front i [] e = ground arith
contains-front i (x ∷ l) e = ground arith

drop_front-on_evicted : (c : Lru) → (drop_front c).on_evicted ≡ c.on_evicted
unfolding drop_front remove_element
drop_front-on_evicted c = ground arith

expire_one-on_evicted :
    (now : ℕ) (k : Key) (t : ℕ) (c : Lru) → (expire_one now k t c).on_evicted ≡ c.on_evicted
unfolding expire_one remove_element
expire_one-on_evicted now k t c = ground arith

evict_expired-on_evicted :
    (now : ℕ) (m : GoMap Key ℕ) (c : Lru) → (evict_expired now m c).on_evicted ≡ c.on_evicted
unfolding evict_expired
evict_expired-on_evicted now [] c = refl
evict_expired-on_evicted now ((k, t) ∷ m) c =
    evict_expired-on_evicted now m (expire_one now k t c) ∙ expire_one-on_evicted now k t c

-- A map without double keys that finds what the list holds has the elements of the list.
items-perm :
    (h : ℕ → Entry) (m : GoMap Key ℕ) (l : List ℕ)
    → IsUnique key_eq m
    → Distinct h l
    → ((k : Key) → lookup key_eq k m ≡ find h k l)
    → Perm (map (λ p. p.1) m) l
unfolding lookup find
items-perm h [] [] u d agree = Perm.refl []
items-perm h [] (i ∷ l) u d agree = absurd (ground (arith, agree (h i).key))
items-perm h ((k, i) ∷ m) l u d agree =
    let found : find h k l ≡ some i = sym (agree k) ∙ if_pos (key_eq k k) refl _ _ in
    Perm.trans
      (Perm.cons i (
        items-perm h m (remove i l) u.1 (remove-Distinct h i l d)
          (λ j. ground (arith, agree j, find-remove h k j i l d found))))
      (remove-perm i l (contains-find h k i l found))

drop_front-accounts : (c : Lru) → c.on_evicted ≡ true → Perm (accounts (drop_front c)) (accounts c)
unfolding drop_front
drop_front-accounts c reports = elim (Option-cases (front c.list)) [
  | inl e ↦ rw (e, drop_front) (Perm.refl _)
  | inr (i, e) ↦
      rw (e, drop_front) (remove_element-accounts i c reports (contains-front i c.list e))
]

shrink-accounts :
    (fuel : ℕ) (c : Lru) → c.on_evicted ≡ true → Perm (accounts (shrink fuel c)) (accounts c)
unfolding shrink
shrink-accounts zero c reports = Perm.refl _
shrink-accounts (suc fuel) c reports = elim (Bool-cases (is_over c)) [
  | inl e ↦ rw e (
      Perm.trans (shrink-accounts fuel (drop_front c) (drop_front-on_evicted c ∙ reports))
        (drop_front-accounts c reports))
  | inr e ↦ rw e (Perm.refl _)
]

expire_one-accounts :
    (now : ℕ) (k : Key) (t : ℕ) (c : Lru)
    → IsValid c
    → c.on_evicted ≡ true
    → Perm (accounts (expire_one now k t c)) (accounts c)
unfolding expire_one
expire_one-accounts now k t c v reports = elim (Bool-cases (ltb t now)) [
  | inr e ↦ rw e (Perm.refl _)
  | inl over ↦ elim (Option-cases (lookup key_eq k c.items)) [
    | inl e ↦ rw (over, e, expire_one) (Perm.refl _)
    | inr (i, e) ↦
        rw (over, e, expire_one)
          (remove_element-accounts i c reports
            (contains-find c.heap k i c.list (find_of_item k v.sound e)))
  ]
]

evict_expired-accounts :
    (now : ℕ) (m : GoMap Key ℕ) (c : Lru)
    → IsValid c
    → c.on_evicted ≡ true
    → Perm (accounts (evict_expired now m c)) (accounts c)
unfolding evict_expired
evict_expired-accounts now [] c v reports = Perm.refl _
evict_expired-accounts now ((k, t) ∷ m) c v reports =
    Perm.trans
      (evict_expired-accounts now m (expire_one now k t c) (expire_one-IsValid now k t v)
        (expire_one-on_evicted now k t c ∙ reports))
      (expire_one-accounts now k t c v reports)

module _ (c : Lru) (v : IsValid c) (reports : c.on_evicted ≡ true) where
  -- The entries handed over before and after, with those in the cache, are the same as often.
  evict-accounts : (r : Range) (now : ℕ) → Perm (accounts (evict r now c)) (accounts c)
  unfolding evict
  evict-accounts r now =
      Perm.trans
        (shrink-accounts _ _ (evict_expired-on_evicted now (r.visit c.expires) c ∙ reports))
        (evict_expired-accounts now (r.visit c.expires) c v reports)

  delete_key-accounts : (k : Key) → Perm (accounts (delete_key k c).0) (accounts c)
  unfolding delete_key
  delete_key-accounts k = elim (Option-cases (lookup key_eq k c.items)) [
    | inl e ↦ rw (e, delete_key) (Perm.refl _)
    | inr (i, e) ↦
        rw (e, delete_key)
          (remove_element-accounts i c reports
            (contains-find c.heap k i c.list (find_of_item k v.sound e)))
  ]

  clear-accounts : (r : Range) → Perm (clear r c).calls (accounts c) × ((clear r c).list ≡ [])
  unfolding clear
  clear-accounts r = (
    rw reports (
        Perm.append_left c.calls (
          Perm.trans (Perm.map _ (r.visit-perm c.items)) (
            rw (map_items c.heap c.items)
              (Perm.map c.heap (items-perm c.heap c.items c.list v.one_item v.distinct v.agree))))),
    refl,
  )

  -- With a callback, `evict` and the deletion of a key hand it each entry that they drop, once, and no
  -- other: the entries handed over before and after, with those in the cache, are the same entries as
  -- often. `Clear` hands it each entry in the cache, once, in whatever order it visits them, and leaves
  -- none.
  pub drops_are_handed_over :
      (r : Range) (now : ℕ) (k : Key)
      → Perm (accounts (evict r now c)) (accounts c)
        × Perm (accounts (delete_key k c).0) (accounts c)
        × Perm (clear r c).calls (accounts c)
        × ((clear r c).list ≡ [])
  drops_are_handed_over r now k =
      (evict-accounts r now, delete_key-accounts k, (clear-accounts r).0, (clear-accounts r).1)
