-- ===== src/Lru/Expiry.antt =====
-- The first loop of `evict` in store/lru.go: it drops what has expired.
use mathlib.Core.Bool.{Bool-set}
use mathlib.Core.List.{Permᴰ}
use mathlib.Core.Logic.{∥∥₁_elim}
use lcache.Common.{
  ℕ, ◌≤◌, ◌≡◌, refl, sym, ap, ◌∙◌, List, [], ◌∷◌, none, some, ite, inl, inr, arith, Bool, false,
  ◌||◌, ltb, if◌then◌else◌, Option-cases,
}
use lcache.Common.GoMap.{GoMap, lookup, IsUnique}
use lcache.Value.{Key, key_eq}
use lcache.Lru.Elements.{find, Distinct, total, key-find}
use lcache.Lru.Invariant.{IsValid, find_of_item, expire_one-IsValid}
use lcache.Lru.{Lru, Entry, Range, remove, remove_element, is_expired, expire_one, evict_expired}

-- Some entry of the map gives the key an expiry that is over.
due : ℕ → GoMap Key ℕ → Key → Bool
due now [] k = false
due now ((j, t) ∷ m) k = ite (key_eq j k) (ltb t now) false || due now m k

-- The elements whose keys are not due.
undue : (ℕ → Entry) → ℕ → GoMap Key ℕ → List ℕ → List ℕ
unfolding due
undue h now m [] = []
undue h now m (i ∷ l) = if due now m (h i).key then undue h now m l else i ∷ undue h now m l

without : (ℕ → Entry) → Key → List ℕ → List ℕ
without h k [] = []
without h k (i ∷ l) = ite (key_eq (h i).key k) (without h k l) (i ∷ without h k l)

module _ (h : ℕ → Entry) where
  without_absent : (k : Key) (l : List ℕ) → find h k l ≡ none → without h k l ≡ l
  unfolding find without
  without_absent k [] e = refl
  without_absent k (x ∷ l) e = ground (arith, without_absent k l)

  remove-eq-without :
      (k : Key) (i : ℕ) (l : List ℕ)
      → Distinct h l
      → find h k l ≡ some i
      → remove i l ≡ without h k l
  unfolding find without remove
  remove-eq-without k i [] d e = ground arith
  remove-eq-without k i (x ∷ l) d e =
      ground (arith, remove-eq-without k i l d.1, without_absent k l, key-find h k i l)

  undue-nil : (now : ℕ) (l : List ℕ) → undue h now [] l ≡ l
  unfolding undue
  undue-nil now [] = refl
  undue-nil now (x ∷ l) = ap (◌∷◌ x) (undue-nil now l)

  undue-cons :
      (now : ℕ) (k : Key) (t : ℕ) (m : GoMap Key ℕ) (l : List ℕ)
      → undue h now ((k, t) ∷ m) l ≡ undue h now m (if ltb t now then without h k l else l)
  unfolding undue without
  undue-cons now k t m [] = ground arith
  undue-cons now k t m (x ∷ l) = ground (arith, undue-cons now k t m l)

expire_one-list :
    (now : ℕ) (k : Key) (t : ℕ) (c : Lru)
    → IsValid c
    → (expire_one now k t c).list ≡ (if ltb t now then without c.heap k c.list else c.list)
unfolding expire_one remove_element
expire_one-list now k t c v = elim (Option-cases (lookup key_eq k c.items)) [
  | inl e ↦ ground (arith, without_absent c.heap k c.list (sym (v.agree k) ∙ e))
  | inr (i, e) ↦
      ground (arith, remove-eq-without c.heap k i c.list v.distinct (find_of_item k v.sound e))
]

expire_one-heap : (now : ℕ) (k : Key) (t : ℕ) (c : Lru) → (expire_one now k t c).heap ≡ c.heap
unfolding expire_one remove_element
expire_one-heap now k t c = ground arith

pub evict_expired-heap :
    (now : ℕ) (m : GoMap Key ℕ) (c : Lru) → (evict_expired now m c).heap ≡ c.heap
unfolding evict_expired
evict_expired-heap now [] c = refl
evict_expired-heap now ((k, t) ∷ m) c =
    evict_expired-heap now m (expire_one now k t c) ∙ expire_one-heap now k t c

-- The first loop, for any entries that it is given.
evict_expired-list :
    (now : ℕ) (m : GoMap Key ℕ) (c : Lru)
    → IsValid c
    → (evict_expired now m c).list ≡ undue c.heap now m c.list
unfolding evict_expired
evict_expired-list now [] c v = sym (undue-nil c.heap now c.list)
evict_expired-list now ((k, t) ∷ m) c v =
    rw
      (
        evict_expired-list now m (expire_one now k t c) (expire_one-IsValid now k t v),
        expire_one-heap now k t c,
        expire_one-list now k t c v,
      )
      (sym (undue-cons c.heap now k t m c.list))

or_swap : (a b c : Bool) → (a || (b || c)) ≡ (b || (a || c))
or_swap a b c = ground arith

-- The order in which the map is visited makes no difference.
due-perm : (now : ℕ) (k : Key) {m m' : GoMap Key ℕ} → Permᴰ m m' → due now m k ≡ due now m' k
unfolding due
due-perm now k Permᴰ.nil = refl
due-perm now k (Permᴰ.cons e p) = rw e (rw (due-perm now k p))
due-perm now k (Permᴰ.swap {a' = (j, t)} {b' = (j', t')} {l = m} e e') =
    rw (e, e')
      (or_swap (ite (key_eq j' k) (ltb t' now) false) (ite (key_eq j k) (ltb t now) false)
        (due now m k))
due-perm now k (Permᴰ.trans p q) = due-perm now k p ∙ due-perm now k q

due_absent : (now : ℕ) (k : Key) (m : GoMap Key ℕ) → lookup key_eq k m ≡ none → due now m k ≡ false
unfolding due lookup
due_absent now k [] e = refl
due_absent now k ((j, t) ∷ m) e = ground (arith, due_absent now k m)

due-lookup :
    (now : ℕ) (k : Key) (m : GoMap Key ℕ)
    → IsUnique key_eq m
    → due now m k ≡ (elim (lookup key_eq k m) [ none ↦ false | some t ↦ ltb t now ])
unfolding due lookup
due-lookup now k [] u = refl
due-lookup now k ((j, t) ∷ m) u = ground (arith, due-lookup now k m u.1, due_absent now k m)

-- The elements of a list that have not expired, in their order: what the first loop is to leave.
unfoldable pub unexpired : ℕ → Lru → List ℕ → List ℕ
unexpired now c [] = []
unexpired now c (i ∷ l) =
    if is_expired now (c.heap i).key c then unexpired now c l else i ∷ unexpired now c l

undue-unexpired :
    (now : ℕ) (c : Lru) (l : List ℕ)
    → IsUnique key_eq c.expires
    → undue c.heap now c.expires l ≡ unexpired now c l
unfolding undue unexpired is_expired
undue-unexpired now c [] u = refl
undue-unexpired now c (i ∷ l) u =
    rw (due-lookup now (c.heap i).key c.expires u, undue-unexpired now c l u) (ground arith)

undue_congr :
    (h : ℕ → Entry) (now : ℕ) (m m' : GoMap Key ℕ) (l : List ℕ)
    → ((k : Key) → due now m k ≡ due now m' k)
    → undue h now m l ≡ undue h now m' l
unfolding undue
undue_congr h now m m' [] same = refl
undue_congr h now m m' (x ∷ l) same = rw (same (h x).key, undue_congr h now m m' l same)

-- The first loop drops exactly what has expired, in whatever order it visits the map.
pub expired-list :
    (r : Range) (now : ℕ) (c : Lru)
    → IsValid c
    → (evict_expired now (r.visit c.expires) c).list ≡ unexpired now c c.list
expired-list r now c v =
    evict_expired-list now (r.visit c.expires) c v
    ∙ undue_congr c.heap now _ _ c.list
        (λ k. ∥∥₁_elim (r.visit-perm c.expires) (Bool-set _ _) (λ p. due-perm now k p))
    ∙ undue-unexpired now c c.list v.one_expiry

pub total-unexpired-le :
    (now : ℕ) (c : Lru) (l : List ℕ) → total c.heap (unexpired now c l) ≤ total c.heap l
unfolding unexpired total
total-unexpired-le now c [] = omega arith
total-unexpired-le now c (i ∷ l) = ground (arith, total-unexpired-le now c l)
