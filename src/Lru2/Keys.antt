-- ===== src/Lru2/Keys.antt =====
-- The first half of `Clear` of store/lru2.go: the keys that it collects are those of all live nodes.
use lcache.Common.{
  ℕ, zero, suc, ◌+◌, ◌≤◌, ◌<◌, ◌≡◌, refl, sym, subst, ◌∙◌, ◌⊎◌, inl, inr, Bool, true, List, [], ◌∷◌,
  ◌++◌, Option, some, arith, Elem, Elem-append_left, lt→ltb, ℕ_discrete, Bool-cases,
}
use lcache.Common.Words.{gt64}
use lcache.Value.{Key, Value}
use lcache.Level.Walk.{walk-walk_list}
use lcache.Level.Rep.{view}
use lcache.Level.Spec.{lookup_node, walk_list}
use lcache.Level.Found.{found, found_node, found-view, live_value}
use lcache.Level.{Node, Level, walk}
use lcache.Lru2.Contents.{Has}
use lcache.Lru2.Safe.{IsLevel, IsStore}
use lcache.Lru2.{Lru2, bucket, seen, collect, collect_new, keys_from}

-- A callback that keeps what was collected, adds the key of its node, and goes on.
abbrev Collects : (Node → List Key → List Key × Bool) → Type 0
Collects f =
    (x : Node) (keys : List Key)
    → ((f x keys).1 ≡ true)
      × Elem x.k (f x keys).0
      × ((j : Key) → Elem j keys → Elem j (f x keys).0)

Elem-end : {A : Type 0} (z : A) (xs : List A) → Elem z (xs ++ z ∷ [])
Elem-end z [] = inl refl
Elem-end z (x ∷ xs) = inr (Elem-end z xs)

seen-Elem : (k : Key) (keys : List Key) → seen k keys ≡ true → Elem k keys
unfolding seen
seen-Elem k [] e = ground arith
seen-Elem k (x ∷ keys) e = ground (arith, seen-Elem k keys)

collect-Collects : Collects collect
collect-Collects x keys = (refl, Elem-end x.k keys, λ j m. Elem-append_left j keys (x.k ∷ []) m)

collect_new-Collects : Collects collect_new
collect_new-Collects x keys = elim (Bool-cases (seen x.k keys)) [
  | inl e ↦ rw e (refl, seen-Elem x.k keys e, λ j m. m)
  | inr e ↦ rw e (collect-Collects x keys)
]

walk_list-Elem :
    (f : Node → List Key → List Key × Bool)
    → Collects f
    → (j : Key) (l : List Node) (keys : List Key) → Elem j keys
    → Elem j (walk_list f l keys)
unfolding walk_list
walk_list-Elem f h j [] keys m = m
walk_list-Elem f h j (x ∷ l) keys m = elim (Bool-cases (gt64 x.expire_at 0)) [
  | inl e ↦ rw (e, (h x keys).0) (walk_list-Elem f h j l (f x keys).0 ((h x keys).2 j m))
  | inr e ↦ rw e (walk_list-Elem f h j l keys m)
]

-- The node with a key comes first, or later.
live_first :
    (j : Key) (v : Option Value) (x : Node) (l : List Node)
    → found_node (lookup_node j (x ∷ l)) ≡ some v
    → ((x.k ≡ j) × (gt64 x.expire_at 0 ≡ true)) ⊎ (found_node (lookup_node j l) ≡ some v)
unfolding lookup_node found_node live_value
live_first j v x l e = ground arith

walk_list-live :
    (f : Node → List Key → List Key × Bool)
    → Collects f
    → (j : Key) (v : Option Value) (l : List Node) (keys : List Key)
    → found_node (lookup_node j l) ≡ some v
    → Elem j (walk_list f l keys)
unfolding walk_list lookup_node found_node live_value
walk_list-live f h j v [] keys e = ground arith
walk_list-live f h j v (x ∷ l) keys e =
    let (more, added, kept) = h x keys in
    elim (live_first j v x l e) [
      | inl (q, live) ↦
          rw (live, more)
            (walk_list-Elem f h j l (f x keys).0 (subst (λ k. Elem k (f x keys).0) q added))
      | inr e ↦ elim (Bool-cases (gt64 x.expire_at 0)) [
        | inl live ↦ rw (live, more) (walk_list-live f h j v l (f x keys).0 e)
        | inr dead ↦ rw dead (walk_list-live f h j v l keys e)
      ]
    ]

-- The same in a level.
walk_level :
    (f : Node → List Key → List Key × Bool)
    → Collects f
    → (c : Level) (keys : List Key) → IsLevel c
    → (keys' : List Key) × (walk f c keys ≡ some keys')
      × ((j : Key) → Elem j keys → Elem j keys')
      × ((j : Key) (v : Option Value) → found j c ≡ some v → Elem j keys')
walk_level f h c keys l = (
  walk_list f (view c l.0.0) keys,
  walk-walk_list f c l.0.0 keys l.0.1,
  λ j m. walk_list-Elem f h j (view c l.0.0) keys m,
  λ j v e. walk_list-live f h j v (view c l.0.0) keys (sym (found-view j c l.0.0 l.0.1) ∙ e),
)

-- In every bucket of a range.
pub keys_from-Elem :
    (more i : ℕ) (s : Lru2) (keys : List Key)
    → IsStore s
    → i + more ≤ s.buckets
    → (keys' : List Key) × (keys_from more i s keys ≡ some keys')
      × ((j : Key) → Elem j keys → Elem j keys')
      × ((n : ℕ) (j : Key) (v : Option Value) → i ≤ n → n < i + more → Has s n j v → Elem j keys')
unfolding keys_from bucket
keys_from-Elem zero i s keys v b =
    (keys, refl, λ j m. m, λ n j y h k x. absurd (omega (arith, h, k)))
keys_from-Elem (suc more) i s keys v b =
    let in_range : i < s.buckets = omega arith in
    let a = walk_level collect collect-Collects (s.caches i).0 keys (v.levels i in_range).0 in
    let c =
      walk_level collect_new collect_new-Collects (s.caches i).1 a.0 (v.levels i in_range).1 in
    let rest = keys_from-Elem more (i + 1) s c.0 v (omega arith) in
    (
      rest.0,
      rw (lt→ltb i s.buckets in_range) (rw a.1 (rw c.1 rest.1)),
      λ j m. rest.2 j (c.2 j (a.2 j m)),
      λ n j y h k x. elim (ℕ_discrete i n) [
        | yes e ↦ elim (subst (λ n. Has s n j y) (sym e) x) [
          | inl x ↦ rest.2 j (c.2 j (a.3 j y x))
          | inr x ↦ rest.2 j (c.3 j y x)
        ]
        | no d ↦ rest.3 n j y (omega (arith, h, d)) (omega (arith, k)) x
      ],
    )
