-- ===== src/Lru2/Reads.antt =====
-- A value that is written to the two-level store of store/lru2.go and read before it expires.
use lcache.Common.{
  ℕ, ◌<◌, ◌≡◌, ◌≢◌, ◌≤◌, ◌+◌, refl, sym, subst, ◌∙◌, inl, inr, true, false, Option, none, some,
  arith, Option-cases, List, lt→ltb, if_pos, ℕ_discrete,
}
use lcache.Common.Panics.{some-inj}
use lcache.Common.GoMap.{lookup}
use lcache.Common.Words.{max_int64, gt64, ge64, add64}
use lcache.Value.{Key, key_eq, Value}
use lcache.Level.Rep.{Rep, view, node, lookup_node-map, lookup_node-map-none, node_at-some}
use lcache.Level.Spec.{lookup_node, written, dropped}
use lcache.Level.Put.{put-refines}
use lcache.Level.Marks.{expiry_of}
use lcache.Level.Found.{found, live_value}
use lcache.Level.{Node, Level, node_at}
use lcache.Lru2.Contents.{erased-found}
use lcache.Lru2.Safe.{IsStore, index-bound, delete_level, node_found, set_bucket-IsStore}
use lcache.Lru2.{Lru2, get_value, promote, bucket, index, set_with_expiration, set_bucket}

some-none : {A : Type 0} (x : A) → some x ≢ none
some-none x e = cc

lookup_node-written_self :
    (cap : ℕ) (x : Node) (l : List Node) → lookup_node x.k (written cap x l) ≡ some x
unfolding lookup_node written
lookup_node-written_self cap x l = ground arith

-- The node that a write leaves under its key.
written-node :
    (c c' : Level) (xs xs' : List ℕ) (x : Node)
    → Rep c' xs'
    → view c' xs' ≡ written c.cap x (view c xs)
    → (i : ℕ) × (lookup key_eq x.k c'.hmap ≡ some i) × (node c'.nodes i ≡ x)
written-node c c' xs xs' x r e =
    let a : lookup_node x.k (view c' xs') ≡ some x =
      rw e (lookup_node-written_self c.cap x (view c xs)) in
    elim (Option-cases (lookup key_eq x.k c'.hmap)) [
      | inl q ↦
          absurd
            (some-none x (sym a ∙ lookup_node-map-none c'.nodes x.k xs' (sym (r.agree x.k) ∙ q)))
      | inr (i, q) ↦
          (i, q, some-inj (sym (lookup_node-map c'.nodes x.k xs' i (sym (r.agree x.k) ∙ q)) ∙ a))
    ]

-- `Get` of a key with a live node in the first level that has not expired returns its value.
get_first :
    (now now₂ : ℕ) (key : Key) (i : ℕ) (x : Node) (s : Lru2)
    → IsStore s
    → lookup key_eq key (s.caches (index key s)).0.hmap ≡ some i
    → node (s.caches (index key s)).0.nodes i ≡ x
    → gt64 x.expire_at 0 ≡ true
    → ge64 now x.expire_at ≡ false
    → (s' : Lru2) × (get_value now now₂ key s ≡ some (s', some x.v))
unfolding get_value bucket promote expiry_of found live_value
get_first now now₂ key i x s v h n live fresh =
    let b = index-bound key s v in
    let c = (s.caches (index key s)).0 in
    let d = delete_level key c (v.levels (index key s) b).0 in
    let l₁ = (v.levels (index key s) b).1 in
    let q : expiry_of key c ≡ some (i, x.expire_at) = rw (expiry_of, h, n, live) refl in
    let f =
      node_found c (v.levels (index key s) b).0.0.0 key i (v.levels (index key s) b).0.0.1 h in
    let y = node d.after.nodes i in
    let m : node_at i d.after ≡ some y = node_at-some i d.after f.0 (omega (arith, f.1, d.same)) in
    let old : found key c ≡ some x.v = rw (found, h, n, live_value, live) refl in
    let same : y.v ≡ x.v =
      some-inj (sym (erased-found key i x.expire_at c d.after d.marks q) ∙ old) in
    let p =
      put-refines s.on_evicted key y.v x.expire_at (s.caches (index key s)).1 l₁.0.0 l₁.0.1 l₁.1 in
    (
      set_bucket (index key s) (d.after, p.0)
          (dropped s.on_evicted (s.caches (index key s)).1.cap key
            (view (s.caches (index key s)).1 l₁.0.0))
          s,
      rw (lt→ltb (index key s) s.buckets b)
          (rw d.result (rw q (rw (live, fresh) (rw m (rw p.2 (rw same refl)))))),
    )

-- The node that a write leaves in the first level.
record Written (key : Key) (x : Node) (s : Lru2) : Type 0 where
  at : ℕ
  mapped : lookup key_eq key (s.caches (index key s)).0.hmap ≡ some at
  holds : node (s.caches (index key s)).0.nodes at ≡ x

set_bucket-Written :
    (key : Key) (x : Node) (c₀ c₁ : Level) (calls : List (Key × Option Value)) (s : Lru2) (i : ℕ)
    → lookup key_eq key c₀.hmap ≡ some i
    → node c₀.nodes i ≡ x
    → Written key x (set_bucket (index key s) (c₀, c₁) calls s)
unfolding set_bucket index
set_bucket-Written key x c₀ c₁ calls s i h n =
    let same =
      sym
        (if_pos (ℕ_discrete (index key s) (index key s)) refl (c₀, c₁) (s.caches (index key s))) in
    record {
      at = i;
      mapped = subst (λ c. lookup key_eq key c.0.hmap ≡ some i) same h;
      holds = subst (λ c. node c.0.nodes i ≡ x) same n;
    }

set_first :
    (now : ℕ) (key : Key) (value : Option Value) (expiration : ℕ) (s : Lru2)
    → IsStore s
    → gt64 expiration 0 ≡ true
    → (s' : Lru2) × (set_with_expiration now key value expiration s ≡ some s')
      × IsStore s'
      × Written key (record { k = key; v = value; expire_at = add64 now expiration }) s'
unfolding set_with_expiration bucket
set_first now key value expiration s v above =
    let i = index key s in
    let b = index-bound key s v in
    let c = (s.caches i).0 in
    let ((xs, r), h) = (v.levels i b).0 in
    let x : Node = record { k = key; v = value; expire_at = add64 now expiration } in
    let p = put-refines s.on_evicted key value x.expire_at c xs r h in
    let w = written-node c p.0 xs p.1 x p.3 p.4 in
    let calls = dropped s.on_evicted c.cap key (view c xs) in
    (
      set_bucket i (p.0, (s.caches i).1) calls s,
      rw (above, lt→ltb i s.buckets b, p.2) refl,
      set_bucket-IsStore i p.0 (s.caches i).1 calls s v ((p.1, p.3), subst (λ n. 0 < n) (sym p.5) h)
          (v.levels i b).1,
      set_bucket-Written key x p.0 (s.caches i).1 calls s w.0 w.1 w.2,
    )

-- A value, nil too, that is written with an expiration above 0 is returned by `Get` before it
-- expires, whatever the store had, provided that an int64 holds the time at which it expires.
pub get_value-set_with_expiration :
    (now later later₂ : ℕ) (key : Key) (value : Option Value) (expiration : ℕ) (s : Lru2)
    → IsStore s
    → 0 < expiration
    → now + expiration ≤ max_int64
    → later < now + expiration
    → (s' s'' : Lru2) × (set_with_expiration now key value expiration s ≡ some s')
      × (get_value later later₂ key s' ≡ some (s'', some value))
get_value-set_with_expiration now later later₂ key value expiration s v above fits fresh =
    let e = expiration in
    let t : add64 now e ≡ now + e = omega (arith, fits) in
    let a = set_first now key value e s v (ground arith) in
    let r =
      get_first later later₂ key a.3.at (record { k = key; v = value; expire_at = add64 now e }) a.0
        a.2 a.3.mapped a.3.holds (rw t (ground arith)) (rw t (ground arith)) in
    (a.0, r.0, a.1, r.1)
