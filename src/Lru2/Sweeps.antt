-- ===== src/Lru2/Sweeps.antt =====
-- The loops of `lru2Store` (store/lru2.go) over all buckets, in `Clear`, `Len` and `cleanupLoop`, do
-- not panic, and keep every bucket well-formed.
use lcache.Common.{
  ℕ, zero, suc, ◌+◌, ◌≤◌, ◌<◌, ◌≡◌, refl, sym, subst, inl, inr, Option, Elem, ◌∙◌, Bool, true, List,
  [], ◌∷◌, some, arith, lt→ltb,
}
use lcache.Value.{Key, Value}
use lcache.Level.Walk.{walk-walk_list}
use lcache.Level.Rep.{view}
use lcache.Level.Spec.{walk_list}
use lcache.Level.{Node, Level, walk}
use lcache.Lru2.Safe.{IsLevel, IsStore, index-bound, delete_at-IsStore}
use lcache.Lru2.Keys.{keys_from-Elem}
use lcache.Lru2.Contents.{
  Has, IsPlaced, IsEmpty, gone_has, index_kept, IsWithin, IsWithin-refl, IsWithin-trans,
}
use lcache.Lru2.{
  Lru2, bucket, index, delete, count_from, len, collect, collect_new, delete_keys, clear,
  if_expired, delete_each, cleanup_from, cleanup,
}

walk_level {ℓ} :
    {S : Type ℓ} (walker : Node → S → S × Bool) (c : Level) (s : S)
    → IsLevel c
    → (s' : S) × (walk walker c s ≡ some s')
walk_level walker c s l = (walk_list walker (view c l.0.0) s, walk-walk_list walker c l.0.0 s l.0.1)

walk_bucket {ℓ} :
    {S : Type ℓ} (f g : Node → S → S × Bool) (i : ℕ) (s : Lru2) (x : S)
    → IsStore s
    → i < s.buckets
    → (y : S) × (z : S) × (walk f (s.caches i).0 x ≡ some y) × (walk g (s.caches i).1 y ≡ some z)
walk_bucket f g i s x v b =
    let first = walk_level f (s.caches i).0 x (v.levels i b).0 in
    let second = walk_level g (s.caches i).1 first.0 (v.levels i b).1 in
    (first.0, second.0, first.1, second.1)

count_from-some :
    (more i : ℕ) (s : Lru2) (n : ℕ)
    → IsStore s
    → i + more ≤ s.buckets
    → (n' : ℕ) × (count_from more i s n ≡ some n')
unfolding count_from bucket
count_from-some zero i s n v b = (n, refl)
count_from-some (suc more) i s n v b =
    let w = walk_bucket (λ x n. (n + 1, true)) (λ x n. (n + 1, true)) i s n v (omega arith) in
    let rest = count_from-some more (i + 1) s w.1 v (omega arith) in
    (rest.0, rw (lt→ltb i s.buckets (omega arith)) (rw w.2 (rw w.3 rest.1)))

-- A deletion of keys keeps what is gone, and takes each of the keys out of its bucket.
delete_keys-IsStore :
    (keys : List Key) (s : Lru2)
    → IsStore s
    → (s' : Lru2) × (delete_keys keys s ≡ some s')
      × IsStore s'
      × IsWithin s' s
      × ((k : Key) (v : Option Value) → Elem k keys → Has s' (index k s) k v → ⊥)
unfolding delete_keys delete
delete_keys-IsStore [] s v = (s, refl, v, IsWithin-refl s, λ k x m h. elim m [ ])
delete_keys-IsStore (key ∷ keys) s v =
    let d = delete_at-IsStore key (index key s) s v (index-bound key s v) in
    let rest = delete_keys-IsStore keys d.0 d.3 in
    (
      rest.0,
      rw d.2 rest.1,
      rest.2,
      IsWithin-trans s d.0 rest.0 d.5 rest.3,
      λ k x m h. elim m [
        | inl e ↦
            gone_has key (d.0.caches (index key s)) x d.6
              (rest.3.1 (index key s) key x (subst (λ k. Has rest.0 (index k s) k x) e h))
        | inr m ↦ rest.4 k x m (subst (λ i. Has rest.0 i k x) (sym (index_kept k s d.0 d.5.0)) h)
      ],
    )

-- `Clear` returns, with no panic, and leaves the buckets well-formed. A store whose keys are in their
-- own buckets has no live node after it.
pub clear-IsStore :
    (s : Lru2)
    → IsStore s
    → (s' : Lru2) × (clear s ≡ some s') × IsStore s' × IsWithin s' s × (IsPlaced s → IsEmpty s')
unfolding clear
clear-IsStore s v =
    let keys = keys_from-Elem s.buckets 0 s [] v (omega arith) in
    let rest = delete_keys-IsStore keys.0 s v in
    (
      rest.0,
      rw keys.1 rest.1,
      rest.2,
      rest.3,
      λ placed n j x h.
          let old = rest.3.1 n j x h in
          let at = placed n j x old in
          rest.4 j x (keys.3 n j x (omega arith) (omega (arith, at, index-bound j s v)) old)
            (subst (λ n. Has rest.0 n j x) (sym at) h),
    )

-- So does `Len`.
pub len-some : (s : Lru2) → IsStore s → (n : ℕ) × (len s ≡ some n)
unfolding len
len-some s v = count_from-some s.buckets 0 s 0 v (omega arith)

delete_each-IsStore :
    (keys : List Key) (i : ℕ) (s : Lru2)
    → IsStore s
    → i < s.buckets
    → (s' : Lru2) × (delete_each keys i s ≡ some s')
      × IsStore s'
      × (s'.buckets ≡ s.buckets)
      × IsWithin s' s
unfolding delete_each
delete_each-IsStore [] i s v b = (s, refl, v, refl, IsWithin-refl s)
delete_each-IsStore (key ∷ keys) i s v b =
    let d = delete_at-IsStore key i s v b in
    let rest = delete_each-IsStore keys i d.0 d.3 (omega (arith, d.4)) in
    (rest.0, rw d.2 rest.1, rest.2, rest.3 ∙ d.4, IsWithin-trans s d.0 rest.0 d.5 rest.4)

cleanup_from-IsStore :
    (now more i : ℕ) (s : Lru2)
    → IsStore s
    → i + more ≤ s.buckets
    → (s' : Lru2) × (cleanup_from now more i s ≡ some s') × IsStore s' × IsWithin s' s
unfolding cleanup_from bucket
cleanup_from-IsStore now zero i s v b = (s, refl, v, IsWithin-refl s)
cleanup_from-IsStore now (suc more) i s v b =
    let w =
      walk_bucket (if_expired now collect) (if_expired now collect_new) i s [] v (omega arith) in
    let d = delete_each-IsStore w.1 i s v (omega arith) in
    let rest = cleanup_from-IsStore now more (i + 1) d.0 d.2 (omega (arith, d.3)) in
    (
      rest.0,
      rw (lt→ltb i s.buckets (omega arith)) (rw w.2 (rw w.3 (rw d.1 rest.1))),
      rest.2,
      IsWithin-trans s d.0 rest.0 d.4 rest.3,
    )

-- A round of the cleanup returns, with no panic, and leaves the buckets well-formed.
pub cleanup-IsStore :
    (now : ℕ) (s : Lru2)
    → IsStore s
    → (s' : Lru2) × (cleanup now s ≡ some s') × IsStore s' × IsWithin s' s
unfolding cleanup
cleanup-IsStore now s v = cleanup_from-IsStore now s.buckets 0 s v (omega arith)
