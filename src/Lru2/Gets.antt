-- ===== src/Lru2/Gets.antt =====
-- `Get` of `lru2Store` (store/lru2.go) does not panic, and keeps every bucket well-formed.
use lcache.Common.{
  ℕ, ◌<◌, ◌≡◌, refl, sym, subst, inl, inr, not, ◌&&◌, ◌||◌, [], Option, none, some, arith,
  Option-cases, Bool-cases, lt→ltb,
}
use lcache.Common.GoMap.{lookup}
use lcache.Common.Words.{gt64, ge64}
use lcache.Value.{Key, key_eq, Value}
use lcache.Level.Rep.{view, node, node_at-some}
use lcache.Level.Refine.{get-refines}
use lcache.Level.Marks.{expiry_of}
use lcache.Level.Spec.{dropped}
use lcache.Level.Put.{put-refines}
use lcache.Level.Found.{found-written}
use lcache.Level.{Level, node_at}
use lcache.Lru2.Contents.{
  Has, IsPart, IsPart-refl, IsWithin, IsWithin-trans, IsAnswer, IsWritten-same_value, erased-IsPart,
  moved-IsPart, moved-found, erased-found, part-IsPut, set_bucket-IsWithin, set_bucket-IsWritten,
}
use lcache.Lru2.Safe.{
  IsLevel, IsStore, in_bucket, index-bound, node_found, expiry-found, set_bucket-IsStore, Deleted,
  delete_level, delete_at-IsStore,
}
use lcache.Lru2.{Lru2, get_value, get_second, promote, bucket, set_bucket, index, value_at}

-- `Get` after a miss in the first level, and after a hit.
get_second-IsStore :
    (now now₂ : ℕ) (key : Key) (i : ℕ) (c₀ : Level) (s : Lru2)
    → IsStore s
    → i < s.buckets
    → IsLevel c₀
    → IsPart c₀ (s.caches i).0
    → (s' : Lru2) × (r : Option (Option Value)) × (get_second now now₂ key i (c₀, (s.caches i).1) s
        ≡ some (s', r))
      × IsStore s'
      × IsWithin s' s
      × IsAnswer s i key r
unfolding get_second
get_second-IsStore now now₂ key i c₀ s v b l₀ part =
    let c₁ = (s.caches i).1 in
    let l₁ = (v.levels i b).1 in
    let p = get-refines c₁ l₁.0.0 key l₁.0.1 in
    let l' : IsLevel p.0 = ((p.1, p.3), subst (λ n. 0 < n) (sym p.5) l₁.1) in
    let s₁ = set_bucket i (c₀, p.0) [] s in
    let v₁ = set_bucket-IsStore i c₀ p.0 [] s v l₀ l' in
    let w₁ = set_bucket-IsWithin i c₀ p.0 [] s part (moved-IsPart c₁ p.0 p.6) in
    elim (Option-cases (lookup key_eq key c₁.hmap)) [
      | inl e ↦ (s₁, none, rw p.2 (rw e refl), v₁, w₁, inl refl)
      | inr (j, e) ↦
          let f = node_found c₁ l₁.0.0 key j l₁.0.1 e in
          let x = node p.0.nodes j in
          let n : node_at j p.0 ≡ some x = node_at-some j p.0 f.0 (omega (arith, f.1, p.5)) in
          let d = delete_at-IsStore key i s₁ v₁ (in_bucket i i _ [] s b) in
          elim (Bool-cases (not (gt64 x.expire_at 0) || ge64 now₂ x.expire_at)) [
            | inl old ↦ (s₁, none, rw p.2 (rw (e, n, old) refl), v₁, w₁, inl refl)
            | inr fresh ↦ elim (Bool-cases (gt64 x.expire_at 0 && ge64 now x.expire_at)) [
              | inl past ↦ (
                d.0,
                none,
                rw p.2 (rw (e, n, fresh, past) (rw d.2 refl)),
                d.3,
                IsWithin-trans s s₁ d.0 w₁ d.5,
                inl refl,
              )
              | inr live ↦ (
                s₁,
                some x.v,
                rw p.2 (rw (e, n, fresh, live) refl),
                v₁,
                w₁,
                inr (x.v, refl, inr (moved-found key j c₁ p.0 p.6 e (ground (arith, fresh)))),
              )
            ]
          ]
    ]

promote-IsStore :
    (now : ℕ) (key : Key) (i j t : ℕ) (s : Lru2)
    → IsStore s
    → i < s.buckets
    → (d : Deleted key (s.caches i).0) → expiry_of key (s.caches i).0 ≡ some (j, t)
    → (s' : Lru2) × (r : Option (Option Value)) × (promote now key i
          (j, t)
          (d.after, (s.caches i).1)
          s
        ≡ some (s', r))
      × IsStore s'
      × IsWithin s' s
      × IsAnswer s i key r
unfolding promote value_at
promote-IsStore now key i j t s v b d e =
    let c = (s.caches i).0 in
    let l = (v.levels i b).0 in
    let c₁ = (s.caches i).1 in
    let l₁ = (v.levels i b).1 in
    let s₁ = set_bucket i (d.after, c₁) [] s in
    let v₁ = set_bucket-IsStore i d.after c₁ [] s v d.level l₁ in
    let part = (erased-IsPart key c d.after d.marks).0 in
    let w₁ = set_bucket-IsWithin i d.after c₁ [] s part (IsPart-refl c₁) in
    let gone = delete_at-IsStore key i s₁ v₁ (in_bucket i i (d.after, c₁) [] s b) in
    elim (Bool-cases (gt64 t 0 && ge64 now t)) [
      | inl past ↦ (
        gone.0,
        none,
        rw past (rw gone.2 refl),
        gone.3,
        IsWithin-trans s s₁ gone.0 w₁ gone.5,
        inl refl,
      )
      | inr live ↦
          let f = node_found c l.0.0 key j l.0.1 (expiry-found c key j t e) in
          let x = node d.after.nodes j in
          let n : node_at j d.after ≡ some x =
            node_at-some j d.after f.0 (omega (arith, f.1, d.same)) in
          let has : Has s i key x.v = inl (erased-found key j t c d.after d.marks e) in
          let p = put-refines s.on_evicted key x.v t c₁ l₁.0.0 l₁.0.1 l₁.1 in
          let calls = dropped s.on_evicted c₁.cap key (view c₁ l₁.0.0) in
          (
            set_bucket i (d.after, p.0) calls s,
            some x.v,
            rw live (rw n (rw p.2 refl)),
            set_bucket-IsStore i d.after p.0 calls s v d.level
                ((p.1, p.3), subst (λ n. 0 < n) (sym p.5) l₁.1),
            IsWritten-same_value i key x.v s (set_bucket i (d.after, p.0) calls s)
                (set_bucket-IsWritten i key x.v d.after p.0 calls s
                  (part-IsPut key x.v c d.after part)
                  (λ n. found-written n key x.v t c₁ p.0 l₁.0.0 p.1 l₁.0.1 p.3 p.4))
                has,
            inr (x.v, refl, has),
          )
    ]

-- `Get` returns, with no panic, and keeps the store well-formed.
pub get-IsStore :
    (now now₂ : ℕ) (key : Key) (s : Lru2)
    → IsStore s
    → (s' : Lru2) × (r : Option (Option Value)) × (get_value now now₂ key s ≡ some (s', r))
      × IsStore s'
      × IsWithin s' s
      × IsAnswer s (index key s) key r
unfolding get_value bucket
get-IsStore now now₂ key s v =
    let i = index key s in
    let b = index-bound key s v in
    let d = delete_level key (s.caches i).0 (v.levels i b).0 in
    elim (Option-cases (expiry_of key (s.caches i).0)) [
      | inl e ↦
          let r =
            get_second-IsStore now now₂ key i d.after s v b d.level
              (erased-IsPart key (s.caches i).0 d.after d.marks).0 in
          (r.0, r.1, rw (lt→ltb i s.buckets b) (rw d.result (rw e r.2)), r.3, r.4, r.5)
      | inr ((j, t), e) ↦
          let r = promote-IsStore now key i j t s v b d e in
          (r.0, r.1, rw (lt→ltb i s.buckets b) (rw d.result (rw e r.2)), r.3, r.4, r.5)
    ]
