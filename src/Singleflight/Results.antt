-- ===== src/Singleflight/Results.antt =====
-- What `Do` of singleflight/singleflight.go returns.
use lcache.Common.{ℕ, ◌≡◌, refl, sym, subst, ◌∙◌, Elem}
use lcache.Common.Panics.{some-inj}
use lcache.Value.{Key}
use lcache.Singleflight.Kept.{place, Reach-IsSound}
use lcache.Singleflight.{returned, System, Reach}

module _ {R : Type 0} where
  -- What `Do` returns is what a function returned that was run for the key, and two goroutines that
  -- share a call return the same, for the same key.
  pub returned-agrees :
      (Waits : ℕ → ℕ → Type 0) (s : System R) (i j c : ℕ) (key key' : Key) (r r' : R)
      → Reach Waits s
      → s.phase i ≡ returned key c r
      → s.phase j ≡ returned key' c r'
      → Elem (key, r) s.ran × (key' ≡ key) × (r' ≡ r)
  returned-agrees Waits s i j c key key' r r' reach here there =
      let v = Reach-IsSound reach in
      let (below, (named, full)) = place s i c (returned key c r) here refl v in
      let (_, (named', full')) = place s j c (returned key' c r') there refl v in
      (
        subst (λ k. Elem (k, r) s.ran) named (v.logged c r full),
        sym named' ∙ named,
        some-inj (sym full' ∙ full),
      )
