-- ===== src/Singleflight/Twice.antt =====
-- Two calls of `Do` of singleflight/singleflight.go for one key that both run their functions.
use lcache.Common.{ℕ, ◌+◌, ◌≡◌, ◌≢◌, refl, sym, ◌∙◌, none}
use lcache.Common.GoMap.{lookup}
use lcache.Common.Families.{assign-at, assign_other}
use lcache.Value.{Key, key_eq}
use lcache.Singleflight.{
  idle, missed, runs, System, moved, store_call, misses, stores, Steps, stay, later,
}

module _ {R : Type 0} where
  -- While no call for a key is in the map, two goroutines that come to `Do` with the key can both run
  -- their functions at once: between the lookup and the write of the map there is no lock.
  pub runs_twice :
      (Waits : ℕ → ℕ → Type 0) (s : System R) (i j : ℕ) (key : Key)
      → i ≢ j
      → s.phase i ≡ idle
      → s.phase j ≡ idle
      → lookup key_eq key s.m ≡ none
      → (t : System R) × Steps Waits s t
        × (t.phase i ≡ runs key s.next)
        × (t.phase j ≡ runs key (s.next + 1))
  runs_twice Waits s i j key apart free free' absent =
      let back : j ≢ i = λ e. apart (sym e) in
      let s₁ = moved i (missed key) s in
      let s₂ = moved j (missed key) s₁ in
      let s₃ = store_call i key s₂ in
      let s₄ = store_call j key s₃ in
      let j₁ : s₁.phase j ≡ idle = assign_other s.phase i (missed key) j apart ∙ free' in
      let i₂ : s₂.phase i ≡ missed key =
        assign_other s₁.phase j (missed key) i back ∙ assign-at s.phase i (missed key) i refl in
      let j₃ : s₃.phase j ≡ missed key =
        assign_other s₂.phase i (runs key s.next) j apart
        ∙ assign-at s₁.phase j (missed key) j refl in
      (
        s₄,
        later
            (later (later (later stay (misses i key free absent)) (misses j key j₁ absent))
              (stores i key i₂))
            (stores j key j₃),
        assign_other s₃.phase j (runs key (s.next + 1)) i back
            ∙ assign-at s₂.phase i (runs key s.next) i refl,
        assign-at s₃.phase j (runs key (s.next + 1)) j refl,
      )
