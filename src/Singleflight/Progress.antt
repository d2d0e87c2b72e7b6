-- ===== src/Singleflight/Progress.antt =====
-- A goroutine that waits in `Do` of singleflight/singleflight.go: when it comes to return, and when it
-- never does.
use lcache.Common.{ℕ, ◌≡◌, ◌≢◌, refl, sym, ap, subst, ◌∙◌, ◌⊎◌, inl, inr, some, true, false}
use lcache.Common.Panics.{some-inj}
use lcache.Common.Families.{assign-at, assign_other}
use lcache.Value.{Key}
use lcache.Singleflight.Sound.{call_of, owned, IsSound}
use lcache.Singleflight.Kept.{place, Step-IsSound, Steps-IsSound, Reach-IsSound}
use lcache.Singleflight.{
  CallState, Phase, idle, missed, waits, runs, stored, woken, returned, System, moved, end_call,
  wake_waiting, HasReturned, Step, joins, misses, stores, ends, wakes, leaves, resumes, Steps, stay,
  later, Reach,
}

true-false : ¬ (true ≡ false)
true-false e = cc

waits_stored :
    {R : Type 0} {key key' : Key} {c d : ℕ} → ¬ (◌≡◌ {A = Phase R} (waits key c) (stored key' d))
waits_stored e = cc

waits_runs :
    {R : Type 0} {key key' : Key} {c d : ℕ} → ¬ (◌≡◌ {A = Phase R} (waits key c) (runs key' d))
waits_runs e = cc

module _ {R : Type 0} where
  -- The goroutine that has made a call runs the function, or has stored what it returned.
  owned-cases :
      (p : Phase R) (c : ℕ)
      → owned p ≡ some c
      → ((key : Key) × (p ≡ runs key c)) ⊎ ((key : Key) × (p ≡ stored key c))
  owned-cases idle c e = cc
  owned-cases (missed key) c e = cc
  owned-cases (waits key d) c e = cc
  owned-cases (runs key d) c e = inl (key, ap (runs key) (some-inj e))
  owned-cases (stored key d) c e = inr (key, ap (stored key) (some-inj e))
  owned-cases (woken key d) c e = cc
  owned-cases (returned key d r) c e = cc

  -- That a goroutine can return, after some steps from `s`.
  abbrev pub Returns : (ℕ → ℕ → Type 0) → System R → ℕ → Key → ℕ → Type 0
  Returns Waits s i key c =
      (t : System R) × (r : R) × Steps Waits s t × (t.phase i ≡ returned key c r)

  resume :
      (Waits : ℕ → ℕ → Type 0) (s t : System R) (i c : ℕ) (key : Key)
      → Steps Waits s t
      → IsSound t
      → t.phase i ≡ waits key c
      → (t.calls c).done ≡ true
      → Returns Waits s i key c
  resume Waits s t i c key steps v here done =
      let (r, full) = v.finished c done in
      (
        moved i (returned key c r) t,
        r,
        later steps (resumes i key c r here done full),
        assign-at t.phase i (returned key c r) i refl,
      )

  wake :
      (Waits : ℕ → ℕ → Type 0) (s t : System R) (i j c : ℕ) (key key' : Key)
      → Steps Waits s t
      → IsSound t
      → t.phase i ≡ waits key c
      → t.phase j ≡ stored key' c
      → Returns Waits s i key c
  wake Waits s t i j c key key' steps v here there =
      let step : Step Waits t (wake_waiting j key' c t) = wakes j key' c there in
      resume Waits s (wake_waiting j key' c t) i c key (later steps step) (Step-IsSound step v)
        (assign_other t.phase j (woken key' c) i
            (λ e. waits_stored (sym here ∙ (ap t.phase (sym e) ∙ there)))
          ∙ here)
        (ap (λ (x : CallState R). x.done)
          (assign-at t.calls c (record (t.calls c) { done = true }) c refl))

  -- Where no function that is run waits for a call of `Do`, a goroutine that waits in `Do` can return
  -- from every state that is reached: when the function of its call has returned, whatever that was.
  pub waits-Returns :
      (Waits : ℕ → ℕ → Type 0) (s : System R) (i c : ℕ) (key : Key) (r : R)
      → ((j k : ℕ) → ¬ Waits j k)
      → Reach Waits s
      → s.phase i ≡ waits key c
      → Returns Waits s i key c
  waits-Returns Waits s i c key r free reach here =
      let v = Reach-IsSound reach in
      elim (v.served c (place s i c (waits key c) here refl v).0) [
        | inl done ↦ resume Waits s s i c key stay v here done
        | inr (j, own) ↦ elim (owned-cases (s.phase j) c own) [
          | inr (key', there) ↦ wake Waits s s i j c key key' stay v here there
          | inl (key', there) ↦
              let step : Step Waits s (end_call j key' c r s) =
                ends j key' c r there (λ k w. absurd (free j k w)) in
              wake Waits s (end_call j key' c r s) i j c key key' (later stay step)
                (Step-IsSound step v)
                (assign_other s.phase j (stored key' c) i
                    (λ e. waits_runs (sym here ∙ (ap s.phase (sym e) ∙ there)))
                  ∙ here)
                (assign-at s.phase j (stored key' c) j refl)
        ]
      ]

  -- The goroutine that makes a step, and the others, which it leaves where they are.
  actor : {Waits : ℕ → ℕ → Type 0} {s t : System R} → Step Waits s t → ℕ
  actor (joins i key c _ _) = i
  actor (misses i key _ _) = i
  actor (stores i key _) = i
  actor (ends i key c r _ _) = i
  actor (wakes i key c _) = i
  actor (leaves i key c r _ _) = i
  actor (resumes i key c r _ _ _) = i

  others :
      {Waits : ℕ → ℕ → Type 0} {s t : System R} (step : Step Waits s t) (j : ℕ)
      → actor step ≢ j
      → t.phase j ≡ s.phase j
  unfolding actor
  others {s} (joins i key c _ _) j h = assign_other s.phase i _ j h
  others {s} (misses i key _ _) j h = assign_other s.phase i _ j h
  others {s} (stores i key _) j h = assign_other s.phase i _ j h
  others {s} (ends i key c r _ _) j h = assign_other s.phase i _ j h
  others {s} (wakes i key c _) j h = assign_other s.phase i _ j h
  others {s} (leaves i key c r _ _) j h = assign_other s.phase i _ j h
  others {s} (resumes i key c r _ _ _) j h = assign_other s.phase i _ j h

  -- `i` runs the function of a call, which waits for `j`, and `j` waits for the call.
  abbrev IsStuck : System R → ℕ → ℕ → Key → Key → ℕ → Type 0
  IsStuck s i j key key' c = (s.phase i ≡ runs key c) × (s.phase j ≡ waits key' c)

  runner_rests :
      {Waits : ℕ → ℕ → Type 0} {s t : System R} (i j c : ℕ) (key key' : Key)
      → Waits i j
      → IsStuck s i j key key' c
      → (step : Step Waits s t) → actor step ≢ i
  unfolding actor
  runner_rests i j c key key' w h (joins k key₁ d here _) e = cc
  runner_rests i j c key key' w h (misses k key₁ here _) e = cc
  runner_rests i j c key key' w h (stores k key₁ here) e = cc
  runner_rests {Waits} {s} i j c key key' w h (ends k key₁ d r here free) e =
      subst HasReturned h.1 (free j (subst (λ l. Waits l j) (sym e) w))
  runner_rests i j c key key' w h (wakes k key₁ d here) e = cc
  runner_rests i j c key key' w h (leaves k key₁ d r here _) e = cc
  runner_rests i j c key key' w h (resumes k key₁ d r here _ _) e = cc

  waiter_rests :
      {Waits : ℕ → ℕ → Type 0} {s t : System R} (i j c : ℕ) (key key' : Key)
      → IsSound s
      → IsStuck s i j key key' c
      → (step : Step Waits s t) → actor step ≢ j
  unfolding actor
  waiter_rests i j c key key' v h (joins k key₁ d here _) e = cc
  waiter_rests i j c key key' v h (misses k key₁ here _) e = cc
  waiter_rests i j c key key' v h (stores k key₁ here) e = cc
  waiter_rests i j c key key' v h (ends k key₁ d r here _) e = cc
  waiter_rests i j c key key' v h (wakes k key₁ d here) e = cc
  waiter_rests i j c key key' v h (leaves k key₁ d r here _) e = cc
  waiter_rests {s} i j c key key' v h (resumes k key₁ d r here done _) e =
      let same : d ≡ c = some-inj (ap call_of (sym here ∙ (ap s.phase e ∙ h.1))) in
      let (_, (_, _, open_)) = place s i c (runs key c) h.0 refl v in
      true-false (sym (ap (λ b. (s.calls b).done) (sym same) ∙ done) ∙ open_)

  -- A goroutine that runs the function of a call, where that waits for a second goroutine, which
  -- itself waits in `Do` for the call: neither of them moves again.
  pub nested_call_waits :
      (Waits : ℕ → ℕ → Type 0) (s t : System R) (i j c : ℕ) (key key' : Key)
      → Reach Waits s
      → Waits i j
      → s.phase i ≡ runs key c
      → s.phase j ≡ waits key' c
      → Steps Waits s t
      → (t.phase i ≡ runs key c) × (t.phase j ≡ waits key' c)
  nested_call_waits Waits s t i j c key key' reach w here there stay = (here, there)
  nested_call_waits Waits s t i j c key key' reach w here there (later {t = u} steps step) =
      let h = nested_call_waits Waits s u i j c key key' reach w here there steps in
      let v = Steps-IsSound steps (Reach-IsSound reach) in
      (
        others step i (runner_rests i j c key key' w h step) ∙ h.0,
        others step j (waiter_rests i j c key key' v h step) ∙ h.1,
      )
