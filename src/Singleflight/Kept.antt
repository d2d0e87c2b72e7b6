-- ===== src/Singleflight/Kept.antt =====
-- Every step of singleflight/singleflight.go keeps what holds of the calls.
use lcache.Common.{
  ℕ, ◌<◌, ◌≡◌, ◌≢◌, refl, sym, ap, ◌∙◌, inl, inr, ◌∷◌, none, some, subst, true, ite-cases,
}
use lcache.Common.Panics.{some-inj}
use lcache.Common.GoMap.{lookup, delete, lookup-delete}
use lcache.Value.{Key, key_eq}
use lcache.Singleflight.Sound.{
  none-some, call_of, owned, Fits, IsSound, start-IsSound, moved-IsSound, store_call-IsSound,
  changed-IsSound,
}
use lcache.Singleflight.{
  CallState, Phase, idle, missed, waits, runs, stored, woken, returned, System, end_call,
  wake_waiting, Step, joins, misses, stores, ends, wakes, leaves, resumes, Steps, stay, later,
  Reach,
}

pair : {A B : Type 0} {a a' : A} {b b' : B} → a ≡ a' → b ≡ b' → ◌≡◌ {A = A × B} (a, b) (a', b')
pair e f = rw (e, f)

module _ {R : Type 0} where
  -- What a goroutine that has not made the call says of it, where its value is set, and where the
  -- waiting ones are woken.
  Fits-val :
      (c : ℕ) (x : CallState R) (r : R) (q : Phase R)
      → x.val ≡ none
      → call_of q ≡ some c
      → owned q ≢ some c
      → Fits q x
      → Fits q (record x { val = some r })
  Fits-val c x r idle n e o f = tt
  Fits-val c x r (missed key) n e o f = tt
  Fits-val c x r (waits key d) n e o f = f
  Fits-val c x r (runs key d) n e o f = absurd (o e)
  Fits-val c x r (stored key d) n e o f = absurd (o e)
  Fits-val c x r (woken key d) n e o f = f
  Fits-val c x r (returned key d r') n e o f = absurd (none-some (sym n ∙ f.1))

  Fits-done :
      (c : ℕ) (x : CallState R) (q : Phase R)
      → call_of q ≡ some c
      → owned q ≢ some c
      → Fits q x
      → Fits q (record x { done = true })
  Fits-done c x idle e o f = tt
  Fits-done c x (missed key) e o f = tt
  Fits-done c x (waits key d) e o f = f
  Fits-done c x (runs key d) e o f = absurd (o e)
  Fits-done c x (stored key d) e o f = absurd (o e)
  Fits-done c x (woken key d) e o f = (f.0, refl)
  Fits-done c x (returned key d r) e o f = f

  -- What a goroutine says of its call.
  pub place :
      (s : System R) (i c : ℕ) (p : Phase R)
      → s.phase i ≡ p
      → call_of p ≡ some c
      → IsSound s
      → (c < s.next) × Fits p (s.calls c)
  place s i c p here e v =
      subst (λ q. call_of q ≡ some c → (c < s.next) × Fits q (s.calls c)) here (v.placed i c) e

  pub end_call-IsSound :
      (i : ℕ) (key : Key) (c : ℕ) (r : R) (s : System R)
      → s.phase i ≡ runs key c
      → IsSound s
      → IsSound (end_call i key c r s)
  end_call-IsSound i key c r s here v =
      let (below, (named, empty, open_)) = place s i c (runs key c) here refl v in
      changed-IsSound i c (stored key c) (record (s.calls c) { val = some r }) ((key, r) ∷ s.ran) s
        (ap owned here) refl (λ q e o f. Fits-val c (s.calls c) r q empty e o f)
        (refl, (named, (r, refl), open_)) (inl refl) (λ d. (r, refl))
        (λ r' e. inl (pair named (sym (some-inj e)))) (λ z m. inr m) v

  wake_waiting-IsSound :
      (i : ℕ) (key : Key) (c : ℕ) (s : System R)
      → s.phase i ≡ stored key c
      → IsSound s
      → IsSound (wake_waiting i key c s)
  wake_waiting-IsSound i key c s here v =
      let (below, (named, (r, full), open_)) = place s i c (stored key c) here refl v in
      changed-IsSound i c (woken key c) (record (s.calls c) { done = true }) s.ran s (ap owned here)
        refl (λ q e o f. Fits-done c (s.calls c) q e o f) (refl, (named, refl)) (inr (refl, refl))
        (λ d. (r, full)) (v.logged c) (λ z m. m) v

  -- Fewer keys lead to calls.
  delete-IsSound :
      (key : Key) (s : System R) → IsSound s → IsSound (record s { m = delete key_eq key s.m })
  delete-IsSound key s v = record {
    placed = v.placed;
    mapped = λ k c e.
        ite-cases (λ o. o ≡ some c → (c < s.next) × ((s.calls c).key ≡ k)) (key_eq key k) none
          (lookup key_eq k s.m) (λ _ e. absurd (none-some e)) (λ _. v.mapped k c)
          (sym (lookup-delete key_eq key k s.m) ∙ e);
    finished = v.finished;
    logged = v.logged;
    single = v.single;
    served = v.served;
  }

  pub Step-IsSound :
      {Waits : ℕ → ℕ → Type 0} {s t : System R} → Step Waits s t → IsSound s → IsSound t
  Step-IsSound {s} (joins i key c here found) v =
      moved-IsSound i (waits key c) s
        (λ d e.
          subst (λ b. (b < s.next) × ((s.calls b).key ≡ key)) (some-inj e) (v.mapped key c found))
        (sym (ap owned here)) v
  Step-IsSound {s} (misses i key here _) v =
      moved-IsSound i (missed key) s (λ d e. absurd (none-some e)) (sym (ap owned here)) v
  Step-IsSound {s} (stores i key here) v = store_call-IsSound i key s here v
  Step-IsSound {s} (ends i key c r here _) v = end_call-IsSound i key c r s here v
  Step-IsSound {s} (wakes i key c here) v = wake_waiting-IsSound i key c s here v
  Step-IsSound {s} (leaves i key c r here full) v =
      let (below, (named, _)) = place s i c (woken key c) here refl v in
      delete-IsSound key _ (
        moved-IsSound i (returned key c r) s
          (λ d e.
            subst (λ b. (b < s.next) × (((s.calls b).key ≡ key) × ((s.calls b).val ≡ some r)))
              (some-inj e) (below, (named, full)))
          (sym (ap owned here)) v)
  Step-IsSound {s} (resumes i key c r here _ full) v =
      let (below, named) = place s i c (waits key c) here refl v in
      moved-IsSound i (returned key c r) s
        (λ d e.
          subst (λ b. (b < s.next) × (((s.calls b).key ≡ key) × ((s.calls b).val ≡ some r)))
            (some-inj e) (below, (named, full)))
        (sym (ap owned here)) v

  pub Steps-IsSound :
      {Waits : ℕ → ℕ → Type 0} {s t : System R} → Steps Waits s t → IsSound s → IsSound t
  Steps-IsSound stay v = v
  Steps-IsSound (later steps step) v = Step-IsSound step (Steps-IsSound steps v)

  pub Reach-IsSound : {Waits : ℕ → ℕ → Type 0} {s : System R} → Reach Waits s → IsSound s
  Reach-IsSound steps = Steps-IsSound steps start-IsSound
