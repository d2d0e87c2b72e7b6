-- ===== src/Singleflight/Sound.antt =====
-- What holds of the calls of singleflight/singleflight.go in every state that the goroutines reach.
use lcache.Common.{
  ℕ, ◌+◌, ◌<◌, ◌≡◌, ◌≢◌, refl, sym, ap, subst, ◌∙◌, ◌⊎◌, inl, inr, List, Option, none, some, true,
  false, arith, Elem, ite, ℕ_discrete,
}
use lcache.Common.Panics.{some-inj}
use lcache.Common.GoMap.{lookup, insert, lookup-insert}
use lcache.Common.Families.{assign, assign-cases, assign-at, assign_other}
use lcache.Value.{Key, key_eq}
use lcache.Singleflight.{
  CallState, Phase, idle, missed, waits, runs, stored, woken, returned, System, new_call, start,
  moved, store_call,
}

pub none-some : {A : Type 0} {a : A} → ¬ (none ≡ some a)
none-some e = cc

module _ {R : Type 0} where
  -- The call that a goroutine is at, the call that it has made and not yet finished, and what its
  -- place in `Do` says of its call.
  abbrev pub call_of : Phase R → Option ℕ
  call_of idle = none
  call_of (missed key) = none
  call_of (waits key c) = some c
  call_of (runs key c) = some c
  call_of (stored key c) = some c
  call_of (woken key c) = some c
  call_of (returned key c r) = some c

  abbrev pub owned : Phase R → Option ℕ
  owned (runs key c) = some c
  owned (stored key c) = some c
  owned _ = none

  abbrev pub Fits : Phase R → CallState R → Type 0
  Fits idle x = Unit
  Fits (missed key) x = Unit
  Fits (waits key c) x = x.key ≡ key
  Fits (runs key c) x = (x.key ≡ key) × (x.val ≡ none) × (x.done ≡ false)
  Fits (stored key c) x = (x.key ≡ key) × ((r : R) × (x.val ≡ some r)) × (x.done ≡ false)
  Fits (woken key c) x = (x.key ≡ key) × (x.done ≡ true)
  Fits (returned key c r) x = (x.key ≡ key) × (x.val ≡ some r)

  abbrev pub IsPlaced : ℕ → (ℕ → CallState R) → Phase R → Type 0
  IsPlaced next calls p = (c : ℕ) → call_of p ≡ some c → (c < next) × Fits p (calls c)

  pub record IsSound (s : System R) : Type 0 where
    pub placed : (i : ℕ) → IsPlaced s.next s.calls (s.phase i)
    pub mapped :
        (key : Key) (c : ℕ)
        → lookup key_eq key s.m ≡ some c
        → (c < s.next) × ((s.calls c).key ≡ key)
    pub finished : (c : ℕ) → (s.calls c).done ≡ true → (r : R) × ((s.calls c).val ≡ some r)
    pub logged : (c : ℕ) (r : R) → (s.calls c).val ≡ some r → Elem ((s.calls c).key, r) s.ran
    pub single : (i j c : ℕ) → owned (s.phase i) ≡ some c → owned (s.phase j) ≡ some c → i ≡ j
    pub served :
        (c : ℕ) → c < s.next → ((s.calls c).done ≡ true) ⊎ ((i : ℕ) × (owned (s.phase i) ≡ some c))

  pub start-IsSound : IsSound (start {R = R})
  unfolding lookup
  start-IsSound = record {
    placed = λ i c e. cc;
    mapped = λ key c e. cc;
    finished = λ c e. cc;
    logged = λ c r e. cc;
    single = λ i j c e e'. cc;
    served = λ c h. absurd (omega arith);
  }

  -- A goroutine goes on with the calls as they are, and with as much unfinished as before.
  pub moved-IsSound :
      (i : ℕ) (p : Phase R) (s : System R)
      → IsPlaced s.next s.calls p
      → owned p ≡ owned (s.phase i)
      → IsSound s
      → IsSound (moved i p s)
  moved-IsSound i p s fits same v =
      let keeps = λ (j : ℕ).
        assign-cases s.phase i p (λ q. owned q ≡ owned (s.phase j)) j
          (λ e. same ∙ ap (λ k. owned (s.phase k)) e) (λ _. refl) in
      record {
        placed =
            λ j. assign-cases s.phase i p (IsPlaced s.next s.calls) j (λ _. fits) (λ _. v.placed j);
        mapped = v.mapped;
        finished = v.finished;
        logged = v.logged;
        single = λ j k c e e'. v.single j k c (sym (keeps j) ∙ e) (sym (keeps k) ∙ e');
        served = λ c h. elim (v.served c h) [ inl d ↦ inl d | inr (j, e) ↦ inr (j, keeps j ∙ e) ];
      }

  -- What a goroutine that stands at `p` says of the calls, where the calls have changed at `c`.
  IsPlaced-assign :
      (p : Phase R) (next next' c : ℕ) (calls : ℕ → CallState R) (x : CallState R)
      → ((d : ℕ) → d < next → d < next')
      → (call_of p ≡ some c → c < next → Fits p (calls c) → Fits p x)
      → IsPlaced next calls p
      → IsPlaced next' (assign calls c x) p
  IsPlaced-assign p next next' c calls x more keep v d e =
      let (below, fits) = v d e in
      (
        more d below,
        assign-cases calls c x (Fits p) d
            (λ same.
              keep (e ∙ ap some (sym same)) (subst (λ k. k < next) (sym same) below)
                (subst (λ k. Fits p (calls k)) (sym same) fits))
            (λ _. fits),
      )

  pub owned-call_of : (p : Phase R) (c : ℕ) → owned p ≡ some c → call_of p ≡ some c
  owned-call_of idle c e = cc
  owned-call_of (missed key) c e = cc
  owned-call_of (waits key d) c e = cc
  owned-call_of (runs key d) c e = e
  owned-call_of (stored key d) c e = e
  owned-call_of (woken key d) c e = cc
  owned-call_of (returned key d r) c e = cc

  pub owned-below : (s : System R) (j c : ℕ) → IsSound s → owned (s.phase j) ≡ some c → c < s.next
  owned-below s j c v e = (v.placed j c (owned-call_of (s.phase j) c e)).0

  pub store_call-IsSound :
      (i : ℕ) (key : Key) (s : System R)
      → s.phase i ≡ missed key
      → IsSound s
      → IsSound (store_call i key s)
  unfolding insert
  store_call-IsSound i key s here v =
      let x = new_call key in
      let p = runs key s.next in
      let other = λ (j c : ℕ) (e : owned (s.phase j) ≡ some c) (same : i ≡ j).
        none-some (sym (ap owned here) ∙ (ap (λ k. owned (s.phase k)) same ∙ e)) in
      let owner = λ (j c : ℕ).
        assign-cases s.phase i p
          (λ q. owned q ≡ some c → ((i ≡ j) × (s.next ≡ c)) ⊎ (owned (s.phase j) ≡ some c)) j
          (λ same e. inl (same, some-inj e)) (λ _ e. inr e) in
      record {
        placed = λ j.
            assign-cases s.phase i p (IsPlaced (s.next + 1) (assign s.calls s.next x)) j
              (λ _ c e.
                let q = some-inj e in
                (
                  omega (arith, q),
                  subst (Fits p) (sym (assign-at s.calls s.next x c q)) (refl, refl, refl),
                ))
              (λ _.
                IsPlaced-assign (s.phase j) s.next (s.next + 1) s.next s.calls x
                  (λ d h. omega arith) (λ e h fits. absurd (omega arith)) (v.placed j));
        mapped = λ k c e.
            elim (key_eq key k)
                as (λ d.
                  ite d (some s.next) (lookup key_eq k s.m) ≡ some c
                  → (c < s.next + 1) × ((assign s.calls s.next x c).key ≡ k)) [
                    | yes same ↦ λ e.
                        let q = some-inj e in
                        (
                          omega (arith, q),
                          ap (λ (y : CallState R). y.key) (assign-at s.calls s.next x c q) ∙ same,
                        )
                    | no _ ↦ λ e.
                        let (below, keyed) = v.mapped k c e in
                        (
                          omega (arith, below),
                          ap (λ (y : CallState R). y.key)
                                (assign_other s.calls s.next x c
                                  (λ q. absurd (omega (arith, q, below))))
                              ∙ keyed,
                        )
                  ]
              (sym (lookup-insert key_eq key k s.next s.m) ∙ e);
        finished = λ c.
            assign-cases s.calls s.next x (λ y. y.done ≡ true → (r : R) × (y.val ≡ some r)) c
              (λ _ e. cc) (λ _. v.finished c);
        logged = λ c r.
            assign-cases s.calls s.next x (λ y. y.val ≡ some r → Elem (y.key, r) s.ran) c
              (λ _ e. cc) (λ _. v.logged c r);
        single = λ j k c e e'. elim (owner j c e) [
          | inl (at, q) ↦ elim (owner k c e') [
            | inl (at', _) ↦ sym at ∙ at'
            | inr o ↦ absurd (omega (arith, q, owned-below s k c v o))
          ]
          | inr o ↦ elim (owner k c e') [
            | inl (_, q) ↦ absurd (omega (arith, q, owned-below s j c v o))
            | inr o' ↦ v.single j k c o o'
          ]
        ];
        served = λ c h. elim (ℕ_discrete s.next c) [
          | yes q ↦ inr (i, ap owned (assign-at s.phase i p i refl) ∙ ap some q)
          | no q ↦ elim (v.served c (omega arith)) [
            | inl d ↦ inl (ap (λ (y : CallState R). y.done) (assign_other s.calls s.next x c q) ∙ d)
            | inr (j, e) ↦ inr (j, ap owned (assign_other s.phase i p j (other j c e)) ∙ e)
          ]
        ];
      }

  -- The owner of a call changes it, and goes on.
  pub changed-IsSound :
      (i c : ℕ) (p : Phase R) (x : CallState R) (ran : List (Key × R)) (s : System R)
      → owned (s.phase i) ≡ some c
      → x.key ≡ (s.calls c).key
      → ((q : Phase R) → call_of q ≡ some c → owned q ≢ some c → Fits q (s.calls c) → Fits q x)
      → (call_of p ≡ some c) × Fits p x
      → (owned p ≡ some c) ⊎ ((owned p ≡ none) × (x.done ≡ true))
      → (x.done ≡ true → (r : R) × (x.val ≡ some r))
      → ((r : R) → x.val ≡ some r → Elem (x.key, r) ran)
      → ((z : Key × R) → Elem z s.ran → Elem z ran)
      → IsSound s
      → IsSound (record s { calls = assign s.calls c x; phase = assign s.phase i p; ran = ran })
  changed-IsSound i c p x ran s mine keyed keep (at, fits) after finished logged more v =
      let below = owned-below s i c v mine in
      let back = λ (j d : ℕ).
        assign-cases s.phase i p (λ q. owned q ≡ some d → owned (s.phase j) ≡ some d) j
          (λ same e. elim after [
            | inl o ↦ ap (λ k. owned (s.phase k)) (sym same) ∙ (mine ∙ (sym o ∙ e))
            | inr (o, _) ↦ absurd (none-some (sym o ∙ e))
          ])
          (λ _ e. e) in
      record {
        placed = λ j.
            assign-cases s.phase i p (IsPlaced s.next (assign s.calls c x)) j
              (λ _ d e.
                let q : c ≡ d = some-inj (sym at ∙ e) in
                (
                  subst (λ k. k < s.next) q below,
                  subst (Fits p) (sym (assign-at s.calls c x d q)) fits,
                ))
              (λ apart.
                IsPlaced-assign (s.phase j) s.next s.next c s.calls x (λ d h. h)
                  (λ e h f. keep (s.phase j) e (λ o. apart (v.single i j c mine o)) f)
                  (v.placed j));
        mapped = λ k d e.
            let (less, named) = v.mapped k d e in
            (
              less,
              assign-cases s.calls c x (λ y. y.key ≡ k) d
                  (λ q. keyed ∙ (ap (λ b. (s.calls b).key) q ∙ named)) (λ _. named),
            );
        finished = λ d.
            assign-cases s.calls c x (λ y. y.done ≡ true → (r : R) × (y.val ≡ some r)) d
              (λ _. finished) (λ _. v.finished d);
        logged = λ d r.
            assign-cases s.calls c x (λ y. y.val ≡ some r → Elem (y.key, r) ran) d (λ _. logged r)
              (λ _ e. more _ (v.logged d r e));
        single = λ j k d e e'. v.single j k d (back j d e) (back k d e');
        served = λ d h. elim (ℕ_discrete c d) [
          | yes q ↦ elim after [
            | inl o ↦ inr (i, ap owned (assign-at s.phase i p i refl) ∙ (o ∙ ap some q))
            | inr (_, done) ↦
                inl (ap (λ (y : CallState R). y.done) (assign-at s.calls c x d q) ∙ done)
          ]
          | no q ↦ elim (v.served d h) [
            | inl done ↦
                inl (ap (λ (y : CallState R). y.done) (assign_other s.calls c x d q) ∙ done)
            | inr (j, o) ↦ inr (
              j,
              ap owned (
                    assign_other s.phase i p j
                      (λ same. q (some-inj (sym mine ∙ (ap (λ k. owned (s.phase k)) same ∙ o)))))
                  ∙ o,
            )
          ]
        ];
      }
