-- ===== src/Singleflight/Tests.antt =====
-- Runs of singleflight/singleflight.go, and the theorems about it at concrete runs.
use lcache.Common.{ℕ, ◌≡◌, refl, [], ◌∷◌, arith, Elem, ℕ_discrete}
use lcache.Common.GoMap.{lookup, insert, delete}
use lcache.Value.{Key, key_eq}
use lcache.Singleflight.Results.{returned-agrees}
use lcache.Singleflight.Progress.{Returns, waits-Returns, nested_call_waits}
use lcache.Singleflight.Twice.{runs_twice}
use lcache.Singleflight.{
  missed, waits, runs, returned, System, start, moved, store_call, end_call, wake_waiting,
  leave_call, joins, misses, stores, ends, wakes, leaves, resumes, Steps, stay, later, Reach,
}

abbrev k : Key
k = b'k' ∷ []

abbrev seven : ℕ
seven = 7

-- No function waits for a call; and the function of goroutine 0 waits for goroutine 1.
abbrev Free : ℕ → ℕ → Type 0
Free i j = ⊥

abbrev Nested : ℕ → ℕ → Type 0
Nested i j = (i ≡ 0) × (j ≡ 1)

-- Goroutine 0 makes a call that goroutine 1 joins.
abbrev opened : System ℕ
opened = store_call 0 k (moved 0 (missed k) start)

abbrev joined : System ℕ
joined = moved 1 (waits k 0) opened

Reach-joined : (Waits : ℕ → ℕ → Type 0) → Reach Waits joined
unfolding lookup insert delete ℕ_discrete key_eq
Reach-joined Waits =
    later (later (later stay (misses 0 k refl refl)) (stores 0 k refl)) (joins 1 k 0 refl refl)

-- Both return what the function of the first returned.
abbrev left : System ℕ
left = leave_call 0 k 0 7 (wake_waiting 0 k 0 (end_call 0 k 0 7 joined))

abbrev finished : System ℕ
finished = moved 1 (returned k 0 7) left

Reach-finished : Reach Free finished
unfolding lookup insert delete ℕ_discrete key_eq
Reach-finished =
    later
      (later
        (later (later (Reach-joined Free) (ends 0 k 0 7 refl (λ j w. elim w [ ])))
          (wakes 0 k 0 refl))
        (leaves 0 k 0 7 refl refl))
      (resumes 1 k 0 7 refl refl refl)

returned-agrees_example : Elem (k, 7) finished.ran × (k ≡ k) × (seven ≡ seven)
unfolding ℕ_discrete
returned-agrees_example = returned-agrees Free finished 1 0 0 k k 7 7 Reach-finished refl refl

waits-Returns_example : Returns Free joined 1 k 0
unfolding ℕ_discrete
waits-Returns_example = waits-Returns Free joined 1 0 k 7 (λ i j w. w) (Reach-joined Free) refl

nested_call_waits_example : (joined.phase 0 ≡ runs k 0) × (joined.phase 1 ≡ waits k 0)
unfolding ℕ_discrete
nested_call_waits_example =
    nested_call_waits Nested joined joined 0 1 0 k k (Reach-joined Nested) (refl, refl) refl refl
      stay

runs_twice_example :
    (t : System ℕ) × Steps Free start t × (t.phase 0 ≡ runs k 0) × (t.phase 1 ≡ runs k 1)
unfolding lookup
runs_twice_example = runs_twice Free start 0 1 k (λ e. absurd (omega (arith, e))) refl refl refl
