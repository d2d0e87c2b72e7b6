-- ===== src/Lru2/Origins.antt =====
-- What a client of the two-level store of store/lru2.go can read. An overwritten value can come back,
-- as a write leaves the second level alone; a value that was deleted or cleared cannot.
use lcache.Common.{ℕ, ◌-◌, ◌^◌, ◌<◌, ◌≡◌, ◌⊎◌, inl, inr, List, [], Option, none, some, Elem, arith}
use lcache.Value.{Key, Value, Options}
use lcache.Level.Found.{found-create}
use lcache.Lru2.Contents.{IsAnswer}
use lcache.Lru2.Gets.{get-IsStore}
use lcache.Lru2.Runs.{Task, run, values, Tracks, run-IsStore, new_lru2-IsStore}
use lcache.Lru2.{Lru2, new_lru2, or_default, mask_of_next_pow_of2, get_value, index}

new_lru2-Tracks : (opts : Options) → Tracks (new_lru2 opts) (λ j. [])
unfolding new_lru2
new_lru2-Tracks opts i j v x = ground (
  arith,
  found-create j (or_default opts.cap_per_bucket 1024),
  found-create j (or_default opts.level2_cap 1024),
  x,
)

answer_written :
    (s : Lru2) (w : Key → List (Option Value)) (key : Key) (r : Option (Option Value))
    → Tracks s w
    → IsAnswer s (index key s) key r
    → (r ≡ none) ⊎ ((v : Option Value) × (r ≡ some v) × Elem v (w key))
answer_written s w key r t (inl e) = inl e
answer_written s w key r t (inr (v, e, h)) = inr (v, e, (t (index key s) key v h).1)

-- Whatever calls are made of a new store, with rounds of the cleanup between them, `Get` then
-- returns, with nothing or with a value that was written to the key since the last deletion of the
-- key and the last `Clear`: with capacities below 65535 and a mask that is not 65535.
pub get_reads_written :
    (opts : Options) (tasks : List Task) (now now₂ : ℕ) (key : Key)
    → opts.cap_per_bucket < 2 ^ 16 - 1
    → opts.level2_cap < 2 ^ 16 - 1
    → mask_of_next_pow_of2 (or_default opts.bucket_count 16) < 2 ^ 16 - 1
    → (s s' : Lru2) × (r : Option (Option Value)) × (run tasks (new_lru2 opts) ≡ some s)
      × (get_value now now₂ key s ≡ some (s', r))
      × ((r ≡ none) ⊎ ((v : Option Value) × (r ≡ some v) × Elem v (values key tasks [])))
get_reads_written opts tasks now now₂ key h₁ h₂ m =
    let a = run-IsStore tasks (new_lru2 opts) (new_lru2-IsStore opts h₁ h₂ m) in
    let b = get-IsStore now now₂ key a.0 a.2 in
    let t = a.3 (λ j. []) (new_lru2-Tracks opts) in
    (a.0, b.0, b.1, a.1, b.2, answer_written a.0 (λ j. values j tasks []) key b.1 t b.5)
