-- ===== src/Lru2/Runs.antt =====
-- Any sequence of calls of `lru2Store` (store/lru2.go) on a new store.
use lcache.Common.{
  ge→ltb, ℕ, ◌+◌, ◌%◌, ◌-◌, ◌^◌, ◌<◌, ◌≡◌, refl, sym, subst, ◌∙◌, inl, inr, ite, if_neg, ◌≢◌, Elem,
  List, [], ◌∷◌, Option, none, some, arith,
}
use lcache.Common.Panics.{◌>>=◌}
use lcache.Value.{Key, key_eq, Value, Options}
use lcache.Level.Put.{create-Rep}
use lcache.Level.{create}
use lcache.Lru2.Safe.{IsLevel, IsStore, index-bound, set_with_expiration-IsStore, delete_at-IsStore}
use lcache.Lru2.Sweeps.{clear-IsStore, len-some, cleanup-IsStore}
use lcache.Lru2.Gets.{get-IsStore}
use lcache.Lru2.Contents.{Has, IsWithin, IsWritten, IsGone, gone_has, index_kept}
use lcache.Lru2.{
  index, Lru2, get_value, mask_of_next_pow_of2, or_default, new_lru2, set_with_expiration, clear,
  len, cleanup, delete, delete_at, bucket, count_from, keys_from, delete_keys, cleanup_from,
}

-- The calls of the interface for one key, with their clock readings.
pub data Call : Type 0 where
  gets : (now now₂ : ℕ) → Key → Call
  sets : (now : ℕ) → Key → Option Value → (expiration : ℕ) → Call
  deletes : Key → Call

unfoldable pub apply : Call → Lru2 → Option Lru2
apply (gets now now₂ key) s = do (s, r) ← get_value now now₂ key s; some s
apply (sets now key value expiration) s = set_with_expiration now key value expiration s
apply (deletes key) s = do (s, deleted) ← delete key s; some s

-- And those for all keys, with a round of the cleanup.
pub data Task : Type 0 where
  calls : Call → Task
  clears : Task
  counts : Task
  cleans : (now : ℕ) → Task

unfoldable pub perform : Task → Lru2 → Option Lru2
perform (calls call) s = apply call s
perform clears s = clear s
perform counts s = do n ← len s; some s
perform (cleans now) s = cleanup now s

unfoldable pub run : List Task → Lru2 → Option Lru2
run [] s = some s
run (task ∷ tasks) s = do s ← perform task s; run tasks s

-- The values that were written to a key since it was last deleted, after one task and after many.
unfoldable pub written_by : Key → Task → List (Option Value) → List (Option Value)
written_by j (calls (sets now key value expiration)) w = ite (key_eq key j) (value ∷ w) w
written_by j (calls (deletes key)) w = ite (key_eq key j) [] w
written_by j clears w = []
written_by j _ w = w

unfoldable pub values : Key → List Task → List (Option Value) → List (Option Value)
values j [] w = w
values j (task ∷ tasks) w = values j tasks (written_by j task w)

-- The live nodes are in the buckets of their keys, and have values that were written.
abbrev pub Tracks : Lru2 → (Key → List (Option Value)) → Type 0
Tracks s w = (i : ℕ) (j : Key) (v : Option Value) → Has s i j v → (index j s ≡ i) × Elem v (w j)

within-Tracks :
    (s s' : Lru2) (w : Key → List (Option Value)) → IsWithin s' s → Tracks s w → Tracks s' w
within-Tracks s s' w h t i j v x =
    let old = t i j v (h.1 i j v x) in (index_kept j s s' h.0 ∙ old.0, old.1)

written-Tracks :
    (now : ℕ) (key : Key) (value : Option Value) (expiration : ℕ) (s s' : Lru2)
    (w : Key → List (Option Value))
    → IsWritten (index key s) key value s' s
    → Tracks s w
    → Tracks s' (λ j. written_by j (calls (sets now key value expiration)) (w j))
unfolding written_by
written-Tracks now key value expiration s s' w h t i j v x = elim (h.1 i j v x) [
  | inl old ↦ (index_kept j s s' h.0 ∙ (t i j v old).0, ground (arith, (t i j v old).1))
  | inr (a, b, e) ↦ (index_kept j s s' h.0 ∙ rw (sym b) a, ground (arith, b, e))
]

deleted-Tracks :
    (key : Key) (s s' : Lru2) (w : Key → List (Option Value))
    → IsWithin s' s
    → IsGone key (s'.caches (index key s))
    → Tracks s w
    → Tracks s' (λ j. written_by j (calls (deletes key)) (w j))
unfolding written_by
deleted-Tracks key s s' w h g t i j v x =
    let old = t i j v (h.1 i j v x) in
    let apart : key ≢ j = λ e.
      gone_has key (s'.caches (index key s)) v g
        (subst (λ k. Has s' (index k s) k v) (sym e) (subst (λ n. Has s' n j v) (sym old.0) x)) in
    (
      index_kept j s s' h.0 ∙ old.0,
      subst (Elem v) (sym (if_neg (key_eq key j) apart [] (w j))) old.1,
    )

-- What a task does: it returns, and keeps the store well-formed and tracked.
abbrev Performs : Task → Lru2 → Option Lru2 → Type 0
Performs task s r =
    (s' : Lru2) × (r ≡ some s')
    × IsStore s'
    × ((w : Key → List (Option Value)) → Tracks s w → Tracks s' (λ j. written_by j task (w j)))

apply-IsStore : (call : Call) (s : Lru2) → IsStore s → Performs (calls call) s (apply call s)
unfolding apply delete written_by
apply-IsStore (gets now now₂ key) s v =
    let r = get-IsStore now now₂ key s v in
    (r.0, rw r.2 refl, r.3, λ w t. within-Tracks s r.0 w r.4 t)
apply-IsStore (sets now key value expiration) s v =
    let r = set_with_expiration-IsStore now key value expiration s v in
    (r.0, r.1, r.2, λ w t. written-Tracks now key value expiration s r.0 w r.3 t)
apply-IsStore (deletes key) s v =
    let r = delete_at-IsStore key _ s v (index-bound key s v) in
    (r.0, rw r.2 refl, r.3, λ w t. deleted-Tracks key s r.0 w r.5 r.6 t)

perform-IsStore : (task : Task) (s : Lru2) → IsStore s → Performs task s (perform task s)
unfolding perform written_by
perform-IsStore (calls call) s v = apply-IsStore call s v
perform-IsStore clears s v =
    let r = clear-IsStore s v in
    (r.0, r.1, r.2, λ w t i j x h. absurd (r.4 (λ i j x h. (t i j x h).0) i j x h))
perform-IsStore counts s v = let n = len-some s v in (s, rw n.1 refl, v, λ w t. t)
perform-IsStore (cleans now) s v =
    let r = cleanup-IsStore now s v in (r.0, r.1, r.2, λ w t. within-Tracks s r.0 w r.3 t)

-- Calls on a well-formed store return, with no panic, and leave it well-formed and tracked.
pub run-IsStore :
    (tasks : List Task) (s : Lru2)
    → IsStore s
    → (s' : Lru2) × (run tasks s ≡ some s')
      × IsStore s'
      × ((w : Key → List (Option Value)) → Tracks s w → Tracks s' (λ j. values j tasks (w j)))
unfolding run values
run-IsStore [] s v = (s, refl, v, λ w t. t)
run-IsStore (task ∷ tasks) s v =
    let (s₁, e, v₁, t₁) = perform-IsStore task s v in
    let (s₂, e₂, v₂, t₂) = run-IsStore tasks s₁ v₁ in
    (s₂, rw e e₂, v₂, λ w t. t₂ (λ j. written_by j task (w j)) (t₁ w t))

create-IsLevel : (cap : ℕ) → 0 < cap → cap < 2 ^ 16 - 1 → IsLevel (create cap)
unfolding create
create-IsLevel cap z h = (([], create-Rep cap h), z)

default_above : (n d : ℕ) → 0 < d → 0 < or_default n d
default_above n d h = ground arith

default_below : (n d b : ℕ) → n < b → d < b → or_default n d < b
default_below n d b h k = ground arith

-- With fewer than 65535 nodes in a level and a mask that is not 65535, a new store is well-formed.
pub new_lru2-IsStore :
    (opts : Options)
    → opts.cap_per_bucket < 2 ^ 16 - 1
    → opts.level2_cap < 2 ^ 16 - 1
    → mask_of_next_pow_of2 (or_default opts.bucket_count 16) < 2 ^ 16 - 1
    → IsStore (new_lru2 opts)
unfolding new_lru2
new_lru2-IsStore opts h₁ h₂ m =
    let l₁ =
      create-IsLevel (or_default opts.cap_per_bucket 1024)
        (default_above opts.cap_per_bucket 1024 (omega arith))
        (default_below opts.cap_per_bucket 1024 (2 ^ 16 - 1) h₁ (omega arith)) in
    let l₂ =
      create-IsLevel (or_default opts.level2_cap 1024)
        (default_above opts.level2_cap 1024 (omega arith))
        (default_below opts.level2_cap 1024 (2 ^ 16 - 1) h₂ (omega arith)) in
    record { levels = λ i b. (l₁, l₂); covers = omega arith }

-- Whatever calls are made of a new store, with rounds of the cleanup between them, each returns
-- without a panic, and leaves the buckets well-formed: with capacities below 65535 and a mask that is not 65535.
pub run-total :
    (opts : Options) (tasks : List Task)
    → opts.cap_per_bucket < 2 ^ 16 - 1
    → opts.level2_cap < 2 ^ 16 - 1
    → mask_of_next_pow_of2 (or_default opts.bucket_count 16) < 2 ^ 16 - 1
    → (s : Lru2) × (run tasks (new_lru2 opts) ≡ some s) × IsStore s
run-total opts tasks h₁ h₂ m =
    let r = run-IsStore tasks (new_lru2 opts) (new_lru2-IsStore opts h₁ h₂ m) in (r.0, r.1, r.2)

not_a_bucket :
    (opts : Options) (i : ℕ)
    → mask_of_next_pow_of2 (or_default opts.bucket_count 16) ≡ 2 ^ 16 - 1
    → bucket i (new_lru2 opts) ≡ none
unfolding bucket new_lru2
not_a_bucket opts i m =
    rw
      (ge→ltb i ((mask_of_next_pow_of2 (or_default opts.bucket_count 16) + 1) % 2 ^ 16)
        (omega (arith, m)))
      refl

call_panics :
    (opts : Options) (call : Call)
    → mask_of_next_pow_of2 (or_default opts.bucket_count 16) ≡ 2 ^ 16 - 1
    → apply call (new_lru2 opts) ≡ none
unfolding apply delete delete_at set_with_expiration get_value
call_panics opts (gets now now₂ key) m = rw (not_a_bucket opts (index key (new_lru2 opts)) m) refl
call_panics opts (sets now key value expiration) m =
    rw (not_a_bucket opts (index key (new_lru2 opts)) m) refl
call_panics opts (deletes key) m = rw (not_a_bucket opts (index key (new_lru2 opts)) m) refl

-- Without buckets the loops over the buckets have nothing to do.
sweeps_idle :
    (s : Lru2) (now : ℕ)
    → s.buckets ≡ 0
    → (len s ≡ some 0) × (clear s ≡ some s) × (cleanup now s ≡ some s)
unfolding len count_from clear keys_from delete_keys cleanup cleanup_from
sweeps_idle s now e = (rw e refl, rw e refl, rw e refl)

-- With a mask of 65535 a new store has no bucket: `Get`, `SetWithExpiration` and `Delete` panic for
-- each key, `Len` returns 0, and `Clear` and a round of the cleanup return and change nothing.
pub no_buckets :
    (opts : Options) (call : Call) (now : ℕ)
    → mask_of_next_pow_of2 (or_default opts.bucket_count 16) ≡ 2 ^ 16 - 1
    → ((new_lru2 opts).buckets ≡ 0)
      × (apply call (new_lru2 opts) ≡ none)
      × (len (new_lru2 opts) ≡ some 0)
      × (clear (new_lru2 opts) ≡ some (new_lru2 opts))
      × (cleanup now (new_lru2 opts) ≡ some (new_lru2 opts))
unfolding new_lru2
no_buckets opts call now m =
    let empty : (new_lru2 opts).buckets ≡ 0 = omega (arith, m) in
    let idle = sweeps_idle (new_lru2 opts) now empty in
    (empty, call_panics opts call m, idle.0, idle.1, idle.2)
