-- ===== src/Singleflight.antt =====
-- `Group` of singleflight/singleflight.go under concurrent calls of `Do`. A goroutine makes one call;
-- each of its accesses to the shared map or to a `call` is one step, and steps of the goroutines come
-- in any order. What `fn` returns is a value or an error, `R`. `Waits i j` says that the function
-- which `i` runs returns only after the call of `j` has returned.
pub mod Sound
pub mod Kept
pub mod Results
pub mod Progress
pub mod Twice
mod Tests
use lcache.Common.{
  ℕ, ◌+◌, ◌≡◌, List, [], ◌∷◌, Option, none, some, Bool, true, false, ite, ℕ_discrete,
}
use lcache.Common.GoMap.{GoMap, lookup, insert, delete}
use lcache.Common.Families.{assign}
use lcache.Value.{Key, key_eq}

-- `call`: its key, `val` and `err` once they are set, and whether `wg.Done()` has been called.
pub record CallState (R : Type 0) : Type 0 where
  pub key : Key
  pub val : Option R
  pub done : Bool

-- Where a goroutine stands in `Do(key, fn)`, and its call.
pub data Phase (R : Type 0) : Type 0 where
  idle : Phase R
  missed : Key → Phase R  -- after `Load` has found nothing
  waits : Key → ℕ → Phase R  -- in `c.wg.Wait()`
  runs : Key → ℕ → Phase R  -- in `fn()`
  stored : Key → ℕ → Phase R  -- before `c.wg.Done()`
  woken : Key → ℕ → Phase R  -- before `g.m.Delete(key)`
  returned : Key → ℕ → R → Phase R

-- The map, the calls that have been made, what each goroutine does, and what the functions that were
-- run have returned, the last one first.
pub record System (R : Type 0) : Type 0 where
  pub m : GoMap Key ℕ
  pub calls : ℕ → CallState R
  pub next : ℕ
  pub phase : ℕ → Phase R
  pub ran : List (Key × R)

abbrev pub new_call : {R : Type 0} → Key → CallState R
new_call key = record { key = key; val = none; done = false }

abbrev pub start : {R : Type 0} → System R
start = record { m = []; calls = λ c. new_call []; next = 0; phase = λ i. idle; ran = [] }

-- The steps of `Do`, as functions of the state.
abbrev pub moved : {R : Type 0} → ℕ → Phase R → System R → System R
moved i p s = record s { phase = assign s.phase i p }

-- `c := &call{}`, `c.wg.Add(1)`, `g.m.Store(key, c)`
abbrev pub store_call : {R : Type 0} → ℕ → Key → System R → System R
store_call i key s = record s {
  m = insert key_eq key s.next s.m;
  calls = assign s.calls s.next (new_call key);
  next = s.next + 1;
  phase = assign s.phase i (runs key s.next);
}

-- `c.val, c.err = fn()`
abbrev pub end_call : {R : Type 0} → ℕ → Key → ℕ → R → System R → System R
end_call i key c r s = record s {
  calls = assign s.calls c (record (s.calls c) { val = some r });
  phase = assign s.phase i (stored key c);
  ran = (key, r) ∷ s.ran;
}

-- `c.wg.Done()`
abbrev pub wake_waiting : {R : Type 0} → ℕ → Key → ℕ → System R → System R
wake_waiting i key c s = record s {
  calls = assign s.calls c (record (s.calls c) { done = true });
  phase = assign s.phase i (woken key c);
}

-- `g.m.Delete(key)`, `return c.val, c.err`
abbrev pub leave_call : {R : Type 0} → ℕ → Key → ℕ → R → System R → System R
leave_call i key c r s = record s {
  m = delete key_eq key s.m;
  phase = assign s.phase i (returned key c r);
}

abbrev pub HasReturned : {R : Type 0} → Phase R → Type 0
HasReturned (returned key c r) = Unit {0}
HasReturned _ = ⊥

pub data Step {R : Type 0} (Waits : ℕ → ℕ → Type 0) (s : System R) : System R → Type 0 where
  joins :
      (i : ℕ) (key : Key) (c : ℕ)
      → s.phase i ≡ idle
      → lookup key_eq key s.m ≡ some c
      → Step Waits s (moved i (waits key c) s)
  misses :
      (i : ℕ) (key : Key)
      → s.phase i ≡ idle
      → lookup key_eq key s.m ≡ none
      → Step Waits s (moved i (missed key) s)
  stores : (i : ℕ) (key : Key) → s.phase i ≡ missed key → Step Waits s (store_call i key s)
  ends :
      (i : ℕ) (key : Key) (c : ℕ) (r : R)
      → s.phase i ≡ runs key c
      → ((j : ℕ) → Waits i j → HasReturned (s.phase j))
      → Step Waits s (end_call i key c r s)
  wakes :
      (i : ℕ) (key : Key) (c : ℕ) → s.phase i ≡ stored key c → Step Waits s (wake_waiting i key c s)
  leaves :
      (i : ℕ) (key : Key) (c : ℕ) (r : R)
      → s.phase i ≡ woken key c
      → (s.calls c).val ≡ some r
      → Step Waits s (leave_call i key c r s)
  resumes :
      (i : ℕ) (key : Key) (c : ℕ) (r : R)
      → s.phase i ≡ waits key c
      → (s.calls c).done ≡ true
      → (s.calls c).val ≡ some r
      → Step Waits s (moved i (returned key c r) s)

-- Any number of steps, from one state to another.
pub data Steps {R : Type 0} (Waits : ℕ → ℕ → Type 0) (s : System R) : System R → Type 0 where
  stay : Steps Waits s s
  later : {t u : System R} → Steps Waits s t → Step Waits t u → Steps Waits s u

abbrev pub Reach : {R : Type 0} → (ℕ → ℕ → Type 0) → System R → Type 0
Reach Waits s = Steps Waits start s
