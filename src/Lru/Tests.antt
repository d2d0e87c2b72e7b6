-- ===== src/Lru/Tests.antt =====
-- Runs of the cache of store/lru.go, and its theorems at concrete caches.
use mathlib.Core.List.{Perm}
use mathlib.Core.List.Perm
use lcache.Common.{
  ℕ, ◌+◌, ◌≤◌, ◌<◌, ◌≡◌, refl, ap, ◌⊎◌, List, [], ◌∷◌, ◌++◌, none, some, arith, true, false, ite,
  inl, length, dec_lt, ℕ_discrete,
}
use lcache.Common.GoMap.{lookup, insert, delete}
use lcache.Value.{Key, key_eq, Value, Options, len}
use lcache.Lru.Elements.{find, total}
use lcache.Lru.Invariant.{IsValid, new_lru-IsValid}
use lcache.Lru.Writes.{set_with_expiration-IsValid}
use lcache.Lru.Holds.{value_of}
use lcache.Lru.Coherence.{Call, sets, run, apply, last_written, get_coherent}
use lcache.Lru.Expiry.{unexpired}
use lcache.Lru.Evict.{evict_keeps_longest}
use lcache.Lru.Reads.{set-get}
use lcache.Lru.Callbacks.{accounts, drops_are_handed_over}
use lcache.Lru.Limits.{set-exceeds, overwrite_evicts_nothing}
use lcache.Lru.System.{System, Step, Reach, begin_get}
use lcache.Lru.{
  Lru, Range, new_lru, remove, contains, move_to_back, update, remove_element, expire_one,
  evict_expired, is_over, drop_front, shrink, evict, delete_key, is_expired, touch, read, get,
  set_expiry, overwrite, push_back, set_with_expiration, clear, close, get_with_expiration,
  update_expiration, set_max_bytes,
}

program : Unit {0}
unfolding key_eq lookup insert delete find total value_of run unexpired new_lru remove contains
    move_to_back update remove_element expire_one evict_expired is_over drop_front shrink evict
    delete_key is_expired touch get set_expiry overwrite push_back set_with_expiration clear close
    get_with_expiration update_expiration set_max_bytes dec_lt ℕ_discrete last_written
program = tt

abbrev in_order : Range
in_order = record { visit = λ m. m; visit-perm = λ m. Perm.refl m }

abbrev small : Options
small = record {
  max_bytes = 10;
  bucket_count = 0;
  cap_per_bucket = 0;
  level2_cap = 0;
  cleanup_interval = 0;
  on_evicted = true;
}

abbrev k1 : Key
k1 = b'1' ∷ []

abbrev k2 : Key
k2 = b'2' ∷ []

abbrev k3 : Key
k3 = b'3' ∷ []

abbrev bytes : ℕ → Value
bytes n = Value.other 0 n

-- Two entries of 5 and 4 bytes; the first expires at 100.
abbrev two_calls : List Call
two_calls = sets 0 0 k1 (some (bytes 4)) 100 ∷ sets 1 1 k2 (some (bytes 3)) 0 ∷ []

two : Lru
two = run in_order two_calls (new_lru small)

two_used : two.used_bytes ≡ 9
unfolding program two
two_used = refl

-- A hit makes an entry the most recent one, so the other goes first.
third_evicts_second :
    (apply in_order (sets 3 3 k3 (some (bytes 1)) 0) (get 2 k1 two).0).calls
    ≡ record { key = k2; value = bytes 3 } ∷ []
unfolding program two
third_evicts_second = refl

two-IsValid : IsValid two
unfolding two run
two-IsValid =
    set_with_expiration-IsValid in_order 1 1 k2 (some (bytes 3)) 0
      (set_with_expiration-IsValid in_order 0 0 k1 (some (bytes 4)) 100 (new_lru-IsValid small))

two_small : total two.heap two.list ≡ 9
unfolding program two
two_small = refl

two_max : two.max_bytes ≡ 10
unfolding program two
two_max = refl

two_reports : two.on_evicted ≡ true
unfolding program two
two_reports = refl

two-k1 : lookup key_eq k1 two.items ≡ some 0
unfolding program two
two-k1 = refl

two-k3 : lookup key_eq k3 two.items ≡ none
unfolding program two
two-k3 = refl

two_value : (two.heap 0).value ≡ bytes 4
unfolding program two
two_value = refl

get_coherent_example :
    ((get 2 k1 (run in_order two_calls (new_lru small))).1 ≡ none)
    ⊎ ((get 2 k1 (run in_order two_calls (new_lru small))).1 ≡ some (bytes 4))
unfolding last_written key_eq
get_coherent_example = get_coherent small in_order two_calls 2 k1

set-get_example :
    (get 9 k3 (set_with_expiration in_order 3 3 k3 (some (bytes 1)) 7 two)).1 ≡ some (bytes 1)
set-get_example =
    set-get in_order 3 3 9 7 k3 (bytes 1) two two-IsValid (omega (arith, two_max))
      (omega (arith, two_small)) (λ _. omega (arith, two_max)) (λ _. omega arith) (λ _. omega arith)

-- A `Get` waits with an element that `Clear` drops, and its key is written again.
breaks_it : (s : System) × Reach in_order small s × (s.broken ≡ true)
unfolding program begin_get read
breaks_it = (
  _,
  Reach.next
      (Reach.next
        (Reach.next
          (Reach.next (Reach.next Reach.here (Step.sets _ 0 0 k1 (some (bytes 4)) 0))
            (Step.begins _ 2 k1))
          (Step.clears _))
        (Step.sets _ 3 3 k1 (some (bytes 4)) 0))
      (Step.breaks _ [] [] k1 0 1 (new_lru small) refl (inl refl) refl),
  refl,
)

abbrev newest : List ℕ
newest = 1 ∷ []

evict_keeps_longest_example :
    (ds : List ℕ) × (unexpired 101 two two.list ≡ ds ++ (evict in_order 101 two).list)
    × (total (evict in_order 101 two).heap (evict in_order 101 two).list ≤ two.max_bytes)
    × ((evict in_order 101 two).heap ≡ two.heap)
    × (length newest ≤ length (evict in_order 101 two).list)
unfolding program two
evict_keeps_longest_example =
    evict_keeps_longest in_order 101 two two-IsValid (omega (arith, two_small))
      (omega (arith, two_max)) (omega (arith, two_max)) [] newest refl (omega arith)

drops_are_handed_over_example :
    Perm (accounts (evict in_order 101 two)) (accounts two)
    × Perm (accounts (delete_key k1 two).0) (accounts two)
    × Perm (clear in_order two).calls (accounts two)
    × ((clear in_order two).list ≡ [])
drops_are_handed_over_example = drops_are_handed_over two two-IsValid two_reports in_order 101 k1

abbrev overwritten : Lru
overwritten = set_with_expiration in_order 3 3 k1 (some (bytes 9)) 0 two

overwrite_evicts_nothing_example :
    (overwritten.items ≡ two.items)
    × ((j : Key) → value_of j overwritten ≡ ite (key_eq k1 j) (some (bytes 9)) (value_of j two))
    × (total overwritten.heap overwritten.list + len (two.heap 0).value
        ≡ total two.heap two.list + 9)
overwrite_evicts_nothing_example =
    overwrite_evicts_nothing in_order 3 3 0 k1 (bytes 9) two two-IsValid 0 two-k1

-- A value that is too large.
too_large :
    two.max_bytes
    < total
        (set_with_expiration in_order 3 3 k1 (some (bytes 9)) 0 two).heap
        (set_with_expiration in_order 3 3 k1 (some (bytes 9)) 0 two).list
too_large =
    set-exceeds in_order 3 3 0 k1 (bytes 9) two two-IsValid 0 two-k1
      (omega (arith, two_small, two_max, ap len two_value))

abbrev in_use : System
in_use = record { cache = two; waiting = []; deleting = []; dropped = []; broken = false }
