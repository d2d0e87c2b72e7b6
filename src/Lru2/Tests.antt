-- ===== src/Lru2/Tests.antt =====
-- Runs of the two-level store of store/lru2.go, and the theorems about it at concrete stores.
use lcache.Common.{◌-◌, ◌^◌, ◌≡◌, ◌⊎◌, refl, Option, Elem, List, [], ◌∷◌, none, some, true, arith}
use lcache.Value.{Key, key_eq, Value, Options, other}
use lcache.Lru2.Safe.{IsStore}
use lcache.Common.Panics.{◌>>=◌}
use lcache.Common.GoMap.{lookup, insert, delete}
use lcache.Level.Chain.{relink, dir_eq}
use lcache.Level.{
  create, link, set_link, node_at, set_node, move, adjust, link_tail, put_new, replace_tail, put,
  get, del,
}
use lcache.Lru2.Origins.{get_reads_written}
use lcache.Lru2.Reads.{get_value-set_with_expiration}
use lcache.Lru2.Runs.{
  Task, calls, clears, counts, cleans, perform, gets, sets, values, written_by, new_lru2-IsStore,
  deletes, apply, run, run-total, no_buckets,
}
use lcache.Lru2.{
  len, clear, cleanup, Lru2, set_with_expiration, get_value, get_second, promote, bucket,
  set_bucket, index, hash_from, hash_bkrd, mask_of_next_pow_of2, new_lru2,
}

abbrev k : Key
k = 107 ∷ 49 ∷ []

abbrev four_buckets : Options
four_buckets = record {
  max_bytes = 0;
  bucket_count = 3;
  cap_per_bucket = 2;
  level2_cap = 4;
  cleanup_interval = 0;
  on_evicted = true;
}

abbrev too_many : Options
too_many = record four_buckets { bucket_count = 32769 }

hash_bkrd_lem : hash_bkrd k ≡ 14066
unfolding hash_bkrd hash_from
hash_bkrd_lem = refl

mask_of_3 : mask_of_next_pow_of2 3 ≡ 3
unfolding mask_of_next_pow_of2
mask_of_3 = refl

mask_of_16 : mask_of_next_pow_of2 16 ≡ 15
unfolding mask_of_next_pow_of2
mask_of_16 = refl

mask_of_1025 : mask_of_next_pow_of2 1025 ≡ 2047
unfolding mask_of_next_pow_of2
mask_of_1025 = refl

mask_of_32769 : mask_of_next_pow_of2 32769 ≡ 2 ^ 16 - 1
unfolding mask_of_next_pow_of2
mask_of_32769 = refl

-- A write, a read that moves the node to the second level, a read of the second level, a deletion.
abbrev tasks : List Task
tasks =
    calls (sets 10 k (some (other 1 4)) 100)
    ∷ calls (gets 20 20 k)
    ∷ counts
    ∷ cleans 25
    ∷ calls (gets 30 30 k)
    ∷ calls (deletes k)
    ∷ clears
    ∷ []

run-total_example : (s : Lru2) × (run tasks (new_lru2 four_buckets) ≡ some s) × IsStore s
run-total_example =
    run-total four_buckets tasks (omega arith) (omega arith) (omega (arith, mask_of_3))

no_buckets_example :
    ((new_lru2 too_many).buckets ≡ 0)
    × (apply (deletes k) (new_lru2 too_many) ≡ none)
    × (len (new_lru2 too_many) ≡ some 0)
    × (clear (new_lru2 too_many) ≡ some (new_lru2 too_many))
    × (cleanup 5 (new_lru2 too_many) ≡ some (new_lru2 too_many))
no_buckets_example = no_buckets too_many (deletes k) 5 mask_of_32769

-- The two writes of the key since its last deletion.
abbrev overwrites : List Task
overwrites =
    calls (sets 10 k (some (other 1 4)) 100)
    ∷ calls (deletes k)
    ∷ calls (sets 20 k (some (other 2 4)) 100)
    ∷ calls (gets 30 30 k)
    ∷ calls (sets 40 k (some (other 3 4)) 100)
    ∷ []

values_lem : values k overwrites [] ≡ some (other 3 4) ∷ some (other 2 4) ∷ []
unfolding values written_by key_eq
values_lem = refl

get_reads_written_example :
    (s s' : Lru2) × (r : Option (Option Value)) × (run overwrites (new_lru2 four_buckets) ≡ some s)
    × (get_value 50 50 k s ≡ some (s', r))
    × ((r ≡ none) ⊎ ((v : Option Value) × (r ≡ some v) × Elem v (values k overwrites [])))
get_reads_written_example =
    get_reads_written four_buckets overwrites 50 50 k (omega arith) (omega arith)
      (omega (arith, mask_of_3))

get_value-set_with_expiration_example :
    (s' s'' : Lru2) × (set_with_expiration 10 k (some (other 1 4)) 100 (new_lru2 four_buckets)
      ≡ some s')
    × (get_value 60 60 k s' ≡ some (s'', some (some (other 1 4))))
get_value-set_with_expiration_example =
    get_value-set_with_expiration 10 60 60 k (some (other 1 4)) 100 (new_lru2 four_buckets)
      (new_lru2-IsStore four_buckets (omega arith) (omega arith) (omega (arith, mask_of_3)))
      (omega arith) (omega arith) (omega arith)

-- An overwritten value comes back: it is in the second level when the newer one is evicted from the
-- first.
abbrev one_bucket : Options
one_bucket = record four_buckets { bucket_count = 1; cap_per_bucket = 1 }

abbrev read_again : Option (Option (Option Value))
read_again = do
  s ←
      run
        (calls (sets 10 k (some (other 1 4)) 100)
          ∷ calls (gets 20 20 k)
          ∷ calls (sets 30 k (some (other 2 4)) 100)
          ∷ calls (sets 40 (1 ∷ []) (some (other 3 4)) 100)
          ∷ [])
        (new_lru2 one_bucket)
  r ← get_value 50 50 k s
  some r.1

read_again_lem : read_again ≡ some (some (some (other 1 4)))
unfolding run perform apply new_lru2 set_with_expiration get_value get_second promote bucket
    set_bucket index hash_bkrd hash_from mask_of_next_pow_of2 create link set_link node_at set_node
    move adjust link_tail put_new replace_tail put get del lookup insert delete relink key_eq dir_eq
read_again_lem = refl
