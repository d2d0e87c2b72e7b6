-- ===== src/Group/Tests.antt =====
-- Runs of a group of group.go, and the theorems about it at concrete groups.
use mathlib.Core.List.Perm
use lcache.Common.{
  ℕ, ◌-◌, ◌^◌, ◌<◌, ◌≡◌, refl, ◌⊎◌, inl, inr, true, false, List, [], ◌∷◌, Option, none, some, arith,
}
use lcache.Value.{Key, ByteView}
use lcache.Lru2.{mask_of_next_pow_of2}
use lcache.Lru.{new_lru}
use lcache.Store.{lru_type, lru, Env}
use lcache.Store.Total.{IsConfigured}
use lcache.Cache
use lcache.Cache.{Cache, CacheOptions, default_cache_options, store_options, new_cache}
use lcache.Cache.Methods.{new_cache-IsCache}
use lcache.Group.{
  World, Group, no_stats, GroupOption, with_expiration, with_cache_options, new_group,
  apply_options, register_peers, get, sync_to_peers, sync_delete, request_delete,
}
use lcache.Group.Safe.{
  Call, gets, sets, deletes, clears, closes, run, Task, registers, perform, run_tasks, Panics,
  run-IsGroup,
}
use lcache.Group.Methods.{IsGroup}
use lcache.Group.Loads.{IsTally}
use lcache.Group.Lookups.{After, first_of, get-order}
use lcache.Group.Tallies.{run-IsTally}

abbrev env : Env
env = record {
  range = record { visit = λ m. m; visit-perm = λ m. Perm.refl m };
  start = 5;
  now = 5;
  later = 5;
}

-- A getter that answers with the key, and a peer that fails.
abbrev world : World ℕ
world = record {
  getter = λ key. inr key;
  pick_peer = λ key. record { peer = λ group key. inl 7; ok = true; is_self = false };
  elapsed = 1;
  reads = env;
  writes = env;
  now = 5;
}

abbrev name : Key
name = b'g' ∷ []

abbrev k : Key
k = b'k' ∷ []

abbrev over_lru : CacheOptions
over_lru = record default_cache_options { cache_type = lru_type; max_bytes = 10 }

mask_of_16 : mask_of_next_pow_of2 16 < 2 ^ 16 - 1
unfolding mask_of_next_pow_of2
mask_of_16 = omega arith

lru-IsConfigured : IsConfigured (store_options over_lru)
lru-IsConfigured = record { first = omega arith; second = omega arith; masked = mask_of_16 }

abbrev options : List GroupOption
options = with_cache_options over_lru ∷ with_expiration 100 ∷ []

abbrev calls : List (Call ℕ)
calls =
    gets world k
    ∷ gets world k
    ∷ sets world false k (1 ∷ 2 ∷ [])
    ∷ deletes true k
    ∷ clears env
    ∷ closes
    ∷ gets world k
    ∷ []

-- The same calls after the peers have been registered.
abbrev tasks : List (Task ℕ)
tasks = registers true ∷ Task.calls (gets world k) ∷ Task.calls (sets world false k (1 ∷ [])) ∷ []

run-IsGroup_example :
    ((g : Group) × (run_tasks tasks (new_group name 10 options) ≡ some g) × IsGroup g)
    ⊎ Panics tasks (new_group name 10 options)
run-IsGroup_example = run-IsGroup name 10 options tasks (lru-IsConfigured, tt)

-- A second picker is refused.
registers_once :
    run_tasks {E = ℕ} (registers true ∷ registers true ∷ []) (new_group name 10 []) ≡ none
unfolding run_tasks perform register_peers new_group apply_options
registers_once = refl

run-IsTally_example :
    (g : Group) × (run calls (new_group name 10 options) ≡ some g) × IsTally 7 g.stats
run-IsTally_example = run-IsTally name 10 options calls (lru-IsConfigured, tt) (omega arith)

abbrev fresh_cache : Cache
fresh_cache = record {
  store = none;
  opts = over_lru;
  hits = 0;
  misses = 0;
  initialized = false;
  closed = false;
}

-- A group with peers, whose cache has no store yet, and one whose cache is ready.
abbrev fresh : Group
fresh = record {
  name = name;
  main_cache = fresh_cache;
  has_peers = true;
  expiration = 0;
  closed = false;
  stats = no_stats;
  started = [];
}

abbrev ready : Group
ready = record fresh {
  main_cache = record fresh_cache {
    store = some (lru (new_lru (store_options over_lru)));
    initialized = true;
  };
}

fresh-IsGroup : IsGroup fresh
unfolding new_cache
fresh-IsGroup = new_cache-IsCache over_lru lru-IsConfigured

-- The peer fails, so the value is the getter's.
get-order_example :
    (c : Cache) × (found : Option ByteView) × (g' : Group) × (Cache.get env k fresh.main_cache
      ≡ some (c, found))
    × (get world k fresh ≡ some (g', first_of found (inr (record { b = k }))))
    × After world k fresh found c g'.main_cache
get-order_example = get-order world k fresh fresh-IsGroup refl refl

-- A deletion is passed on to the peer.
delete_syncs : sync_to_peers world (sync_delete k) ready ≡ some (request_delete name k)
unfolding sync_to_peers
delete_syncs = refl
