-- ===== src/Registry/Tests.antt =====
-- Runs of the registry of group.go and the handlers of server.go, and the theorems about them at
-- concrete registries.
use mathlib.Core.List.Perm
use lcache.Common.{
  List, ℕ, ◌-◌, ◌^◌, ◌<◌, ◌≡◌, ◌⊎◌, refl, inl, inr, true, false, [], ◌∷◌, none, some, arith,
  ℕ_discrete,
}
use lcache.Common.GoMap.{lookup}
use lcache.Value.{Key, key_eq}
use lcache.Lru2.{mask_of_next_pow_of2}
use lcache.Store.{Env}
use lcache.Cache.{default_cache_options, new_cache}
use lcache.Cache.Methods.{new_cache-IsCache}
use lcache.Group.{World, Group, no_stats, request_delete}
use lcache.Group.Methods.{IsGroup}
use lcache.Registry.Open.{Destroys, destroy_waits, close_drops_successor}
use lcache.Registry.Known.{System, Change, Reach}
use lcache.Registry.Received.{handle_set_ends}
use lcache.Registry.Rounds.{IsNode, bounce, delete_bounces}
use lcache.Registry.{ServerError, handle_set, Registry, make_group, get_group, close_group}

abbrev name : Key
name = b'g' ∷ []

abbrev k : Key
k = b'k' ∷ []

abbrev group : Group
group = record {
  name = name;
  main_cache = record {
    store = none;
    opts = default_cache_options;
    hits = 0;
    misses = 0;
    initialized = false;
    closed = false;
  };
  has_peers = true;
  expiration = 0;
  closed = false;
  stats = no_stats;
  started = [];
}

mask_of_16 : mask_of_next_pow_of2 16 < 2 ^ 16 - 1
unfolding mask_of_next_pow_of2
mask_of_16 = omega arith

group-IsGroup : IsGroup group
unfolding new_cache
group-IsGroup =
    new_cache-IsCache default_cache_options
      (record { first = omega arith; second = omega arith; masked = mask_of_16 })

abbrev empty : Registry
empty = record { groups = []; heap = λ i. group; next = 0 }

abbrev one : Registry
one = make_group name 10 [] empty

abbrev made : System
made = record { registry = one; closing = [] }

destroy_waits_example : Destroys name made
destroy_waits_example =
    destroy_waits made name (Reach.next (Reach.here (λ i. group)) (Change.creates name 10 []))

-- Two groups have been made under one name.
abbrev two : Registry
two = record { groups = (name, 1) ∷ []; heap = λ i. group; next = 2 }

two_found : get_group name two ≡ some 1
unfolding get_group lookup key_eq ℕ_discrete
two_found = refl

close_drops_successor_example :
    (r' : Registry) × (close_group 0 two ≡ some r')
    × (get_group name r' ≡ none)
    × ((r'.heap 1).closed ≡ false)
close_drops_successor_example =
    close_drops_successor two 0 1 group-IsGroup refl refl (λ e. absurd (omega (arith, e))) two_found

abbrev env : Env
env = record {
  range = record { visit = λ m. m; visit-perm = λ m. Perm.refl m };
  start = 5;
  now = 5;
  later = 5;
}

-- A picker that knows the other node alone.
abbrev world : World ℕ
world = record {
  getter = λ key. inr key;
  pick_peer = λ key. record { peer = λ group key. inl 7; ok = true; is_self = false };
  elapsed = 1;
  reads = env;
  writes = env;
  now = 5;
}

two-IsNode : IsNode world name k two 1
two-IsNode = record {
  found = two_found;
  group = record { sound = group-IsGroup; open_ = refl; named = refl; linked = refl; idle = refl };
  other = (refl, refl);
}

delete_bounces_example :
    bounce 9 world world (request_delete name k) two two ≡ some (request_delete name k ∷ [])
delete_bounces_example = delete_bounces 9 world world name k two two 1 1 refl two-IsNode two-IsNode

handle_set_ends_example :
    (r' : Registry) × (answer : ServerError ℕ ⊎ List ℕ) × (handle_set world name k (1 ∷ []) two
      ≡ some (r', answer))
    × ((j : ℕ) → (r'.heap j).started ≡ (two.heap j).started)
handle_set_ends_example = handle_set_ends world name k (1 ∷ []) two (λ i. group-IsGroup)
