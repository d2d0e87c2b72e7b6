-- ===== src/Client/Tests.antt =====
-- Requests of client.go to a concrete node.
use mathlib.Core.List.Perm
use lcache.Common.{ℕ, ◌≡◌, refl, inl, inr, true, false, [], ◌∷◌, none, some, arith}
use lcache.Common.GoMap.{lookup}
use lcache.Value.{Key, key_eq}
use lcache.Lru.{new_lru}
use lcache.Lru.Elements.{total}
use lcache.Lru.Invariant.{new_lru-IsValid}
use lcache.Store.{lru_type, lru, Env}
use lcache.Cache.{CacheOptions, default_cache_options, store_options}
use lcache.Group.{World, Group, no_stats}
use lcache.Registry.{Registry, get_group, handle_get, group_not_found}
use lcache.Client.{arrives, request_lost, of_wire, of_server, request, get, set}
use lcache.Client.Remote.{set_then_get}

abbrev env : Env
env = record {
  range = record { visit = λ m. m; visit-perm = λ m. Perm.refl m };
  start = 5;
  now = 5;
  later = 5;
}

abbrev world : World ℕ
world = record {
  getter = λ key. inr key;
  pick_peer = λ key. record { peer = λ group key. inl 7; ok = true; is_self = false };
  elapsed = 1;
  reads = env;
  writes = env;
  now = 5;
}

abbrev name : Key
name = b'g' ∷ []

abbrev k : Key
k = b'k' ∷ []

abbrev over_lru : CacheOptions
over_lru = record default_cache_options { cache_type = lru_type; max_bytes = 10 }

-- A node with a group whose cache has been used.
abbrev group : Group
group = record {
  name = name;
  main_cache = record {
    store = some (lru (new_lru (store_options over_lru)));
    opts = over_lru;
    hits = 0;
    misses = 0;
    initialized = true;
    closed = false;
  };
  has_peers = true;
  expiration = 0;
  closed = false;
  stats = no_stats;
  started = [];
}

abbrev node : Registry
node = record { groups = (name, 0) ∷ []; heap = λ i. group; next = 1 }

-- A group that the node does not have, and a request that is lost.
not_there :
    get {E = ℕ} {N = ℕ} arrives world k k node ≡ some (node, inl (of_server (group_not_found k)))
unfolding get request handle_get get_group lookup key_eq
not_there = refl

lost : get {N = ℕ} (request_lost 3) world name k node ≡ some (node, inl (of_wire 3))
unfolding get request
lost = refl

node-name : get_group name node ≡ some 0
unfolding get_group lookup key_eq
node-name = refl

empty_total :
    total (new_lru (store_options over_lru)).heap (new_lru (store_options over_lru)).list ≡ 0
unfolding total new_lru
empty_total = refl

set_then_get_example :
    (r' : Registry) × (r'' : Registry) × (set {N = ℕ} arrives world name k (1 ∷ 2 ∷ []) node
      ≡ some (r', none))
    × (get {N = ℕ} arrives world name k r' ≡ some (r'', inr (1 ∷ 2 ∷ [])))
unfolding new_lru
set_then_get_example =
    set_then_get world world name k (1 ∷ 2 ∷ []) node 0 (new_lru (store_options over_lru)) node-name
      refl refl refl refl refl refl refl (new_lru-IsValid (store_options over_lru)) (omega arith)
      (omega (arith, empty_total)) (λ _. omega arith)
