-- ===== src/Group.antt =====
-- `Group` of group.go, over the cache of cache.go. A method is a function from state to state; a call
-- that waits in singleflight for another one is not among them. `none` is a panic. What the getter, the
-- peers and the clock answer to a call is its `World`, with `E` for their errors; what `Set` and `Delete`
-- start as `go g.syncToPeers(...)` is the list `started`.
pub mod Safe
pub mod Methods
pub mod Lookups
pub mod Loads
pub mod Tallies
mod Tests
use lcache.Common.{
  ℕ, ◌+◌, Bool, true, false, ◌&&◌, not, List, [], ◌∷◌, Option, none, some, ◌⊎◌, inl, inr,
  if◌then◌else◌, map,
}
use lcache.Common.Panics.{◌>>=◌}
use lcache.Common.Words.{add64, gt64}
use lcache.Common.Floats.{Float64}
use lcache.Value.{Key, ByteView}
use lcache.Store.{Env}
use lcache.Cache
use lcache.Cache.{
  Cache, CacheOptions, CacheStats, default_cache_options, new_cache, add_with_expiration,
}

-- The errors of the package, and one of the getter that is wrapped.
pub data Error (E : Type 0) : Type 0 where
  group_closed key_required value_required : Error E
  get_failed : E → Error E

-- `Peer`: what it answers to `Get`, of the name of a group and a key. A choice of `PickPeer`.
pub record Pick (E : Type 0) : Type 0 where
  pub peer : Key → Key → E ⊎ List ℕ
  pub ok : Bool
  pub is_self : Bool

-- What a call meets: the getter, `PickPeer`, the nanoseconds that the load takes, and the clock, for a
-- read of the cache, for a write of it, and at the `time.Now()` of the group.
pub record World (E : Type 0) : Type 0 where
  pub getter : Key → E ⊎ List ℕ
  pub pick_peer : Key → Pick E
  pub elapsed : ℕ
  pub reads : Env
  pub writes : Env
  pub now : ℕ

-- `groupStats`, int64 all
pub record GroupStats : Type 0 where
  pub loads : ℕ
  pub local_hits : ℕ
  pub local_misses : ℕ
  pub peer_hits : ℕ
  pub peer_misses : ℕ
  pub loader_hits : ℕ
  pub loader_errors : ℕ
  pub load_duration : ℕ

-- A call of `syncToPeers`.
pub data Sync : Type 0 where
  sync_set : Key → List ℕ → Sync
  sync_delete : Key → Sync

-- `Group`, of whose picker of peers the state is whether it is nil.
pub record Group : Type 0 where
  pub name : Key
  pub main_cache : Cache
  pub has_peers : Bool
  pub expiration : ℕ
  pub closed : Bool
  pub stats : GroupStats
  pub started : List Sync

abbrev pub no_stats : GroupStats
no_stats = record {
  loads = 0;
  local_hits = 0;
  local_misses = 0;
  peer_hits = 0;
  peer_misses = 0;
  loader_hits = 0;
  loader_errors = 0;
  load_duration = 0;
}

-- `GroupOption`: `WithExpiration`, `WithPeers` with a picker or nil, `WithCacheOptions`.
pub data GroupOption : Type 0 where
  with_expiration : ℕ → GroupOption
  with_peers : Bool → GroupOption
  with_cache_options : CacheOptions → GroupOption

unfoldable pub apply_option : GroupOption → Group → Group
apply_option (with_expiration d) g = record g { expiration = d }
apply_option (with_peers peers) g = record g { has_peers = peers }
apply_option (with_cache_options opts) g = record g { main_cache = new_cache opts }

unfoldable pub apply_options : List GroupOption → Group → Group
apply_options [] g = g
apply_options (opt ∷ opts) g = apply_options opts (apply_option opt g)

-- `NewGroup` of a getter that is not nil, up to the registration.
unfoldable pub new_group : Key → ℕ → List GroupOption → Group
new_group name cache_bytes opts = apply_options opts (record {
  name = name;
  main_cache = new_cache (record default_cache_options { max_bytes = cache_bytes });
  has_peers = false;
  expiration = 0;
  closed = false;
  stats = no_stats;
  started = [];
})

-- How `Set` and `load` write the cache, by the expiration of the group.
unfoldable pub write : {E : Type 0} → World E → Key → ByteView → ℕ → Cache → Option Cache
write w key view expiration c =
    if gt64 expiration 0
    then add_with_expiration w.writes key view (w.now + expiration) c
    else Cache.add w.writes key view c

unfoldable pub store_view : {E : Type 0} → World E → Key → ByteView → Group → Option Group
store_view w key view g = do
  c ← write w key view g.expiration g.main_cache
  some (record g { main_cache = c })

-- `loadData`, first what it asks a peer: the value, where there is one.
unfoldable pub take_peer : {E : Type 0} → E ⊎ List ℕ → Group → Group × Option ByteView
take_peer (inl error) g =
    (record g { stats = record g.stats { peer_misses = add64 g.stats.peer_misses 1 } }, none)
take_peer (inr bytes) g = (
  record g { stats = record g.stats { peer_hits = add64 g.stats.peer_hits 1 } },
  some (record { b = bytes }),
)

unfoldable pub ask_peer : {E : Type 0} → World E → Key → Group → Group × Option ByteView
ask_peer w key g =
    let pick = w.pick_peer key in
    if g.has_peers && pick.ok && not pick.is_self
    then take_peer (pick.peer g.name key) g
    else (g, none)

unfoldable pub take_value : {E : Type 0} → E ⊎ List ℕ → Group → Group × (Error E ⊎ ByteView)
take_value (inl error) g = (g, inl (get_failed error))
take_value (inr bytes) g = (
  record g { stats = record g.stats { loader_hits = add64 g.stats.loader_hits 1 } },
  inr (record { b = bytes }),
)

unfoldable pub ask_getter : {E : Type 0} → World E → Key → Group → Group × (Error E ⊎ ByteView)
ask_getter w key g = take_value (w.getter key) g

unfoldable pub or_getter :
    {E : Type 0} → World E → Key → Group × Option ByteView → Group × (Error E ⊎ ByteView)
or_getter w key (g, some view) = (g, inr view)
or_getter w key (g, none) = ask_getter w key g

unfoldable pub load_data : {E : Type 0} → World E → Key → Group → Group × (Error E ⊎ ByteView)
load_data w key g = or_getter w key (ask_peer w key g)

-- `load`, whose `Do` calls `loadData` when no other call loads the key.
unfoldable pub count_load : {E : Type 0} → World E → Group → Group
count_load w g = record g {
  stats = record g.stats {
    load_duration = add64 g.stats.load_duration w.elapsed;
    loads = add64 g.stats.loads 1;
  };
}

unfoldable pub finish_load :
    {E : Type 0}
    → World E
    → Key
    → Error E ⊎ ByteView
    → Group
    → Option (Group × (Error E ⊎ ByteView))
finish_load w key (inl error) g = some (
  record g { stats = record g.stats { loader_errors = add64 g.stats.loader_errors 1 } },
  inl error,
)
finish_load w key (inr view) g = do g ← store_view w key view g; some (g, inr view)

unfoldable pub load : {E : Type 0} → World E → Key → Group → Option (Group × (Error E ⊎ ByteView))
load w key g = let (g', r) = load_data w key g in finish_load w key r (count_load w g')

-- `Get`
abbrev pub is_empty {ℓ} : {A : Type ℓ} → List A → Bool
is_empty [] = true
is_empty (x ∷ xs) = false

unfoldable pub get_or_load :
    {E : Type 0}
    → World E
    → Key
    → Cache × Option ByteView
    → Group
    → Option (Group × (Error E ⊎ ByteView))
get_or_load w key (c, some view) g = some (
  record g { main_cache = c; stats = record g.stats { local_hits = add64 g.stats.local_hits 1 } },
  inr view,
)
get_or_load w key (c, none) g = load w key (record g {
  main_cache = c;
  stats = record g.stats { local_misses = add64 g.stats.local_misses 1 };
})

unfoldable pub get : {E : Type 0} → World E → Key → Group → Option (Group × (Error E ⊎ ByteView))
get w key g =
    if g.closed
    then some (g, inl group_closed)
    else if is_empty key
    then some (g, inl key_required)
    else (do found ← Cache.get w.reads key g.main_cache; get_or_load w key found g)

-- The `go` statement at the end of `Set` and `Delete`.
unfoldable pub start_sync : Bool → Sync → Group → Group
start_sync from_peer sync g =
    if not from_peer && g.has_peers then record g { started = sync ∷ g.started } else g

-- `Set`, with an error or none; `from_peer` is whether the context has that value.
unfoldable pub set :
    {E : Type 0} → World E → Bool → Key → List ℕ → Group → Option (Group × Option (Error E))
set w from_peer key value g =
    if g.closed
    then some (g, some group_closed)
    else if is_empty key
    then some (g, some key_required)
    else if is_empty value
    then some (g, some value_required)
    else (do
      g ← store_view w key (record { b = value }) g
      some (start_sync from_peer (sync_set key value) g, none))

-- `Delete`
unfoldable pub delete : {E : Type 0} → Bool → Key → Group → Option (Group × Option (Error E))
delete from_peer key g =
    if g.closed
    then some (g, some group_closed)
    else if is_empty key
    then some (g, some key_required)
    else (do
      (c, deleted) ← Cache.delete key g.main_cache
      some (start_sync from_peer (sync_delete key) (record g { main_cache = c }), none))

-- `syncToPeers`: the request that it makes of the peer, which names the group.
pub data Request : Type 0 where
  request_set : Key → Key → List ℕ → Request
  request_delete : Key → Key → Request

abbrev sync_key : Sync → Key
sync_key (sync_set key value) = key
sync_key (sync_delete key) = key

abbrev request_of : Key → Sync → Request
request_of name (sync_set key value) = request_set name key value
request_of name (sync_delete key) = request_delete name key

unfoldable pub sync_to_peers : {E : Type 0} → World E → Sync → Group → Option Request
sync_to_peers w sync g =
    let pick = w.pick_peer (sync_key sync) in
    if g.has_peers && pick.ok && not pick.is_self then some (request_of g.name sync) else none

-- `Clear`
unfoldable pub clear : Env → Group → Option Group
clear e g =
    if g.closed
    then some g
    else (do c ← Cache.clear e g.main_cache; some (record g { main_cache = c }))

-- `Close`, but for the registry.
unfoldable pub close : Group → Option Group
close g =
    if g.closed
    then some g
    else (do c ← Cache.close g.main_cache; some (record g { closed = true; main_cache = c }))

-- `RegisterPeers`, which panics the second time.
unfoldable pub register_peers : Bool → Group → Option Group
register_peers peers g = if g.has_peers then none else some (record g { has_peers = peers })

-- `Stats`: the rates that it has for some gets and for some loads.
pub record Stats (F : Type 0) : Type 0 where
  pub closed : Bool
  pub expiration : ℕ
  pub counts : GroupStats
  pub hit_rate : Option F
  pub avg_load_time : Option F
  pub cache : CacheStats F

unfoldable pub stats : {F : Type 0} → Float64 F → Group → Option (Stats F)
stats f g =
    let total_gets = add64 g.stats.local_hits g.stats.local_misses in
    let total_loads = g.stats.loads in
    (do
      cache ← Cache.stats f g.main_cache
      some (record {
        closed = g.closed;
        expiration = g.expiration;
        counts = g.stats;
        hit_rate =
            if gt64 total_gets 0
            then some (f.div (f.of_int g.stats.local_hits) (f.of_int total_gets))
            else none;
        avg_load_time =
            if gt64 total_loads 0
            then some (
                f.div (f.div (f.of_int g.stats.load_duration) (f.of_int total_loads))
                  (f.of_int 1000000))
            else none;
        cache = cache;
      }))
