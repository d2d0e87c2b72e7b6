-- ===== src/Cache.antt =====
-- `Cache` of cache.go, over a store of store/store.go. A method is one function from state to state
-- where no other call comes between its critical sections; `Closing` has those of `Close` that do. `none` is a
-- panic, that of a nil store or of the store.
pub mod Methods
pub mod Safe
pub mod Closing
pub mod Counting
mod Tests
use lcache.Common.{
  ℕ, ◌+◌, ◌-◌, ◌*◌, ◌^◌, Bool, true, false, ◌||◌, not, List, [], ◌∷◌, Option, none, some,
  if◌then◌else◌, leb, ltb, ◌==◌,
}
use Prim.Native.Nat.{min}
use lcache.Common.Panics.{◌>>=◌}
use lcache.Common.Words.{add64, gt64, max_int64}
use lcache.Common.Floats.{Float64}
use lcache.Value.{Key, ByteView, Value, view, other, Options}
use lcache.Store
use lcache.Store.{CacheType, lru2_type, Store, Env, new_store}

-- `CacheOptions`; of `OnEvicted` only whether it is nil.
pub record CacheOptions : Type 0 where
  pub cache_type : CacheType
  pub max_bytes : ℕ
  pub bucket_count : ℕ
  pub cap_per_bucket : ℕ
  pub level2_cap : ℕ
  pub cleanup_time : ℕ
  pub on_evicted : Bool

-- `DefaultCacheOptions`
abbrev pub default_cache_options : CacheOptions
default_cache_options = record {
  cache_type = lru2_type;
  max_bytes = 8 * 1024 * 1024;
  bucket_count = 16;
  cap_per_bucket = 512;
  level2_cap = 256;
  cleanup_time = 60 * 10 ^ 9;
  on_evicted = false;
}

-- `Cache`; `hits` and `misses` are int64, a nil store is `none`.
pub record Cache : Type 0 where
  pub store : Option Store
  pub opts : CacheOptions
  pub hits : ℕ
  pub misses : ℕ
  pub initialized : Bool
  pub closed : Bool

-- `NewCache`
unfoldable pub new_cache : CacheOptions → Cache
new_cache opts = record {
  store = none;
  opts = opts;
  hits = 0;
  misses = 0;
  initialized = false;
  closed = false;
}

-- The options that `ensureInitialized` makes for the store.
abbrev pub store_options : CacheOptions → Options
store_options opts = record {
  max_bytes = opts.max_bytes;
  bucket_count = opts.bucket_count;
  cap_per_bucket = opts.cap_per_bucket;
  level2_cap = opts.level2_cap;
  cleanup_interval = opts.cleanup_time;
  on_evicted = opts.on_evicted;
}

-- `ensureInitialized`
unfoldable pub ensure_initialized : Cache → Cache
ensure_initialized c = if c.initialized then c else record c {
  store = some (new_store c.opts.cache_type (store_options c.opts));
  initialized = true;
}

-- A method of a value of the interface type, which may be nil.
abbrev pub on_store {ℓ} : {A : Type ℓ} → Option Store → (Store → Option A) → Option A
on_store none f = none
on_store (some s) f = f s

-- `Add`: its test, and what follows it.
unfoldable pub finish_add : Env → Key → ByteView → Cache → Option Cache
finish_add e key value c =
    let c' = ensure_initialized c in
    (do
      s ← on_store c'.store (Store.set e key (some (view value)))
      some (record c' { store = some s }))

unfoldable pub add : Env → Key → ByteView → Cache → Option Cache
add e key value c = if c.closed then some c else finish_add e key value c

-- `AddWithExpiration`, of an instant in nanoseconds.
unfoldable pub add_with_expiration : Env → Key → ByteView → ℕ → Cache → Option Cache
add_with_expiration e key value expiration_time c =
    let c' = ensure_initialized c in
    let expiration = min (expiration_time - e.start) max_int64 in
    if c.closed then some c else if leb expiration_time e.start then some c' else (do
      s ← on_store c'.store (Store.set_with_expiration e key (some (view value)) expiration)
      some (record c' { store = some s }))

-- What `Get` makes of the store's answer: a miss, a hit, or a hit that is no `ByteView`, which is
-- counted as both.
unfoldable pub answer : Option (Option Value) → Cache → Cache × Option ByteView
answer none c = (record c { misses = add64 c.misses 1 }, none)
answer (some (some (view v))) c = (record c { hits = add64 c.hits 1 }, some v)
answer (some (some (other tag size))) c =
    (record c { hits = add64 c.hits 1; misses = add64 c.misses 1 }, none)
answer (some none) c = (record c { hits = add64 c.hits 1; misses = add64 c.misses 1 }, none)

-- `Get` from the lock on, and the whole.
unfoldable pub finish_get : Env → Key → Cache → Option (Cache × Option ByteView)
finish_get e key c = do
  (s, found) ← on_store c.store (Store.get e key)
  some (answer found (record c { store = some s }))

unfoldable pub get : Env → Key → Cache → Option (Cache × Option ByteView)
get e key c =
    if c.closed
    then some (c, none)
    else if not c.initialized
    then some (record c { misses = add64 c.misses 1 }, none)
    else finish_get e key c

-- `Delete`, `Clear`, `Len`
unfoldable pub delete : Key → Cache → Option (Cache × Bool)
delete key c = if c.closed || not c.initialized then some (c, false) else (do
  (s, deleted) ← on_store c.store (Store.delete key)
  some (record c { store = some s }, deleted))

unfoldable pub clear : Env → Cache → Option Cache
clear e c = if c.closed || not c.initialized then some c else (do
  s ← on_store c.store (Store.clear e)
  some (record c { store = some s; hits = 0; misses = 0 }))

unfoldable pub len : Cache → Option ℕ
len c = if c.closed || not c.initialized then some 0 else on_store c.store Store.len

-- `Close`
unfoldable pub close_store : Option Store → Option (Option Store)
close_store none = some none
close_store (some s) = do s' ← Store.close s; some none

unfoldable pub close : Cache → Option Cache
close c = if c.closed then some c else (do
  s ← close_store c.store
  some (record c { closed = true; store = s; initialized = false }))

-- `Stats`: the size and the hit rate of a cache that is initialized, and what it always has.
pub record CacheStats (F : Type 0) : Type 0 where
  pub initialized : Bool
  pub closed : Bool
  pub hits : ℕ
  pub misses : ℕ
  pub size : Option ℕ
  pub hit_rate : Option F

unfoldable pub stats : {F : Type 0} (f : Float64 F) → Cache → Option (CacheStats F)
stats f c =
    let total = add64 c.hits c.misses in
    let rate = if gt64 total 0 then f.div (f.of_int c.hits) (f.of_int total) else f.of_int 0 in
    if c.initialized
    then (do
      size ← len c
      some (record {
        initialized = c.initialized;
        closed = c.closed;
        hits = c.hits;
        misses = c.misses;
        size = some size;
        hit_rate = some rate;
      }))
    else some (record {
      initialized = c.initialized;
      closed = c.closed;
      hits = c.hits;
      misses = c.misses;
      size = none;
      hit_rate = none;
    })
