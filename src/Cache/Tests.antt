-- ===== src/Cache/Tests.antt =====
-- Runs of the cache of cache.go, and the theorems about it at concrete caches.
use mathlib.Core.List.Perm
use lcache.Common.{◌≡◌, refl, List, [], ◌∷◌, Option, none, some, arith, true, false}
use lcache.Value.{Key, ByteView}
use lcache.Lru2.{mask_of_next_pow_of2}
use lcache.Lru.{Range, Lru, new_lru}
use lcache.Lru.Invariant.{new_lru-IsValid}
use lcache.Store.{lru_type, lru2_type, lru, Store, Env, new_store}
use lcache.Store.Total.{IsConfigured}
use lcache.Cache.Methods.{IsCache}
use lcache.Cache.Safe.{
  Call, adds, adds_until, gets, deletes, clears, counts, closes, run, run-IsCache,
}
use lcache.Cache.Closing.{close_is_final, overtaken_by_close}
use lcache.Cache.{
  Cache, CacheOptions, default_cache_options, new_cache, store_options, ensure_initialized,
  finish_add, finish_get, get, close_store, close,
}

abbrev env : Env
env = record {
  range = record { visit = λ m. m; visit-perm = λ m. Perm.refl m };
  start = 5;
  now = 5;
  later = 5;
}

abbrev k : Key
k = b'k' ∷ []

abbrev v : ByteView
v = record { b = 1 ∷ 2 ∷ [] }

abbrev over_lru : CacheOptions
over_lru = record default_cache_options { cache_type = lru_type; max_bytes = 10 }

mask_of_16 : mask_of_next_pow_of2 16 ≡ 15
unfolding mask_of_next_pow_of2
mask_of_16 = refl

default-IsConfigured : IsConfigured (store_options default_cache_options)
default-IsConfigured = record {
  first = omega arith;
  second = omega arith;
  masked = omega (arith, mask_of_16);
}

lru-IsConfigured : IsConfigured (store_options over_lru)
lru-IsConfigured = record {
  first = omega arith;
  second = omega arith;
  masked = omega (arith, mask_of_16);
}

abbrev calls : List Call
calls =
    gets env k
    ∷ adds env k v
    ∷ gets env k
    ∷ adds_until env k v 100
    ∷ counts
    ∷ deletes k
    ∷ clears env
    ∷ closes
    ∷ gets env k
    ∷ []

run-IsCache_example :
    (c : Cache) × (run calls (new_cache default_cache_options) ≡ some c) × IsCache c
run-IsCache_example = run-IsCache default_cache_options calls default-IsConfigured

-- A cache over the store of lru.go, before its first call, ready, and closed.
abbrev fresh : Cache
fresh = record {
  store = none;
  opts = over_lru;
  hits = 0;
  misses = 0;
  initialized = false;
  closed = false;
}

abbrev ready : Cache
ready = record fresh { store = some (lru (new_lru (store_options over_lru))); initialized = true }

abbrev shut : Cache
shut = record ready { store = none; initialized = false; closed = true }

ready_opens : ensure_initialized fresh ≡ ready
unfolding ensure_initialized new_store
ready_opens = refl

ready_closes : close ready ≡ some shut
unfolding close close_store lcache.Store.close lcache.Lru.close new_lru
ready_closes = refl

ready-IsCache : IsCache ready
unfolding new_lru
ready-IsCache = record {
  ready = λ e. (_, refl, (new_lru-IsValid (store_options over_lru), refl));
  bare = λ e. cc;
  shut = λ e. cc;
  configured = lru-IsConfigured;
}

close_is_final_example : (run calls shut ≡ some shut) × (get env k shut ≡ some (shut, none))
close_is_final_example = close_is_final ready shut calls env k ready_closes

overtaken_by_close_example :
    (finish_get env k shut ≡ none)
    × (c : Cache) × (finish_add env k v shut ≡ some c)
    × (c.closed ≡ true)
    × (c.initialized ≡ true)
    × (close c ≡ some c)
overtaken_by_close_example =
    overtaken_by_close ready shut env env k k v ready-IsCache refl ready_closes

abbrev missed : Cache
missed = record fresh { misses = 1 }

abbrev nothing : Option ByteView
nothing = none

-- The first `Get` of a cache that has no store yet is a miss.
first_get : get env k fresh ≡ some (missed, nothing)
unfolding get
first_get = refl
