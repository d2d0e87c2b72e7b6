-- ===== src/Cache/Safe.antt =====
-- Calls of `Cache` (cache.go), one after the other, do not panic; a closed cache stays as it is.
use lcache.Common.{ℕ, ◌≡◌, refl, ◌∙◌, List, [], ◌∷◌, Option, some}
use lcache.Common.Panics.{◌>>=◌, some-bind}
use lcache.Value.{Key, ByteView}
use lcache.Store.{Env}
use lcache.Store.Total.{IsConfigured}
use lcache.Cache.{
  Cache, CacheOptions, new_cache, store_options, add, add_with_expiration, get, delete, clear, len,
  close,
}
use lcache.Cache.Methods.{
  IsCache, Returns, new_cache-IsCache, add-Returns, add_with_expiration-Returns, get-Returns,
  delete-Returns, clear-Returns, len-Returns, close-Returns,
}

-- The calls of the cache.
pub data Call : Type 0 where
  adds : Env → Key → ByteView → Call
  adds_until : Env → Key → ByteView → ℕ → Call
  gets : Env → Key → Call
  deletes : Key → Call
  clears : Env → Call
  counts : Call
  closes : Call

unfoldable pub apply : Call → Cache → Option Cache
apply (adds e key value) c = add e key value c
apply (adds_until e key value t) c = add_with_expiration e key value t c
apply (gets e key) c = do (c, value) ← get e key c; some c
apply (deletes key) c = do (c, deleted) ← delete key c; some c
apply (clears e) c = clear e c
apply counts c = do n ← len c; some c
apply closes c = close c

unfoldable pub run : List Call → Cache → Option Cache
run [] c = some c
run (call ∷ calls) c = do c ← apply call c; run calls c

apply-Returns : (call : Call) (c : Cache) → IsCache c → Returns (apply call c)
unfolding apply
apply-Returns (adds e key value) c v = add-Returns e key value c v
apply-Returns (adds_until e key value t) c v = add_with_expiration-Returns e key value t c v
apply-Returns (gets e key) c v = let r = get-Returns e key c v in (r.0, some-bind _ r.2, r.3)
apply-Returns (deletes key) c v = let r = delete-Returns key c v in (r.0, some-bind _ r.2, r.3)
apply-Returns (clears e) c v = clear-Returns e c v
apply-Returns counts c v = let r = len-Returns c v in (c, some-bind _ r.1, v)
apply-Returns closes c v = close-Returns c v

run_from : (calls : List Call) (c : Cache) → IsCache c → Returns (run calls c)
unfolding run
run_from [] c v = (c, refl, v)
run_from (call ∷ calls) c v =
    let (c₁, e, v₁) = apply-Returns call c v in
    let (c₂, e₂, v₂) = run_from calls c₁ v₁ in (c₂, some-bind _ e ∙ e₂, v₂)

-- Any calls of a new cache, one after the other, return without a panic, and leave a cache that has a
-- store exactly when it is initialized and is not initialized when it is closed; with options in which
-- no index leaves its array.
pub run-IsCache :
    (opts : CacheOptions) (calls : List Call)
    → IsConfigured (store_options opts)
    → (c : Cache) × (run calls (new_cache opts) ≡ some c) × IsCache c
run-IsCache opts calls h = run_from calls (new_cache opts) (new_cache-IsCache opts h)
