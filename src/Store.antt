-- ===== src/Store.antt =====
-- The interface `Store` of store/store.go by its two implementations, and `NewStore`. `none` is a panic.
-- The deletion that a `Get` of store/lru.go starts is a later `delete` of the store.
pub mod Total
use lcache.Common.{ℕ, List, [], ◌∷◌, Option, none, some, Bool, true, false, ite, if◌then◌else◌}
use lcache.Common.Panics.{◌>>=◌}
use lcache.Value.{Key, key_eq, Value, Options}
use lcache.Lru.{Lru, Range, new_lru, delete_key}
use lcache.Lru2.{Lru2, new_lru2, get_value}
use lcache.Lru
use lcache.Lru2

-- `CacheType`; a string that is neither constant is `other_type`.
pub data CacheType : Type 0 where
  lru_type lru2_type other_type : CacheType

-- A value of the interface type.
pub data Store : Type 0 where
  lru : Lru → Store
  lru2 : Lru2 → Store

-- What a call meets: the order in which Go visits a map, and the readings of the clock: that of the
-- cache over the store, and two of the store.
pub record Env : Type 0 where
  pub range : Range
  pub start : ℕ
  pub now : ℕ
  pub later : ℕ

-- `NewStore`
unfoldable pub new_store : CacheType → Options → Store
new_store lru2_type opts = lru2 (new_lru2 opts)
new_store lru_type opts = lru (new_lru opts)
new_store other_type opts = lru (new_lru opts)

-- The methods of the interface; a value that is found may be nil.
unfoldable pub get : Env → Key → Store → Option (Store × Option (Option Value))
get e key (lru c) =
    let (c', value, late) = Lru.get e.now key c in
    some (lru c', elim value [ none ↦ none | some v ↦ some (some v) ])
get e key (lru2 s) = do (s', value) ← get_value e.now e.later key s; some (lru2 s', value)

unfoldable pub set_with_expiration : Env → Key → Option Value → ℕ → Store → Option Store
set_with_expiration e key value expiration (lru c) =
    some (lru (Lru.set_with_expiration e.range e.now e.later key value expiration c))
set_with_expiration e key value expiration (lru2 s) = do
  s' ← Lru2.set_with_expiration e.now key value expiration s
  some (lru2 s')

unfoldable pub set : Env → Key → Option Value → Store → Option Store
set e key value (lru c) = some (lru (Lru.set e.range e.now e.later key value c))
set e key value (lru2 s) = do s' ← Lru2.set e.now key value s; some (lru2 s')

unfoldable pub delete : Key → Store → Option (Store × Bool)
delete key (lru c) = let (c', deleted) = delete_key key c in some (lru c', deleted)
delete key (lru2 s) = do (s', deleted) ← Lru2.delete key s; some (lru2 s', deleted)

unfoldable pub clear : Env → Store → Option Store
clear e (lru c) = some (lru (Lru.clear e.range c))
clear e (lru2 s) = do s' ← Lru2.clear s; some (lru2 s')

unfoldable pub len : Store → Option ℕ
len (lru c) = some (Lru.count c)
len (lru2 s) = Lru2.len s

-- `Close`; that of the two-level store stops its ticker.
unfoldable pub close : Store → Option Store
close (lru c) = do c' ← Lru.close c; some (lru c')
close (lru2 s) = some (lru2 s)
