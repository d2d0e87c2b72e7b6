-- ===== src/Lru2.antt =====
-- `lru2Store` of store/lru2.go: buckets of two levels, a key in the bucket of its hash. A method is
-- one function from state to state, as it holds the lock of its bucket; `none` is an index panic.
pub mod Contents
pub mod Safe
pub mod Gets
pub mod Keys
pub mod Sweeps
pub mod Runs
pub mod Origins
pub mod Reads
mod Tests
use Prim.Native.Nat.{bit_and, bit_or}
use lcache.Common.{
  ℕ, zero, suc, ◌+◌, ◌-◌, ◌*◌, ◌/◌, ◌%◌, ◌^◌, Bool, true, false, not, ◌&&◌, ◌||◌, List, [], ◌∷◌,
  ◌++◌, Option, none, some, ite, ltb, ◌==◌, if◌then◌else◌, ℕ_discrete,
}
use lcache.Common.Panics.{◌>>=◌}
use lcache.Common.Words.{gt64, ge64, add64}
use lcache.Value.{Key, key_eq, Value, Options}
use lcache.Level.{Node, Level, create, get, del, put, node_at, walk}

-- `caches` has `buckets` pairs; `mask` is an int32; `calls` are those of `onEvicted` so far.
pub record Lru2 : Type 0 where
  pub caches : ℕ → Level × Level
  pub buckets : ℕ
  pub mask : ℕ
  pub on_evicted : Bool
  pub calls : List (Key × Option Value)

-- `hashBKRD`, an int32 by its bit pattern; `hash_from` is the loop.
unfoldable pub hash_from : Key → ℕ → ℕ
hash_from [] hash = hash
hash_from (x ∷ s) hash = hash_from s ((hash * 131 + x) % 2 ^ 32)

unfoldable pub hash_bkrd : Key → ℕ
hash_bkrd s = hash_from s 0

-- `maskOfNextPowOf2`
unfoldable pub mask_of_next_pow_of2 : ℕ → ℕ
mask_of_next_pow_of2 cap =
    if ltb 0 cap && (bit_and cap (cap - 1) == 0)
    then cap - 1
    else (let cap = bit_or cap (cap / 2 ^ 1) in
        let cap = bit_or cap (cap / 2 ^ 2) in
        let cap = bit_or cap (cap / 2 ^ 4) in bit_or cap (cap / 2 ^ 8))

abbrev pub or_default : ℕ → ℕ → ℕ
or_default n d = if n == 0 then d else n

-- `newLRU2Cache`; `mask + 1` is a uint16.
unfoldable pub new_lru2 : Options → Lru2
new_lru2 opts =
    let mask = mask_of_next_pow_of2 (or_default opts.bucket_count 16) in
    record {
      caches = λ i.
          (create (or_default opts.cap_per_bucket 1024), create (or_default opts.level2_cap 1024));
      buckets = (mask + 1) % 2 ^ 16;
      mask = mask;
      on_evicted = opts.on_evicted;
      calls = [];
    }

-- `hashBKRD(key) & s.mask`
unfoldable pub index : Key → Lru2 → ℕ
index key s = bit_and (hash_bkrd key) s.mask

-- `s.caches[idx]`, and an assignment to it
unfoldable pub bucket : ℕ → Lru2 → Option (Level × Level)
bucket idx s = if ltb idx s.buckets then some (s.caches idx) else none

unfoldable pub set_bucket : ℕ → Level × Level → List (Key × Option Value) → Lru2 → Lru2
set_bucket idx c calls s = record s {
  caches = λ i. ite (ℕ_discrete idx i) c (s.caches i);
  calls = s.calls ++ calls;
}

-- `n.v` of a node that `del` returned, and a nil value without a node
unfoldable pub value_at : Option (ℕ × ℕ) → Level → Option (Option Value)
value_at none c = some none
value_at (some (i, e)) c = do x ← node_at i c; some x.v

-- The call of `onEvicted` in `delete`.
unfoldable pub report : Key → Option Value → Option Value → List (Key × Option Value)
report key (some x) y = (key, some x) ∷ []
report key none (some y) = (key, some y) ∷ []
report key none none = []

abbrev pub is_some {ℓ} : {A : Type ℓ} → Option A → Bool
is_some none = false
is_some (some x) = true

-- `delete`
unfoldable pub delete_at : Key → ℕ → Lru2 → Option (Lru2 × Bool)
delete_at key idx s = do
  (c₀, c₁) ← bucket idx s
  (c₀, r₁) ← del key c₀
  (c₁, r₂) ← del key c₁
  v₁ ← value_at r₁ c₀
  v₂ ← value_at r₂ c₁
  let deleted = is_some r₁ || is_some r₂
  let calls : List (Key × Option Value) = if deleted && s.on_evicted then report key v₁ v₂ else []
  some (set_bucket idx (c₀, c₁) calls s, deleted)

-- `Delete`
unfoldable pub delete : Key → Lru2 → Option (Lru2 × Bool)
delete key s = delete_at key (index key s) s

-- `SetWithExpiration`, and `Set`
unfoldable pub set_with_expiration : ℕ → Key → Option Value → ℕ → Lru2 → Option Lru2
set_with_expiration now key value expiration s =
    let expire_at = if gt64 expiration 0 then add64 now expiration else 0 in
    let idx = index key s in
    (do
      (c₀, c₁) ← bucket idx s
      (c₀, added, calls) ← put s.on_evicted key value expire_at c₀
      some (set_bucket idx (c₀, c₁) calls s))

unfoldable pub set : ℕ → Key → Option Value → Lru2 → Option Lru2
set now key value s = set_with_expiration now key value 9999999999999999 s

-- `_get` of the second level, its reading of the clock, and what `Get` does with the node.
unfoldable pub get_second :
    ℕ → ℕ → Key → ℕ → Level × Level → Lru2 → Option (Lru2 × Option (Option Value))
get_second now now₂ key idx (c₀, c₁) s = do
  (c₁, r) ← get key c₁
  let s = set_bucket idx (c₀, c₁) [] s
  elim r [
    | none ↦ some (s, none)
    | some i ↦ do
      x ← node_at i c₁
      if not (gt64 x.expire_at 0) || ge64 now₂ x.expire_at
          then some (s, none)
          else if gt64 x.expire_at 0 && ge64 now x.expire_at
          then (do (s, deleted) ← delete_at key idx s; some (s, none))
          else some (s, some x.v)
  ]

-- A node of the first level that `Get` has found and marked: it moves to the second one, unless it
-- has expired.
unfoldable pub promote :
    ℕ → Key → ℕ → ℕ × ℕ → Level × Level → Lru2 → Option (Lru2 × Option (Option Value))
promote now key idx (i, expire_at) (c₀, c₁) s =
    if gt64 expire_at 0 && ge64 now expire_at
    then (do (s, deleted) ← delete_at key idx (set_bucket idx (c₀, c₁) [] s); some (s, none))
    else (do
      x ← node_at i c₀
      (c₁, added, calls) ← put s.on_evicted key x.v expire_at c₁
      some (set_bucket idx (c₀, c₁) calls s, some x.v))

-- `Get` with its two readings of the clock: the store, and the value if there is one.
unfoldable pub get_value : ℕ → ℕ → Key → Lru2 → Option (Lru2 × Option (Option Value))
get_value now now₂ key s =
    let idx = index key s in
    (do
      (c₀, c₁) ← bucket idx s
      (c₀, r) ← del key c₀
      elim r [
        | some found ↦ promote now key idx found (c₀, c₁) s
        | none ↦ get_second now now₂ key idx (c₀, c₁) s
      ])

-- The loop of `Len` over the buckets, from an index on.
unfoldable pub count_from : ℕ → ℕ → Lru2 → ℕ → Option ℕ
count_from zero i s count = some count
count_from (suc more) i s count = do
  (c₀, c₁) ← bucket i s
  count ← walk (λ x n. (n + 1, true)) c₀ count
  count ← walk (λ x n. (n + 1, true)) c₁ count
  count_from more (i + 1) s count

-- `Len`
unfoldable pub len : Lru2 → Option ℕ
len s = count_from s.buckets 0 s 0

-- The callbacks with which keys are collected: on the first level, and on the second, where a key
-- that is already there is passed over.
unfoldable pub seen : Key → List Key → Bool
seen key [] = false
seen key (k ∷ keys) = ite (key_eq key k) true (seen key keys)

abbrev pub collect : Node → List Key → List Key × Bool
collect x keys = (keys ++ x.k ∷ [], true)

abbrev pub collect_new : Node → List Key → List Key × Bool
collect_new x keys = (if seen x.k keys then keys else keys ++ x.k ∷ [], true)

unfoldable pub keys_from : ℕ → ℕ → Lru2 → List Key → Option (List Key)
keys_from zero i s keys = some keys
keys_from (suc more) i s keys = do
  (c₀, c₁) ← bucket i s
  keys ← walk collect c₀ keys
  keys ← walk collect_new c₁ keys
  keys_from more (i + 1) s keys

unfoldable pub delete_keys : List Key → Lru2 → Option Lru2
delete_keys [] s = some s
delete_keys (key ∷ keys) s = do (s, deleted) ← delete key s; delete_keys keys s

-- `Clear` with no other call between its critical sections
unfoldable pub clear : Lru2 → Option Lru2
clear s = do keys ← keys_from s.buckets 0 s []; delete_keys keys s

-- A round of `cleanupLoop` in one bucket, and over the buckets from an index on.
abbrev pub if_expired : ℕ → (Node → List Key → List Key × Bool) → Node → List Key → List Key × Bool
if_expired now f x keys =
    if gt64 x.expire_at 0 && ge64 now x.expire_at then f x keys else (keys, true)

unfoldable pub delete_each : List Key → ℕ → Lru2 → Option Lru2
delete_each [] i s = some s
delete_each (key ∷ keys) i s = do (s, deleted) ← delete_at key i s; delete_each keys i s

unfoldable pub cleanup_from : ℕ → ℕ → ℕ → Lru2 → Option Lru2
cleanup_from now zero i s = some s
cleanup_from now (suc more) i s = do
  (c₀, c₁) ← bucket i s
  keys ← walk (if_expired now collect) c₀ []
  keys ← walk (if_expired now collect_new) c₁ keys
  s ← delete_each keys i s
  cleanup_from now more (i + 1) s

unfoldable pub cleanup : ℕ → Lru2 → Option Lru2
cleanup now s = cleanup_from now s.buckets 0 s
