-- ===== src/Lru.antt =====
-- store/lru.go. A method takes the cache and returns the new one beside its result; each reading
-- of the clock is an argument, in nanoseconds, and so is the order in which Go ranges over a map.
pub mod Elements
pub mod Invariant
pub mod Writes
pub mod Changes
pub mod System
pub mod Expiry
pub mod Evict
pub mod Holds
pub mod Coherence
pub mod Reads
pub mod Callbacks
pub mod Limits
pub mod Late
pub mod Closing
mod Tests
use mathlib.Core.List.{Perm}
use Prim.Native.Nat.{min}
use lcache.Common.{
  ℕ, zero, suc, ◌+◌, ◌-◌, ◌*◌, ◌^◌, Bool, true, false, ◌&&◌, List, [], ◌∷◌, ◌++◌, map, Option, none,
  some, ite, ltb, if◌then◌else◌, length, ℕ_discrete,
}
use lcache.Common.GoMap.{GoMap, lookup, delete, insert}
use lcache.Common.Words.{to_int64, add64, sub64, gt64, max_int64}
use lcache.Value.{Key, key_eq, Value, len, Options}

-- `lruEntry`
pub record Entry : Type 0 where
  pub key : Key
  pub value : Value

-- `lruCache`. A list element is a pointer: its address in `heap`, which holds the entry that its
-- field `Value` points to. `next` is the first address that is not in use. `calls` are the
-- arguments that `onEvicted` has been called with, in order.
pub record Lru : Type 0 where
  pub list : List ℕ
  pub heap : ℕ → Entry
  pub next : ℕ
  pub items : GoMap Key ℕ
  pub expires : GoMap Key ℕ
  pub max_bytes : ℕ
  pub used_bytes : ℕ
  pub on_evicted : Bool
  pub cleanup_interval : ℕ
  pub calls : List Entry
  pub closed : Bool

-- The order in which Go ranges over a map: any.
pub record Range : Type 0 where
  pub visit : GoMap Key ℕ → GoMap Key ℕ
  pub visit-perm : (m : GoMap Key ℕ) → Perm (visit m) m

-- The package container/list: `Remove`, `MoveToBack` and `Front`.
unfoldable pub remove : ℕ → List ℕ → List ℕ
remove i [] = []
remove i (x ∷ l) = ite (ℕ_discrete x i) l (x ∷ remove i l)

unfoldable pub contains : ℕ → List ℕ → Bool
contains i [] = false
contains i (x ∷ l) = ite (ℕ_discrete x i) true (contains i l)

unfoldable pub move_to_back : ℕ → List ℕ → List ℕ
move_to_back i l = if contains i l then remove i l ++ i ∷ [] else l

abbrev front : List ℕ → Option ℕ
front [] = none
front (i ∷ l) = some i

-- `*p = e`
unfoldable pub update : (ℕ → Entry) → ℕ → Entry → ℕ → Entry
update h i e j = ite (ℕ_discrete i j) e (h j)

abbrev pub minute : ℕ
minute = 60 * 10 ^ 9

-- An address that no element has reads as an empty entry.
abbrev pub no_entry : Entry
no_entry = record { key = []; value = Value.other 0 0 }

-- `newLRUCache`; the cleanup loop that it starts is a step of `System`.
unfoldable pub new_lru : Options → Lru
new_lru opts = record {
  list = [];
  heap = λ _. no_entry;
  next = 0;
  items = [];
  expires = [];
  max_bytes = opts.max_bytes;
  used_bytes = 0;
  on_evicted = opts.on_evicted;
  cleanup_interval = if gt64 opts.cleanup_interval 0 then opts.cleanup_interval else minute;
  calls = [];
  closed = false;
}

-- `int64(len(entry.key) + entry.value.Len())`
abbrev pub cost : Entry → ℕ
cost e = length e.key + len e.value

unfoldable pub remove_element : ℕ → Lru → Lru
remove_element i c =
    let entry = c.heap i in
    record c {
      list = remove i c.list;
      items = delete key_eq entry.key c.items;
      expires = delete key_eq entry.key c.expires;
      used_bytes = sub64 c.used_bytes (to_int64 (cost entry));
      calls = if c.on_evicted then c.calls ++ entry ∷ [] else c.calls;
    }

-- One round of the first loop of `evict`.
unfoldable pub expire_one : ℕ → Key → ℕ → Lru → Lru
expire_one now key exp_time c =
    if ltb exp_time now
    then (elim (lookup key_eq key c.items) [ none ↦ c | some i ↦ remove_element i c ])
    else c

-- The first loop, over the entries of `expires` in the order in which Go visits them.
unfoldable pub evict_expired : ℕ → GoMap Key ℕ → Lru → Lru
evict_expired now [] c = c
evict_expired now ((key, exp_time) ∷ m) c = evict_expired now m (expire_one now key exp_time c)

-- The test of the second loop, and its body.
unfoldable pub is_over : Lru → Bool
is_over c = gt64 c.max_bytes 0 && gt64 c.used_bytes c.max_bytes && ltb 0 (length c.list)

unfoldable pub drop_front : Lru → Lru
drop_front c = elim (front c.list) [ none ↦ c | some i ↦ remove_element i c ]

unfoldable pub shrink : ℕ → Lru → Lru
shrink zero c = c
shrink (suc fuel) c = let rest = shrink fuel (drop_front c) in if is_over c then rest else c

-- A round removes an element, so the length of the list is fuel enough.
unfoldable pub evict : Range → ℕ → Lru → Lru
evict r now c = let c' = evict_expired now (r.visit c.expires) c in shrink (length c'.list) c'

unfoldable pub delete_key : Key → Lru → Lru × Bool
delete_key key c = elim (lookup key_eq key c.items) [
  | none ↦ (c, false)
  | some i ↦ (remove_element i c, true)
]

-- `hasExp && time.Now().After(expTime)`
unfoldable pub is_expired : ℕ → Key → Lru → Bool
is_expired now key c = elim (lookup key_eq key c.expires) [ none ↦ false | some t ↦ ltb t now ]

-- The second part of `Get`, under the write lock, with the element that the first part found.
unfoldable pub touch : Key → ℕ → Lru → Lru
touch key i c = elim (lookup key_eq key c.items) [
  | none ↦ c
  | some _ ↦ record c { list = move_to_back i c.list }
]

-- What the first part of `Get` finds, under the read lock.
pub data Found : Type 0 where
  miss : Found
  outdated : Found
  hit : ℕ → Value → Found

unfoldable pub read : ℕ → Key → Lru → Found
read now key c = elim (lookup key_eq key c.items) [
  | none ↦ miss
  | some i ↦ if is_expired now key c then outdated else hit i (c.heap i).value
]

-- `Get` with nothing between its two parts: the cache, the value, and the key that a goroutine was
-- started to delete. (`System` has what other calls do in between.)
unfoldable pub get : ℕ → Key → Lru → Lru × Option Value × Option Key
unfolding read
get now key c = elim (read now key c) [
  | miss ↦ (c, none, none)
  | outdated ↦ (c, none, some key)
  | hit i value ↦ (touch key i c, some value, none)
]

-- `time.Now().Add(expiration)`, or no expiry
unfoldable pub set_expiry : ℕ → Key → ℕ → Lru → Lru
set_expiry now key expiration c =
    if gt64 expiration 0
    then record c { expires = insert key_eq key (now + expiration) c.expires }
    else record c { expires = delete key_eq key c.expires }

unfoldable pub overwrite : ℕ → Value → Lru → Lru
overwrite i value c =
    let old = c.heap i in
    record c {
      used_bytes = add64 c.used_bytes (sub64 (to_int64 (len value)) (to_int64 (len old.value)));
      heap = update c.heap i (record old { value = value });
      list = move_to_back i c.list;
    }

unfoldable pub push_back : Key → Value → Lru → Lru
push_back key value c =
    let entry : Entry = record { key = key; value = value } in
    record c {
      heap = update c.heap c.next entry;
      next = c.next + 1;
      list = c.list ++ c.next ∷ [];
      items = insert key_eq key c.next c.items;
      used_bytes = add64 c.used_bytes (to_int64 (cost entry));
    }

-- `SetWithExpiration`: `t` is the clock as the expiry is computed, `now` as `evict` reads it. A nil
-- value is `none`; the error is always nil.
unfoldable pub set_with_expiration : Range → ℕ → ℕ → Key → Option Value → ℕ → Lru → Lru
set_with_expiration r t now key none expiration c = (delete_key key c).0
set_with_expiration r t now key (some value) expiration c =
    let c' = set_expiry t key expiration c in
    elim (lookup key_eq key c'.items) [
      | some i ↦ overwrite i value c'
      | none ↦ evict r now (push_back key value c')
    ]

abbrev pub set : Range → ℕ → ℕ → Key → Option Value → Lru → Lru
set r t now key value = set_with_expiration r t now key value 0

-- `Clear`: the callbacks, in the order in which Go visits `items`, and the reset.
unfoldable pub clear : Range → Lru → Lru
clear r c = record c {
  list = [];
  items = [];
  expires = [];
  used_bytes = 0;
  calls = if c.on_evicted then c.calls ++ map (λ p. c.heap p.1) (r.visit c.items) else c.calls;
}

-- `none` is the panic of closing a closed channel.
unfoldable pub close : Lru → Option Lru
close c = if c.closed then none else some (record c { closed = true })

unfoldable pub get_with_expiration : ℕ → Key → Lru → Lru × Option (Value × ℕ)
get_with_expiration now key c = elim (lookup key_eq key c.items) [
  | none ↦ (c, none)
  | some i ↦ elim (lookup key_eq key c.expires) [
    | none ↦ (record c { list = move_to_back i c.list }, some ((c.heap i).value, 0))
    | some t ↦ if ltb t now then (c, none) else (
      record c { list = move_to_back i c.list },
      some ((c.heap i).value, min (t - now) max_int64),
    )
  ]
]

-- `Len` and `GetExpiration`.
abbrev pub count : Lru → ℕ
count c = length c.list

abbrev pub get_expiration : Key → Lru → Option ℕ
get_expiration key c = lookup key_eq key c.expires

unfoldable pub update_expiration : ℕ → Key → ℕ → Lru → Lru × Bool
update_expiration now key expiration c = elim (lookup key_eq key c.items) [
  | none ↦ (c, false)
  | some _ ↦ (set_expiry now key expiration c, true)
]

unfoldable pub set_max_bytes : Range → ℕ → ℕ → Lru → Lru
set_max_bytes r now max_bytes c =
    let c' = record c { max_bytes = max_bytes } in if gt64 max_bytes 0 then evict r now c' else c'
