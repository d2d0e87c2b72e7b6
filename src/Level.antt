-- ===== src/Level.antt =====
-- The struct `cache` of store/lru2.go, one level of a bucket: nodes in an array, linked in order of
-- use through an array of index pairs. An index out of range is a panic, `none`.
pub mod Chain
pub mod Ring
pub mod Moves
pub mod Order
pub mod Spec
pub mod Rep
pub mod Refine
pub mod Marks
pub mod Walk
pub mod Found
pub mod Kept
pub mod Fresh
pub mod Renew
pub mod Put
mod Tests
use Prim.Native.Nat.{pred}
use lcache.Common.{
  ℕ, zero, suc, ◌+◌, ◌%◌, ◌^◌, Bool, true, false, ◌&&◌, List, [], ◌∷◌, Option, none, some, ite, ltb,
  length, ◌==◌, if◌then◌else◌, ℕ_discrete,
}
use lcache.Common.GoMap.{GoMap, lookup, delete, insert}
use lcache.Common.Panics.{◌>>=◌}
use lcache.Common.Words.{gt64}
use lcache.Value.{Key, key_eq, Value}
use Chain.{Dir, prev, next, Links, relink}

-- `node`; a nil value is `none`, and a node with `expire_at` 0 is deleted.
pub record Node : Type 0 where
  pub k : Key
  pub v : Option Value
  pub expire_at : ℕ

-- `cache`: `links` is `dlnk`, of length `size`, and `nodes` is `m`, of capacity `cap`.
pub record Level : Type 0 where
  pub links : Links
  pub size : ℕ
  pub nodes : ℕ → Node
  pub cap : ℕ
  pub hmap : GoMap Key ℕ
  pub last : ℕ

abbrev pub no_node : Node
no_node = record { k = []; v = none; expire_at = 0 }

-- `Create`; `cap + 1` is a uint16.
unfoldable pub create : ℕ → Level
create cap = record {
  links = λ i d. 0;
  size = (cap + 1) % 2 ^ 16;
  nodes = λ i. no_node;
  cap = cap;
  hmap = [];
  last = 0;
}

-- `c.dlnk[i][d]`, and an assignment to it
unfoldable pub link : ℕ → Dir → Level → Option ℕ
link i d c = if ltb i c.size then some (c.links i d) else none

unfoldable pub set_link : ℕ → Dir → ℕ → Level → Option Level
set_link i d x c = if ltb i c.size then some (record c { links = relink c.links i d x }) else none

-- `c.m[idx-1]`, and an assignment to it; at 0 the index wraps to 65535, beyond any capacity of a
-- level that was created.
unfoldable pub node_at : ℕ → Level → Option Node
node_at zero c = none
node_at (suc j) c = if ltb j c.cap then some (c.nodes j) else none

unfoldable pub set_node : ℕ → Node → Level → Option Level
set_node zero x c = none
set_node (suc j) x c =
    if ltb j c.cap
    then some (record c { nodes = λ i. ite (ℕ_discrete j i) x (c.nodes i) })
    else none

-- The body of the `if` in `adjust`, an assignment a line.
unfoldable pub move : ℕ → Dir → Dir → Level → Option Level
unfolding link set_link
move idx f t c = do
  after ← link idx t c
  before ← link idx f c
  c ← set_link after f before c
  before ← link idx f c
  after ← link idx t c
  c ← set_link before t after c
  c ← set_link idx f 0 c
  head ← link 0 t c
  c ← set_link idx t head c
  head ← link 0 t c
  c ← set_link head f idx c
  set_link 0 t idx c

unfoldable pub adjust : ℕ → Dir → Dir → Level → Option Level
adjust idx f t c = do before ← link idx f c; if before == 0 then some c else move idx f t c

-- `get`: the index of the node, and the status.
unfoldable pub get : Key → Level → Option (Level × Option ℕ)
get key c = elim (lookup key_eq key c.hmap) [
  | none ↦ some (c, none)
  | some idx ↦ do c' ← adjust idx prev next c; some (c', some idx)
]

-- `del`: the index of the node, and the expiry that it had.
unfoldable pub del : Key → Level → Option (Level × Option (ℕ × ℕ))
del key c = elim (lookup key_eq key c.hmap) [
  | none ↦ some (c, none)
  | some idx ↦ do
    x ← node_at idx c
    if gt64 x.expire_at 0
        then (do
          c' ← set_node idx (record x { expire_at = 0 }) c
          c'' ← adjust idx next prev c'
          some (c'', some (idx, x.expire_at)))
        else some (c, none)
]

-- An overwrite of the least recently used node, and the call of `onEvicted`.
unfoldable pub replace_tail :
    Bool → Key → Option Value → ℕ → Level → Option (Level × List (Key × Option Value))
replace_tail reports key val expire_at c = do
  idx ← link 0 prev c
  tail ← node_at idx c
  let calls : List (Key × Option Value) =
      if reports && gt64 tail.expire_at 0 then (tail.k, tail.v) ∷ [] else []
  let c' = record c { hmap = insert key_eq key idx (delete key_eq tail.k c.hmap) }
  c'' ← set_node idx (record { k = key; v = val; expire_at = expire_at }) c'
  idx' ← link 0 prev c''
  d ← adjust idx' prev next c''
  some (d, calls)

-- The first `if` of an insertion: the new node before the first one, or as the last.
unfoldable pub link_tail : ℕ → Level → Option Level
link_tail last c =
    if length c.hmap == 0
    then set_link 0 prev last c
    else (do head ← link 0 next c; set_link head prev last c)

-- A node in an unused place of the array.
unfoldable pub put_new : Key → Option Value → ℕ → Level → Option Level
put_new key val expire_at c = do
  let last = (c.last + 1) % 2 ^ 16
  c₁ ← link_tail last (record c { last = last })
  c₂ ← set_node last (record { k = key; v = val; expire_at = expire_at }) c₁
  head ← link 0 next c₂
  c₃ ← set_link last prev 0 c₂
  c₄ ← set_link last next head c₃
  set_link 0 next last (record c₄ { hmap = insert key_eq key last c₄.hmap })

-- `put`: the result 1 for a new node and 0 for an update, and the calls of `onEvicted`.
unfoldable pub put :
    Bool → Key → Option Value → ℕ → Level → Option (Level × ℕ × List (Key × Option Value))
put reports key val expire_at c = elim (lookup key_eq key c.hmap) [
  | some idx ↦ do
    x ← node_at idx c
    c' ← set_node idx (record x { v = val; expire_at = expire_at }) c
    c'' ← adjust idx prev next c'
    some (c'', 0, [])
  | none ↦
      if c.last == c.cap % 2 ^ 16
      then (do (c', calls) ← replace_tail reports key val expire_at c; some (c', 1, calls))
      else (do c' ← put_new key val expire_at c; some (c', 1, []))
]

-- The call of the callback in a round of `walk`: none for a deleted node.
abbrev pub visit {ℓ} : {S : Type ℓ} → (Node → S → S × Bool) → Node → S → S × Bool
visit walker x s = if gt64 x.expire_at 0 then walker x s else (s, true)

-- The loop of `walk`, from an index on. The callback changes a state and says whether to go on.
unfoldable pub walk_from {ℓ} : {S : Type ℓ} → (Node → S → S × Bool) → ℕ → ℕ → Level → S → Option S
walk_from walker zero idx c s = none
walk_from walker (suc fuel) idx c s = if idx == 0 then some s else (do
  x ← node_at idx c
  let (s', more) = visit walker x s
  if more then (do idx' ← link idx next c; walk_from walker fuel idx' c s') else some s')

-- A ring of `last` nodes takes `last + 1` rounds.
unfoldable pub walk {ℓ} : {S : Type ℓ} → (Node → S → S × Bool) → Level → S → Option S
walk walker c s = do idx ← link 0 next c; walk_from walker (suc c.last) idx c s
