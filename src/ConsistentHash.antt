-- ===== src/ConsistentHash.antt =====
-- `Map` of consistenthash/con_hash.go, with config.go: a ring of hashes of virtual nodes. The methods
-- are functions from state to state; what the lock does is in `Balance`.
pub mod Sorting
pub mod Nearest
pub mod Loop
pub mod Removal
pub mod Growth
pub mod First
pub mod Owners
pub mod Runs
pub mod Balance
mod Tests
use lcache.Common.{
  ℕ, zero, suc, ◌+◌, ◌-◌, ◌/◌, ◌%◌, Bool, true, false, List, [], ◌∷◌, ◌++◌, Option, none, some, ite,
  ltb, leb, ◌==◌, length, if◌then◌else◌, ℕ_discrete,
}
use lcache.Common.GoMap.{GoMap, lookup, delete, insert}
use lcache.Common.Words.{gt64, add64}
use lcache.Value.{Key, key_eq}
use Sorting.{sort, get_or, remove_first}

-- `Config`, over a type of floats; an int is its bit pattern, `hash_func` gives a uint32.
pub record Config (F : Type 0) : Type 0 where
  pub default_replicas : ℕ
  pub min_replicas : ℕ
  pub max_replicas : ℕ
  pub hash_func : Key → ℕ
  pub load_balance_threshold : F

-- `Map`; the hashes of `keys` are ints from uint32, and counts are int64 by their bit patterns.
pub record Map (F : Type 0) : Type 0 where
  pub config : Config F
  pub keys : List ℕ
  pub hash_map : GoMap ℕ Key
  pub node_replicas : GoMap Key ℕ
  pub node_counts : GoMap Key ℕ
  pub total_requests : ℕ

pub data Error : Type 0 where
  no_nodes invalid_node : Error
  not_found : Key → Error

-- `fmt.Sprintf("%s-%d", node, i)`; a number below 10 ^ fuel has no more than `fuel` digits.
unfoldable pub decimal : (fuel n : ℕ) → List ℕ → List ℕ
decimal zero n acc = acc
decimal (suc fuel) n acc =
    let acc' = (48 + n % 10) ∷ acc in
    let rest = decimal fuel (n / 10) acc' in if ltb n 10 then acc' else rest

unfoldable pub virtual_node : Key → ℕ → Key
virtual_node node i = node ++ 45 ∷ decimal 20 i []

-- How often a loop `for i := 0; i < n; i++` runs.
abbrev pub rounds : ℕ → ℕ
rounds n = if gt64 n 0 then n else 0

-- `m[k]` of a map of numbers and of a map of strings
abbrev pub number_at : Key → GoMap Key ℕ → ℕ
number_at k m = elim (lookup key_eq k m) [ none ↦ 0 | some n ↦ n ]

abbrev pub node_at : ℕ → GoMap ℕ Key → Key
node_at hash m = elim (lookup ℕ_discrete hash m) [ none ↦ [] | some node ↦ node ]

-- The loop of `sort.Search` for the first key that is at least the hash, between `i` and `j`.
unfoldable pub search : (fuel : ℕ) → List ℕ → (hash i j : ℕ) → ℕ
search zero keys hash i j = i
search (suc fuel) keys hash i j =
    let h = (i + j) / 2 in
    let left = search fuel keys hash i h in
    let right = search fuel keys hash (h + 1) j in
    if ltb i j then (if leb hash (get_or keys h 0) then left else right) else i

-- The place of a hash on the ring.
unfoldable pub place : ℕ → List ℕ → ℕ
place hash keys =
    let idx = search (length keys) keys hash 0 (length keys) in
    if idx == length keys then 0 else idx

module _ {F : Type 0} where
  -- `New`, with the options applied; the balancer that it starts is in `Balance`.
  unfoldable pub new_map : Config F → Map F
  new_map config = record {
    config = config;
    keys = [];
    hash_map = [];
    node_replicas = [];
    node_counts = [];
    total_requests = 0;
  }

  unfoldable pub hash_of : Key → ℕ → Map F → ℕ
  hash_of node i m = m.config.hash_func (virtual_node node i)

  -- `addNode`: the loop over `i` with the rounds left, and the whole.
  unfoldable pub add_virtual : (more i : ℕ) → Key → Map F → Map F
  add_virtual zero i node m = m
  add_virtual (suc more) i node m =
      let hash = hash_of node i m in
      add_virtual more (i + 1) node
        (record m { keys = m.keys ++ hash ∷ []; hash_map = insert ℕ_discrete hash node m.hash_map })

  unfoldable pub add_node : Key → ℕ → Map F → Map F
  add_node node replicas m =
      let m' = add_virtual (rounds replicas) 0 node m in
      record m' { node_replicas = insert key_eq node replicas m'.node_replicas }

  -- The loop of `Add`, and `Add`.
  unfoldable pub add_nodes : List Key → Map F → Map F
  add_nodes [] m = m
  add_nodes (node ∷ nodes) m =
      add_nodes nodes (if length node == 0 then m else add_node node m.config.default_replicas m)

  unfoldable pub add : List Key → Map F → Map F × Option Error
  add [] m = (m, some no_nodes)
  add (node ∷ nodes) m =
      let m' = add_nodes (node ∷ nodes) m in (record m' { keys = sort m'.keys }, none)

  -- The outer loop of `Remove`, and `Remove`.
  unfoldable pub remove_virtual : (more i : ℕ) → Key → Map F → Map F
  remove_virtual zero i node m = m
  remove_virtual (suc more) i node m =
      let hash = hash_of node i m in
      remove_virtual more (i + 1) node
        (record m { keys = remove_first hash m.keys; hash_map = delete ℕ_discrete hash m.hash_map })

  unfoldable pub remove : Key → Map F → Map F × Option Error
  remove node m =
      let replicas = number_at node m.node_replicas in
      let m' = remove_virtual (rounds replicas) 0 node m in
      if length node == 0
      then (m, some invalid_node)
      else if replicas == 0
      then (m, some (not_found node))
      else (
        record m' {
          node_replicas = delete key_eq node m'.node_replicas;
          node_counts = delete key_eq node m'.node_counts;
        },
        none,
      )

  -- `Get`
  unfoldable pub get : Key → Map F → Map F × Key
  get key m =
      let hash = m.config.hash_func key in
      let node = node_at (get_or m.keys (place hash m.keys) 0) m.hash_map in
      let count = number_at node m.node_counts in
      if length key == 0 then (m, []) else if length m.keys == 0 then (m, []) else (
        record m {
          node_counts = insert key_eq node (add64 count 1) m.node_counts;
          total_requests = add64 m.total_requests 1;
        },
        node,
      )
