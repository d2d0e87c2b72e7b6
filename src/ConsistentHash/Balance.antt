-- ===== src/ConsistentHash/Balance.antt =====
-- `checkAndRebalance`, `rebalanceNodes` and `GetStats` of consistenthash/con_hash.go. A method that
-- waits for the lock that its own goroutine holds never returns: `none`. `checkAndRebalance`
-- takes no lock, and `rebalanceNodes` holds it throughout.
use lcache.Common.{
  ℕ, ◌<◌, ◌≡◌, ◌≢◌, refl, ◌⊎◌, inl, inr, Bool, true, false, [], ◌∷◌, Option, none, some, arith,
  Elem, length, ◌==◌, if◌then◌else◌, Option-cases,
}
use lcache.Common.GoMap.{GoMap}
use lcache.Common.Floats.{Float64}
use lcache.Common.Locks.{lock}
use lcache.Common.Panics.{◌>>=◌}
use lcache.Common.Words.{gt64}
use lcache.Value.{Key}
use lcache.ConsistentHash.Sorting.{sort}
use lcache.ConsistentHash.{Map, Error, invalid_node, number_at, add_node, remove}

module _ {F : Type 0} (f : Float64 F) where
  unfoldable pub average_load : Map F → F
  average_load m = f.div (f.of_int m.total_requests) (f.of_int (length m.node_replicas))

  -- The loop of `checkAndRebalance` over the counts, in the order in which Go visits them.
  unfoldable pub max_difference : F → GoMap Key ℕ → F → F
  max_difference average [] max = max
  max_difference average ((node, count) ∷ counts) max =
      let diff = f.div (f.abs (f.sub (f.of_int count) average)) average in
      max_difference average counts (if f.gt diff max then diff else max)

  -- The number of replicas that `rebalanceNodes` computes for a node.
  unfoldable pub new_replicas : F → Key → ℕ → Map F → ℕ
  new_replicas average node count m =
      let current = number_at node m.node_replicas in
      let ratio = f.div (f.of_int count) average in
      let wanted =
        if f.gt ratio (f.of_int 1)
        then f.to_int (f.div (f.of_int current) ratio)
        else f.to_int (f.mul (f.of_int current) (f.sub (f.of_int 2) ratio)) in
      let above = if gt64 m.config.min_replicas wanted then m.config.min_replicas else wanted in
      if gt64 above m.config.max_replicas then m.config.max_replicas else above

  -- `Remove` by whether the goroutine holds the lock already.
  unfoldable pub remove_holding : (held : Bool) → Key → Map F → Option (Map F × Option Error)
  remove_holding held node m =
      if length node == 0
      then some (m, some invalid_node)
      else (do held ← lock held; some (remove node m))

  -- The first loop of `rebalanceNodes`.
  unfoldable pub adjust_nodes : (held : Bool) → F → GoMap Key ℕ → Map F → Option (Map F)
  adjust_nodes held average [] m = some m
  adjust_nodes held average ((node, count) ∷ counts) m =
      let replicas = new_replicas average node count m in
      if replicas == number_at node m.node_replicas then adjust_nodes held average counts m else (do
        (m', e) ← remove_holding held node m
        elim e [
          | some error ↦ adjust_nodes held average counts m'
          | none ↦ adjust_nodes held average counts (add_node node replicas m')
        ])

  abbrev pub reset : GoMap Key ℕ → GoMap Key ℕ
  reset [] = []
  reset ((node, count) ∷ counts) = (node, 0) ∷ reset counts

  -- `rebalanceNodes`
  unfoldable pub rebalance_nodes : (GoMap Key ℕ → GoMap Key ℕ) → Map F → Option (Map F)
  rebalance_nodes visit m = do
    held ← lock false
    m' ← adjust_nodes held (average_load m) (visit m.node_counts) m
    some (record m' { keys = sort m'.keys; node_counts = reset m'.node_counts; total_requests = 0 })

  -- `checkAndRebalance`
  unfoldable pub check_and_rebalance : (GoMap Key ℕ → GoMap Key ℕ) → Map F → Option (Map F)
  check_and_rebalance visit m =
      let worst = max_difference (average_load m) (visit m.node_counts) (f.of_int 0) in
      if gt64 1000 m.total_requests
      then some m
      else if f.gt worst m.config.load_balance_threshold
      then rebalance_nodes visit m
      else some m

  -- `GetStats`, and its loop
  unfoldable pub shares : ℕ → GoMap Key ℕ → GoMap Key F
  shares total [] = []
  shares total ((node, count) ∷ counts) =
      (node, f.div (f.of_int count) (f.of_int total)) ∷ shares total counts

  unfoldable pub get_stats : Map F → GoMap Key F
  get_stats m = if m.total_requests == 0 then [] else shares m.total_requests m.node_counts

  adjust_nodes-eq :
      (average : F) (counts : GoMap Key ℕ) (m m' : Map F)
      → adjust_nodes true average counts m ≡ some m'
      → m' ≡ m
  unfolding adjust_nodes remove_holding lock
  adjust_nodes-eq average [] m m' e = ground arith
  adjust_nodes-eq average ((node, count) ∷ counts) m m' e =
      ground (arith, adjust_nodes-eq average counts m m')

  -- `checkAndRebalance` adapts nothing: where it returns, each node has the replicas and the places
  -- that it had.
  pub rebalance_adapts_nothing :
      (visit : GoMap Key ℕ → GoMap Key ℕ) (m m' : Map F)
      → check_and_rebalance visit m ≡ some m'
      → (m'.node_replicas ≡ m.node_replicas)
        × (m'.hash_map ≡ m.hash_map)
        × ((m'.keys ≡ m.keys) ⊎ (m'.keys ≡ sort m.keys))
  unfolding check_and_rebalance rebalance_nodes lock
  rebalance_adapts_nothing visit m m' e =
      elim (Option-cases (adjust_nodes true (average_load m) (visit m.node_counts) m)) [
        | inl stuck ↦ ground (arith, stuck)
        | inr (m₁, done) ↦
            ground (arith, done, adjust_nodes-eq (average_load m) (visit m.node_counts) m m₁ done)
      ]

  adjust_nodes-blocks :
      (average : F) (counts : GoMap Key ℕ) (m : Map F) (node : Key) (count : ℕ)
      → Elem (node, count) counts
      → 0 < length node
      → new_replicas average node count m ≢ number_at node m.node_replicas
      → adjust_nodes true average counts m ≡ none
  unfolding adjust_nodes remove_holding lock
  adjust_nodes-blocks average [] m node count e h d = elim e [ ]
  adjust_nodes-blocks average ((n, c) ∷ counts) m node count (inl e) h d = ground (arith, e, h, d)
  adjust_nodes-blocks average ((n, c) ∷ counts) m node count (inr e) h d =
      ground (arith, adjust_nodes-blocks average counts m node count e h d)

  -- Where the load is out of balance and some node is to have another number of replicas,
  -- `rebalanceNodes` waits for its own lock, which no other call can get from then on.
  pub rebalance_blocks :
      (visit : GoMap Key ℕ → GoMap Key ℕ) (m : Map F) (node : Key) (count : ℕ)
      → gt64 1000 m.total_requests ≡ false
      → f.gt
          (max_difference (average_load m) (visit m.node_counts) (f.of_int 0))
          m.config.load_balance_threshold
        ≡ true
      → Elem (node, count) (visit m.node_counts)
      → 0 < length node
      → new_replicas (average_load m) node count m ≢ number_at node m.node_replicas
      → check_and_rebalance visit m ≡ none
  unfolding check_and_rebalance rebalance_nodes lock
  rebalance_blocks visit m node count full uneven e h d =
      rw
        (
          full,
          uneven,
          adjust_nodes-blocks (average_load m) (visit m.node_counts) m node count e h d,
        )
        refl
