-- ===== src/ConsistentHash/First.antt =====
-- A ring of consistenthash/con_hash.go with one node: it serves every key.
use lcache.Common.{
  ℕ, zero, suc, ◌+◌, ◌<◌, ◌≡◌, subst, ◌∙◌, inl, inr, List, [], ◌∷◌, ◌++◌, arith, Elem, Elem-length,
  length, length-append, ==_ne, ℕ_discrete,
}
use lcache.Common.GoMap.{insert}
use lcache.Value.{Key}
use lcache.ConsistentHash.Sorting.{get_or, sort, sort-IsSorted, Elem-sort, Elem-get_or}
use lcache.ConsistentHash.Nearest.{IsNearest-unsort, get-IsNearest}
use lcache.ConsistentHash.Loop.{node_found}
use lcache.ConsistentHash.Growth.{add_nodes-Grown}
use lcache.ConsistentHash.{Map, rounds, hash_of, add_virtual, add_node, add_nodes, add, get}

sort_filled : (keys : List ℕ) → 0 < length keys → 0 < length (sort keys)
sort_filled keys h =
    Elem-length _ (sort keys) (Elem-sort (get_or keys 0 0) keys (Elem-get_or keys 0 h))

module _ {F : Type 0} where
  length-add_virtual :
      (more i : ℕ) (node : Key) (m : Map F)
      → length (add_virtual more i node m).keys ≡ length m.keys + more
  unfolding add_virtual
  length-add_virtual zero i node m = omega arith
  length-add_virtual (suc more) i node m = omega (
    arith,
    length-append m.keys (hash_of node i m ∷ []),
    length-add_virtual more (i + 1) node (record m {
      keys = m.keys ++ hash_of node i m ∷ [];
      hash_map = insert ℕ_discrete (hash_of node i m) node m.hash_map;
    }),
  )

  filled :
      (node : Key) (m : Map F)
      → 0 < length node
      → 0 < rounds m.config.default_replicas
      → 0 < length (add_nodes (node ∷ []) m).keys
  unfolding add_nodes add_node
  filled node m hn hr =
      rw (==_ne (length node) 0 (omega arith))
        (omega (arith, length-add_virtual (rounds m.config.default_replicas) 0 node m))

  -- A node that is added to an empty ring serves every key that is not empty.
  pub get-add_first :
      (key node : Key) (m : Map F)
      → m.keys ≡ []
      → 0 < length key
      → 0 < length node
      → 0 < rounds m.config.default_replicas
      → (get key (add (node ∷ []) m).0).1 ≡ node
  unfolding add
  get-add_first key node m empty hk hn hr =
      let m' = add_nodes (node ∷ []) m in
      let sorted : Map F = record m' { keys = sort m'.keys } in
      let g = add_nodes-Grown (node ∷ []) (node ∷ []) m (λ n k. k) in
      let (y, p, e) =
        get-IsNearest key sorted (sort-IsSorted m'.keys) hk
          (sort_filled m'.keys (filled node m hn hr)) in
      let q = IsNearest-unsort (sorted.config.hash_func key) y m'.keys p in
      elim (g.owners y q.0) [
        | inl (n, found, inl same) ↦ e ∙ (node_found y m'.hash_map found ∙ same)
        | inl (n, found, inr w) ↦ elim w [ ]
        | inr (_, w) ↦ elim (subst (Elem y) empty w) [ ]
      ]
