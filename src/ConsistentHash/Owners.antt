-- ===== src/ConsistentHash/Owners.antt =====
-- `Add` of consistenthash/con_hash.go keeps the ring well-formed where no two nodes share a hash.
use lcache.Common.{
  ℕ, zero, suc, ◌+◌, ◌≤◌, ◌<◌, ◌≡◌, ◌≢◌, refl, sym, subst, ◌∙◌, ◌⊎◌, inl, inr, List, [], ◌∷◌, some,
  arith, Elem, length, ◌==◌, Bool-cases, ℕ_discrete, if_neg, if_pos,
}
use native.Mathlib.Nat.{le_trans}
use lcache.Common.GoMap.{GoMap, lookup, insert, lookup-insert}
use lcache.Value.{Key, key_eq}
use lcache.ConsistentHash.Sorting.{sort-IsSorted}
use lcache.ConsistentHash.Loop.{IsRing, Separates}
use lcache.ConsistentHash.Removal.{hash_of-config}
use lcache.ConsistentHash.{
  Config, Map, rounds, hash_of, add_virtual, add_node, add_nodes, add, new_map,
}

-- A ring but for the order.
record IsOwned {F : Type 0} (cluster : List Key) (bound : ℕ) (m : Map F) : Type 0 where
  members :
      (node : Key) (r : ℕ)
      → lookup key_eq node m.node_replicas ≡ some r
      → Elem node cluster × (rounds r ≤ bound)
  owned :
      (node : Key) (r i : ℕ)
      → lookup key_eq node m.node_replicas ≡ some r
      → i < rounds r
      → lookup ℕ_discrete (hash_of node i m) m.hash_map ≡ some node

-- Who is registered after a node is.
registered :
    (node n : Key) (replicas r : ℕ) (m m' : GoMap Key ℕ)
    → m' ≡ m
    → lookup key_eq n (insert key_eq node replicas m') ≡ some r
    → ((node ≡ n) × (replicas ≡ r)) ⊎ ((node ≢ n) × (lookup key_eq n m ≡ some r))
registered node n replicas r m m' c q =
    let q' : lookup key_eq n (insert key_eq node replicas m) ≡ some r =
      subst (λ k. lookup key_eq n (insert key_eq node replicas k) ≡ some r) c q in
    elim (key_eq node n) [
      | yes e ↦ inl (e, ground (arith, e, lookup-insert key_eq node n replicas m))
      | no e ↦ inr (e, ground (arith, e, lookup-insert key_eq node n replicas m))
    ]

module _ {F : Type 0} where
  same_config :
      (more i : ℕ) (node : Key) (m : Map F)
      → ((add_virtual more i node m).config ≡ m.config)
        × ((add_virtual more i node m).node_replicas ≡ m.node_replicas)
  unfolding add_virtual
  same_config zero i node m = (refl, refl)
  same_config (suc more) i node m = same_config more (i + 1) node _

  -- A place keeps its owner unless the node has a virtual node there.
  add_virtual-lookup :
      (more i x : ℕ) (node : Key) (m : Map F)
      → ((j : ℕ) → i ≤ j → j < i + more → x ≢ hash_of node j m)
      → lookup ℕ_discrete x (add_virtual more i node m).hash_map ≡ lookup ℕ_discrete x m.hash_map
  unfolding add_virtual hash_of
  add_virtual-lookup zero i x node m a = refl
  add_virtual-lookup (suc more) i x node m a =
      add_virtual-lookup more (i + 1) x node _ (λ j p q. a j (omega arith) (omega arith))
      ∙ lookup-insert ℕ_discrete (hash_of node i m) x node m.hash_map
      ∙ if_neg (ℕ_discrete (hash_of node i m) x) (λ e. a i (omega arith) (omega arith) (sym e)) _ _

  add_virtual-own :
      (more i x : ℕ) (node : Key) (m : Map F)
      → lookup ℕ_discrete x m.hash_map ≡ some node
      → lookup ℕ_discrete x (add_virtual more i node m).hash_map ≡ some node
  unfolding add_virtual
  add_virtual-own zero i x node m e = e
  add_virtual-own (suc more) i x node m e =
      add_virtual-own more (i + 1) x node _
        (ground (arith, e, lookup-insert ℕ_discrete (hash_of node i m) x node m.hash_map))

  add_virtual-new :
      (more i j : ℕ) (node : Key) (m : Map F)
      → i ≤ j
      → j < i + more
      → lookup ℕ_discrete (hash_of node j m) (add_virtual more i node m).hash_map ≡ some node
  unfolding add_virtual hash_of
  add_virtual-new zero i j node m p q = absurd (omega arith)
  add_virtual-new (suc more) i j node m p q = elim (ℕ_discrete i j) [
    | yes e ↦
        subst
          (λ k.
            lookup ℕ_discrete (hash_of node k m) (add_virtual (suc more) i node m).hash_map
            ≡ some node)
          e
          (add_virtual-own more (i + 1) (hash_of node i m) node _ (
            lookup-insert ℕ_discrete (hash_of node i m) (hash_of node i m) node m.hash_map
            ∙ if_pos (ℕ_discrete (hash_of node i m) (hash_of node i m)) refl _ _))
    | no e ↦ add_virtual-new more (i + 1) j node _ (omega arith) (omega arith)
  ]

  add_node-config :
      (node : Key) (replicas : ℕ) (m : Map F) → (add_node node replicas m).config ≡ m.config
  unfolding add_node
  add_node-config node replicas m = (same_config (rounds replicas) 0 node m).0

  add_nodes-config : (nodes : List Key) (m : Map F) → (add_nodes nodes m).config ≡ m.config
  unfolding add_nodes
  add_nodes-config [] m = refl
  add_nodes-config (node ∷ nodes) m = elim (Bool-cases (length node == 0)) [
    | inl e ↦ rw (add_nodes, e) (add_nodes-config nodes m)
    | inr e ↦
        rw (add_nodes, e)
          (add_nodes-config nodes _ ∙ add_node-config node m.config.default_replicas m)
  ]

  pub add-config : (nodes : List Key) (m : Map F) → (add nodes m).0.config ≡ m.config
  unfolding add
  add-config [] m = refl
  add-config (node ∷ nodes) m = add_nodes-config (node ∷ nodes) m

  module _ (cluster : List Key) (bound : ℕ) where
    module _ (node : Key) (replicas : ℕ) (m : Map F)
        (apart : Separates m.config.hash_func cluster bound) (e : Elem node cluster)
        (b : rounds replicas ≤ bound) (v : IsOwned cluster bound m) where
      abbrev after : Map F
      after = add_virtual (rounds replicas) 0 node m

      owned_new :
          (n : Key) (r i : ℕ)
          → n ≡ node
          → r ≡ replicas
          → i < rounds r
          → after.config ≡ m.config
          → lookup ℕ_discrete (hash_of n i after) after.hash_map ≡ some n
      owned_new n r i k l h c =
          rw (hash_of-config n i m after c, k)
            (add_virtual-new (rounds replicas) 0 i node m (omega arith)
              (subst (λ y. i < 0 + rounds y) l (omega arith)))

      clear :
          (n : Key) (r i : ℕ)
          → node ≢ n
          → lookup key_eq n m.node_replicas ≡ some r
          → i < rounds r
          → (j : ℕ) → 0 ≤ j
          → j < 0 + rounds replicas
          → hash_of n i m ≢ hash_of node j m
      unfolding hash_of
      clear n r i k l h j p q w =
          let mem = v.members n r l in
          k (sym (apart n node i j mem.0 e (le_trans h mem.1) (le_trans (omega arith) b) w))

      owned_old :
          (n : Key) (r i : ℕ)
          → node ≢ n
          → lookup key_eq n m.node_replicas ≡ some r
          → i < rounds r
          → after.config ≡ m.config
          → lookup ℕ_discrete (hash_of n i after) after.hash_map ≡ some n
      owned_old n r i k l h c = rw (hash_of-config n i m after c) (
          add_virtual-lookup (rounds replicas) 0 (hash_of n i m) node m (clear n r i k l h)
          ∙ v.owned n r i l h)

    add_node-IsOwned :
        (node : Key) (replicas : ℕ) (m : Map F)
        → Separates m.config.hash_func cluster bound
        → Elem node cluster
        → rounds replicas ≤ bound
        → IsOwned cluster bound m
        → IsOwned cluster bound (add_node node replicas m)
    unfolding add_node hash_of
    add_node-IsOwned node replicas m apart e b v =
        let c = same_config (rounds replicas) 0 node m in
        let cases =
          λ (n : Key) (r : ℕ)
              (q : lookup key_eq n (add_node node replicas m).node_replicas ≡ some r).
            registered node n replicas r m.node_replicas _ c.1 q in
        record {
          members = λ n r q. elim (cases n r q) [
            | inl (k, l) ↦ (subst (λ y. Elem y cluster) k e, subst (λ y. rounds y ≤ bound) l b)
            | inr (k, l) ↦ v.members n r l
          ];
          owned = λ n r i q h. elim (cases n r q) [
            | inl (k, l) ↦ owned_new node replicas m apart e b v n r i (sym k) (sym l) h c.0
            | inr (k, l) ↦ owned_old node replicas m apart e b v n r i k l h c.0
          ];
        }

    add_nodes-IsOwned :
        (nodes : List Key) (m : Map F)
        → Separates m.config.hash_func cluster bound
        → rounds m.config.default_replicas ≤ bound
        → ((n : Key) → Elem n nodes → Elem n cluster)
        → IsOwned cluster bound m
        → IsOwned cluster bound (add_nodes nodes m)
    unfolding add_nodes
    add_nodes-IsOwned [] m apart b f v = v
    add_nodes-IsOwned (node ∷ nodes) m apart b f v = elim (Bool-cases (length node == 0)) [
      | inl e ↦ rw e (add_nodes-IsOwned nodes m apart b (λ n k. f n (inr k)) v)
      | inr e ↦
          let m' = add_node node m.config.default_replicas m in
          let c : m'.config ≡ m.config = add_node-config node m.config.default_replicas m in
          rw e (
            add_nodes-IsOwned nodes m'
              (subst (λ (g : Config F). Separates g.hash_func cluster bound) (sym c) apart)
              (subst (λ (g : Config F). rounds g.default_replicas ≤ bound) (sym c) b)
              (λ n k. f n (inr k))
              (add_node-IsOwned node m.config.default_replicas m apart (f node (inl refl)) b v))
    ]

    -- `Add` keeps the ring well-formed, if its nodes are of the cluster, no two nodes of the cluster
    -- share a hash, and the number of replicas is within the bound.
    pub add-IsRing :
        (nodes : List Key) (m : Map F)
        → Separates m.config.hash_func cluster bound
        → rounds m.config.default_replicas ≤ bound
        → ((n : Key) → Elem n nodes → Elem n cluster)
        → IsRing cluster bound m
        → IsRing cluster bound (add nodes m).0
    unfolding add hash_of
    add-IsRing [] m apart b f v = v
    add-IsRing (node ∷ nodes) m apart b f v =
        let w =
          add_nodes-IsOwned (node ∷ nodes) m apart b f
            (record { members = v.members; owned = v.owned }) in
        record {
          sorted = sort-IsSorted (add_nodes (node ∷ nodes) m).keys;
          members = w.members;
          owned = w.owned;
        }

    pub new_map-IsRing : (config : Config F) → IsRing cluster bound (new_map config)
    unfolding new_map lookup
    new_map-IsRing config = record {
      sorted = tt;
      members = λ n r q. absurd (ground arith);
      owned = λ n r i q h. absurd (ground arith);
    }
