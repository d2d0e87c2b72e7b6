-- ===== src/ConsistentHash/Growth.antt =====
-- `Add` of consistenthash/con_hash.go: a key stays with its node or moves to a node that is added.
use lcache.Common.{
  ℕ, zero, suc, ◌+◌, ◌<◌, ◌≡◌, refl, sym, subst, ◌∙◌, ◌⊎◌, inl, inr, true, List, [], ◌∷◌, ◌++◌,
  some, arith, All, All-prefix, Elem, Elem-append, Elem-append_left, Elem-length, length, ◌==◌,
  Bool-cases, ℕ_discrete, if_neg, if_pos, dec_lt,
}
use lcache.Common.GoMap.{lookup, insert, lookup-insert}
use lcache.Value.{Key}
use lcache.ConsistentHash.Sorting.{get_or, IsSorted, sort, sort-IsSorted, Elem-sort, Elem-get_or}
use lcache.ConsistentHash.Nearest.{
  is_before, IsNearest, IsNearest-unique, IsNearest-length, IsNearest-unsort, get-IsNearest,
}
use lcache.ConsistentHash.Loop.{empty-get, node_found}
use lcache.ConsistentHash.{
  Config, Map, rounds, node_at, hash_of, add_virtual, add_node, add_nodes, add, get,
}

module _ {F : Type 0} where
  -- Places are added, and each place that is there belongs to one of the nodes or stands as before.
  pub record Grown (nodes : List Key) (m m' : Map F) : Type 0 where
    pub config : m'.config ≡ m.config
    pub longer :
        (hash x : ℕ)
        → All (λ y. is_before hash x y ≡ true) m'.keys
        → All (λ y. is_before hash x y ≡ true) m.keys
    pub keeps : (x : ℕ) → Elem x m.keys → Elem x m'.keys
    pub owners :
        (x : ℕ)
        → Elem x m'.keys
        → ((n : Key) × (lookup ℕ_discrete x m'.hash_map ≡ some n) × Elem n nodes)
          ⊎ ((lookup ℕ_discrete x m'.hash_map ≡ lookup ℕ_discrete x m.hash_map) × Elem x m.keys)

  Grown-trans :
      {nodes : List Key} {m m' m'' : Map F}
      → Grown nodes m m'
      → Grown nodes m' m''
      → Grown nodes m m''
  Grown-trans g h = record {
    config = h.config ∙ g.config;
    longer = λ hash x a. g.longer hash x (h.longer hash x a);
    keeps = λ x k. h.keeps x (g.keeps x k);
    owners = λ x e. elim (h.owners x e) [
      | inl own ↦ inl own
      | inr (same, e') ↦ elim (g.owners x e') [
        | inl (n, q, i) ↦ inl (n, same ∙ q, i)
        | inr (same', e'') ↦ inr (same ∙ same', e'')
      ]
    ];
  }

  add_virtual-Grown :
      (more i : ℕ) (node : Key) (m : Map F) (nodes : List Key)
      → Elem node nodes
      → Grown nodes m (add_virtual more i node m)
  unfolding add_virtual
  add_virtual-Grown zero i node m nodes e = record {
    config = refl;
    longer = λ hash x a. a;
    keeps = λ x k. k;
    owners = λ x k. inr (refl, k);
  }
  add_virtual-Grown (suc more) i node m nodes e =
      let hash = hash_of node i m in
      let m' : Map F = record m {
        keys = m.keys ++ hash ∷ [];
        hash_map = insert ℕ_discrete hash node m.hash_map;
      } in
      Grown-trans {m = m} {m' = m'} {m'' = add_virtual more (i + 1) node m'}
        (record {
          config = refl;
          longer = λ h x a. All-prefix _ m.keys (hash ∷ []) a;
          keeps = λ x k. Elem-append_left x m.keys (hash ∷ []) k;
          owners = λ x k. elim (ℕ_discrete hash x) [
            | yes q ↦ inl (
              node,
              lookup-insert ℕ_discrete hash x node m.hash_map ∙ if_pos (ℕ_discrete hash x) q _ _,
              e,
            )
            | no q ↦ elim (Elem-append x m.keys (hash ∷ []) k) [
              | inl k' ↦ inr (
                lookup-insert ℕ_discrete hash x node m.hash_map ∙ if_neg (ℕ_discrete hash x) q _ _,
                k',
              )
              | inr (inl w) ↦ absurd (q (sym w))
              | inr (inr w) ↦ elim w [ ]
            ]
          ];
        })
        (add_virtual-Grown more (i + 1) node m' nodes e)

  add_node-Grown :
      (node : Key) (replicas : ℕ) (m : Map F) (nodes : List Key)
      → Elem node nodes
      → Grown nodes m (add_node node replicas m)
  unfolding add_node
  add_node-Grown node replicas m nodes e =
      let g = add_virtual-Grown (rounds replicas) 0 node m nodes e in
      record { config = g.config; longer = g.longer; keeps = g.keeps; owners = g.owners }

  pub add_nodes-Grown :
      (nodes all : List Key) (m : Map F)
      → ((n : Key) → Elem n nodes → Elem n all)
      → Grown all m (add_nodes nodes m)
  unfolding add_nodes
  add_nodes-Grown [] all m f = record {
    config = refl;
    longer = λ hash x a. a;
    keeps = λ x k. k;
    owners = λ x k. inr (refl, k);
  }
  add_nodes-Grown (node ∷ nodes) all m f = elim (Bool-cases (length node == 0)) [
    | inl e ↦ rw e (add_nodes-Grown nodes all m (λ n k. f n (inr k)))
    | inr e ↦ rw e (
        Grown-trans (add_node-Grown node m.config.default_replicas m all (f node (inl refl))) (
          add_nodes-Grown nodes all (add_node node m.config.default_replicas m)
            (λ n k. f n (inr k))))
  ]

  head_stays :
      (m m' : Map F) (nodes : List Key)
      → Grown nodes m m'
      → length (sort m'.keys) ≡ 0
      → length m.keys ≡ 0
  head_stays m m' nodes g e = elim (dec_lt 0 (length m.keys)) [
    | no h ↦ omega arith
    | yes h ↦
        let k = Elem-sort (get_or m.keys 0 0) m'.keys (g.keeps _ (Elem-get_or m.keys 0 h)) in
        absurd (omega (arith, Elem-length _ (sort m'.keys) k))
  ]

  -- Where the old ring has the nearest place too, the owner is the same.
  same_owner :
      (key : Key) (m m' : Map F) (x : ℕ)
      → IsSorted m.keys
      → 0 < length key
      → IsNearest (m.config.hash_func key) x m.keys
      → lookup ℕ_discrete x m'.hash_map ≡ lookup ℕ_discrete x m.hash_map
      → node_at x m'.hash_map ≡ (get key m).1
  same_owner key m m' x s hk p same =
      let g = get-IsNearest key m s hk (IsNearest-length _ x m.keys p) in
      let e : g.0 ≡ x = IsNearest-unique (m.config.hash_func key) g.0 x m.keys g.1 p in
      rw (same, node_at) (sym (g.2 ∙ rw (e, node_at) refl))

  found_owner :
      (key : Key) (nodes : List Key) (m m' : Map F)
      → IsSorted m.keys
      → Grown nodes m m'
      → 0 < length key
      → (x : ℕ) → IsNearest (m.config.hash_func key) x m'.keys
      → Elem (node_at x m'.hash_map) nodes ⊎ (node_at x m'.hash_map ≡ (get key m).1)
  found_owner key nodes m m' s g hk x p = elim (g.owners x p.0) [
    | inl (n, q, e) ↦ inl (subst (λ k. Elem k nodes) (sym (node_found x m'.hash_map q)) e)
    | inr (same, e) ↦ inr (same_owner key m m' x s hk (e, g.longer _ x p.1) same)
  ]

  Grown-stable :
      (key : Key) (nodes : List Key) (m m' : Map F)
      → IsSorted m.keys
      → Grown nodes m m'
      → Elem (get key (record m' { keys = sort m'.keys })).1 nodes
        ⊎ ((get key (record m' { keys = sort m'.keys })).1 ≡ (get key m).1)
  Grown-stable key nodes m m' s g = elim (dec_lt 0 (length key)) [
    | no hk ↦ inr (empty-get key _ (inl (omega arith)) ∙ sym (empty-get key m (inl (omega arith))))
    | yes hk ↦ elim (dec_lt 0 (length (sort m'.keys))) [
      | no hm ↦ inr (
          empty-get key _ (inr (omega arith))
          ∙ sym (empty-get key m (inr (head_stays m m' nodes g (omega arith)))))
      | yes hm ↦
          let sorted : Map F = record m' { keys = sort m'.keys } in
          let g' = get-IsNearest key sorted (sort-IsSorted m'.keys) hk hm in
          let p : IsNearest (m.config.hash_func key) g'.0 m'.keys =
            IsNearest-unsort _ g'.0 m'.keys (
              subst (λ (f : Config F). IsNearest (f.hash_func key) g'.0 (sort m'.keys)) g.config
                g'.1) in
          subst (λ k. Elem k nodes ⊎ (k ≡ (get key m).1)) (sym g'.2)
            (found_owner key nodes m m' s g hk g'.0 p)
    ]
  ]

  -- After `Add` a key is served by a node that was added, or by the node that served it before.
  pub add-stable :
      (key : Key) (nodes : List Key) (m : Map F)
      → IsSorted m.keys
      → Elem (get key (add nodes m).0).1 nodes ⊎ ((get key (add nodes m).0).1 ≡ (get key m).1)
  unfolding add
  add-stable key [] m s = inr refl
  add-stable key (node ∷ nodes) m s =
      Grown-stable key (node ∷ nodes) m (add_nodes (node ∷ nodes) m) s
        (add_nodes-Grown (node ∷ nodes) (node ∷ nodes) m (λ n k. k))
