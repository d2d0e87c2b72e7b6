-- ===== src/ConsistentHash/Removal.antt =====
-- `Remove` of consistenthash/con_hash.go: the other nodes keep their virtual nodes and their keys.
use lcache.Common.{
  ℕ, ◌<◌, ◌≡◌, ◌≢◌, refl, sym, ap, subst, ◌∙◌, inl, inr, List, Option, none, some, arith, length,
  Option-cases, ==_eq, ==_ne, ℕ_discrete, dec_lt,
}
use lcache.Common.GoMap.{lookup, delete, lookup-delete}
use lcache.Value.{Key, key_eq}
use lcache.ConsistentHash.Sorting.{IsSorted}
use lcache.ConsistentHash.{
  Config, Error, invalid_node, not_found, Map, rounds, hash_of, remove_virtual, remove, get,
  virtual_node,
}
use lcache.ConsistentHash.Loop.{
  remove_virtual-Frames, remove_virtual-IsSorted, remove_virtual-lookup, remove_virtual-empty,
  foreign-Avoids, remove_virtual-stable, some_inj, number_found, number_missing, empty-get, IsRing,
}

module _ {F : Type 0} where
  -- What `Remove` comes to: nothing, or the loop for a node that is registered.
  pub data Removes (node : Key) (m : Map F) : Map F × Option Error → Type 0 where
    refuses : (e : Error) → Removes node m (m, some e)
    succeeds :
        (r : ℕ)
        → 0 < length node
        → r ≢ 0
        → lookup key_eq node m.node_replicas ≡ some r
        → (m' : Map F) → m'.keys ≡ (remove_virtual (rounds r) 0 node m).keys
        → m'.hash_map ≡ (remove_virtual (rounds r) 0 node m).hash_map
        → m'.config ≡ m.config
        → m'.node_replicas ≡ delete key_eq node m.node_replicas
        → m'.node_counts ≡ delete key_eq node m.node_counts
        → Removes node m (m', none)

  remove_registered :
      (node : Key) (r : ℕ) (m : Map F)
      → lookup key_eq node m.node_replicas ≡ some r
      → 0 < length node
      → r ≢ 0
      → Removes node m (remove node m)
  unfolding remove
  remove_registered node r m e h z =
      let f = remove_virtual-Frames (rounds r) 0 node m in
      rw
        (
          remove,
          ==_ne (length node) 0 (omega arith),
          number_found node m.node_replicas e,
          ==_ne r 0 z,
        )
        (succeeds r h z e _ refl refl f.config (ap (delete key_eq node) f.node_replicas)
          (ap (delete key_eq node) f.node_counts))

  pub remove-Removes : (node : Key) (m : Map F) → Removes node m (remove node m)
  unfolding remove
  remove-Removes node m = elim (dec_lt 0 (length node)) [
    | no h ↦ rw (remove, ==_eq (length node) 0 (omega arith)) (refuses invalid_node)
    | yes h ↦ elim (Option-cases (lookup key_eq node m.node_replicas)) [
      | inl e ↦
          rw (remove, ==_ne (length node) 0 (omega arith), number_missing node m.node_replicas e)
            (refuses (not_found node))
      | inr (r, e) ↦ elim (ℕ_discrete r 0) [
        | yes z ↦
            rw
              (
                remove,
                ==_ne (length node) 0 (omega arith),
                number_found node m.node_replicas e,
                ==_eq r 0 z,
              )
              (refuses (not_found node))
        | no z ↦ remove_registered node r m e h z
      ]
    ]
  ]

  stable_cases :
      {cluster : List Key} {bound : ℕ} (key node : Key) (m : Map F) (o : Map F × Option Error)
      → Removes node m o
      → IsRing cluster bound m
      → (get key m).1 ≢ node
      → (get key o.0).1 ≡ (get key m).1
  stable_cases key node m _ (refuses e) v d = refl
  stable_cases key node m _ (succeeds r h z e m' ek eh ec er en) v d =
      elim (dec_lt 0 (length key)) [
        | no hk ↦ empty-get key m' (inl (omega arith)) ∙ sym (empty-get key m (inl (omega arith)))
        | yes hk ↦ elim (dec_lt 0 (length m.keys)) [
          | yes hm ↦ remove_virtual-stable key node r m v e d hk hm m' ek eh ec
          | no hm ↦
              empty-get key m'
                (inr (ap length ek ∙ remove_virtual-empty (rounds r) 0 node m (omega arith)))
              ∙ sym (empty-get key m (inr (omega arith)))
        ]
      ]

  -- `Remove` of a node leaves every key that another node serves with that node.
  pub remove-stable :
      {cluster : List Key} {bound : ℕ} (key node : Key) (m : Map F)
      → IsRing cluster bound m
      → (get key m).1 ≢ node
      → (get key (remove node m).0).1 ≡ (get key m).1
  remove-stable key node m v d = stable_cases key node m (remove node m) (remove-Removes node m) v d

  kept_registered :
      (node n : Key) (s : ℕ) (m : Map F)
      → lookup key_eq n (delete key_eq node m.node_replicas) ≡ some s
      → (node ≢ n) × (lookup key_eq n m.node_replicas ≡ some s)
  kept_registered node n s m q = ground (arith, lookup-delete key_eq node n m.node_replicas)

  pub hash_of-config :
      (n : Key) (i : ℕ) (m m' : Map F) → m'.config ≡ m.config → hash_of n i m' ≡ hash_of n i m
  unfolding hash_of
  hash_of-config n i m m' e = ap (λ (f : Config F). f.hash_func (virtual_node n i)) e

  cases-IsRing :
      {cluster : List Key} {bound : ℕ} (node : Key) (m : Map F) (o : Map F × Option Error)
      → Removes node m o
      → IsRing cluster bound m
      → IsRing cluster bound o.0
  cases-IsRing node m _ (refuses e) v = v
  cases-IsRing node m _ (succeeds r h z e m' ek eh ec er en) v =
      let kept : (n : Key) (s : ℕ)
          → lookup key_eq n m'.node_replicas ≡ some s
          → (node ≢ n) × (lookup key_eq n m.node_replicas ≡ some s) =
        λ n s q. kept_registered node n s m (ap (lookup key_eq n) (sym er) ∙ q) in
      record {
        sorted = subst IsSorted (sym ek) (remove_virtual-IsSorted (rounds r) 0 node m v.sorted);
        members = λ n s q. v.members n s (kept n s q).1;
        owned = λ n s i q b.
            let o = v.owned n s i (kept n s q).1 b in
            let a =
              foreign-Avoids (hash_of n i m) r node m v e
                (λ w. (kept n s q).0 (some_inj (sym w ∙ o))) in
            rw (hash_of-config n i m m' ec, eh)
              (remove_virtual-lookup (hash_of n i m) (rounds r) 0 node m a ∙ o);
      }

  -- `Remove` keeps the ring well-formed, whatever it returns.
  pub remove-IsRing :
      {cluster : List Key} {bound : ℕ} (node : Key) (m : Map F)
      → IsRing cluster bound m
      → IsRing cluster bound (remove node m).0
  remove-IsRing node m v = cases-IsRing node m (remove node m) (remove-Removes node m) v

  cases-config :
      (node : Key) (m : Map F) (o : Map F × Option Error) → Removes node m o → o.0.config ≡ m.config
  cases-config node m _ (refuses e) = refl
  cases-config node m _ (succeeds r h z e m' ek eh ec er en) = ec

  pub remove-config : (node : Key) (m : Map F) → (remove node m).0.config ≡ m.config
  remove-config node m = cases-config node m (remove node m) (remove-Removes node m)
