-- ===== src/ConsistentHash/Runs.antt =====
-- Any sequence of calls of `Map` (consistenthash/con_hash.go) keeps the ring well-formed.
use lcache.Common.{
  ℕ, ◌≤◌, ◌≡◌, refl, sym, subst, List, [], ◌∷◌, All, Elem, All-Elem, length, ◌==◌, Bool-cases, inl,
  inr,
}
use lcache.Value.{Key}
use lcache.ConsistentHash.Loop.{IsRing, Separates}
use lcache.ConsistentHash.Removal.{remove-IsRing, remove-config}
use lcache.ConsistentHash.Owners.{add-IsRing, add-config, new_map-IsRing}
use lcache.ConsistentHash.{Config, Map, rounds, add, remove, get, hash_of, new_map}

pub data Call : Type 0 where
  adds : List Key → Call
  removes : Key → Call
  gets : Key → Call

-- The nodes that a call adds are of the cluster.
abbrev pub Within : List Key → Call → Type 0
Within cluster (adds nodes) = All (λ n. Elem n cluster) nodes
Within cluster (removes node) = Unit
Within cluster (gets key) = Unit

module _ {F : Type 0} where
  unfoldable pub apply : Call → Map F → Map F
  apply (adds nodes) m = (add nodes m).0
  apply (removes node) m = (remove node m).0
  apply (gets key) m = (get key m).0

  unfoldable pub run : List Call → Map F → Map F
  run [] m = m
  run (call ∷ calls) m = run calls (apply call m)

  get-IsRing :
      {cluster : List Key} {bound : ℕ} (key : Key) (m : Map F)
      → IsRing cluster bound m
      → IsRing cluster bound (get key m).0 × ((get key m).0.config ≡ m.config)
  unfolding get hash_of
  get-IsRing key m v = elim (Bool-cases (length key == 0)) [
    | inl e ↦ rw e (v, refl)
    | inr e ↦ elim (Bool-cases (length m.keys == 0)) [
      | inl e' ↦ rw (e, e') (v, refl)
      | inr e' ↦
          rw (e, e') (record { sorted = v.sorted; members = v.members; owned = v.owned }, refl)
    ]
  ]

  module _ (cluster : List Key) (bound : ℕ) where
    apply-IsRing :
        (call : Call) (m : Map F)
        → Separates m.config.hash_func cluster bound
        → rounds m.config.default_replicas ≤ bound
        → Within cluster call
        → IsRing cluster bound m
        → IsRing cluster bound (apply call m) × ((apply call m).config ≡ m.config)
    unfolding apply
    apply-IsRing (adds nodes) m apart b w v = (
      add-IsRing cluster bound nodes m apart b (λ n k. All-Elem (λ n. Elem n cluster) nodes n w k)
          v,
      add-config nodes m,
    )
    apply-IsRing (removes node) m apart b w v = (remove-IsRing node m v, remove-config node m)
    apply-IsRing (gets key) m apart b w v = get-IsRing key m v

    run_from :
        (calls : List Call) (m : Map F)
        → Separates m.config.hash_func cluster bound
        → rounds m.config.default_replicas ≤ bound
        → All (Within cluster) calls
        → IsRing cluster bound m
        → IsRing cluster bound (run calls m)
    unfolding run
    run_from [] m apart b w v = v
    run_from (call ∷ calls) m apart b w v =
        let (v', c) = apply-IsRing call m apart b w.0 v in
        run_from calls (apply call m)
          (subst (λ (g : Config F). Separates g.hash_func cluster bound) (sym c) apart)
          (subst (λ (g : Config F). rounds g.default_replicas ≤ bound) (sym c) b) w.1 v'

    -- After any calls of a new map that add nodes of a cluster whose nodes share no hash: the hashes
    -- are in order, and each virtual node of a node that is registered belongs to it.
    pub run-IsRing :
        (calls : List Call) (config : Config F)
        → Separates config.hash_func cluster bound
        → rounds config.default_replicas ≤ bound
        → All (Within cluster) calls
        → IsRing cluster bound (run calls (new_map config))
    unfolding new_map
    run-IsRing calls config apart b w =
        run_from calls (new_map config) apart b w (new_map-IsRing cluster bound config)
