-- ===== src/ConsistentHash/Loop.antt =====
-- The ring of consistenthash/con_hash.go, and the loop of `Remove`: the other nodes keep what they have.
use lcache.Common.{
  ℕ, zero, suc, ◌+◌, ◌≤◌, ◌<◌, ◌≡◌, ◌≢◌, refl, sym, ap, subst, ◌∙◌, ◌⊎◌, List, [], ◌∷◌, none, some,
  arith, Elem, length, ℕ_discrete, if_neg,
}
use lcache.Common.GoMap.{GoMap, lookup, delete, lookup-delete}
use lcache.Value.{Key, key_eq}
use lcache.ConsistentHash.Sorting.{IsSorted, remove_first, remove_first-IsSorted}
use lcache.ConsistentHash.Nearest.{
  IsNearest, IsNearest-unique, IsNearest-length, IsNearest-remove_first, get-IsNearest,
}
use lcache.ConsistentHash.{
  Config, Map, rounds, number_at, node_at, hash_of, remove_virtual, get, virtual_node,
}

-- The ring of a cluster of nodes: the hashes are in order, every virtual node of a node that is
-- registered belongs to it, and the nodes and the numbers of replicas are within bounds.
pub record IsRing {F : Type 0} (cluster : List Key) (bound : ℕ) (m : Map F) : Type 0 where
  pub sorted : IsSorted m.keys
  pub members :
      (node : Key) (r : ℕ)
      → lookup key_eq node m.node_replicas ≡ some r
      → Elem node cluster × (rounds r ≤ bound)
  pub owned :
      (node : Key) (r i : ℕ)
      → lookup key_eq node m.node_replicas ≡ some r
      → i < rounds r
      → lookup ℕ_discrete (hash_of node i m) m.hash_map ≡ some node

-- No two nodes of the cluster have a virtual node with the same hash.
abbrev pub Separates : (Key → ℕ) → List Key → ℕ → Type 0
Separates hash cluster bound =
    (n n' : Key) (i j : ℕ)
    → Elem n cluster
    → Elem n' cluster
    → i < bound
    → j < bound
    → hash (virtual_node n i) ≡ hash (virtual_node n' j)
    → n ≡ n'

pub some_inj : {x y : Key} → some x ≡ some y → x ≡ y
some_inj e = cc

pub number_found :
    (k : Key) (m : GoMap Key ℕ) {r : ℕ} → lookup key_eq k m ≡ some r → number_at k m ≡ r
number_found k m e = rw (e, number_at)

pub number_missing : (k : Key) (m : GoMap Key ℕ) → lookup key_eq k m ≡ none → number_at k m ≡ 0
number_missing k m e = rw (e, number_at)

pub node_found :
    (x : ℕ) (m : GoMap ℕ Key) {n : Key} → lookup ℕ_discrete x m ≡ some n → node_at x m ≡ n
node_found x m e = rw (e, node_at)

empty-remove_first : (x : ℕ) (keys : List ℕ) → length keys ≡ 0 → length (remove_first x keys) ≡ 0
unfolding remove_first
empty-remove_first x [] e = refl
empty-remove_first x (y ∷ keys) e = absurd (omega arith)

pub empty-get :
    {F : Type 0} (key : Key) (m : Map F)
    → (length key ≡ 0) ⊎ (length m.keys ≡ 0)
    → (get key m).1 ≡ []
unfolding get
empty-get key m h = ground arith

module _ {F : Type 0} where
  -- The loop of `Remove` changes the ring alone, and only where a hash of the node stands.
  pub record Frames (m m' : Map F) : Type 0 where
    pub config : m'.config ≡ m.config
    pub node_replicas : m'.node_replicas ≡ m.node_replicas
    pub node_counts : m'.node_counts ≡ m.node_counts

  pub remove_virtual-Frames :
      (more i : ℕ) (node : Key) (m : Map F) → Frames m (remove_virtual more i node m)
  unfolding remove_virtual
  remove_virtual-Frames zero i node m = record {
    config = refl;
    node_replicas = refl;
    node_counts = refl;
  }
  remove_virtual-Frames (suc more) i node m =
      let rest = remove_virtual-Frames more (i + 1) node (record m {
        keys = remove_first (hash_of node i m) m.keys;
        hash_map = delete ℕ_discrete (hash_of node i m) m.hash_map;
      }) in
      record {
        config = rest.config;
        node_replicas = rest.node_replicas;
        node_counts = rest.node_counts;
      }

  pub remove_virtual-IsSorted :
      (more i : ℕ) (node : Key) (m : Map F)
      → IsSorted m.keys
      → IsSorted (remove_virtual more i node m).keys
  unfolding remove_virtual
  remove_virtual-IsSorted zero i node m s = s
  remove_virtual-IsSorted (suc more) i node m s =
      remove_virtual-IsSorted more (i + 1) node _
        (remove_first-IsSorted (hash_of node i m) m.keys s)

  -- No hash of the virtual nodes from `i` on.
  abbrev Avoids : (x : ℕ) (more i : ℕ) → Key → Map F → Type 0
  Avoids x more i node m = (j : ℕ) → i ≤ j → j < i + more → x ≢ hash_of node j m

  pub remove_virtual-lookup :
      (x more i : ℕ) (node : Key) (m : Map F)
      → Avoids x more i node m
      → lookup ℕ_discrete x (remove_virtual more i node m).hash_map ≡ lookup ℕ_discrete x m.hash_map
  unfolding remove_virtual hash_of
  remove_virtual-lookup x zero i node m a = refl
  remove_virtual-lookup x (suc more) i node m a =
      remove_virtual-lookup x more (i + 1) node _ (λ j p q. a j (omega arith) (omega arith))
      ∙ lookup-delete ℕ_discrete (hash_of node i m) x m.hash_map
      ∙ if_neg (ℕ_discrete (hash_of node i m) x) (λ e. a i (omega arith) (omega arith) (sym e)) _ _

  remove_virtual-IsNearest :
      (hash x more i : ℕ) (node : Key) (m : Map F)
      → Avoids x more i node m
      → IsNearest hash x m.keys
      → IsNearest hash x (remove_virtual more i node m).keys
  unfolding remove_virtual hash_of
  remove_virtual-IsNearest hash x zero i node m a p = p
  remove_virtual-IsNearest hash x (suc more) i node m a p =
      remove_virtual-IsNearest hash x more (i + 1) node _ (λ j p q. a j (omega arith) (omega arith))
        (IsNearest-remove_first hash x (hash_of node i m) m.keys (a i (omega arith) (omega arith))
          p)

  pub remove_virtual-empty :
      (more i : ℕ) (node : Key) (m : Map F)
      → length m.keys ≡ 0
      → length (remove_virtual more i node m).keys ≡ 0
  unfolding remove_virtual remove_first
  remove_virtual-empty zero i node m e = e
  remove_virtual-empty (suc more) i node m e =
      remove_virtual-empty more (i + 1) node _ (empty-remove_first (hash_of node i m) m.keys e)

  -- A virtual node that another node owns is not one of those that are removed.
  pub foreign-Avoids :
      {cluster : List Key} {bound : ℕ} (x r : ℕ) (node : Key) (m : Map F)
      → IsRing cluster bound m
      → lookup key_eq node m.node_replicas ≡ some r
      → lookup ℕ_discrete x m.hash_map ≢ some node
      → Avoids x (rounds r) 0 node m
  foreign-Avoids x r node m v e d j p q h =
      d (ap (λ y. lookup ℕ_discrete y m.hash_map) h ∙ v.owned node r j e (omega arith))

  pub remove_virtual-stable :
      {cluster : List Key} {bound : ℕ} (key node : Key) (r : ℕ) (m : Map F)
      → IsRing cluster bound m
      → lookup key_eq node m.node_replicas ≡ some r
      → (get key m).1 ≢ node
      → 0 < length key
      → 0 < length m.keys
      → (m' : Map F) → m'.keys ≡ (remove_virtual (rounds r) 0 node m).keys
      → m'.hash_map ≡ (remove_virtual (rounds r) 0 node m).hash_map
      → m'.config ≡ m.config
      → (get key m').1 ≡ (get key m).1
  remove_virtual-stable key node r m v e d hk hm m' ek eh ec =
      let g = get-IsNearest key m v.sorted hk hm in
      let x = g.0 in
      let other : lookup ℕ_discrete x m.hash_map ≢ some node =
        λ q. d (g.2 ∙ rw (q, node_at) refl) in
      let a = foreign-Avoids x r node m v e other in
      let p = remove_virtual-IsNearest (m.config.hash_func key) x (rounds r) 0 node m a g.1 in
      let p' : IsNearest (m.config.hash_func key) x m'.keys =
        subst (IsNearest (m.config.hash_func key) x) (sym ek) p in
      let s' : IsSorted m'.keys =
        subst IsSorted (sym ek) (remove_virtual-IsSorted (rounds r) 0 node m v.sorted) in
      let g' = get-IsNearest key m' s' hk (IsNearest-length _ x m'.keys p') in
      let at' : IsNearest (m.config.hash_func key) g'.0 m'.keys =
        subst (λ (f : Config F). IsNearest (f.hash_func key) g'.0 m'.keys) ec g'.1 in
      let same : g'.0 ≡ x = IsNearest-unique _ g'.0 x m'.keys at' p' in
      let owner : lookup ℕ_discrete g'.0 m'.hash_map ≡ lookup ℕ_discrete x m.hash_map =
        rw (same, eh) (remove_virtual-lookup x (rounds r) 0 node m a) in
      g'.2 ∙ rw (owner, node_at) (sym g.2)
