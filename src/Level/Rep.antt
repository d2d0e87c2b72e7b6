-- ===== src/Level/Rep.antt =====
-- When an array level of store/lru2.go stands for a list of nodes.
use Prim.Native.Nat.{pred}
use lcache.Common.{
  ℕ, zero, suc, ◌+◌, ◌-◌, ◌^◌, ◌≤◌, ◌<◌, ◌≡◌, ◌≢◌, refl, sym, ◌∙◌, List, [], ◌∷◌, ◌++◌, map, none,
  some, ite, arith, All, All-append, length, length-append, ℕ_discrete, lt→ltb, if_neg,
}
use lcache.Common.GoMap.{lookup}
use lcache.Value.{Key, key_eq}
use lcache.Level.Chain.{Links, prev, next, Absent}
use lcache.Level.Ring.{IsRing}
use lcache.Level.Moves.{Within}
use lcache.Level.Order.{
  locate, Distinct, locate_middle, Distinct-middle, locate_last, Distinct-last,
}
use lcache.Level.Spec.{lookup_node, without}
use lcache.Level.{Node, Level, node_at, set_node}

abbrev pub node : (ℕ → Node) → ℕ → Node
node nodes i = nodes (pred i)

abbrev pub key_of : (ℕ → Node) → ℕ → Key
key_of nodes i = (nodes (pred i)).k

-- `xs` are the indices in use, most recent first.
pub record Rep (c : Level) (xs : List ℕ) : Type 0 where
  pub ring : IsRing c.links prev next xs
  pub within : Within c.size c.links
  pub sized : c.size ≡ c.cap + 1
  pub small : c.cap < 2 ^ 16 - 1
  pub used : All (λ i. i ≤ c.last) xs
  pub full : length xs ≡ c.last
  pub fits : c.last ≤ c.cap
  pub agree : (k : Key) → lookup key_eq k c.hmap ≡ locate (key_of c.nodes) k xs
  pub distinct : Distinct (key_of c.nodes) xs

-- The list that it stands for.
abbrev pub view : Level → List ℕ → List Node
view c xs = map (node c.nodes) xs

pub All-middle {κ} :
    (P : ℕ → Type κ) (xs : List ℕ) (i : ℕ) (ys : List ℕ)
    → All P (xs ++ i ∷ ys)
    → P i × All P (xs ++ ys)
All-middle P [] i ys h = h
All-middle P (x ∷ xs) i ys h = let rest = All-middle P xs i ys h.1 in (rest.0, (h.0, rest.1))

module _ (c : Level) (xs : List ℕ) (i : ℕ) (ys : List ℕ) (r : Rep c (xs ++ i ∷ ys))
    (l : Links) where
  -- A move to the front or to the back keeps all but the order.
  pub first-Rep :
      IsRing l prev next (i ∷ (xs ++ ys))
      → Within c.size l
      → Rep (record c { links = l }) (i ∷ (xs ++ ys))
  unfolding locate
  first-Rep ring within = record {
    ring = ring;
    within = within;
    sized = r.sized;
    small = r.small;
    used = All-middle _ xs i ys r.used;
    full = omega (arith, length-append xs (i ∷ ys), length-append xs ys, r.full);
    fits = r.fits;
    agree = λ k. r.agree k ∙ locate_middle (key_of c.nodes) k xs i ys r.distinct;
    distinct = Distinct-middle (key_of c.nodes) xs i ys r.distinct;
  }

  pub last-Rep :
      IsRing l prev next ((xs ++ ys) ++ i ∷ [])
      → Within c.size l
      → Rep (record c { links = l }) ((xs ++ ys) ++ i ∷ [])
  last-Rep ring within =
      let used = All-middle (λ i. i ≤ c.last) xs i ys r.used in
      let apart = Distinct-middle (key_of c.nodes) xs i ys r.distinct in
      record {
        ring = ring;
        within = within;
        sized = r.sized;
        small = r.small;
        used = All-append _ (xs ++ ys) (i ∷ []) used.1 (used.0, tt);
        full = omega (
          arith,
          length-append xs (i ∷ ys),
          length-append xs ys,
          length-append (xs ++ ys) (i ∷ []),
          r.full,
        );
        fits = r.fits;
        agree = λ k.
            r.agree k
            ∙ locate_middle (key_of c.nodes) k xs i ys r.distinct
            ∙ sym (locate_last (key_of c.nodes) k (xs ++ ys) i apart.0);
        distinct = Distinct-last (key_of c.nodes) (xs ++ ys) i apart.0 apart.1;
      }

-- Reading and writing nodes.
pub node_at-some : (i : ℕ) (c : Level) → 0 ≢ i → i ≤ c.cap → node_at i c ≡ some (node c.nodes i)
unfolding node_at
node_at-some zero c h b = absurd (h refl)
node_at-some (suc j) c h b = ground arith

unfoldable pub write : (ℕ → Node) → ℕ → Node → ℕ → Node
write nodes i x j = ite (ℕ_discrete (pred i) j) x (nodes j)

pub set_node-some :
    (i : ℕ) (x : Node) (c : Level)
    → 0 ≢ i
    → i ≤ c.cap
    → set_node i x c ≡ some (record c { nodes = write c.nodes i x })
unfolding set_node write
set_node-some zero x c h b = absurd (h refl)
set_node-some (suc j) x c h b = rw (lt→ltb j c.cap b)

pub write_self : (nodes : ℕ → Node) (i : ℕ) (x : Node) → node (write nodes i x) i ≡ x
unfolding write
write_self nodes i x = ground arith

pub write_others :
    (nodes : ℕ → Node) (i : ℕ) (x : Node) (xs : List ℕ)
    → i ≢ 0
    → Absent 0 xs
    → Absent i xs
    → All (λ j. node (write nodes i x) j ≡ node nodes j) xs
unfolding write
write_others nodes i x [] h z a = tt
write_others nodes i x (y ∷ ys) h z a = (
  if_neg (ℕ_discrete (pred i) (pred y)) (λ q. a.0 (omega arith)) _ _,
  write_others nodes i x ys h z.1 a.1,
)

pub map-congr : (f g : ℕ → Node) (xs : List ℕ) → All (λ j. f j ≡ g j) xs → map f xs ≡ map g xs
map-congr f g [] h = refl
map-congr f g (x ∷ xs) h = rw (h.0, map-congr f g xs h.1)

-- The list of nodes read by key.
module _ (nodes : ℕ → Node) (k : Key) where
  pub lookup_node-map :
      (xs : List ℕ) (i : ℕ)
      → locate (key_of nodes) k xs ≡ some i
      → lookup_node k (map (node nodes) xs) ≡ some (node nodes i)
  unfolding lookup_node locate
  lookup_node-map [] i e = ground arith
  lookup_node-map (x ∷ xs) i e = ground (arith, lookup_node-map xs i)

  pub lookup_node-map-none :
      (xs : List ℕ) → locate (key_of nodes) k xs ≡ none → lookup_node k (map (node nodes) xs) ≡ none
  unfolding lookup_node locate
  lookup_node-map-none [] e = refl
  lookup_node-map-none (x ∷ xs) e = ground (arith, lookup_node-map-none xs)

  pub without-map :
      (xs : List ℕ) (i : ℕ) (ys : List ℕ)
      → key_of nodes i ≡ k
      → Distinct (key_of nodes) (xs ++ i ∷ ys)
      → without k (map (node nodes) (xs ++ i ∷ ys)) ≡ map (node nodes) (xs ++ ys)
  unfolding without
  without-map [] i ys e d = ground arith
  without-map (x ∷ xs) i ys e d =
      ground (
        arith,
        without-map xs i ys e d.1,
        locate_middle (key_of nodes) (key_of nodes x) xs i ys d.1,
      )
