-- ===== src/ConsistentHash/Tests.antt =====
-- Runs of the ring of consistenthash/con_hash.go, and the theorems about it at concrete rings.
use lcache.Common.{
  ℕ, ◌-◌, ◌*◌, ◌/◌, ◌≡◌, ◌≢◌, refl, sym, ap, ◌∙◌, ◌⊎◌, inl, inr, List, [], ◌∷◌, none, arith, Elem,
  ltb, ℕ_discrete, dec_le,
}
use lcache.Common.Floats.{Float64}
use lcache.Common.GoMap.{lookup, insert, delete}
use lcache.Value.{Key, key_eq}
use lcache.ConsistentHash.Sorting.{sort, put_sorted}
use lcache.ConsistentHash.Nearest.{IsNearest, get-IsNearest}
use lcache.ConsistentHash.Loop.{IsRing, Separates}
use lcache.ConsistentHash.Removal.{remove-stable}
use lcache.ConsistentHash.Growth.{add-stable}
use lcache.ConsistentHash.Runs.{adds, removes, gets, apply, run, run-IsRing}
use lcache.ConsistentHash.Balance.{
  check_and_rebalance, max_difference, average_load, new_replicas, rebalance_blocks,
}
use lcache.ConsistentHash.{
  Config, Map, decimal, virtual_node, hash_of, add_virtual, add_node, add_nodes, add, remove,
  node_at, new_map, get, search, place,
}

-- A hash by the first byte.
abbrev first_byte : Key → ℕ
first_byte [] = 0
first_byte (x ∷ s) = x

abbrev a : Key
a = 97 ∷ []

abbrev b : Key
b = 98 ∷ []

abbrev x : Key
x = 120 ∷ []

abbrev config : Config ℕ
config = record {
  default_replicas = 2;
  min_replicas = 1;
  max_replicas = 4;
  hash_func = first_byte;
  load_balance_threshold = 0;
}

virtual_node_lem : virtual_node a 105 ≡ 97 ∷ 45 ∷ 49 ∷ 48 ∷ 53 ∷ []
unfolding virtual_node decimal
virtual_node_lem = refl

abbrev pair : List Key
pair = a ∷ b ∷ []

abbrev two : Map ℕ
two = run (adds pair ∷ []) (new_map config)

separates : Separates first_byte pair 2
unfolding virtual_node
separates n n' i j (inl e) (inl e') p q h = cc
separates n n' i j (inl e) (inr (inl e')) p q h = absurd (
    omega (
      arith,
      ap (λ (k : Key). first_byte (virtual_node k i)) (sym e)
          ∙ h
          ∙ ap (λ (k : Key). first_byte (virtual_node k j)) e',
    ))
separates n n' i j (inl e) (inr (inr w)) p q h = elim w [ ]
separates n n' i j (inr (inl e)) (inl e') p q h = absurd (
    omega (
      arith,
      ap (λ (k : Key). first_byte (virtual_node k i)) (sym e)
          ∙ h
          ∙ ap (λ (k : Key). first_byte (virtual_node k j)) e',
    ))
separates n n' i j (inr (inl e)) (inr (inl e')) p q h = cc
separates n n' i j (inr (inl e)) (inr (inr w)) p q h = elim w [ ]
separates n n' i j (inr (inr w)) e' p q h = elim w [ ]

two-IsRing : IsRing pair 2 two
two-IsRing =
    run-IsRing pair 2 (adds pair ∷ []) config separates (omega arith)
      ((inl refl, (inr (inl refl), tt)), tt)

run-IsRing_example : IsRing pair 2 (run (adds pair ∷ gets x ∷ removes a ∷ []) (new_map config))
run-IsRing_example =
    run-IsRing pair 2 (adds pair ∷ gets x ∷ removes a ∷ []) config separates (omega arith)
      ((inl refl, (inr (inl refl), tt)), (tt, (tt, tt)))

abbrev ring : Map ℕ
ring = record {
  config = config;
  keys = 97 ∷ 97 ∷ 98 ∷ [];
  hash_map = (97, a) ∷ (98, b) ∷ [];
  node_replicas = [];
  node_counts = [];
  total_requests = 0;
}

b≢a : b ≢ a
b≢a e = absurd (omega (arith, ap first_byte e))

get-IsNearest_example :
    (y : ℕ) × IsNearest 120 y (97 ∷ 97 ∷ 98 ∷ []) × ((get x ring).1 ≡ node_at y ring.hash_map)
get-IsNearest_example = get-IsNearest x ring (omega arith) (omega arith) (omega arith)

-- The key wraps round to the first node; with that gone, the other serves it.
get_wraps : (get x two).1 ≡ a
unfolding run apply add add_nodes add_node add_virtual virtual_node decimal hash_of new_map sort
    put_sorted get search place lookup insert delete dec_le ℕ_discrete key_eq
get_wraps = refl

remove-stable_example : (get x (remove b two).0).1 ≡ (get x two).1
remove-stable_example = remove-stable x b two two-IsRing (λ e. b≢a (sym e ∙ get_wraps))

add-stable_example :
    Elem (get x (add ((99 ∷ []) ∷ []) two).0).1 ((99 ∷ []) ∷ [])
    ⊎ ((get x (add ((99 ∷ []) ∷ []) two).0).1 ≡ (get x two).1)
add-stable_example = add-stable x ((99 ∷ []) ∷ []) two two-IsRing.sorted

-- Floats by natural numbers, as good as the theorems need.
abbrev floats : Float64 ℕ
floats = record {
  of_int = λ n. n;
  to_int = λ n. n;
  sub = λ m n. m - n;
  mul = λ m n. m * n;
  div = λ m n. m / n;
  abs = λ n. n;
  gt = λ m n. ltb n m;
}

-- All of 1000 requests went to one of two nodes.
abbrev busy : Map ℕ
busy = record two { node_counts = (a, 1000) ∷ []; total_requests = 1000 }

abbrev idle : Map ℕ
idle = record two { total_requests = 7 }

balancer_waits : check_and_rebalance floats (λ c. c) busy ≡ none
unfolding run apply add add_nodes add_node add_virtual virtual_node decimal hash_of new_map insert
    delete max_difference average_load new_replicas lookup key_eq
balancer_waits =
    rebalance_blocks floats (λ c. c) busy a 1000 refl refl (inl refl) (omega arith) (omega arith)
