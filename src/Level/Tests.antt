-- ===== src/Level/Tests.antt =====
-- Runs of a level of store/lru2.go, and the theorems about it at concrete levels.
use lcache.Common.{
  ℕ, ◌+◌, ◌<◌, subst, sym, ◌≡◌, refl, ◌∙◌, List, [], ◌∷◌, Option, none, some, true, arith,
}
use lcache.Common.GoMap.{lookup, insert, delete}
use lcache.Level.Chain.{relink, dir_eq}
use lcache.Common.Panics.{◌>>=◌}
use lcache.Value.{Key, key_eq, Value, other}
use lcache.Level.Spec.{walk_list}
use lcache.Level.Rep.{Rep, view}
use lcache.Level.Refine.{Gets}
use lcache.Level.Marks.{Dels, finds_and_marks}
use lcache.Level.Walk.{walk-walk_list}
use lcache.Level.Put.{Puts, put-refines, create-Rep}
use lcache.Level.{
  Level, create, link, set_link, node_at, set_node, move, adjust, link_tail, put_new, replace_tail,
  get, del, put, walk,
}

abbrev a : Key
a = 97 ∷ []

abbrev b : Key
b = 98 ∷ []

abbrev d : Key
d = 100 ∷ []

abbrev two : Level
two = create 2

two-Rep : Rep two []
two-Rep = create-Rep 2 (omega arith)

two-cap : 0 < two.cap
unfolding create
two-cap = omega arith

-- Two live nodes: a level that is full.
abbrev put_a : Puts true a (some (other 1 4)) 50 two [] (put true a (some (other 1 4)) 50 two)
put_a = put-refines true a (some (other 1 4)) 50 two [] two-Rep two-cap

abbrev one : Level
one = put_a.0

abbrev put_b : Puts true b none 60 one put_a.1 (put true b none 60 one)
put_b = put-refines true b none 60 one put_a.1 put_a.3 (subst (λ n. 0 < n) (sym put_a.5) two-cap)

abbrev full : Level
full = put_b.0

abbrev full_list : List ℕ
full_list = put_b.1

full-Rep : Rep full full_list
full-Rep = put_b.3

full-cap : 0 < full.cap
full-cap = subst (λ n. 0 < n) (sym (put_b.5 ∙ put_a.5)) two-cap

-- The eviction of the last node.
put-refines_example :
    Puts true d (some (other 2 5)) 70 full full_list (put true d (some (other 2 5)) 70 full)
put-refines_example = put-refines true d (some (other 2 5)) 70 full full_list full-Rep full-cap

finds_and_marks_example : Gets a full full_list (get a full) × Dels a full full_list (del a full)
finds_and_marks_example = finds_and_marks full full_list a full-Rep

-- The count of live nodes.
walk-walk_list_example :
    walk (λ x n. (n + 1, true)) full 0
    ≡ some (walk_list (λ x n. (n + 1, true)) (view full full_list) 0)
walk-walk_list_example = walk-walk_list (λ x n. (n + 1, true)) full full_list 0 full-Rep

-- The same runs of the code.
abbrev found : Option (Option ℕ)
found = do
  c ← put true a (some (other 1 4)) 50 two
  c ← put true b none 60 c.0
  r ← get a c.0
  some r.1

found_lem : found ≡ some (some 1)
unfolding create link set_link node_at set_node move adjust link_tail put_new replace_tail put get
    lookup insert delete relink key_eq dir_eq
found_lem = refl

abbrev evicted : Option (List (Key × Option Value))
evicted = do
  c ← put true a (some (other 1 4)) 50 two
  c ← put true b none 60 c.0
  c ← get a c.0
  c ← put true d none 70 c.0
  some c.2

evicted_lem : evicted ≡ some ((b, none) ∷ [])
unfolding create link set_link node_at set_node move adjust link_tail put_new replace_tail put get
    lookup insert delete relink key_eq dir_eq
evicted_lem = refl
