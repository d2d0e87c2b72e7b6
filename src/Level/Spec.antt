-- ===== src/Level/Spec.antt =====
-- What a level of store/lru2.go is to do: a list of nodes, most recent first.
use lcache.Common.{
  ℕ, Bool, ◌&&◌, List, [], ◌∷◌, ◌++◌, Option, none, some, ite, length, ◌==◌, if◌then◌else◌,
}
use lcache.Common.Words.{gt64}
use lcache.Value.{Key, key_eq, Value}
use lcache.Level.{Node, visit}

unfoldable pub lookup_node : Key → List Node → Option Node
lookup_node k [] = none
lookup_node k (x ∷ l) = ite (key_eq x.k k) (some x) (lookup_node k l)

unfoldable pub without : Key → List Node → List Node
without k [] = []
without k (x ∷ l) = ite (key_eq x.k k) l (x ∷ without k l)

-- A node that is read comes first.
unfoldable pub touched : Key → List Node → List Node
touched k l = elim (lookup_node k l) [ none ↦ l | some x ↦ x ∷ without k l ]

-- A live node that is deleted is marked, and comes last.
unfoldable pub deleted : Key → List Node → List Node
deleted k l = elim (lookup_node k l) [
  | none ↦ l
  | some x ↦ if gt64 x.expire_at 0 then without k l ++ record x { expire_at = 0 } ∷ [] else l
]

unfoldable pub but_last : List Node → List Node
but_last [] = []
but_last (x ∷ []) = []
but_last (x ∷ y ∷ l) = x ∷ but_last (y ∷ l)

-- A node that is written comes first; it takes the place of the one with its key or, in a full
-- level, of the last one.
unfoldable pub written : (cap : ℕ) → Node → List Node → List Node
written cap x l = elim (lookup_node x.k l) [
  | some y ↦ x ∷ without x.k l
  | none ↦ if length l == cap then x ∷ but_last l else x ∷ l
]

-- A visit of the live nodes, most recent first, until the callback says stop.
unfoldable pub walk_list {ℓ} : {S : Type ℓ} → (Node → S → S × Bool) → List Node → S → S
walk_list walker [] s = s
walk_list walker (x ∷ l) s =
    let (s', more) = visit walker x s in
    let rest = walk_list walker l s' in if more then rest else s'

-- What `onEvicted` is handed by a write: the last node of a full level, when the key is new and that
-- node is live.
unfoldable pub last_live : List Node → List (Key × Option Value)
last_live [] = []
last_live (x ∷ []) = if gt64 x.expire_at 0 then (x.k, x.v) ∷ [] else []
last_live (x ∷ y ∷ l) = last_live (y ∷ l)

unfoldable pub dropped : Bool → (cap : ℕ) → Key → List Node → List (Key × Option Value)
dropped reports cap k l = elim (lookup_node k l) [
  | some x ↦ []
  | none ↦ if (length l == cap) && reports then last_live l else []
]
