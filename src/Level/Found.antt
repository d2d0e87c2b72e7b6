-- ===== src/Level/Found.antt =====
-- What a level of store/lru2.go has for a key: the value of its live node.
use lcache.Common.{
  ℕ, ◌≡◌, ◌≢◌, refl, sym, ◌∙◌, ◌⊎◌, inl, inr, List, [], ◌∷◌, Option, none, some, arith,
  Option-cases, if◌then◌else◌,
}
use lcache.Common.GoMap.{lookup}
use lcache.Common.Words.{gt64}
use lcache.Value.{Key, key_eq, Value}
use lcache.Level.Chain.{Links}
use lcache.Level.Spec.{lookup_node, without, but_last, written}
use lcache.Level.Rep.{Rep, view, node, write, lookup_node-map, lookup_node-map-none}
use lcache.Level.Marks.{erased, expiry_of}
use lcache.Level.{Node, Level, create}

unfoldable pub live_value : Node → Option (Option Value)
live_value x = if gt64 x.expire_at 0 then some x.v else none

unfoldable pub found : Key → Level → Option (Option Value)
found j c = elim (lookup key_eq j c.hmap) [ none ↦ none | some i ↦ live_value (node c.nodes i) ]

unfoldable pub found_node : Option Node → Option (Option Value)
found_node none = none
found_node (some x) = live_value x

-- A new level has nothing.
pub found-create : (j : Key) (cap : ℕ) → found j (create cap) ≡ none
unfolding found create lookup
found-create j cap = refl

-- It is the same in the list that the level stands for.
pub found-view :
    (j : Key) (c : Level) (xs : List ℕ)
    → Rep c xs
    → found j c ≡ found_node (lookup_node j (view c xs))
unfolding found found_node
found-view j c xs r = elim (Option-cases (lookup key_eq j c.hmap)) [
  | inl e ↦ rw (found, e, lookup_node-map-none c.nodes j xs (sym (r.agree j) ∙ e))
  | inr (i, e) ↦ rw (found, e, lookup_node-map c.nodes j xs i (sym (r.agree j) ∙ e))
]

-- After `del` there is nothing for its key, and for another key no more than there was.
pub found-erased :
    (j k : Key) (l : Links) (c : Level)
    → (found j (record c { links = l; nodes = erased k c }) ≡ none)
      ⊎ (found j (record c { links = l; nodes = erased k c }) ≡ found j c)
unfolding found erased live_value write
found-erased j k l c = ground arith

pub found-erased_self :
    (k : Key) (l : Links) (c : Level) → found k (record c { links = l; nodes = erased k c }) ≡ none
unfolding found erased live_value write
found-erased_self k l c = ground arith

-- What `del` has marked was found before.
pub found-expiry :
    (k : Key) (c : Level) (i t : ℕ)
    → expiry_of k c ≡ some (i, t)
    → found k c ≡ some (node (erased k c) i).v
unfolding found expiry_of erased live_value write
found-expiry k c i t e = ground arith

lookup_node-without :
    (j k : Key) (l : List Node) → k ≢ j → lookup_node j (without k l) ≡ lookup_node j l
unfolding lookup_node without
lookup_node-without j k [] h = refl
lookup_node-without j k (x ∷ l) h = ground (arith, lookup_node-without j k l h)

lookup_node-but_last :
    (j : Key) (l : List Node)
    → (lookup_node j (but_last l) ≡ none) ⊎ (lookup_node j (but_last l) ≡ lookup_node j l)
unfolding lookup_node but_last
lookup_node-but_last j [] = inl refl
lookup_node-but_last j (x ∷ []) = inl refl
lookup_node-but_last j (x ∷ y ∷ l) = ground (arith, lookup_node-but_last j (y ∷ l))

lookup_node-written :
    (j : Key) (cap : ℕ) (x : Node) (l : List Node)
    → (lookup_node j (written cap x l) ≡ none)
      ⊎ (lookup_node j (written cap x l) ≡ lookup_node j l)
      ⊎ ((x.k ≡ j) × (lookup_node j (written cap x l) ≡ some x))
unfolding lookup_node written
lookup_node-written j cap x l =
    ground (arith, lookup_node-without j x.k l, lookup_node-but_last j l)

-- After a write: nothing, what was there, or what was written under the key.
pub found-written :
    (j k : Key) (v : Option Value) (t : ℕ) (c c' : Level) (xs xs' : List ℕ)
    → Rep c xs
    → Rep c' xs'
    → view c' xs' ≡ written c.cap (record { k = k; v = v; expire_at = t }) (view c xs)
    → (found j c' ≡ none) ⊎ (found j c' ≡ found j c) ⊎ ((k ≡ j) × (found j c' ≡ some v))
unfolding found_node live_value
found-written j k v t c c' xs xs' r r' e =
    let x : Node = record { k = k; v = v; expire_at = t } in
    let a : found j c' ≡ found_node (lookup_node j (written c.cap x (view c xs))) =
      found-view j c' xs' r' ∙ rw e refl in
    ground (arith, a, found-view j c xs r, lookup_node-written j c.cap x (view c xs))
