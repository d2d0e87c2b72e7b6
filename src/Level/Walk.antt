-- ===== src/Level/Walk.antt =====
-- `walk` of a level of store/lru2.go visits the live nodes in order, and comes to an end.
use lcache.Common.{
  ℕ, zero, suc, ◌≤◌, ◌<◌, ◌≡◌, sym, inl, inr, List, [], ◌∷◌, some, arith, All, All-mono, Bool,
  Bool-cases, lt→ltb, ==_ne, length,
}
use lcache.Level.Chain.{prev, next, Linked, Absent}
use lcache.Level.Spec.{walk_list}
use lcache.Level.Rep.{Rep, view, node, node_at-some}
use lcache.Level.{Node, Level, link, visit, walk_from, walk}

module _ {ℓ} {S : Type ℓ} (walker : Node → S → S × Bool) (c : Level) where
  walk_from-walk_list :
      (fuel a : ℕ) (xs : List ℕ) (s : S)
      → c.cap < c.size
      → Linked c.links prev next a xs 0
      → Absent 0 xs
      → All (λ i. i ≤ c.cap) xs
      → length xs < fuel
      → walk_from walker fuel (c.links a next) c s ≡ some (walk_list walker (view c xs) s)
  unfolding walk_from walk_list link
  walk_from-walk_list zero a xs s b k z u h = absurd (omega arith)
  walk_from-walk_list (suc fuel) a [] s b k z u h = rw k.0
  walk_from-walk_list (suc fuel) a (x ∷ xs) s b k z u h =
      let ih =
        walk_from-walk_list fuel x xs (visit walker (node c.nodes x) s).0 b k.2 z.1 u.1
          (omega arith) in
      rw
        (k.0, ==_ne x 0 z.0, node_at-some x c (λ q. z.0 (sym q)) u.0, lt→ltb x c.size (omega arith))
        (elim (Bool-cases (visit walker (node c.nodes x) s).1) [ inl e ↦ rw e ih | inr e ↦ rw e ])

  -- `walk` does not panic and comes to an end; it calls back for the live nodes, most recently used
  -- first, until the callback says no.
  pub walk-walk_list :
      (xs : List ℕ) (s : S) → Rep c xs → walk walker c s ≡ some (walk_list walker (view c xs) s)
  unfolding walk link
  walk-walk_list xs s r =
      let zero_in : 0 < c.size = omega (arith, r.sized) in
      rw (walk, link, lt→ltb 0 c.size zero_in)
        (walk_from-walk_list (suc c.last) 0 xs s (omega (arith, r.sized)) r.ring.linked
          r.ring.nonzero
          (All-mono (λ i. i ≤ c.last) (λ i. i ≤ c.cap) xs (λ i h. omega (arith, r.fits)) r.used)
          (omega (arith, r.full)))
