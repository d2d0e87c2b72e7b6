-- ===== src/Level/Refine.antt =====
-- `get` of a level of store/lru2.go does on the array what the specification does on the list,
-- and never panics.
use lcache.Common.{
  ℕ, ◌≤◌, ◌<◌, ◌≡◌, ◌≢◌, refl, sym, subst, ◌∙◌, inl, inr, List, ◌∷◌, ◌++◌, Option, none, some,
  arith, Option-cases,
}
use lcache.Common.GoMap.{lookup}
use lcache.Value.{Key, key_eq}
use lcache.Level.Chain.{prev, next}
use lcache.Level.Ring.{Absent-middle}
use lcache.Level.Moves.{adjust-Adjusts}
use lcache.Level.Order.{locate, Distinct, key-locate, locate_split}
use lcache.Level.Spec.{touched}
use lcache.Level.Rep.{
  Rep, view, key_of, All-middle, first-Rep, lookup_node-map, lookup_node-map-none, without-map,
}
use lcache.Level.{Level, get}

pub prev≢next : prev ≢ next
prev≢next e = cc

-- Where a key stands in a level that has it.
pub record Place (c : Level) (xs : List ℕ) (k : Key) (i : ℕ) : Type 0 where
  pub before : List ℕ
  pub after : List ℕ
  pub splits : xs ≡ before ++ i ∷ after
  pub rep : Rep c (before ++ i ∷ after)
  pub found : locate (key_of c.nodes) k (before ++ i ∷ after) ≡ some i

pub place :
    (c : Level) (xs : List ℕ) (k : Key) (i : ℕ)
    → Rep c xs
    → lookup key_eq k c.hmap ≡ some i
    → Place c xs k i
place c xs k i r e =
    let at : locate (key_of c.nodes) k xs ≡ some i = sym (r.agree k) ∙ e in
    let (ys, zs, q) = locate_split (key_of c.nodes) k i xs at in
    record {
      before = ys;
      after = zs;
      splits = q;
      rep = subst (Rep c) q r;
      found = subst (λ l. locate (key_of c.nodes) k l ≡ some i) q at;
    }

module _ (c : Level) (xs : List ℕ) (i : ℕ) (ys : List ℕ) (r : Rep c (xs ++ i ∷ ys)) where
  pub in_size : i < c.size
  in_size = omega (arith, (All-middle (λ i. i ≤ c.last) xs i ys r.used).0, r.sized, r.fits)

  pub in_cap : i ≤ c.cap
  in_cap = omega (arith, (All-middle (λ i. i ≤ c.last) xs i ys r.used).0, r.fits)

  pub not_zero : i ≢ 0
  not_zero = (Absent-middle 0 xs i ys r.ring.nonzero).0

touched_miss :
    (c : Level) (xs : List ℕ) (k : Key)
    → locate (key_of c.nodes) k xs ≡ none
    → touched k (view c xs) ≡ view c xs
unfolding touched
touched_miss c xs k e = rw (touched, lookup_node-map-none c.nodes k xs e)

touched_hit :
    (c : Level) (xs : List ℕ) (i : ℕ) (ys : List ℕ) (k : Key)
    → Distinct (key_of c.nodes) (xs ++ i ∷ ys)
    → locate (key_of c.nodes) k (xs ++ i ∷ ys) ≡ some i
    → touched k (view c (xs ++ i ∷ ys)) ≡ view c (i ∷ (xs ++ ys))
unfolding touched
touched_hit c xs i ys k d e = rw (
  touched,
  lookup_node-map c.nodes k (xs ++ i ∷ ys) i e,
  without-map c.nodes k xs i ys (key-locate (key_of c.nodes) k i _ e) d,
)

-- What `get` is to do.
abbrev pub Gets : Key → Level → List ℕ → Option (Level × Option ℕ) → Type 0
Gets k c xs r =
    (c' : Level) × (xs' : List ℕ) × (r ≡ some (c', lookup key_eq k c.hmap))
    × Rep c' xs'
    × (view c' xs' ≡ touched k (view c xs))
    × (c'.cap ≡ c.cap)
    × (c' ≡ record c { links = c'.links })

-- `get` does not panic, finds the index that the map has, and brings its node to the front.
pub get-refines : (c : Level) (xs : List ℕ) (k : Key) → Rep c xs → Gets k c xs (get k c)
unfolding get
get-refines c xs k r = elim (Option-cases (lookup key_eq k c.hmap)) [
  | inl e ↦ (c, xs, rw (e, get), r, sym (touched_miss c xs k (sym (r.agree k) ∙ e)), refl, refl)
  | inr (i, e) ↦
      let p = place c xs k i r e in
      let a =
        adjust-Adjusts c prev next prev≢next p.rep.within (omega (arith, p.rep.sized)) p.before i
          p.after (in_size c p.before i p.after p.rep) p.rep.ring in
      (
        record c { links = a.links },
        i ∷ (p.before ++ p.after),
        rw (e, get, a.result),
        first-Rep c p.before i p.after p.rep a.links a.ring a.within,
        rw p.splits (sym (touched_hit c p.before i p.after k p.rep.distinct p.found)),
        refl,
        refl,
      )
]
