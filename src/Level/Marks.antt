-- ===== src/Level/Marks.antt =====
-- `del` of a level of store/lru2.go does on the array what the specification does on the list, and
-- never panics.
use lcache.Common.{
  ℕ, ◌≡◌, ◌≢◌, refl, sym, fun_ext, ◌∙◌, inl, inr, List, [], ◌∷◌, ◌++◌, map, map-append, Option,
  none, some, arith, Bool-cases, Option-cases, if◌then◌else◌,
}
use lcache.Common.GoMap.{lookup}
use lcache.Common.Words.{gt64}
use lcache.Value.{Key, key_eq}
use lcache.Level.Chain.{prev, next}
use lcache.Level.Ring.{Absent-middle, Apart-middle}
use lcache.Level.Moves.{adjust_last}
use lcache.Level.Order.{locate, Distinct, key-locate}
use lcache.Level.Spec.{deleted}
use lcache.Level.Rep.{
  Rep, view, node, key_of, last-Rep, node_at-some, write, set_node-some, write_self, write_others,
  map-congr, lookup_node-map, lookup_node-map-none, without-map,
}
use lcache.Level.{Node, Level, get, del}
use lcache.Level.Refine.{prev≢next, place, in_size, in_cap, not_zero, Gets, get-refines}

-- Writing a node under its own key.
module _ (c : Level) (xs : List ℕ) (i : ℕ) (ys : List ℕ) (x : Node) (same : x.k ≡ key_of c.nodes i)
    (r : Rep c (xs ++ i ∷ ys)) where
  pub keys-write : key_of (write c.nodes i x) ≡ key_of c.nodes
  unfolding write
  keys-write = fun_ext λ j. ground arith

  pub write-Rep : Rep (record c { nodes = write c.nodes i x }) (xs ++ i ∷ ys)
  write-Rep = record {
    ring = r.ring;
    within = r.within;
    sized = r.sized;
    small = r.small;
    used = r.used;
    full = r.full;
    fits = r.fits;
    agree = λ k. rw keys-write (r.agree k);
    distinct = rw keys-write r.distinct;
  }

  pub map-write : map (node (write c.nodes i x)) (xs ++ ys) ≡ map (node c.nodes) (xs ++ ys)
  map-write = map-congr _ _ (xs ++ ys) (
      write_others c.nodes i x (xs ++ ys) (not_zero c xs i ys r)
        (Absent-middle 0 xs i ys r.ring.nonzero).1 (Apart-middle xs i ys r.ring.apart).0)

  view-write_last :
      map (node (write c.nodes i x)) ((xs ++ ys) ++ i ∷ [])
      ≡ map (node c.nodes) (xs ++ ys) ++ x ∷ []
  view-write_last =
      map-append (node (write c.nodes i x)) (xs ++ ys) (i ∷ [])
      ∙ rw (map-write, write_self c.nodes i x)

deleted_miss :
    (c : Level) (xs : List ℕ) (k : Key)
    → locate (key_of c.nodes) k xs ≡ none
    → deleted k (view c xs) ≡ view c xs
unfolding deleted
deleted_miss c xs k e = rw (deleted, lookup_node-map-none c.nodes k xs e)

deleted_hit :
    (c : Level) (xs : List ℕ) (i : ℕ) (ys : List ℕ) (k : Key)
    → Distinct (key_of c.nodes) (xs ++ i ∷ ys)
    → locate (key_of c.nodes) k (xs ++ i ∷ ys) ≡ some i
    → deleted k (view c (xs ++ i ∷ ys)) ≡ (
        if gt64 (node c.nodes i).expire_at 0
        then view c (xs ++ ys) ++ record (node c.nodes i) { expire_at = 0 } ∷ []
        else view c (xs ++ i ∷ ys))
unfolding deleted
deleted_hit c xs i ys k d e = rw (
  deleted,
  lookup_node-map c.nodes k (xs ++ i ∷ ys) i e,
  without-map c.nodes k xs i ys (key-locate (key_of c.nodes) k i _ e) d,
)

-- What `del` returns: the index and the expiry of a live node with the key.
unfoldable pub expiry_of : Key → Level → Option (ℕ × ℕ)
expiry_of k c = elim (lookup key_eq k c.hmap) [
  | none ↦ none
  | some i ↦ let t = (node c.nodes i).expire_at in if gt64 t 0 then some (i, t) else none
]

-- The nodes after `del`.
unfoldable pub erased : Key → Level → ℕ → Node
erased k c = elim (lookup key_eq k c.hmap) [
  | none ↦ c.nodes
  | some i ↦
      let x = node c.nodes i in
      if gt64 x.expire_at 0 then write c.nodes i (record x { expire_at = 0 }) else c.nodes
]

-- What `del` is to do.
abbrev pub Dels : Key → Level → List ℕ → Option (Level × Option (ℕ × ℕ)) → Type 0
Dels k c xs r =
    (c' : Level) × (xs' : List ℕ) × (r ≡ some (c', expiry_of k c))
    × Rep c' xs'
    × (view c' xs' ≡ deleted k (view c xs))
    × (c'.cap ≡ c.cap)
    × (c' ≡ record c { links = c'.links; nodes = erased k c })

-- `del` does not panic, returns the index and the expiry of a live node, marks it as deleted and
-- brings it to the back; a key without a live node changes nothing.
pub del-refines : (c : Level) (xs : List ℕ) (k : Key) → Rep c xs → Dels k c xs (del k c)
unfolding del expiry_of erased
del-refines c xs k r = elim (Option-cases (lookup key_eq k c.hmap)) [
  | inl e ↦ (
    c,
    xs,
    rw (del, expiry_of, e),
    r,
    sym (deleted_miss c xs k (sym (r.agree k) ∙ e)),
    refl,
    rw (erased, e),
  )
  | inr (i, e) ↦
      let p = place c xs k i r e in
      let ys = p.before in
      let zs = p.after in
      let z : 0 ≢ i = λ q. not_zero c ys i zs p.rep (sym q) in
      let cap = in_cap c ys i zs p.rep in
      let old = node c.nodes i in
      elim (Bool-cases (gt64 old.expire_at 0)) [
        | inr dead ↦ (
          c,
          xs,
          rw (del, expiry_of, e, node_at-some i c z cap, dead),
          r,
          rw p.splits (sym (deleted_hit c ys i zs k p.rep.distinct p.found ∙ rw dead)),
          refl,
          rw (erased, e, dead),
        )
        | inl live ↦
            let x : Node = record old { expire_at = 0 } in
            let c₁ : Level = record c { nodes = write c.nodes i x } in
            let r₁ = write-Rep c ys i zs x refl p.rep in
            let a =
              adjust_last c₁ prev next prev≢next r₁.within (omega (arith, r₁.sized)) ys i zs
                (in_size c₁ ys i zs r₁) r₁.ring in
            (
              record c₁ { links = a.links },
              (ys ++ zs) ++ i ∷ [],
              rw (del, expiry_of, e, node_at-some i c z cap, live)
                  (rw (set_node-some i x c z cap, a.result)),
              last-Rep c₁ ys i zs r₁ a.links a.ring a.within,
              rw p.splits (
                  view-write_last c ys i zs x refl p.rep
                  ∙ sym (deleted_hit c ys i zs k p.rep.distinct p.found ∙ rw live)),
              refl,
              rw (erased, e, live),
            )
      ]
]

-- On a level that stands for a list of nodes, `get` and `del` do not panic. `get` returns the index
-- that the map has and brings its node to the front; `del` returns the index and the expiry of a live
-- node with the key, marks it as deleted and brings it to the back, and changes nothing for a key
-- without one. The map and the other fields of the nodes stay.
pub finds_and_marks :
    (c : Level) (xs : List ℕ) (k : Key) → Rep c xs → Gets k c xs (get k c) × Dels k c xs (del k c)
finds_and_marks c xs k r = (get-refines c xs k r, del-refines c xs k r)
