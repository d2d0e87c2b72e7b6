-- ===== src/Level/Put.antt =====
-- `put` of a level of store/lru2.go does on the array what the specification does on the list.
use lcache.Common.{
  ℕ, ◌+◌, ◌%◌, ◌-◌, ◌^◌, dec_lt, ◌≤◌, ◌<◌, ◌≡◌, ◌≢◌, refl, sym, ap, subst, ◌∙◌, inl, inr, List, [],
  ◌∷◌, ◌++◌, map-append, Option, none, some, arith, Bool, true, false, Option-cases, length, ◌==◌,
  ==_ne, ltb, lt→ltb, ==_eq,
}
use mathlib.Core.List.{append-nil}
use lcache.Common.GoMap.{lookup, insert, delete}
use lcache.Value.{Key, key_eq, Value}
use lcache.Level.Chain.{prev, next}
use lcache.Level.Moves.{adjust-Adjusts}
use lcache.Level.Order.{locate, key-locate}
use lcache.Level.Spec.{lookup_node, written, dropped}
use lcache.Level.Rep.{
  Rep, view, node, key_of, first-Rep, node_at-some, write, set_node-some, write_self,
  lookup_node-map, lookup_node-map-none, without-map,
}
use lcache.Level.Refine.{place, in_size, in_cap, not_zero, prev≢next}
use lcache.Level.Marks.{write-Rep, map-write}
use lcache.Level.{Node, Level, link, replace_tail, put, create}
use lcache.Level.Kept.{nodes_kept, length-map, split_last, but_last-append}
use lcache.Level.Fresh.{fresh, next_place, fresh-Rep, put_new-some}
use lcache.Level.Renew.{renewed, last_link, apart_last, renewed-Rep, renewed_last}

-- What `put` is to do.
abbrev pub Puts :
    Bool
    → Key
    → Option Value
    → ℕ
    → Level
    → List ℕ
    → Option (Level × ℕ × List (Key × Option Value))
    → Type 0
Puts reports k v t c xs r =
    (c' : Level) × (xs' : List ℕ) × (r
      ≡ some (
        c',
        elim (lookup_node k (view c xs)) [ some x ↦ 0 | none ↦ 1 ],
        dropped reports c.cap k (view c xs),
      ))
    × Rep c' xs'
    × (view c' xs' ≡ written c.cap (record { k = k; v = v; expire_at = t }) (view c xs))
    × (c'.cap ≡ c.cap)

module _ (reports : Bool) (k : Key) (v : Option Value) (t : ℕ) (c : Level) where
  -- A key that is there.
  put_update :
      (xs : List ℕ) (i : ℕ)
      → Rep c xs
      → lookup key_eq k c.hmap ≡ some i
      → Puts reports k v t c xs (put reports k v t c)
  unfolding put written dropped
  put_update xs i r e =
      let p = place c xs k i r e in
      let ys = p.before in
      let zs = p.after in
      let old = node c.nodes i in
      let same : old.k ≡ k = key-locate (key_of c.nodes) k i _ p.found in
      let x : Node = record old { v = v; expire_at = t } in
      let x_is : x ≡ record { k = k; v = v; expire_at = t } =
        ap (λ j. record { k = j; v = v; expire_at = t }) same in
      let c₁ : Level = record c { nodes = write c.nodes i x } in
      let r₁ = write-Rep c ys i zs x refl p.rep in
      let z : 0 ≢ i = λ q. not_zero c ys i zs p.rep (sym q) in
      let a =
        adjust-Adjusts c₁ prev next prev≢next r₁.within (omega (arith, r₁.sized)) ys i zs
          (in_size c₁ ys i zs r₁) r₁.ring in
      let there : lookup_node k (view c xs) ≡ some old =
        rw p.splits (lookup_node-map c.nodes k _ i p.found) in
      (
        record c₁ { links = a.links },
        i ∷ (ys ++ zs),
        rw (put, dropped, there, e)
            (rw (node_at-some i c z (in_cap c ys i zs p.rep))
              (rw (set_node-some i x c z (in_cap c ys i zs p.rep), a.result))),
        first-Rep c₁ ys i zs r₁ a.links a.ring a.within,
        rw (written, there, write_self c.nodes i x, map-write c ys i zs x refl p.rep, x_is)
            (rw (p.splits, without-map c.nodes k ys i zs same p.rep.distinct)),
        refl,
      )

  put_fresh :
      (xs : List ℕ)
      → Rep c xs
      → lookup key_eq k c.hmap ≡ none
      → c.last < c.cap
      → Puts reports k v t c xs (put reports k v t c)
  unfolding put written dropped
  put_fresh xs r e room =
      let full : (c.last == c.cap % 2 ^ 16) ≡ false =
        ==_ne c.last (c.cap % 2 ^ 16) (omega (arith, r.small, room)) in
      let room_left : (length (view c xs) == c.cap) ≡ false =
        ==_ne _ _ (λ q. omega (arith, length-map (node c.nodes) xs, r.full)) in
      let absent : lookup_node k (view c xs) ≡ none =
        lookup_node-map-none c.nodes k xs (sym (r.agree k) ∙ e) in
      let x : Node = record { k = k; v = v; expire_at = t } in
      (
        fresh k v t c,
        (c.last + 1) ∷ xs,
        rw (put, e, absent, dropped, full) (rw (put_new-some k v t c xs r room, room_left) refl),
        fresh-Rep k v t c xs r e room,
        rw (written, absent, room_left)
            (rw
              (
                write_self c.nodes (c.last + 1) x,
                nodes_kept c.nodes (c.last + 1) x xs (omega arith) r.ring.nonzero
                    (next_place k v t c xs r),
              )
              refl),
        refl,
      )

module _ (k : Key) (v : Option Value) (t : ℕ) (c : Level) (ys : List ℕ) (i : ℕ)
    (r : Rep c (ys ++ i ∷ [])) (e : lookup key_eq k c.hmap ≡ none) where
  module _ (reports : Bool) (full : c.last ≡ c.cap) where
    put_renew : Puts reports k v t c (ys ++ i ∷ []) (put reports k v t c)
    unfolding put replace_tail link written
    put_renew =
        let xs : List ℕ = ys ++ i ∷ [] in
        let x : Node = record { k = k; v = v; expire_at = t } in
        let old : Node = node c.nodes i in
        let z : 0 ≢ i = λ q. not_zero c ys i [] r (sym q) in
        let cap : i ≤ c.cap = in_cap c ys i [] r in
        let zero_in : ltb 0 c.size ≡ true = lt→ltb 0 c.size (omega (arith, r.sized)) in
        let at_cap : (c.last == c.cap % 2 ^ 16) ≡ true =
          ==_eq c.last (c.cap % 2 ^ 16) (omega (arith, r.small)) in
        let a =
          adjust-Adjusts (renewed k v t c ys i r e) prev next prev≢next r.within
            (omega (arith, r.sized)) ys i [] (in_size c ys i [] r) r.ring in
        let filled : length (view c xs) ≡ c.cap =
          omega (arith, length-map (node c.nodes) xs, r.full) in
        let c₁ : Level = record c { hmap = insert key_eq k i (delete key_eq old.k c.hmap) } in
        (
          record (renewed k v t c ys i r e) { links = a.links },
          i ∷ (ys ++ []),
          rw
              (
                put,
                e,
                at_cap,
                (renewed_last k v t c ys i r e reports full).0,
                (renewed_last k v t c ys i r e reports full).1,
                zero_in,
                (last_link k v t c ys i r e),
              )
              (rw (node_at-some i c z cap) (
                rw (set_node-some i x c₁ z cap, zero_in, (last_link k v t c ys i r e))
                  (rw a.result refl))),
          first-Rep (renewed k v t c ys i r e) ys i [] (renewed-Rep k v t c ys i r e) a.links a.ring
              a.within,
          rw
              (
                written,
                (renewed_last k v t c ys i r e reports full).0,
                ==_eq _ _ filled,
                write_self c.nodes i x,
                append-nil ys,
                map-append (node c.nodes) ys (i ∷ []),
                but_last-append (view c ys) old,
              )
              (ap (◌∷◌ x) (
                nodes_kept c.nodes i x ys (not_zero c ys i [] r) (apart_last k v t c ys i r e).1
                  (apart_last k v t c ys i r e).0)),
          refl,
        )

put_full :
    (reports : Bool) (k : Key) (v : Option Value) (t : ℕ) (c : Level) (xs : List ℕ)
    → Rep c xs
    → lookup key_eq k c.hmap ≡ none
    → c.last ≡ c.cap
    → 0 < c.cap
    → Puts reports k v t c xs (put reports k v t c)
put_full reports k v t c [] r e full h = absurd (omega (arith, r.full))
put_full reports k v t c (x ∷ xs) r e full h =
    let (ys, i, q) = split_last x xs in
    subst (λ l. Puts reports k v t c l (put reports k v t c)) (sym q)
      (put_renew k v t c ys i (subst (Rep c) q r) e reports full)

-- `put` of a level of capacity above 0 does not panic, and writes its node to the front: over the
-- node with the key, or in a full level over the last node, which `onEvicted` is handed if it is
-- live; it returns 1 for a new key and 0 for an update.
pub put-refines :
    (reports : Bool) (k : Key) (v : Option Value) (t : ℕ) (c : Level) (xs : List ℕ)
    → Rep c xs
    → 0 < c.cap
    → Puts reports k v t c xs (put reports k v t c)
put-refines reports k v t c xs r h = elim (Option-cases (lookup key_eq k c.hmap)) [
  | inr (i, e) ↦ put_update reports k v t c xs i r e
  | inl e ↦ elim (dec_lt c.last c.cap) [
    | yes room ↦ put_fresh reports k v t c xs r e room
    | no none_left ↦ put_full reports k v t c xs r e (omega (arith, r.fits)) h
  ]
]

-- A new level stands for no nodes.
pub create-Rep : (cap : ℕ) → cap < 2 ^ 16 - 1 → Rep (create cap) []
unfolding create lookup locate
create-Rep cap h = record {
  ring = record { linked = (refl, refl); apart = tt; nonzero = tt };
  within = λ i d. omega arith;
  sized = omega arith;
  small = h;
  used = tt;
  full = refl;
  fits = omega arith;
  agree = λ k. refl;
  distinct = tt;
}
