-- ===== src/Level/Fresh.antt =====
-- A node of store/lru2.go in an unused place of the array: the links and the list of `put_new`.
use lcache.Common.{
  ℕ, ◌+◌, ◌%◌, ◌^◌, ◌≤◌, ◌<◌, ◌≡◌, ◌≢◌, refl, sym, ap, subst, fun_ext, ◌∙◌, inl, inr, List, [], ◌∷◌,
  Option, none, some, arith, All-mono, true, Bool-cases, if_pos, length, ◌==◌, ltb, lt→ltb,
}
use lcache.Common.GoMap.{lookup, insert, lookup-insert}
use lcache.Value.{Key, key_eq, Value}
use lcache.Level.Chain.{
  Links, prev, next, relink, Linked, Absent, put_first, put_first-Linked, forth_differs,
}
use lcache.Level.Ring.{IsRing}
use lcache.Level.Moves.{Within, relink-Within}
use lcache.Level.Order.{locate}
use lcache.Level.Rep.{Rep, key_of, write, set_node-some, write_self}
use lcache.Level.Refine.{prev≢next}
use lcache.Level.{Node, Level, link, set_link, link_tail, put_new}
use lcache.Level.Kept.{Distinct-congr, keys_kept, locate_kept}

no_entry :
    (m : List (Key × ℕ)) (k : Key) {i : ℕ} → (length m == 0) ≡ true → lookup key_eq k m ≢ some i
unfolding lookup
no_entry [] k e q = ground arith
no_entry (x ∷ m) k e q = ground arith

-- A level without entries in its map has no nodes in use.
empty_map : (c : Level) (xs : List ℕ) → Rep c xs → (length c.hmap == 0) ≡ true → c.links 0 next ≡ 0
unfolding locate lookup
empty_map c [] r e = r.ring.linked.0
empty_map c (x ∷ xs) r e = absurd (
    no_entry c.hmap (key_of c.nodes x) e
      (r.agree (key_of c.nodes x) ∙ if_pos (key_eq (key_of c.nodes x) (key_of c.nodes x)) refl _ _))

-- The links of a new node are those of a move to the front.
abbrev new_links : Links → ℕ → Links
new_links l n =
    relink (relink (relink (relink l (l 0 next) prev n) n prev 0) n next (l 0 next)) 0 next n

new_links_lem : (l : Links) (n : ℕ) → n ≢ l 0 next → n ≢ 0 → new_links l n ≡ put_first l prev next n
unfolding relink
new_links_lem l n h z = fun_ext λ j. fun_ext λ d. ground arith

module _ (k : Key) (v : Option Value) (t : ℕ) (c : Level) where
  -- A new key in a level with room: the next place in the array, before the first node.
  abbrev pub fresh : Level
  fresh = record c {
    links = new_links c.links (c.last + 1);
    nodes = write c.nodes (c.last + 1) (record { k = k; v = v; expire_at = t });
    hmap = insert key_eq k (c.last + 1) c.hmap;
    last = c.last + 1;
  }

  module _ (xs : List ℕ) (r : Rep c xs) where
    pub next_place : Absent (c.last + 1) xs
    next_place = All-mono (λ i. i ≤ c.last) (λ i. i ≢ c.last + 1) xs (λ i h. omega arith) r.used

    pub head_apart : c.last + 1 ≢ c.links 0 next
    head_apart q =
        forth_differs c.links prev next prev≢next 0 (c.last + 1) xs 0 (omega arith) next_place
          r.ring.linked (sym q)

    pub fresh-Within : c.last < c.cap → Within c.size (new_links c.links (c.last + 1))
    fresh-Within room =
        let l = c.links in
        let n = c.last + 1 in
        let in_size : n < c.size = omega (arith, r.sized) in
        let zero_in : 0 < c.size = omega arith in
        let w₁ = relink-Within c.size l (l 0 next) prev n r.within in_size in
        let w₂ = relink-Within c.size _ n prev 0 w₁ zero_in in
        let w₃ = relink-Within c.size _ n next (l 0 next) w₂ (r.within 0 next) in
        relink-Within c.size _ 0 next n w₃ in_size

    pub fresh-IsRing : IsRing (new_links c.links (c.last + 1)) prev next ((c.last + 1) ∷ xs)
    fresh-IsRing = record {
      linked =
          subst (λ l. Linked l prev next 0 ((c.last + 1) ∷ xs) 0)
            (sym (new_links_lem c.links (c.last + 1) head_apart (omega arith)))
            (put_first-Linked c.links prev next prev≢next (c.last + 1) xs (omega arith) next_place
              r.ring.nonzero r.ring.apart r.ring.linked);
      apart = (next_place, r.ring.apart);
      nonzero = (omega arith, r.ring.nonzero);
    }

    pub fresh-Rep : lookup key_eq k c.hmap ≡ none → c.last < c.cap → Rep fresh ((c.last + 1) ∷ xs)
    unfolding locate
    fresh-Rep e room =
        let n = c.last + 1 in
        let x : Node = record { k = k; v = v; expire_at = t } in
        let kept = locate_kept c.nodes n x xs (omega arith) r.ring.nonzero next_place in
        let own : key_of (write c.nodes n x) n ≡ k =
          ap (λ (y : Node). y.k) (write_self c.nodes n x) in
        record {
          ring = fresh-IsRing;
          within = fresh-Within room;
          sized = r.sized;
          small = r.small;
          used =
              (omega arith, All-mono (λ i. i ≤ c.last) (λ i. i ≤ n) xs (λ i h. omega arith) r.used);
          full = omega (arith, r.full);
          fits = omega arith;
          agree = λ j. lookup-insert key_eq k j n c.hmap ∙ rw (own, kept j, r.agree j);
          distinct = (
            rw own (kept k ∙ sym (r.agree k) ∙ e),
            Distinct-congr _ _ xs (keys_kept c.nodes n x xs (omega arith) r.ring.nonzero next_place)
                r.distinct,
          );
        }

    pub link_tail-some :
        (n : ℕ)
        → link_tail n (record c { last = n })
          ≡ some (record c { links = relink c.links (c.links 0 next) prev n; last = n })
    unfolding link_tail link set_link
    link_tail-some n =
        let z : ltb 0 c.size ≡ true = lt→ltb 0 c.size (omega (arith, r.sized)) in
        let h = lt→ltb (c.links 0 next) c.size (r.within 0 next) in
        elim (Bool-cases (length c.hmap == 0)) [
          | inl e ↦ let q = empty_map c xs r e in rw (e, z, q)
          | inr e ↦ rw (e, z, h)
        ]

    pub head_kept : (n : ℕ) → relink c.links (c.links 0 next) prev n 0 next ≡ c.links 0 next
    unfolding relink
    head_kept n = ground arith

    pub put_new-some : c.last < c.cap → put_new k v t c ≡ some fresh
    unfolding put_new link set_link
    put_new-some room =
        let n = c.last + 1 in
        let wraps : (c.last + 1) % 2 ^ 16 ≡ n = omega (arith, r.small, room) in
        let z : ltb 0 c.size ≡ true = lt→ltb 0 c.size (omega (arith, r.sized)) in
        let h : ltb n c.size ≡ true = lt→ltb n c.size (omega (arith, r.sized)) in
        let x : Node = record { k = k; v = v; expire_at = t } in
        let tail : Level = record c { links = relink c.links (c.links 0 next) prev n; last = n } in
        rw (put_new, wraps, link_tail-some n)
          (rw (set_node-some n x tail (omega arith) (omega arith), z, h, head_kept n)
            (rw (h, z) refl))
