-- ===== src/Level/Renew.antt =====
-- The last node of a full level of store/lru2.go, written anew under another key.
use lcache.Common.{
  ℕ, ◌≡◌, sym, ap, subst, ◌∙◌, List, [], ◌∷◌, ◌++◌, map-append, Option, none, some, ite, arith,
  ◌&&◌, Bool, if◌then◌else◌, length, ==_eq,
}
use mathlib.Core.List.{append-nil}
use lcache.Common.GoMap.{lookup, insert, delete, lookup-insert, lookup-delete}
use lcache.Common.Words.{gt64}
use lcache.Value.{Key, key_eq, Value}
use lcache.Level.Chain.{prev, next, Absent}
use lcache.Level.Ring.{Linked-middle, Absent-middle, Apart-middle}
use lcache.Level.Order.{locate, Distinct, locate_last, Distinct-last, Distinct-middle}
use lcache.Level.Spec.{lookup_node, dropped}
use lcache.Level.Rep.{Rep, view, node, key_of, write, write_self, lookup_node-map-none}
use lcache.Level.Refine.{not_zero}
use lcache.Level.{Node, Level}
use lcache.Level.Kept.{
  Distinct-congr, keys_kept, locate_kept, length-map, last_live-append, if_both,
}

-- The place of the least recently used node, written anew under another key.
module _ (k : Key) (v : Option Value) (t : ℕ) (c : Level) (ys : List ℕ) (i : ℕ)
    (r : Rep c (ys ++ i ∷ [])) (e : lookup key_eq k c.hmap ≡ none) where
  abbrev pub renewed : Level
  renewed = record c {
    nodes = write c.nodes i (record { k = k; v = v; expire_at = t });
    hmap = insert key_eq k i (delete key_eq (node c.nodes i).k c.hmap);
  }

  pub last_link : c.links 0 prev ≡ i
  last_link = (Linked-middle c.links prev next 0 ys i [] 0 r.ring.linked).1.1

  pub apart_last : (Absent i ys) × (Absent 0 ys)
  apart_last =
      let a = (Apart-middle ys i [] r.ring.apart).0 in
      let z = (Absent-middle 0 ys i [] r.ring.nonzero).1 in
      (subst (Absent i) (append-nil ys) a, subst (Absent 0) (append-nil ys) z)

  pub last_unique :
      (locate (key_of c.nodes) (key_of c.nodes i) ys ≡ none) × Distinct (key_of c.nodes) ys
  last_unique =
      subst
        (λ l. (locate (key_of c.nodes) (key_of c.nodes i) l ≡ none) × Distinct (key_of c.nodes) l)
        (append-nil ys) (Distinct-middle (key_of c.nodes) ys i [] r.distinct)

  pub locate_old :
      (j : Key)
      → locate (key_of c.nodes) j (ys ++ i ∷ [])
        ≡ ite (key_eq (key_of c.nodes i) j) (some i) (locate (key_of c.nodes) j ys)
  locate_old j = locate_last (key_of c.nodes) j ys i last_unique.0

  pub absent_first : locate (key_of c.nodes) k ys ≡ none
  absent_first = let whole = sym (locate_old k) ∙ (sym (r.agree k) ∙ e) in ground (arith, whole)

  pub renewed_agree :
      (j : Key)
      → ite
          (key_eq k j)
          (some i)
          (ite (key_eq (key_of c.nodes i) j) none (locate (key_of c.nodes) j (ys ++ i ∷ [])))
        ≡ ite (key_eq k j) (some i) (locate (key_of c.nodes) j ys)
  renewed_agree j = ground (arith, locate_old j, last_unique.0)

  pub renewed-Rep : Rep renewed (ys ++ i ∷ [])
  renewed-Rep =
      let x : Node = record { k = k; v = v; expire_at = t } in
      let own : key_of (write c.nodes i x) i ≡ k =
        ap (λ (y : Node). y.k) (write_self c.nodes i x) in
      let i≢0 = not_zero c ys i [] r in
      let kept = locate_kept c.nodes i x ys i≢0 apart_last.1 apart_last.0 in
      let new : locate (key_of (write c.nodes i x)) (key_of (write c.nodes i x) i) ys ≡ none =
        rw own (kept k ∙ absent_first) in
      record {
        ring = r.ring;
        within = r.within;
        sized = r.sized;
        small = r.small;
        used = r.used;
        full = r.full;
        fits = r.fits;
        agree = λ j.
            lookup-insert key_eq k j i _
            ∙ rw
                (
                  lookup-delete key_eq (key_of c.nodes i) j c.hmap,
                  r.agree j,
                  locate_last _ j ys i new,
                  own,
                  kept j,
                )
                (renewed_agree j);
        distinct = Distinct-last _ ys i new (
            Distinct-congr _ _ ys (keys_kept c.nodes i x ys i≢0 apart_last.1 apart_last.0)
              last_unique.1);
      }

  module _ (reports : Bool) (full : c.last ≡ c.cap) where
    pub renewed_last :
        (lookup_node k (view c (ys ++ i ∷ [])) ≡ none)
        × (dropped reports c.cap k (view c (ys ++ i ∷ [])) ≡ (
            if reports && gt64 (node c.nodes i).expire_at 0
            then ((node c.nodes i).k, (node c.nodes i).v) ∷ []
            else []))
    unfolding dropped
    renewed_last =
        let xs : List ℕ = ys ++ i ∷ [] in
        let absent : lookup_node k (view c xs) ≡ none =
          lookup_node-map-none c.nodes k xs (sym (r.agree k) ∙ e) in
        let filled : length (view c xs) ≡ c.cap =
          omega (arith, length-map (node c.nodes) xs, r.full) in
        let cut : view c xs ≡ view c ys ++ node c.nodes i ∷ [] =
          map-append (node c.nodes) ys (i ∷ []) in
        let live = last_live-append (view c ys) (node c.nodes i) in
        (absent, rw (dropped, absent, ==_eq _ _ filled, cut, live) (if_both reports _ _ _))
