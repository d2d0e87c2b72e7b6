-- ===== src/Level/Moves.antt =====
-- `adjust` of store/lru2.go does not panic on a ring, and moves an index to one of its ends.
use lcache.Common.{
  ℕ, ◌<◌, ◌≡◌, ◌≢◌, sym, subst, List, [], ◌∷◌, ◌++◌, Option, some, arith, lt→ltb, ==_ne,
}
use mathlib.Core.List.{reverse}
use lcache.Level.Chain.{
  Links, Dir, relink, to_head, back_differs, forth_differs, Absent-left, Absent-right,
}
use lcache.Level.Ring.{
  IsRing, to_head-IsRing, reverse-IsRing, reverse_middle, reverse_moved, Linked-middle,
  Apart-middle, Absent-middle,
}
use lcache.Level.{Level, link, move, adjust}

-- Every link is an index into the array.
abbrev pub Within : ℕ → Links → Type 0
Within size l = (i : ℕ) (d : Dir) → l i d < size

pub relink-Within :
    (size : ℕ) (l : Links) (i : ℕ) (d : Dir) (x : ℕ)
    → Within size l
    → x < size
    → Within size (relink l i d x)
unfolding relink
relink-Within size l i d x w h j e = ground (arith, w j e)

relink_from :
    (l : Links) (f t : Dir) (i : ℕ)
    → f ≢ t
    → l i t ≢ i
    → (relink l (l i t) f (l i f) i f ≡ l i f) × (relink l (l i t) f (l i f) i t ≡ l i t)
unfolding relink
relink_from l f t i other apart = ground arith

module _ (c : Level) (f t : Dir) (i : ℕ) (other : f ≢ t) (w : Within c.size c.links) where
  move-some :
      i < c.size
      → 0 < c.size
      → c.links i t ≢ i
      → move i f t c ≡ some (record c { links = to_head c.links f t i })
  unfolding move
  move-some h z apart =
      let l = c.links in
      let l₁ : Links = relink l (l i t) f (l i f) in
      let w₁ = relink-Within c.size l (l i t) f (l i f) w (w i f) in
      let l₂ : Links = relink l₁ (l i f) t (l i t) in
      let w₂ = relink-Within c.size l₁ (l i f) t (l i t) w₁ (w i t) in
      let l₃ : Links = relink l₂ i f 0 in
      let w₃ = relink-Within c.size l₂ i f 0 w₂ z in
      let l₄ : Links = relink l₃ i t (l₃ 0 t) in
      let w₄ = relink-Within c.size l₃ i t (l₃ 0 t) w₃ (w₃ 0 t) in
      let same = relink_from l f t i other apart in
      simp (
        lt→ltb i c.size h,
        lt→ltb (l i t) c.size (w i t),
        lt→ltb (l i f) c.size (w i f),
        lt→ltb 0 c.size z,
        lt→ltb (l₄ 0 t) c.size (w₄ 0 t),
        same.0,
        same.1,
      )

  to_head-Within : i < c.size → 0 < c.size → Within c.size (to_head c.links f t i)
  to_head-Within h z =
      let s = c.size in
      let l = c.links in
      let l₁ : Links = relink l (l i t) f (l i f) in
      let w₁ = relink-Within s l (l i t) f (l i f) w (w i f) in
      let l₂ : Links = relink l₁ (l i f) t (l i t) in
      let w₂ = relink-Within s l₁ (l i f) t (l i t) w₁ (w i t) in
      let l₃ : Links = relink l₂ i f 0 in
      let w₃ = relink-Within s l₂ i f 0 w₂ z in
      let l₄ : Links = relink l₃ i t (l₃ 0 t) in
      let w₄ = relink-Within s l₃ i t (l₃ 0 t) w₃ (w₃ 0 t) in
      relink-Within s (relink l₄ (l₄ 0 t) f i) 0 t i (relink-Within s l₄ (l₄ 0 t) f i w₄ h) h

-- What `adjust` makes of the links: it does not panic, and they are a ring in the new order.
pub record Adjusts (c : Level) (r : Option Level) (xs : List ℕ) (f t : Dir) : Type 0 where
  pub links : Links
  pub result : r ≡ some (record c { links = links })
  pub ring : IsRing links f t xs
  pub within : Within c.size links

module _ (c : Level) (f t : Dir) (other : f ≢ t) (w : Within c.size c.links) (z : 0 < c.size) where
  adjust_first :
      (i : ℕ) (ys : List ℕ)
      → i < c.size
      → IsRing c.links f t (i ∷ ys)
      → Adjusts c (adjust i f t c) (i ∷ ys) f t
  unfolding adjust link
  adjust_first i ys h r = record {
    links = c.links;
    result = rw (lt→ltb i c.size h, r.linked.1);
    ring = r;
    within = w;
  }

  adjust_later :
      (x : ℕ) (xs : List ℕ) (i : ℕ) (ys : List ℕ)
      → i < c.size
      → IsRing c.links f t (x ∷ (xs ++ i ∷ ys))
      → Adjusts c (adjust i f t c) (i ∷ ((x ∷ xs) ++ ys)) f t
  unfolding adjust link
  adjust_later x xs i ys h r =
      let (front, back) = Linked-middle c.links f t 0 (x ∷ xs) i ys 0 r.linked in
      let (new, apart) = Apart-middle (x ∷ xs) i ys r.apart in
      let (i≢0, nonzero) = Absent-middle 0 (x ∷ xs) i ys r.nonzero in
      let before : c.links i f ≢ 0 =
        back_differs c.links f t other x 0 xs i nonzero.0 (Absent-left 0 xs ys nonzero.1) front.2 in
      let away : c.links i t ≢ i =
        forth_differs c.links f t other i i ys 0 (λ q. i≢0 (sym q)) (Absent-right i xs ys new.1)
          back in
      record {
        links = to_head c.links f t i;
        result =
            rw (lt→ltb i c.size h, ==_ne (c.links i f) 0 before)
              (move-some c f t i other w h z away);
        ring = to_head-IsRing c.links f t (x ∷ xs) i ys other r;
        within = to_head-Within c f t i other w h z;
      }

  -- `adjust` moves an index to the end from which `t` leads.
  pub adjust-Adjusts :
      (xs : List ℕ) (i : ℕ) (ys : List ℕ)
      → i < c.size
      → IsRing c.links f t (xs ++ i ∷ ys)
      → Adjusts c (adjust i f t c) (i ∷ (xs ++ ys)) f t
  adjust-Adjusts [] i ys h r = adjust_first i ys h r
  adjust-Adjusts (x ∷ xs) i ys h r = adjust_later x xs i ys h r

-- The same from the other end: `adjust` with the directions swapped.
pub adjust_last :
    (c : Level) (f t : Dir)
    → f ≢ t
    → Within c.size c.links
    → 0 < c.size
    → (xs : List ℕ) (i : ℕ) (ys : List ℕ) → i < c.size
    → IsRing c.links f t (xs ++ i ∷ ys)
    → Adjusts c (adjust i t f c) ((xs ++ ys) ++ i ∷ []) f t
adjust_last c f t other w z xs i ys h r =
    let backwards : IsRing c.links t f (reverse ys ++ i ∷ reverse xs) =
      subst (IsRing c.links t f) (reverse_middle xs i ys)
        (reverse-IsRing c.links f t (xs ++ i ∷ ys) r) in
    let a = adjust-Adjusts c t f (λ q. other (sym q)) w z (reverse ys) i (reverse xs) h backwards in
    record {
      links = a.links;
      result = a.result;
      ring =
          subst (IsRing a.links f t) (reverse_moved xs i ys)
            (reverse-IsRing a.links t f (i ∷ (reverse ys ++ reverse xs)) a.ring);
      within = a.within;
    }
