-- ===== src/Level/Chain.antt =====
-- Doubly linked lists in an array of index pairs, with 0 for both ends (`dlnk` of store/lru2.go).
use lcache.Common.{ℕ, ◌≡◌, ◌≢◌, refl, sym, ◌∙◌, List, [], ◌∷◌, ◌++◌, ite, arith, All, ℕ_discrete}

-- The second index of `dlnk`: `p` and `n`.
pub data Dir : Type 0 where
  prev next : Dir

unfoldable pub dir_eq : Discrete Dir
dir_eq prev prev = yes refl
dir_eq prev next = no (λ e. cc)
dir_eq next prev = no (λ e. cc)
dir_eq next next = yes refl

abbrev pub Links : Type 0
Links = ℕ → Dir → ℕ

unfoldable pub relink : Links → ℕ → Dir → ℕ → Links
relink l i d x j e = ite (ℕ_discrete i j) (ite (dir_eq d e) x (l j e)) (l j e)

-- From `a` the direction `t` leads through the list to `b`, and `f` leads back.
abbrev pub Linked : Links → Dir → Dir → ℕ → List ℕ → ℕ → Type 0
Linked l f t a [] b = (l a t ≡ b) × (l b f ≡ a)
Linked l f t a (x ∷ xs) b = (l a t ≡ x) × (l x f ≡ a) × Linked l f t x xs b

-- Not in the list; no index twice.
abbrev pub Absent : ℕ → List ℕ → Type 0
Absent i = All (λ x. x ≢ i)

abbrev pub Apart : List ℕ → Type 0
Apart [] = Unit
Apart (x ∷ xs) = Absent x xs × Apart xs

module _ (l : Links) (f t : Dir) (other : f ≢ t) where
  frame_to :
      (i v a : ℕ) (xs : List ℕ) (b : ℕ)
      → a ≢ i
      → Absent i xs
      → Linked l f t a xs b
      → Linked (relink l i t v) f t a xs b
  unfolding relink
  frame_to i v a [] b h hs k = ground arith
  frame_to i v a (x ∷ xs) b h hs k = ground (arith, frame_to i v x xs b hs.0 hs.1 k.2)

  frame_from :
      (i v a : ℕ) (xs : List ℕ) (b : ℕ)
      → b ≢ i
      → Absent i xs
      → Linked l f t a xs b
      → Linked (relink l i f v) f t a xs b
  unfolding relink
  frame_from i v a [] b h hs k = ground arith
  frame_from i v a (x ∷ xs) b h hs k = ground (arith, frame_from i v x xs b h hs.1 k.2)

  -- The last element of a list is the one that leads to `b` backwards, the first to `a` forwards.
  pub back_differs :
      (a c : ℕ) (xs : List ℕ) (b : ℕ) → a ≢ c → Absent c xs → Linked l f t a xs b → l b f ≢ c
  back_differs a c [] b h hs k = ground arith
  back_differs a c (x ∷ xs) b h hs k = back_differs x c xs b hs.0 hs.1 k.2

  pub forth_differs :
      (a c : ℕ) (xs : List ℕ) (b : ℕ) → b ≢ c → Absent c xs → Linked l f t a xs b → l a t ≢ c
  forth_differs a c [] b h hs k = ground arith
  forth_differs a c (x ∷ xs) b h hs k = ground arith

pub Absent-left : (c : ℕ) (xs ys : List ℕ) → Absent c (xs ++ ys) → Absent c xs
Absent-left c [] ys h = tt
Absent-left c (x ∷ xs) ys h = (h.0, Absent-left c xs ys h.1)

pub Absent-right : (c : ℕ) (xs ys : List ℕ) → Absent c (xs ++ ys) → Absent c ys
Absent-right c [] ys h = h
Absent-right c (x ∷ xs) ys h = Absent-right c xs ys h.1

-- The two writes that take `i` out, with what it leads to on both sides.
abbrev pub bypass : Links → Dir → Dir → ℕ → Links
bypass l f t i = relink (relink l (l i t) f (l i f)) (l i f) t (l i t)

module _ (l : Links) (f t : Dir) (other : f ≢ t) (i : ℕ) where
  bypass_frame :
      (x : ℕ) (bs : List ℕ) (b : ℕ)
      → b ≢ l i t
      → Absent (l i t) bs
      → x ≢ l i f
      → Absent (l i f) bs
      → Linked l f t x bs b
      → Linked (bypass l f t i) f t x bs b
  bypass_frame x bs b h₁ h₂ h₃ h₄ k =
      frame_to (relink l (l i t) f (l i f)) f t other (l i f) (l i t) x bs b h₃ h₄
        (frame_from l f t other (l i t) (l i f) x bs b h₁ h₂ k)

  bypass_first :
      (a : ℕ) (bs : List ℕ) (b : ℕ)
      → l i f ≡ a
      → Linked l f t i bs b
      → Absent a bs
      → Absent b bs
      → Apart bs
      → Linked (bypass l f t i) f t a bs b
  unfolding relink
  bypass_first a [] b e k ha hb d = ground arith
  bypass_first a (x ∷ bs) b e k ha hb d = (
    ground arith,
    ground arith,
    bypass_frame x bs b (λ q. hb.0 (rw q (sym k.0))) (rw k.0 d.0) (rw e ha.0) (rw e ha.1) k.2,
  )

  -- Taking `i` out of a list.
  pub bypass-Linked :
      (a : ℕ) (xs ys : List ℕ) (b : ℕ)
      → Linked l f t a xs i
      → Linked l f t i ys b
      → Absent a (xs ++ ys)
      → Absent b (xs ++ ys)
      → Apart (xs ++ ys)
      → Linked (bypass l f t i) f t a (xs ++ ys) b
  unfolding relink
  bypass-Linked a [] ys b k k' ha hb d = bypass_first a ys b k.1 k' ha hb d
  bypass-Linked a (x ∷ xs) ys b k k' ha hb d = (
    ground (arith, back_differs l f t other x a xs i ha.0 (Absent-left a xs ys ha.1) k.2),
    ground (
      arith,
      forth_differs l f t other i x ys b (λ q. hb.0 (sym q)) (Absent-right x xs ys d.0) k',
    ),
    bypass-Linked x xs ys b k.2 k' d.0 hb.1 d.1,
  )

-- The four writes that put `i` behind 0.
abbrev pub put_first : Links → Dir → Dir → ℕ → Links
put_first l f t i =
    let l' = relink (relink l i f 0) i t (relink l i f 0 0 t) in
    relink (relink l' (l' 0 t) f i) 0 t i

module _ (l : Links) (f t : Dir) (other : f ≢ t) (i : ℕ) where
  -- Putting `i` at the head of the list.
  pub put_first-Linked :
      (xs : List ℕ)
      → i ≢ 0
      → Absent i xs
      → Absent 0 xs
      → Apart xs
      → Linked l f t 0 xs 0
      → Linked (put_first l f t i) f t 0 (i ∷ xs) 0
  unfolding relink
  put_first-Linked [] h hs hz d k = ground arith
  put_first-Linked (x ∷ xs) h hs hz d k =
      let l₁ : Links = relink l i f 0 in
      let l₂ : Links = relink l₁ i t (l₁ 0 t) in
      let head : l₂ 0 t ≡ x = ground arith in
      let rest = frame_to (relink l₂ (l₂ 0 t) f i) f t other 0 i x xs 0 hz.0 hz.1 (
        frame_from l₂ f t other (l₂ 0 t) i x xs 0 (λ q. hz.0 (sym (q ∙ head))) (rw head d.0)
          (frame_to l₁ f t other i (l₁ 0 t) x xs 0 hs.0 hs.1
            (frame_from l f t other i 0 x xs 0 (λ q. h (sym q)) hs.1 k.2))) in
      (ground arith, ground (arith, head), (ground (arith, head), ground (arith, head), rest))

-- All writes of a move to the head.
abbrev pub to_head : Links → Dir → Dir → ℕ → Links
to_head l f t i = put_first (bypass l f t i) f t i
