-- ===== src/Level/Ring.antt =====
-- The ring of store/lru2.go's `dlnk`: moving an index to the head or the tail of the list.
use mathlib.Core.List.{reverse, reverse-cons, reverse-append, reverse-reverse, append_assoc}
use lcache.Common.{ℕ, ◌≡◌, ◌≢◌, sym, List, [], ◌∷◌, ◌++◌, All-append}
use lcache.Level.Chain.{
  Links, Dir, Linked, Absent, Apart, bypass, to_head, bypass-Linked, put_first-Linked,
}

pub Absent-middle :
    (c : ℕ) (xs : List ℕ) (i : ℕ) (ys : List ℕ)
    → Absent c (xs ++ i ∷ ys)
    → (i ≢ c) × Absent c (xs ++ ys)
Absent-middle c [] i ys h = h
Absent-middle c (x ∷ xs) i ys h = let rest = Absent-middle c xs i ys h.1 in (rest.0, (h.0, rest.1))

pub Apart-middle :
    (xs : List ℕ) (i : ℕ) (ys : List ℕ)
    → Apart (xs ++ i ∷ ys)
    → Absent i (xs ++ ys) × Apart (xs ++ ys)
Apart-middle [] i ys d = d
Apart-middle (x ∷ xs) i ys d =
    let rest = Apart-middle xs i ys d.1 in
    let here = Absent-middle x xs i ys d.0 in (((λ q. here.0 (sym q)), rest.0), (here.1, rest.1))

pub Linked-middle :
    (l : Links) (f t : Dir) (a : ℕ) (xs : List ℕ) (i : ℕ) (ys : List ℕ) (b : ℕ)
    → Linked l f t a (xs ++ i ∷ ys) b
    → Linked l f t a xs i × Linked l f t i ys b
Linked-middle l f t a [] i ys b k = ((k.0, k.1), k.2)
Linked-middle l f t a (x ∷ xs) i ys b k =
    let rest = Linked-middle l f t x xs i ys b k.2 in ((k.0, k.1, rest.0), rest.1)

-- A well-formed ring: linked both ways, no index twice, none of them 0.
pub record IsRing (l : Links) (f t : Dir) (xs : List ℕ) : Type 0 where
  pub linked : Linked l f t 0 xs 0
  pub apart : Apart xs
  pub nonzero : Absent 0 xs

-- A move to the head is what it says.
pub to_head-IsRing :
    (l : Links) (f t : Dir) (xs : List ℕ) (i : ℕ) (ys : List ℕ)
    → f ≢ t
    → IsRing l f t (xs ++ i ∷ ys)
    → IsRing (to_head l f t i) f t (i ∷ (xs ++ ys))
to_head-IsRing l f t xs i ys other r =
    let (front, back) = Linked-middle l f t 0 xs i ys 0 r.linked in
    let (new, apart) = Apart-middle xs i ys r.apart in
    let (i≢0, nonzero) = Absent-middle 0 xs i ys r.nonzero in
    record {
      linked =
          put_first-Linked (bypass l f t i) f t other i (xs ++ ys) i≢0 new nonzero apart
            (bypass-Linked l f t other i 0 xs ys 0 front back nonzero nonzero apart);
      apart = (new, apart);
      nonzero = (i≢0, nonzero);
    }

Linked-append :
    (l : Links) (f t : Dir) (a : ℕ) (xs : List ℕ) (i : ℕ) (ys : List ℕ) (b : ℕ)
    → Linked l f t a xs i
    → Linked l f t i ys b
    → Linked l f t a (xs ++ i ∷ ys) b
Linked-append l f t a [] i ys b h k = (h.0, h.1, k)
Linked-append l f t a (x ∷ xs) i ys b h k = (h.0, h.1, Linked-append l f t x xs i ys b h.2 k)

reverse-Linked :
    (l : Links) (f t : Dir) (a : ℕ) (xs : List ℕ) (b : ℕ)
    → Linked l f t a xs b
    → Linked l t f b (reverse xs) a
reverse-Linked l f t a [] b k = (k.1, k.0)
reverse-Linked l f t a (x ∷ xs) b k =
    rw (reverse-cons x xs)
      (Linked-append l t f b (reverse xs) x [] a (reverse-Linked l f t x xs b k.2) (k.1, k.0))

Absent-append : (c : ℕ) (xs ys : List ℕ) → Absent c xs → Absent c ys → Absent c (xs ++ ys)
Absent-append c xs ys = All-append (λ x. x ≢ c) xs ys

reverse-Absent : (c : ℕ) (xs : List ℕ) → Absent c xs → Absent c (reverse xs)
reverse-Absent c [] h = tt
reverse-Absent c (x ∷ xs) h =
    rw (reverse-cons x xs)
      (Absent-append c (reverse xs) (x ∷ []) (reverse-Absent c xs h.1) (h.0, tt))

append-Apart : (x : ℕ) (xs : List ℕ) → Apart xs → Absent x xs → Apart (xs ++ x ∷ [])
append-Apart x [] d h = (tt, tt)
append-Apart x (y ∷ xs) d h =
    (Absent-append y xs (x ∷ []) d.0 ((λ q. h.0 (sym q)), tt), append-Apart x xs d.1 h.1)

reverse-Apart : (xs : List ℕ) → Apart xs → Apart (reverse xs)
reverse-Apart [] d = tt
reverse-Apart (x ∷ xs) d =
    rw (reverse-cons x xs)
      (append-Apart x (reverse xs) (reverse-Apart xs d.1) (reverse-Absent x xs d.0))

-- Read backwards a ring is the reversed list.
pub reverse-IsRing :
    (l : Links) (f t : Dir) (xs : List ℕ) → IsRing l f t xs → IsRing l t f (reverse xs)
reverse-IsRing l f t xs r = record {
  linked = reverse-Linked l f t 0 xs 0 r.linked;
  apart = reverse-Apart xs r.apart;
  nonzero = reverse-Absent 0 xs r.nonzero;
}

pub reverse_middle :
    (xs : List ℕ) (i : ℕ) (ys : List ℕ) → reverse (xs ++ i ∷ ys) ≡ reverse ys ++ i ∷ reverse xs
reverse_middle xs i ys = simp (reverse-append, reverse-cons, append_assoc)

pub reverse_moved :
    (xs : List ℕ) (i : ℕ) (ys : List ℕ)
    → reverse (i ∷ (reverse ys ++ reverse xs)) ≡ (xs ++ ys) ++ i ∷ []
reverse_moved xs i ys = simp (reverse-cons, reverse-append, reverse-reverse)
