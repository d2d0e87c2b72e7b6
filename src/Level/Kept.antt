-- ===== src/Level/Kept.antt =====
-- Nodes of a level of store/lru2.go that a write leaves as they are, and the last node of a list.
use lcache.Common.{
  ℕ, suc, ◌≡◌, ◌≢◌, refl, sym, ap, ◌∙◌, List, [], ◌∷◌, ◌++◌, map, All, All-mono, ◌&&◌, Bool, true,
  false, if◌then◌else◌, length,
}
use lcache.Common.Words.{gt64}
use lcache.Value.{Key}
use lcache.Level.Chain.{Absent}
use lcache.Level.Order.{locate, Distinct, locate-congr}
use lcache.Level.Spec.{but_last, last_live}
use lcache.Level.Rep.{node, key_of, write, write_others, map-congr}
use lcache.Level.{Node}

pub Distinct-congr :
    (κ κ' : ℕ → Key) (xs : List ℕ) → All (λ i. κ i ≡ κ' i) xs → Distinct κ xs → Distinct κ' xs
Distinct-congr κ κ' [] h d = tt
Distinct-congr κ κ' (x ∷ xs) h d =
    (rw (sym h.0) (sym (locate-congr κ κ' (κ x) xs h.1) ∙ d.0), Distinct-congr κ κ' xs h.1 d.1)

-- Writing at an index that the list does not have.
module _ (nodes : ℕ → Node) (n : ℕ) (x : Node) (xs : List ℕ) (h : n ≢ 0) (z : Absent 0 xs)
    (a : Absent n xs) where
  pub keys_kept : All (λ j. key_of nodes j ≡ key_of (write nodes n x) j) xs
  keys_kept =
      All-mono _ _ xs (λ j e. sym (ap (λ (y : Node). y.k) e)) (write_others nodes n x xs h z a)

  pub nodes_kept : map (node (write nodes n x)) xs ≡ map (node nodes) xs
  nodes_kept = map-congr _ _ xs (write_others nodes n x xs h z a)

  pub locate_kept : (k : Key) → locate (key_of (write nodes n x)) k xs ≡ locate (key_of nodes) k xs
  locate_kept k = sym (locate-congr _ _ k xs keys_kept)

pub length-map : (f : ℕ → Node) (xs : List ℕ) → length (map f xs) ≡ length xs
length-map f [] = refl
length-map f (x ∷ xs) = ap suc (length-map f xs)

-- The last element of a list that is not empty.
pub split_last :
    {A : Type 0} (x : A) (xs : List A) → (ys : List A) × (y : A) × (x ∷ xs ≡ ys ++ y ∷ [])
split_last x [] = ([], x, refl)
split_last x (y ∷ xs) = let (ys, z, e) = split_last y xs in (x ∷ ys, z, ap (◌∷◌ x) e)

pub but_last-append : (l : List Node) (x : Node) → but_last (l ++ x ∷ []) ≡ l
unfolding but_last
but_last-append [] x = refl
but_last-append (y ∷ []) x = refl
but_last-append (y ∷ z ∷ l) x = ap (◌∷◌ y) (but_last-append (z ∷ l) x)

pub last_live-append :
    (l : List Node) (x : Node)
    → last_live (l ++ x ∷ []) ≡ (if gt64 x.expire_at 0 then (x.k, x.v) ∷ [] else [])
unfolding last_live
last_live-append [] x = refl
last_live-append (y ∷ []) x = refl
last_live-append (y ∷ z ∷ l) x = last_live-append (z ∷ l) x

pub if_both {ℓ} :
    {A : Type ℓ} (a b : Bool) (x y : A)
    → (if a then (if b then x else y) else y) ≡ (if a && b then x else y)
if_both true b x y = refl
if_both false b x y = refl
