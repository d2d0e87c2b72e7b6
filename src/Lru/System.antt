-- ===== src/Lru/System.antt =====
-- store/lru.go under concurrent calls. Each critical section is one step; between the two parts of
-- a `Get`, and before a deletion that a `Get` has started runs, any other steps may come. `Clear` drops
-- its elements by `Init`, which leaves them linked to each other: a `Get` that has found one before
-- and moves it afterwards, as the key has been written again, breaks the list.
use lcache.Common.{◌⊎◌, Bool, true, false, Elem, none, some, ℕ, ◌≡◌, List, [], ◌∷◌, ◌++◌, Option}
use lcache.Common.GoMap.{lookup}
use lcache.Value.{Key, key_eq, Value, Options}
use lcache.Lru.Invariant.{IsValid}
use lcache.Lru.{
  Lru, Range, new_lru, miss, outdated, hit, read, touch, delete_key, set_with_expiration, clear,
  evict, get_with_expiration, update_expiration, set_max_bytes,
}

-- The cache, the `Get`s that hold an element and wait for the write lock, the deletions that `Get` has
-- started, the elements that `Clear` has dropped, and whether one of these has been moved.
pub record System : Type 0 where
  pub cache : Lru
  pub waiting : List (Key × ℕ)
  pub deleting : List Key
  pub dropped : List ℕ
  pub broken : Bool

unfoldable pub begin_get : ℕ → Key → System → System
begin_get now k s = elim (read now k s.cache) [
  | miss ↦ s
  | outdated ↦ record s { deleting = k ∷ s.deleting }
  | hit i x ↦ record s { waiting = (k, i) ∷ s.waiting }
]

-- One of the waiting goroutines, the ones before and after it, and its step.
pub data Step (r : Range) : System → System → Type 0 where
  begins : (s : System) (now : ℕ) (k : Key) → Step r s (begin_get now k s)
  finishes :
      (s : System) (before after : List (Key × ℕ)) (k : Key) (i : ℕ)
      → s.waiting ≡ before ++ (k, i) ∷ after
      → ¬ Elem i s.dropped ⊎ (lookup key_eq k s.cache.items ≡ none)
      → Step r s (record s { cache = touch k i s.cache; waiting = before ++ after })
  -- `MoveToBack` of a dropped element: the list may be anything from then on.
  breaks :
      (s : System) (before after : List (Key × ℕ)) (k : Key) (i j : ℕ) (c : Lru)
      → s.waiting ≡ before ++ (k, i) ∷ after
      → Elem i s.dropped
      → lookup key_eq k s.cache.items ≡ some j
      → Step r s (record s { cache = c; waiting = before ++ after; broken = true })
  deletes_late :
      (s : System) (before after : List Key) (k : Key)
      → s.deleting ≡ before ++ k ∷ after
      → Step r s (record s { cache = (delete_key k s.cache).0; deleting = before ++ after })
  sets :
      (s : System) (t now : ℕ) (k : Key) (x : Option Value) (expiration : ℕ)
      → Step r s (record s { cache = set_with_expiration r t now k x expiration s.cache })
  deletes : (s : System) (k : Key) → Step r s (record s { cache = (delete_key k s.cache).0 })
  cleans : (s : System) (now : ℕ) → Step r s (record s { cache = evict r now s.cache })
  clears :
      (s : System)
      → Step r s (record s { cache = clear r s.cache; dropped = s.cache.list ++ s.dropped })
  gets_expiring :
      (s : System) (now : ℕ) (k : Key)
      → Step r s (record s { cache = (get_with_expiration now k s.cache).0 })
  updates :
      (s : System) (now : ℕ) (k : Key) (expiration : ℕ)
      → Step r s (record s { cache = (update_expiration now k expiration s.cache).0 })
  resizes :
      (s : System) (now max : ℕ) → Step r s (record s { cache = set_max_bytes r now max s.cache })

abbrev pub start : Options → System
start opts = record {
  cache = new_lru opts;
  waiting = [];
  deleting = [];
  dropped = [];
  broken = false;
}

pub data Reach (r : Range) (opts : Options) : System → Type 0 where
  here : Reach r opts (start opts)
  next : {s u : System} → Reach r opts s → Step r s u → Reach r opts u

-- The cache is well-formed while no dropped element has been moved.
abbrev pub IsSafe : System → Type 0
IsSafe s = (s.broken ≡ true) ⊎ IsValid s.cache
