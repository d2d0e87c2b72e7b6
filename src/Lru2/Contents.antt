-- ===== src/Lru2/Contents.antt =====
-- What the two-level store of store/lru2.go has for a key, in either level of a bucket.
use lcache.Common.{
  ℕ, ◌≡◌, refl, sym, subst, ap, ◌∙◌, ◌⊎◌, inl, inr, List, Option, none, some, true, ite, if_pos,
  arith, ℕ_discrete,
}
use lcache.Common.GoMap.{lookup}
use lcache.Common.Words.{gt64}
use lcache.Value.{Key, key_eq, Value}
use lcache.Level.Found.{found, found-erased, found-erased_self, found-expiry, live_value}
use lcache.Level.Rep.{node}
use lcache.Level.Marks.{erased, expiry_of}
use lcache.Level.{Level}
use lcache.Lru2.{Lru2, set_bucket, index}

abbrev pub InLevels : Level × Level → Key → Option Value → Type 0
InLevels c j v = (found j c.0 ≡ some v) ⊎ (found j c.1 ≡ some v)

-- A bucket has a live node with the key and the value.
abbrev pub Has : Lru2 → ℕ → Key → Option Value → Type 0
Has s i j v = InLevels (s.caches i) j v

-- One store has no more than another.
abbrev pub IsWithin : Lru2 → Lru2 → Type 0
IsWithin s' s =
    (s'.mask ≡ s.mask) × ((i : ℕ) (j : Key) (v : Option Value) → Has s' i j v → Has s i j v)

pub IsWithin-refl : (s : Lru2) → IsWithin s s
IsWithin-refl s = (refl, λ i j v h. h)

pub IsWithin-trans : (a b c : Lru2) → IsWithin b a → IsWithin c b → IsWithin c a
IsWithin-trans a b c h k = (k.0 ∙ h.0, λ i j v x. h.1 i j v (k.1 i j v x))

-- What a level keeps of another.
abbrev pub IsPart : Level → Level → Type 0
IsPart c' c = (j : Key) → (found j c' ≡ none) ⊎ (found j c' ≡ found j c)

pub IsPart-refl : (c : Level) → IsPart c c
IsPart-refl c j = inr refl

pub erased-IsPart :
    (k : Key) (c c' : Level)
    → c' ≡ record c { links = c'.links; nodes = erased k c }
    → IsPart c' c × (found k c' ≡ none)
erased-IsPart k c c' e = (
  λ j.
      subst (λ x. (found j x ≡ none) ⊎ (found j x ≡ found j c)) (sym e)
        (found-erased j k c'.links c),
  subst (λ x. found k x ≡ none) (sym e) (found-erased_self k c'.links c),
)

pub moved-IsPart : (c c' : Level) → c' ≡ record c { links = c'.links } → IsPart c' c
unfolding found
moved-IsPart c c' e j = inr (subst (λ x. found j x ≡ found j c) (sym e) refl)

assigned :
    {A : Type 0} (d : Dec A) (c c' : Level × Level) (j : Key) (v : Option Value)
    → InLevels (ite d c c') j v
    → InLevels c' j v ⊎ (A × InLevels c j v)
assigned (yes a) c c' j v h = inr (a, h)
assigned (no a) c c' j v h = inl h

part_found :
    (c c' : Level) (j : Key) (v : Option Value)
    → IsPart c' c
    → found j c' ≡ some v
    → found j c ≡ some v
part_found c c' j v p h = ground (arith, p j)

part_has :
    (c c' : Level × Level) (j : Key) (v : Option Value)
    → IsPart c'.0 c.0
    → IsPart c'.1 c.1
    → InLevels c' j v
    → InLevels c j v
part_has c c' j v p q (inl h) = inl (part_found c.0 c'.0 j v p h)
part_has c c' j v p q (inr h) = inr (part_found c.1 c'.1 j v q h)

-- A bucket after an assignment is another one, or has what was assigned.
pub set_bucket-Has :
    (i : ℕ) (c : Level × Level) (calls : List (Key × Option Value)) (s : Lru2) (n : ℕ) (j : Key)
    (v : Option Value)
    → Has (set_bucket i c calls s) n j v
    → Has s n j v ⊎ ((i ≡ n) × InLevels c j v)
unfolding set_bucket
set_bucket-Has i c calls s n j v h = assigned (ℕ_discrete i n) c (s.caches n) j v h

pub set_bucket-IsWithin :
    (i : ℕ) (c₀ c₁ : Level) (calls : List (Key × Option Value)) (s : Lru2)
    → IsPart c₀ (s.caches i).0
    → IsPart c₁ (s.caches i).1
    → IsWithin (set_bucket i (c₀, c₁) calls s) s
unfolding set_bucket
set_bucket-IsWithin i c₀ c₁ calls s p q = (
  refl,
  λ n j v h. elim (set_bucket-Has i (c₀, c₁) calls s n j v h) [
    | inl h ↦ h
    | inr (e, h) ↦ subst (λ n. Has s n j v) e (part_has (s.caches i) (c₀, c₁) j v p q h)
  ],
)

-- A store after a write has what it had, and what was written.
abbrev pub IsWritten : ℕ → Key → Option Value → Lru2 → Lru2 → Type 0
IsWritten i key value s' s =
    (s'.mask ≡ s.mask)
    × ((n : ℕ) (j : Key) (v : Option Value)
        → Has s' n j v
        → Has s n j v ⊎ ((i ≡ n) × (key ≡ j) × (value ≡ v)))

abbrev pub IsPut : Key → Option Value → Level → Level → Type 0
IsPut k v c' c =
    (j : Key) → (found j c' ≡ none) ⊎ (found j c' ≡ found j c) ⊎ ((k ≡ j) × (found j c' ≡ some v))

pub part-IsPut : (k : Key) (v : Option Value) (c c' : Level) → IsPart c' c → IsPut k v c' c
part-IsPut k v c c' p j = ground (arith, p j)

put_found :
    (k : Key) (x : Option Value) (c c' : Level) (j : Key) (v : Option Value)
    → IsPut k x c' c
    → found j c' ≡ some v
    → (found j c ≡ some v) ⊎ ((k ≡ j) × (x ≡ v))
put_found k x c c' j v p h = ground (arith, p j)

put_has :
    (k : Key) (x : Option Value) (c c' : Level × Level) (j : Key) (v : Option Value)
    → IsPut k x c'.0 c.0
    → IsPut k x c'.1 c.1
    → InLevels c' j v
    → InLevels c j v ⊎ ((k ≡ j) × (x ≡ v))
put_has k x c c' j v p q (inl h) = ground (arith, put_found k x c.0 c'.0 j v p h)
put_has k x c c' j v p q (inr h) = ground (arith, put_found k x c.1 c'.1 j v q h)

pub set_bucket-IsWritten :
    (i : ℕ) (k : Key) (x : Option Value) (c₀ c₁ : Level) (calls : List (Key × Option Value))
    (s : Lru2)
    → IsPut k x c₀ (s.caches i).0
    → IsPut k x c₁ (s.caches i).1
    → IsWritten i k x (set_bucket i (c₀, c₁) calls s) s
unfolding set_bucket
set_bucket-IsWritten i k x c₀ c₁ calls s p q = (
  refl,
  λ n j v h. elim (set_bucket-Has i (c₀, c₁) calls s n j v h) [
    | inl h ↦ inl h
    | inr (e, h) ↦ elim (put_has k x (s.caches i) (c₀, c₁) j v p q h) [
      | inl h ↦ inl (subst (λ n. Has s n j v) e h)
      | inr (a, b) ↦ inr (e, a, b)
    ]
  ],
)

-- A write of what was there adds nothing.
pub IsWritten-same_value :
    (i : ℕ) (k : Key) (x : Option Value) (s s' : Lru2)
    → IsWritten i k x s' s
    → Has s i k x
    → IsWithin s' s
IsWritten-same_value i k x s s' w h = (
  w.0,
  λ n j v y. elim (w.1 n j v y) [
    | inl old ↦ old
    | inr (a, b, e) ↦
        subst (λ n. Has s n j v) a (subst (λ j. Has s i j v) b (subst (λ v. Has s i k v) e h))
  ],
)

-- A bucket without a live node for a key.
abbrev pub IsGone : Key → Level × Level → Type 0
IsGone k c = (found k c.0 ≡ none) × (found k c.1 ≡ none)

pub set_bucket-IsGone :
    (i : ℕ) (k : Key) (c₀ c₁ : Level) (calls : List (Key × Option Value)) (s : Lru2)
    → found k c₀ ≡ none
    → found k c₁ ≡ none
    → IsGone k ((set_bucket i (c₀, c₁) calls s).caches i)
unfolding set_bucket
set_bucket-IsGone i k c₀ c₁ calls s a b =
    subst (IsGone k) (sym (if_pos (ℕ_discrete i i) refl (c₀, c₁) (s.caches i))) (a, b)

-- What `Get` may answer: nothing, or a value that the bucket has for the key.
abbrev pub IsAnswer : Lru2 → ℕ → Key → Option (Option Value) → Type 0
IsAnswer s i k r = (r ≡ none) ⊎ ((v : Option Value) × (r ≡ some v) × Has s i k v)

pub moved-found :
    (k : Key) (j : ℕ) (c c' : Level)
    → c' ≡ record c { links = c'.links }
    → lookup key_eq k c.hmap ≡ some j
    → gt64 (node c'.nodes j).expire_at 0 ≡ true
    → found k c ≡ some (node c'.nodes j).v
unfolding found live_value
moved-found k j c c' e h live =
    let fresh : gt64 (node c.nodes j).expire_at 0 ≡ true =
      subst (λ x. gt64 (node x.nodes j).expire_at 0 ≡ true) e live in
    rw e (rw (found, h, live_value, fresh) refl)

pub erased-found :
    (k : Key) (i t : ℕ) (c c' : Level)
    → c' ≡ record c { links = c'.links; nodes = erased k c }
    → expiry_of k c ≡ some (i, t)
    → found k c ≡ some (node c'.nodes i).v
erased-found k i t c c' e h = found-expiry k c i t h ∙ ap (λ x. some (node x.nodes i).v) (sym e)

pub gone_has : (k : Key) (c : Level × Level) (v : Option Value) → IsGone k c → InLevels c k v → ⊥
gone_has k c v g h = ground (arith, g.0, g.1, h)

-- Every live node is in the bucket of its key.
abbrev pub IsPlaced : Lru2 → Type 0
IsPlaced s = (i : ℕ) (j : Key) (v : Option Value) → Has s i j v → index j s ≡ i

-- No bucket has a live node.
abbrev pub IsEmpty : Lru2 → Type 0
IsEmpty s = (i : ℕ) (j : Key) (v : Option Value) → Has s i j v → ⊥

pub index_kept : (k : Key) (s s' : Lru2) → s'.mask ≡ s.mask → index k s' ≡ index k s
unfolding index
index_kept k s s' e = rw e refl
