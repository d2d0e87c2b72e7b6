-- ===== src/Lru2/Safe.antt =====
-- The methods of `lru2Store` (store/lru2.go) do not panic, and keep every bucket well-formed.
use Prim.Native.Nat.{bit_and, bit_and-bitwise, digits, min}
use lcache.Common.{
  ℕ, zero, suc, ◌/◌, ◌%◌, ◌≤◌, ◌<◌, ◌≡◌, ◌≢◌, refl, sym, subst, Bool, ◌&&◌, ◌||◌, List, [], Option,
  none, some, ite, arith, lt→ltb, ℕ_discrete, if◌then◌else◌,
}
use lcache.Common.GoMap.{lookup}
use lcache.Common.Words.{gt64, add64}
use lcache.Value.{Key, key_eq, Value}
use lcache.Level.Rep.{Rep, view, node, node_at-some}
use lcache.Level.Refine.{place, not_zero, in_cap}
use lcache.Level.Marks.{expiry_of, erased, del-refines}
use lcache.Level.Spec.{dropped}
use lcache.Level.Put.{put-refines}
use lcache.Level.Found.{found-written}
use lcache.Level.{Level, del}
use lcache.Lru2.Contents.{
  IsWithin, IsGone, IsWritten, erased-IsPart, set_bucket-IsWithin, set_bucket-IsGone,
  set_bucket-IsWritten, part-IsPut, IsPart-refl,
}
use lcache.Lru2.{
  Lru2, hash_bkrd, is_some, report, bucket, set_bucket, index, value_at, delete_at,
  set_with_expiration,
}

-- A level with room for a node, that stands for a list of nodes.
abbrev pub IsLevel : Level → Type 0
IsLevel c = ((xs : List ℕ) × Rep c xs) × (0 < c.cap)

-- Every bucket has two levels like that, and every masked hash is the index of a bucket.
pub record IsStore (s : Lru2) : Type 0 where
  pub levels : (i : ℕ) → i < s.buckets → IsLevel (s.caches i).0 × IsLevel (s.caches i).1
  pub covers : s.mask < s.buckets

min_le : (a b : ℕ) → min a b ≤ b
min_le a b = omega arith

digits_le : (n a b : ℕ) → digits (λ b. zero) min n a b ≤ b
digits_le zero a b = omega arith
digits_le (suc n) zero b = omega arith
digits_le (suc n) (suc a) b =
    omega (arith, digits_le n (suc a / 2) (b / 2), min_le (suc a % 2) (b % 2))

pub index-bound : (key : Key) (s : Lru2) → IsStore s → index key s < s.buckets
unfolding index
index-bound key s v =
    let h = hash_bkrd key in
    let e : bit_and h s.mask ≡ digits (λ b. 0) min h h s.mask = bit_and-bitwise h s.mask in
    omega (arith, e, digits_le h h s.mask, v.covers)

-- The node that the map of a level has for a key.
pub node_found :
    (c : Level) (xs : List ℕ) (k : Key) (i : ℕ)
    → Rep c xs
    → lookup key_eq k c.hmap ≡ some i
    → (0 ≢ i) × (i ≤ c.cap)
node_found c xs k i r e =
    let p = place c xs k i r e in
    (λ q. not_zero c p.before i p.after p.rep (sym q), in_cap c p.before i p.after p.rep)

pub expiry-found :
    (c : Level) (k : Key) (i t : ℕ) → expiry_of k c ≡ some (i, t) → lookup key_eq k c.hmap ≡ some i
unfolding expiry_of
expiry-found c k i t e = ground arith

abbrev IsBucket : Level × Level → Type 0
IsBucket b = IsLevel b.0 × IsLevel b.1

IsBucket-ite {ℓ} :
    {A : Type ℓ} (d : Dec A) (x y : Level × Level) → IsBucket x → IsBucket y → IsBucket (ite d x y)
IsBucket-ite (yes a) x y hx hy = hx
IsBucket-ite (no a) x y hx hy = hy

pub in_bucket :
    (i j : ℕ) (c : Level × Level) (calls : List (Key × Option Value)) (s : Lru2)
    → j < s.buckets
    → j < (set_bucket i c calls s).buckets
unfolding set_bucket
in_bucket i j c calls s h = h

-- What is stored in a bucket keeps the store well-formed.
pub set_bucket-IsStore :
    (i : ℕ) (c₀ c₁ : Level) (calls : List (Key × Option Value)) (s : Lru2)
    → IsStore s
    → IsLevel c₀
    → IsLevel c₁
    → IsStore (set_bucket i (c₀, c₁) calls s)
unfolding set_bucket
set_bucket-IsStore i c₀ c₁ calls s v h₀ h₁ = record {
  levels = λ j b. IsBucket-ite (ℕ_discrete i j) (c₀, c₁) (s.caches j) (h₀, h₁) (v.levels j b);
  covers = v.covers;
}

-- A write does not panic.
pub set_with_expiration-IsStore :
    (now : ℕ) (key : Key) (value : Option Value) (expiration : ℕ) (s : Lru2)
    → IsStore s
    → (s' : Lru2) × (set_with_expiration now key value expiration s ≡ some s')
      × IsStore s'
      × IsWritten (index key s) key value s' s
unfolding set_with_expiration bucket
set_with_expiration-IsStore now key value expiration s v =
    let i = index key s in
    let b = index-bound key s v in
    let ((x₀, r₀), h₀) = (v.levels i b).0 in
    let t = if gt64 expiration 0 then add64 now expiration else 0 in
    let p = put-refines s.on_evicted key value t (s.caches i).0 x₀ r₀ h₀ in
    let calls = dropped s.on_evicted (s.caches i).0.cap key (view (s.caches i).0 x₀) in
    (
      set_bucket i (p.0, (s.caches i).1) calls s,
      rw (lt→ltb i s.buckets b, p.2) refl,
      set_bucket-IsStore i p.0 (s.caches i).1 _ s v ((p.1, p.3), subst (λ n. 0 < n) (sym p.5) h₀)
          (v.levels i b).1,
      set_bucket-IsWritten i key value p.0 (s.caches i).1 calls s
          (λ j. found-written j key value t (s.caches i).0 p.0 x₀ p.1 r₀ p.3 p.4)
          (part-IsPut key value _ _ (IsPart-refl (s.caches i).1)),
    )

-- A deletion from a level: the state after it, and the value of the node that it marked.
pub record Deleted (key : Key) (c : Level) : Type 0 where
  pub after : Level
  pub value : Option Value
  pub result : del key c ≡ some (after, expiry_of key c)
  pub level : IsLevel after
  pub same : after.cap ≡ c.cap
  pub read : value_at (expiry_of key c) after ≡ some value
  pub marks : after ≡ record c { links = after.links; nodes = erased key c }

value_found :
    (key : Key) (c c' : Level) (r : Option (ℕ × ℕ))
    → expiry_of key c ≡ r
    → IsLevel c
    → IsLevel c'
    → c'.cap ≡ c.cap
    → (v : Option Value) × (value_at r c' ≡ some v)
unfolding value_at
value_found key c c' none e l l' q = (none, refl)
value_found key c c' (some (i, t)) e l l' q =
    let f = node_found c l.0.0 key i l.0.1 (expiry-found c key i t e) in
    ((node c'.nodes i).v, rw (node_at-some i c' f.0 (omega (arith, f.1, q))) refl)

pub delete_level : (key : Key) (c : Level) → IsLevel c → Deleted key c
delete_level key c l =
    let p = del-refines c l.0.0 key l.0.1 in
    let l' : IsLevel p.0 = ((p.1, p.3), subst (λ n. 0 < n) (sym p.5) l.1) in
    let w = value_found key c p.0 (expiry_of key c) refl l l' p.5 in
    record {
      after = p.0;
      value = w.0;
      result = p.2;
      level = l';
      same = p.5;
      read = w.1;
      marks = p.6;
    }

pub delete_at-IsStore :
    (key : Key) (i : ℕ) (s : Lru2)
    → IsStore s
    → i < s.buckets
    → (s' : Lru2) × (deleted : Bool) × (delete_at key i s ≡ some (s', deleted))
      × IsStore s'
      × (s'.buckets ≡ s.buckets)
      × IsWithin s' s
      × IsGone key (s'.caches i)
unfolding delete_at bucket set_bucket
delete_at-IsStore key i s v b =
    let d₀ = delete_level key (s.caches i).0 (v.levels i b).0 in
    let d₁ = delete_level key (s.caches i).1 (v.levels i b).1 in
    let e₀ = erased-IsPart key (s.caches i).0 d₀.after d₀.marks in
    let e₁ = erased-IsPart key (s.caches i).1 d₁.after d₁.marks in
    let deleted =
      is_some (expiry_of key (s.caches i).0) || is_some (expiry_of key (s.caches i).1) in
    let calls : List (Key × Option Value) =
      if deleted && s.on_evicted then report key d₀.value d₁.value else [] in
    (
      set_bucket i (d₀.after, d₁.after) calls s,
      deleted,
      rw (lt→ltb i s.buckets b, d₀.result) (rw d₁.result (rw (d₀.read, d₁.read) refl)),
      set_bucket-IsStore i d₀.after d₁.after _ s v d₀.level d₁.level,
      refl,
      set_bucket-IsWithin i d₀.after d₁.after calls s e₀.0 e₁.0,
      set_bucket-IsGone i key d₀.after d₁.after calls s e₀.1 e₁.1,
    )
