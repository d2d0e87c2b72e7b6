-- ===== src/Cache/Counting.antt =====
-- What `Get` of `Cache` (cache.go) counts and returns.
use lcache.Common.{
  ◌+◌, ◌^◌, ◌≤◌, ◌<◌, ◌≡◌, refl, sym, ap, subst, ◌∙◌, ◌⊎◌, inl, inr, true, false, Option, none,
  some, arith, Bool-cases, if-true, if-false,
}
use lcache.Common.Panics.{◌>>=◌, some-bind, bind-inv, some-inj}
use lcache.Common.Words.{add64, gt64, max_int64}
use lcache.Value.{Key, ByteView, Value, view, other}
use lcache.Store
use lcache.Store.{Store, lru, lru2, Env}
use lcache.Lru
use lcache.Lru.{Lru, Entry, cost}
use lcache.Lru.Invariant.{IsValid}
use lcache.Lru.Elements.{total}
use lcache.Lru.Reads.{set-get}
use lcache.Cache.Methods.{not-true, not-false, on_ready}
use lcache.Cache.{Cache, on_store, ensure_initialized, finish_add, add, answer, finish_get, get}

answer-counts :
    (found : Option (Option Value)) (c : Cache)
    → ((x : ByteView) × ((answer found c).1 ≡ some x)
        × ((answer found c).0.hits ≡ add64 c.hits 1)
        × ((answer found c).0.misses ≡ c.misses))
      ⊎ (((answer found c).1 ≡ none) × ((answer found c).0.misses ≡ add64 c.misses 1))
unfolding answer
answer-counts none c = inr (refl, refl)
answer-counts (some (some (view x))) c = inl (x, refl, refl, refl)
answer-counts (some (some (other tag size))) c = inr (refl, refl)
answer-counts (some none) c = inr (refl, refl)

abbrev Counts : Cache → Cache × Option ByteView → Type 0
Counts c p =
    ((x : ByteView) × (p.1 ≡ some x) × (p.0.hits ≡ add64 c.hits 1) × (p.0.misses ≡ c.misses))
    ⊎ ((p.1 ≡ none) × (p.0.misses ≡ add64 c.misses 1))

-- A `Get` of an open cache that returns counts one hit and no miss where it finds a value, and one
-- miss where it finds none.
pub get-counts :
    (e : Env) (key : Key) (c c' : Cache) (r : Option ByteView)
    → c.closed ≡ false
    → get e key c ≡ some (c', r)
    → ((x : ByteView) × (r ≡ some x) × (c'.hits ≡ add64 c.hits 1) × (c'.misses ≡ c.misses))
      ⊎ ((r ≡ none) × (c'.misses ≡ add64 c.misses 1))
unfolding get finish_get
get-counts e key c c' r o h = elim (Bool-cases c.initialized) [
  | inr i ↦
      let q = some-inj (sym (if-false _ _ o ∙ if-true _ _ (not-false i)) ∙ h) in
      inr (
        sym (ap (λ (p : Cache × Option ByteView). p.1) q),
        sym (ap (λ (p : Cache × Option ByteView). p.0.misses) q),
      )
  | inl i ↦
      let ((s, found), a, b) =
        bind-inv (on_store c.store (lcache.Store.get e key)) _
          (sym (if-false _ _ o ∙ if-false _ _ (not-true i)) ∙ h) in
      subst (Counts c) (some-inj b) (answer-counts found (record c { store = some s }))
]

add_ready :
    (e : Env) (key : Key) (value : ByteView) (c : Cache) (s : Lru)
    → c.initialized ≡ true
    → c.store ≡ some (lru s)
    → finish_add e key value c
      ≡ some (record c {
        store = some (
            lru (lcache.Lru.set_with_expiration e.range e.now e.later key (some (view value)) 0 s));
      })
unfolding finish_add ensure_initialized lcache.Store.set
add_ready e key value c s i q =
    let put = λ (d : Cache).
      on_store d.store (lcache.Store.set e key (some (view value)))
      >>= (λ t. some (record d { store = some t })) in
    ap put (if-true c _ i) ∙ some-bind _ (on_ready c _ (lru s) q)

-- A value that is added to a cache over the store of lru.go is returned by a `Get` that comes
-- next: under the conditions of that store's own theorem.
pub add-get :
    (e e' : Env) (key : Key) (value : ByteView) (c : Cache) (s : Lru)
    → c.closed ≡ false
    → c.initialized ≡ true
    → c.store ≡ some (lru s)
    → IsValid s
    → s.max_bytes < 2 ^ 64
    → total s.heap s.list + cost (record { key = key; value = view value }) ≤ max_int64
    → (gt64 s.max_bytes 0 ≡ true → cost (record { key = key; value = view value }) ≤ s.max_bytes)
    → (c' : Cache) × (c'' : Cache) × (add e key value c ≡ some c')
      × (get e' key c' ≡ some (c'', some value))
unfolding add finish_add get finish_get ensure_initialized lcache.Store.set lcache.Store.get answer
add-get e e' key value c s o i q v word small fits =
    let x : Value = view value in
    let s' = lcache.Lru.set_with_expiration e.range e.now e.later key (some x) 0 s in
    let c' : Cache = record c { store = some (lru s') } in
    let read : (lcache.Lru.get e'.now key s').1 ≡ some x =
      set-get e.range e.now e.later e'.now 0 key x s v word small fits (λ h. absurd (ground arith))
        (λ h. absurd (ground arith)) in
    (
      c',
      record c' { store = some (lru (lcache.Lru.get e'.now key s').0); hits = add64 c.hits 1 },
      if-false _ _ o ∙ add_ready e key value c s i q,
      if-false _ _ o ∙ (if-false _ _ (not-true i) ∙ rw read refl),
    )
