-- ===== src/Cache/Methods.antt =====
-- Each method of `Cache` (cache.go) returns, and keeps the cache well-formed.
use lcache.Common.{
  ℕ, ◌≡◌, refl, sym, ap, subst, ◌∙◌, ◌⊎◌, inl, inr, Bool, true, false, ◌||◌, not, Option, none,
  some, arith, Bool-cases, if-true, if-false, leb,
}
use lcache.Common.Panics.{some-bind}
use Prim.Native.Nat.{min, ◌-◌}
use lcache.Common.Words.{add64, max_int64}
use lcache.Value.{Key, ByteView, Value, view, other}
use lcache.Store.{Store, Env}
use lcache.Store.Total.{
  IsStored, IsConfigured, new_store-IsStored, get-IsStored, set-IsStored,
  set_with_expiration-IsStored, delete-IsStored, clear-IsStored, len-IsStored, close-IsStored,
}
use lcache.Cache.{
  Cache, CacheOptions, new_cache, store_options, ensure_initialized, on_store, finish_add, add,
  add_with_expiration, answer, finish_get, get, delete, clear, len, close_store, close,
}

-- A cache has a store exactly when it is initialized, and none when it is closed.
pub record IsCache (c : Cache) : Type 0 where
  pub ready : c.initialized ≡ true → (s : Store) × (c.store ≡ some s) × IsStored s
  pub bare : c.initialized ≡ false → c.store ≡ none
  pub shut : c.closed ≡ true → c.initialized ≡ false
  pub configured : IsConfigured (store_options c.opts)

clash : true ≡ false → ⊥
clash e = cc

pub new_cache-IsCache :
    (opts : CacheOptions) → IsConfigured (store_options opts) → IsCache (new_cache opts)
unfolding new_cache
new_cache-IsCache opts h = record {
  ready = λ e. cc;
  bare = λ e. refl;
  shut = λ e. refl;
  configured = h;
}

-- The store of a cache put back after a call.
stored-IsCache :
    (c : Cache) (s : Store) (hits misses : ℕ)
    → IsCache c
    → c.initialized ≡ true
    → IsStored s
    → IsCache (record c { store = some s; hits = hits; misses = misses })
stored-IsCache c s hits misses v i h = record {
  ready = λ e. (s, refl, h);
  bare = λ e. absurd (clash (sym i ∙ e));
  shut = v.shut;
  configured = v.configured;
}

abbrev Ready : Cache → Type 0
Ready c = IsCache c × (c.initialized ≡ true)

ensure-Ready : (c : Cache) → IsCache c → c.closed ≡ false → Ready (ensure_initialized c)
unfolding ensure_initialized
ensure-Ready c v o = elim (Bool-cases c.initialized) [
  | inl i ↦ subst Ready (sym (if-true c _ i)) (v, i)
  | inr i ↦ subst Ready (sym (if-false c _ i)) (
    record {
      ready =
          λ e. (_, refl, new_store-IsStored c.opts.cache_type (store_options c.opts) v.configured);
      bare = λ e. absurd (clash e);
      shut = λ e. absurd (clash (sym e ∙ o));
      configured = v.configured;
    },
    refl,
  )
]

-- A method of the store of a cache that is ready.
pub on_ready {ℓ} :
    {A : Type ℓ} (c : Cache) (f : Store → Option A) (s : Store)
    → c.store ≡ some s
    → on_store c.store f ≡ f s
on_ready c f s e = rw e

-- A call returns, and leaves a cache that is well-formed.
abbrev pub Returns : Option Cache → Type 0
Returns o = (c' : Cache) × (o ≡ some c') × IsCache c'

finish_add-Returns :
    (e : Env) (key : Key) (value : ByteView) (c : Cache)
    → IsCache c
    → c.closed ≡ false
    → Returns (finish_add e key value c)
unfolding finish_add
finish_add-Returns e key value c v o =
    let (v', i) = ensure-Ready c v o in
    let (s, q, h) = v'.ready i in
    let r = set-IsStored e key (some (view value)) s h in
    let c' = ensure_initialized c in
    (
      record c' { store = some r.0 },
      some-bind _ (on_ready c' _ s q ∙ r.1),
      stored-IsCache c' r.0 c'.hits c'.misses v' i r.2,
    )

pub add-Returns :
    (e : Env) (key : Key) (value : ByteView) (c : Cache) → IsCache c → Returns (add e key value c)
unfolding add
add-Returns e key value c v = elim (Bool-cases c.closed) [
  | inl o ↦ (c, if-true _ _ o, v)
  | inr o ↦ let r = finish_add-Returns e key value c v o in (r.0, if-false _ _ o ∙ r.1, r.2)
]

pub add_with_expiration-Returns :
    (e : Env) (key : Key) (value : ByteView) (t : ℕ) (c : Cache)
    → IsCache c
    → Returns (add_with_expiration e key value t c)
unfolding add_with_expiration
add_with_expiration-Returns e key value t c v = elim (Bool-cases c.closed) [
  | inl o ↦ (c, if-true _ _ o, v)
  | inr o ↦
      let (v', i) = ensure-Ready c v o in
      let (s, q, h) = v'.ready i in
      let c' = ensure_initialized c in
      let r =
        set_with_expiration-IsStored e key (some (view value)) (min (t - e.start) max_int64) s h in
      elim (Bool-cases (leb t e.start)) [
        | inl past ↦ (c', if-false _ _ o ∙ if-true _ _ past, v')
        | inr ahead ↦ (
          record c' { store = some r.0 },
          if-false _ _ o ∙ (if-false _ _ ahead ∙ some-bind _ (on_ready c' _ s q ∙ r.1)),
          stored-IsCache c' r.0 c'.hits c'.misses v' i r.2,
        )
      ]
]

answer-IsCache :
    (found : Option (Option Value)) (s : Store) (c : Cache)
    → IsCache c
    → c.initialized ≡ true
    → IsStored s
    → IsCache (answer found (record c { store = some s })).0
unfolding answer
answer-IsCache none s c v i h = stored-IsCache c s c.hits (add64 c.misses 1) v i h
answer-IsCache (some (some (view x))) s c v i h = stored-IsCache c s (add64 c.hits 1) c.misses v i h
answer-IsCache (some (some (other tag size))) s c v i h =
    stored-IsCache c s (add64 c.hits 1) (add64 c.misses 1) v i h
answer-IsCache (some none) s c v i h = stored-IsCache c s (add64 c.hits 1) (add64 c.misses 1) v i h

pub not-true : {b : Bool} → b ≡ true → not b ≡ false
not-true e = rw e

pub not-false : {b : Bool} → b ≡ false → not b ≡ true
not-false e = rw e

or-false : {a b : Bool} → a ≡ false → b ≡ false → (a || b) ≡ false
or-false e f = rw (e, f)

-- A cache is closed, or not initialized, or open and ready.
data Status (c : Cache) : Type 0 where
  is_closed : c.closed ≡ true → Status c
  is_bare : c.closed ≡ false → c.initialized ≡ false → Status c
  is_ready : c.closed ≡ false → c.initialized ≡ true → Status c

status : (c : Cache) → Status c
status c = elim (Bool-cases c.closed) [
  | inl o ↦ is_closed o
  | inr o ↦ elim (Bool-cases c.initialized) [ inl i ↦ is_ready o i | inr i ↦ is_bare o i ]
]

bare-IsCache :
    (c : Cache) (hits misses : ℕ)
    → IsCache c
    → c.initialized ≡ false
    → IsCache (record c { hits = hits; misses = misses })
bare-IsCache c hits misses v i = record {
  ready = v.ready;
  bare = v.bare;
  shut = v.shut;
  configured = v.configured;
}

pub get-Returns :
    (e : Env) (key : Key) (c : Cache)
    → IsCache c
    → (c' : Cache) × (r : Option ByteView) × (get e key c ≡ some (c', r)) × IsCache c'
unfolding get finish_get
get-Returns e key c v = elim (status c) [
  | is_closed o ↦ (c, none, if-true _ _ o, v)
  | is_bare o i ↦ (
    record c { misses = add64 c.misses 1 },
    none,
    if-false _ _ o ∙ if-true _ _ (not-false i),
    bare-IsCache c c.hits (add64 c.misses 1) v i,
  )
  | is_ready o i ↦
      let (s, q, h) = v.ready i in
      let r = get-IsStored e key s h in
      let a = answer r.1 (record c { store = some r.0 }) in
      (
        a.0,
        a.1,
        if-false _ _ o ∙ (if-false _ _ (not-true i) ∙ some-bind _ (on_ready c _ s q ∙ r.2)),
        answer-IsCache r.1 r.0 c v i r.3,
      )
]

pub skipped :
    (c : Cache)
    → (c.closed ≡ true) ⊎ (c.initialized ≡ false)
    → (c.closed || not c.initialized) ≡ true
skipped c h = ground (arith, h)

pub delete-Returns :
    (key : Key) (c : Cache)
    → IsCache c
    → (c' : Cache) × (r : Bool) × (delete key c ≡ some (c', r)) × IsCache c'
unfolding delete
delete-Returns key c v = elim (status c) [
  | is_closed o ↦ (c, false, if-true _ _ (skipped c (inl o)), v)
  | is_bare o i ↦ (c, false, if-true _ _ (skipped c (inr i)), v)
  | is_ready o i ↦
      let (s, q, h) = v.ready i in
      let r = delete-IsStored key s h in
      (
        record c { store = some r.0 },
        r.1,
        if-false _ _ (or-false o (not-true i)) ∙ some-bind _ (on_ready c _ s q ∙ r.2),
        stored-IsCache c r.0 c.hits c.misses v i r.3,
      )
]

pub clear-Returns : (e : Env) (c : Cache) → IsCache c → Returns (clear e c)
unfolding clear
clear-Returns e c v = elim (status c) [
  | is_closed o ↦ (c, if-true _ _ (skipped c (inl o)), v)
  | is_bare o i ↦ (c, if-true _ _ (skipped c (inr i)), v)
  | is_ready o i ↦
      let (s, q, h) = v.ready i in
      let r = clear-IsStored e s h in
      (
        record c { store = some r.0; hits = 0; misses = 0 },
        if-false _ _ (or-false o (not-true i)) ∙ some-bind _ (on_ready c _ s q ∙ r.1),
        stored-IsCache c r.0 0 0 v i r.2,
      )
]

pub len-Returns : (c : Cache) → IsCache c → (n : ℕ) × (len c ≡ some n)
unfolding len
len-Returns c v = elim (status c) [
  | is_closed o ↦ (0, if-true _ _ (skipped c (inl o)))
  | is_bare o i ↦ (0, if-true _ _ (skipped c (inr i)))
  | is_ready o i ↦
      let (s, q, h) = v.ready i in
      let r = len-IsStored s h in
      (r.0, if-false _ _ (or-false o (not-true i)) ∙ (on_ready c _ s q ∙ r.1))
]

closed-IsCache :
    (c : Cache)
    → IsCache c
    → IsCache (record c { closed = true; store = none; initialized = false })
closed-IsCache c v = record {
  ready = λ e. absurd (clash (sym e));
  bare = λ e. refl;
  shut = λ e. refl;
  configured = v.configured;
}

pub close-Returns : (c : Cache) → IsCache c → Returns (close c)
unfolding close close_store
close-Returns c v = elim (status c) [
  | is_closed o ↦ (c, if-true _ _ o, v)
  | is_bare o i ↦ (_, if-false _ _ o ∙ some-bind _ (ap close_store (v.bare i)), closed-IsCache c v)
  | is_ready o i ↦
      let (s, q, h) = v.ready i in
      let r = close-IsStored s h in
      (_, if-false _ _ o ∙ some-bind _ (ap close_store q ∙ some-bind _ r.1), closed-IsCache c v)
]
