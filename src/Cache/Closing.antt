-- ===== src/Cache/Closing.antt =====
-- What `Close` of `Cache` (cache.go) means for the calls after it, and for those that it overtakes.
use lcache.Common.{
  ◌≡◌, refl, sym, ap, ◌∙◌, inl, inr, true, false, List, [], ◌∷◌, Option, none, some, Bool-cases,
  if-true, if-false,
}
use lcache.Common.Panics.{some-bind, bind-inv, some-inj}
use lcache.Value.{Key, ByteView, view}
use lcache.Store
use lcache.Store.{Store, Env, new_store}
use lcache.Store.Total.{set-IsStored, new_store-IsStored}
use lcache.Cache.Methods.{IsCache, skipped}
use lcache.Cache.Safe.{Call, adds, adds_until, gets, deletes, clears, counts, closes, apply, run}
use lcache.Cache.{
  Cache, store_options, ensure_initialized, finish_add, add, add_with_expiration, finish_get, get,
  delete, clear, len, close_store, close,
}

closed-apply : (call : Call) (c : Cache) → c.closed ≡ true → apply call c ≡ some c
unfolding apply add add_with_expiration get delete clear len close
closed-apply (adds e key value) c o = if-true _ _ o
closed-apply (adds_until e key value t) c o = if-true _ _ o
closed-apply (gets e key) c o = some-bind _ (if-true _ _ o)
closed-apply (deletes key) c o = some-bind _ (if-true _ _ (skipped c (inl o)))
closed-apply (clears e) c o = if-true _ _ (skipped c (inl o))
closed-apply counts c o = some-bind _ (if-true _ _ (skipped c (inl o)))
closed-apply closes c o = if-true _ _ o

closed-run : (calls : List Call) (c : Cache) → c.closed ≡ true → run calls c ≡ some c
unfolding run
closed-run [] c o = refl
closed-run (call ∷ calls) c o = some-bind _ (closed-apply call c o) ∙ closed-run calls c o

abbrev closed_form : Cache → Cache
closed_form c = record c { closed = true; store = none; initialized = false }

close_store-none : (o o' : Option Store) → close_store o ≡ some o' → o' ≡ none
unfolding close_store
close_store-none none o' e = sym (some-inj e)
close_store-none (some s) o' e =
    let (s', a, b) = bind-inv (lcache.Store.close s) _ e in sym (some-inj b)

-- An open cache that is closed.
close_open : (c c' : Cache) → c.closed ≡ false → close c ≡ some c' → c' ≡ closed_form c
unfolding close
close_open c c' o e =
    let (s, a, b) = bind-inv (close_store c.store) _ (sym (if-false _ _ o) ∙ e) in
    sym (some-inj b)
    ∙ ap (λ s. record c { closed = true; store = s; initialized = false })
        (close_store-none c.store s a)

close-closed : (c c' : Cache) → close c ≡ some c' → c'.closed ≡ true
unfolding close
close-closed c c' e = elim (Bool-cases c.closed) [
  | inl o ↦ ap (λ (d : Cache). d.closed) (sym (some-inj (sym (if-true _ _ o) ∙ e))) ∙ o
  | inr o ↦ ap (λ (d : Cache). d.closed) (close_open c c' o e)
]

-- After `Close` no call changes the cache, and `Get` finds nothing.
pub close_is_final :
    (c c' : Cache) (calls : List Call) (e : Env) (key : Key)
    → close c ≡ some c'
    → (run calls c' ≡ some c') × (get e key c' ≡ some (c', none))
unfolding get
close_is_final c c' calls e key h =
    let o = close-closed c c' h in (closed-run calls c' o, if-true _ _ o)

overtaken_get_panics :
    (c c' : Cache) (e : Env) (key : Key)
    → c.closed ≡ false
    → close c ≡ some c'
    → finish_get e key c' ≡ none
unfolding finish_get
overtaken_get_panics c c' e key o h = rw (ap (λ (d : Cache). d.store) (close_open c c' o h))

overtaken_add_reopens :
    (c c' : Cache) (e : Env) (key : Key) (value : ByteView)
    → IsCache c
    → c.closed ≡ false
    → close c ≡ some c'
    → (c'' : Cache) × (finish_add e key value c' ≡ some c'')
      × (c''.closed ≡ true)
      × (c''.initialized ≡ true)
      × (close c'' ≡ some c'')
unfolding finish_add ensure_initialized close
overtaken_add_reopens c c' e key value v o h =
    let d = ensure_initialized (closed_form c) in
    let s = new_store c.opts.cache_type (store_options c.opts) in
    let r =
      set-IsStored e key (some (view value)) s
        (new_store-IsStored c.opts.cache_type (store_options c.opts) v.configured) in
    (
      record d { store = some r.0 },
      ap (finish_add e key value) (close_open c c' o h) ∙ some-bind _ r.1,
      refl,
      refl,
      refl,
    )

-- A `Get` that has passed its tests when `Close` comes in panics: the store is nil. An `Add` that has
-- passed its test then makes a new store for the closed cache: it is initialized again, and no later
-- `Close` changes that.
pub overtaken_by_close :
    (c c' : Cache) (e e' : Env) (key key' : Key) (value : ByteView)
    → IsCache c
    → c.closed ≡ false
    → close c ≡ some c'
    → (finish_get e key c' ≡ none)
      × (c'' : Cache) × (finish_add e' key' value c' ≡ some c'')
      × (c''.closed ≡ true)
      × (c''.initialized ≡ true)
      × (close c'' ≡ some c'')
overtaken_by_close c c' e e' key key' value v o h =
    let (c'', a, b, d, f) = overtaken_add_reopens c c' e' key' value v o h in
    (overtaken_get_panics c c' e key o h, c'', a, b, d, f)
