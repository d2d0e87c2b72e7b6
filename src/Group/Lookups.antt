-- ===== src/Group/Lookups.antt =====
-- Where `Get` of `Group` (group.go) finds a value, and what it reads after `Set`.
use lcache.Common.{
  ℕ, ◌+◌, ◌^◌, ◌≤◌, ◌<◌, ◌≡◌, refl, sym, ap, subst, ◌∙◌, ◌⊎◌, inl, inr, Bool, true, false, ◌&&◌,
  not, List, Option, none, some, arith, if-false, if◌then◌else◌,
}
use lcache.Common.Panics.{some-bind}
use lcache.Common.Words.{add64, gt64, max_int64}
use lcache.Value.{Key, ByteView, view}
use lcache.Lru.{Lru, cost}
use lcache.Lru.Invariant.{IsValid}
use lcache.Lru.Elements.{total}
use lcache.Store.{lru}
use lcache.Cache
use lcache.Cache.{Cache}
use lcache.Cache.Methods.{IsCache, get-Returns}
use lcache.Cache.Counting.{add-get}
use lcache.Group.{
  Error, get_failed, World, Group, sync_set, write, store_view, take_peer, ask_peer, take_value,
  ask_getter, or_getter, load_data, count_load, finish_load, load, get_or_load, get, is_empty,
  start_sync, set,
}
use lcache.Group.Methods.{
  IsGroup, write-Returns, load_data-main_cache, start_sync-main_cache, start_sync-closed,
}

-- The value of a peer, where one is asked and answers; the getter's; and the first of several.
abbrev pub peer_value : {E : Type 0} → World E → Key → Group → Option ByteView
peer_value w key g =
    if g.has_peers && (w.pick_peer key).ok && not (w.pick_peer key).is_self
    then (elim ((w.pick_peer key).peer g.name key) [
      | inl error ↦ none
      | inr bytes ↦ some (record { b = bytes })
    ])
    else none

abbrev pub getter_value : {E : Type 0} → World E → Key → Error E ⊎ ByteView
getter_value w key = elim (w.getter key) [
  | inl error ↦ inl (get_failed error)
  | inr bytes ↦ inr (record { b = bytes })
]

abbrev pub first_of : {E : Type 0} → Option ByteView → Error E ⊎ ByteView → Error E ⊎ ByteView
first_of none r = r
first_of (some v) r = inr v

ask_peer-peer_value :
    {E : Type 0} (w : World E) (key : Key) (g : Group) → (ask_peer w key g).1 ≡ peer_value w key g
unfolding ask_peer take_peer
ask_peer-peer_value w key g = grind arith

ask_getter-getter_value :
    {E : Type 0} (w : World E) (key : Key) (g : Group) → (ask_getter w key g).1 ≡ getter_value w key
unfolding ask_getter take_value
ask_getter-getter_value w key g = grind arith

or_getter-first_of :
    {E : Type 0} (w : World E) (key : Key) (p : Group × Option ByteView)
    → (or_getter w key p).1 ≡ first_of p.1 (getter_value w key)
unfolding or_getter
or_getter-first_of w key (g, some x) = refl
or_getter-first_of w key (g, none) = ask_getter-getter_value w key g

load_data-first_of :
    {E : Type 0} (w : World E) (key : Key) (g : Group)
    → (load_data w key g).1 ≡ first_of (peer_value w key g) (getter_value w key)
unfolding load_data
load_data-first_of w key g =
    or_getter-first_of w key (ask_peer w key g)
    ∙ ap (λ o. first_of o (getter_value w key)) (ask_peer-peer_value w key g)

-- What a load that ends with a result makes of a cache: a value that it has found is written.
abbrev pub Written : {E : Type 0} → World E → Key → ℕ → Error E ⊎ ByteView → Cache → Cache → Type 0
Written w key expiration (inl error) c c' = c' ≡ c
Written w key expiration (inr x) c c' = write w key x expiration c ≡ some c'

-- And a `Get` that finds `found` in the cache, which makes `c` of it.
abbrev pub After : {E : Type 0} → World E → Key → Group → Option ByteView → Cache → Cache → Type 0
After w key g (some x) c c' = c' ≡ c
After w key g none c c' =
    Written w key g.expiration (first_of (peer_value w key g) (getter_value w key)) c c'

finish_load-Written :
    {E : Type 0} (w : World E) (key : Key) (r : Error E ⊎ ByteView) (g : Group)
    → IsGroup g
    → (g' : Group) × (finish_load w key r g ≡ some (g', r))
      × Written w key g.expiration r g.main_cache g'.main_cache
unfolding finish_load store_view
finish_load-Written w key (inl error) g v = (_, refl, refl)
finish_load-Written w key (inr x) g v =
    let (c, e, v') = write-Returns w key x g.expiration g.main_cache v in
    (
      record g { main_cache = c },
      some-bind {m = store_view w key x g} {a = record g { main_cache = c }} _ (some-bind _ e),
      e,
    )

ask_peer-expiration :
    {E : Type 0} (w : World E) (key : Key) (g : Group)
    → (ask_peer w key g).0.expiration ≡ g.expiration
unfolding ask_peer take_peer
ask_peer-expiration w key g = grind arith

or_getter-expiration :
    {E : Type 0} (w : World E) (key : Key) (p : Group × Option ByteView)
    → (or_getter w key p).0.expiration ≡ p.0.expiration
unfolding or_getter ask_getter take_value
or_getter-expiration w key (g, some x) = refl
or_getter-expiration w key (g, none) = grind arith

load-Written :
    {E : Type 0} (w : World E) (key : Key) (g : Group)
    → IsGroup g
    → let r = first_of (peer_value w key g) (getter_value w key) in
      (g' : Group) × (load w key g ≡ some (g', r))
      × Written w key g.expiration r g.main_cache g'.main_cache
unfolding load count_load load_data
load-Written w key g v =
    let p = load_data w key g in
    let same : p.0.main_cache ≡ g.main_cache = load_data-main_cache w key g in
    let kept : p.0.expiration ≡ g.expiration =
      or_getter-expiration w key (ask_peer w key g) ∙ ask_peer-expiration w key g in
    let r = finish_load-Written w key p.1 (count_load w p.0) (subst IsCache (sym same) v) in
    let e = load_data-first_of w key g in
    (
      r.0,
      r.1 ∙ ap (λ x. some (r.0, x)) e,
      subst (λ x. Written w key g.expiration x g.main_cache r.0.main_cache) e
          (subst (λ d. Written w key d p.1 g.main_cache r.0.main_cache) kept
            (subst (λ c. Written w key p.0.expiration p.1 c r.0.main_cache) same r.2)),
    )

get_or_load-After :
    {E : Type 0} (w : World E) (key : Key) (c : Cache) (found : Option ByteView) (g : Group)
    → IsCache c
    → (g' : Group) × (get_or_load w key (c, found) g
        ≡ some (g', first_of found (first_of (peer_value w key g) (getter_value w key))))
      × After w key g found c g'.main_cache
unfolding get_or_load
get_or_load-After w key c (some x) g v = (_, refl, refl)
get_or_load-After w key c none g v =
    load-Written w key
      (record g {
        main_cache = c;
        stats = record g.stats { local_misses = add64 g.stats.local_misses 1 };
      })
      v

-- `Get` of an open group answers a key that is not empty by the value in the cache or, failing that,
-- by the value of the peer that was picked, if that is another node and answers, or else by what the
-- getter says; a value that was not in the cache is written to it.
pub get-order :
    {E : Type 0} (w : World E) (key : Key) (g : Group)
    → IsGroup g
    → g.closed ≡ false
    → is_empty key ≡ false
    → (c : Cache) × (found : Option ByteView) × (g' : Group) × (Cache.get w.reads key g.main_cache
        ≡ some (c, found))
      × (get w key g
          ≡ some (g', first_of found (first_of (peer_value w key g) (getter_value w key))))
      × After w key g found c g'.main_cache
unfolding get
get-order w key g v o k =
    let (c, found, e, v') = get-Returns w.reads key g.main_cache v in
    let r = get_or_load-After w key c found g v' in
    (c, found, r.0, e, if-false _ _ o ∙ (if-false _ _ k ∙ (some-bind _ e ∙ r.1)), r.2)

-- A write of a group without an expiration.
written :
    {E : Type 0} (w : World E) (key : Key) (x : ByteView) (expiration : ℕ) (c : Cache)
    (o : Option Cache)
    → expiration ≡ 0
    → Cache.add w.writes key x c ≡ o
    → write w key x expiration c ≡ o
unfolding write
written w key x expiration c o z e = if-false {b = gt64 expiration 0} _ _ (ap (λ n. gt64 n 0) z) ∙ e

-- A value that is set in an open group without an expiration, whose cache is over the store of lru.go,
-- is read by a `Get` that comes next, whatever the getter and the peers say: under the conditions of that store.
pub get-set :
    {E : Type 0} (w w' : World E) (from_peer : Bool) (key : Key) (value : List ℕ) (g : Group)
    (s : Lru)
    → g.closed ≡ false
    → is_empty key ≡ false
    → is_empty value ≡ false
    → g.expiration ≡ 0
    → g.main_cache.closed ≡ false
    → g.main_cache.initialized ≡ true
    → g.main_cache.store ≡ some (lru s)
    → IsValid s
    → s.max_bytes < 2 ^ 64
    → total s.heap s.list + cost (record { key = key; value = view (record { b = value }) })
      ≤ max_int64
    → (gt64 s.max_bytes 0 ≡ true
        → cost (record { key = key; value = view (record { b = value }) }) ≤ s.max_bytes)
    → (g' : Group) × (g'' : Group) × (set w from_peer key value g ≡ some (g', none))
      × (get w' key g' ≡ some (g'', inr (record { b = value })))
unfolding set get store_view get_or_load
get-set w w' from_peer key value g s o k m d oc i q v word small fits =
    let x : ByteView = record { b = value } in
    let (c, c', e, e') = add-get w.writes w'.reads key x g.main_cache s oc i q v word small fits in
    let h = start_sync from_peer (sync_set key value) (record g { main_cache = c }) in
    let same : h.main_cache ≡ c = start_sync-main_cache from_peer _ (record g { main_cache = c }) in
    let open_ : h.closed ≡ false =
      start_sync-closed from_peer _ (record g { main_cache = c }) ∙ o in
    (
      h,
      _,
      if-false _ _ o
          ∙ (if-false _ _ k
              ∙ (if-false _ _ m
                  ∙ some-bind {m = store_view w key x g} _
                      (some-bind _ (written w key x g.expiration g.main_cache _ d e)))),
      if-false _ _ open_ ∙ (if-false _ _ k ∙ some-bind _ (ap (Cache.get w'.reads key) same ∙ e')),
    )
