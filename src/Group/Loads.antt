-- ===== src/Group/Loads.antt =====
-- What `load` of group.go counts: a load ends as one of three.
use lcache.Common.{
  ℕ, suc, ◌+◌, ◌^◌, ◌≤◌, ◌<◌, ◌≡◌, sym, ap, subst, ◌∙◌, ◌⊎◌, inl, inr, Bool, ◌&&◌, not, List,
  Option, none, some, arith, Bool-cases, if-true, if-false,
}
use lcache.Common.Panics.{bind-inv, some-inj}
use lcache.Common.Words.{add64}
use lcache.Value.{Key, ByteView}
use lcache.Cache.{Cache}
use lcache.Group.{
  Error, World, Group, GroupStats, Sync, write, store_view, take_peer, ask_peer, take_value,
  ask_getter, or_getter, load_data, count_load, finish_load, load, get_or_load, start_sync,
}

-- Each miss is a load, a load that has ended ended with a peer, with the getter or with an error, and
-- there were no more than `n` gets.
pub record IsTally (n : ℕ) (s : GroupStats) : Type 0 where
  pub missed : s.local_misses ≡ s.loads
  pub ended : s.loads ≡ s.peer_hits + s.loader_hits + s.loader_errors
  pub bounded : s.local_hits + s.local_misses ≤ n

-- How many values a result is.
abbrev values : {E : Type 0} → Error E ⊎ ByteView → ℕ
values (inl error) = 0
values (inr value) = 1

-- The statistics when `loadData` has ended with `r`: a miss is counted, and a value by its source.
record IsLoaded {E : Type 0} (n : ℕ) (r : Error E ⊎ ByteView) (s : GroupStats) : Type 0 where
  missed : s.local_misses ≡ suc s.loads
  found : s.loads + values r ≡ s.peer_hits + s.loader_hits + s.loader_errors
  bounded : s.local_hits + s.local_misses ≤ suc n

record IsMissed (n : ℕ) (s : GroupStats) : Type 0 where
  missed : s.local_misses ≡ suc s.loads
  ended : s.loads ≡ s.peer_hits + s.loader_hits + s.loader_errors
  bounded : s.local_hits + s.local_misses ≤ suc n

take_value-IsLoaded :
    {E : Type 0} (n : ℕ) (answer : E ⊎ List ℕ) (g : Group)
    → suc n < 2 ^ 64
    → IsMissed n g.stats
    → IsLoaded n (take_value answer g).1 (take_value answer g).0.stats
unfolding take_value
take_value-IsLoaded n (inl error) g m t = record {
  missed = t.missed;
  found = omega (arith, t.ended);
  bounded = t.bounded;
}
take_value-IsLoaded n (inr bytes) g m t = record {
  missed = t.missed;
  found = omega (arith, t.missed, t.ended, t.bounded);
  bounded = t.bounded;
}

take_peer-IsLoaded :
    {E : Type 0} (n : ℕ) (w : World E) (key : Key) (answer : E ⊎ List ℕ) (g : Group)
    → suc n < 2 ^ 64
    → IsMissed n g.stats
    → IsLoaded n
        (or_getter w key (take_peer answer g)).1
        (or_getter w key (take_peer answer g)).0.stats
unfolding take_peer or_getter ask_getter
take_peer-IsLoaded n w key (inl error) g m t =
    take_value-IsLoaded n (w.getter key)
      (record g { stats = record g.stats { peer_misses = add64 g.stats.peer_misses 1 } }) m
      (record { missed = t.missed; ended = t.ended; bounded = t.bounded })
take_peer-IsLoaded n w key (inr bytes) g m t = record {
  missed = t.missed;
  found = omega (arith, t.missed, t.ended, t.bounded);
  bounded = t.bounded;
}

missing-IsLoaded :
    {E : Type 0} (n : ℕ) (w : World E) (key : Key) (g : Group)
    → suc n < 2 ^ 64
    → IsMissed n g.stats
    → IsLoaded n (or_getter w key (g, none)).1 (or_getter w key (g, none)).0.stats
unfolding or_getter ask_getter
missing-IsLoaded n w key g m t = take_value-IsLoaded n (w.getter key) g m t

asked-IsLoaded :
    {E : Type 0} (n : ℕ) (w : World E) (key : Key) (g : Group)
    → suc n < 2 ^ 64
    → IsMissed n g.stats
    → IsLoaded n (load_data w key g).1 (load_data w key g).0.stats
unfolding load_data ask_peer
asked-IsLoaded n w key g m t =
    let pick = w.pick_peer key in
    let Loaded = λ (p : Group × Option ByteView).
      IsLoaded n (or_getter w key p).1 (or_getter w key p).0.stats in
    elim (Bool-cases (g.has_peers && pick.ok && not pick.is_self)) [
      | inl h ↦
          subst Loaded (sym (if-true _ _ h))
            (take_peer-IsLoaded n w key (pick.peer g.name key) g m t)
      | inr h ↦ subst Loaded (sym (if-false _ _ h)) (missing-IsLoaded n w key g m t)
    ]

-- Writing the cache, and starting a synchronisation, count nothing.
pub store_view-stats :
    {E : Type 0} (w : World E) (key : Key) (view : ByteView) (g g' : Group)
    → store_view w key view g ≡ some g'
    → g'.stats ≡ g.stats
unfolding store_view
store_view-stats w key view g g' e =
    let (c, a, b) = bind-inv (write w key view g.expiration g.main_cache) _ e in
    sym (ap (λ (h : Group). h.stats) (some-inj b))

pub start_sync-stats :
    (from_peer : Bool) (sync : Sync) (g : Group) → (start_sync from_peer sync g).stats ≡ g.stats
unfolding start_sync
start_sync-stats from_peer sync g = ground arith

finish_load-IsTally :
    {E : Type 0} (n : ℕ) (w : World E) (key : Key) (r r' : Error E ⊎ ByteView) (g g' : Group)
    → suc n < 2 ^ 64
    → IsLoaded n r g.stats
    → finish_load w key r (count_load w g) ≡ some (g', r')
    → IsTally (suc n) g'.stats
unfolding finish_load count_load
finish_load-IsTally n w key (inl error) r' g g' m t e =
    subst (λ (h : Group × (Error _ ⊎ ByteView)). IsTally (suc n) h.0.stats) (some-inj e)
      (record {
        missed = omega (arith, t.missed, t.found, t.bounded);
        ended = omega (arith, t.missed, t.found, t.bounded);
        bounded = t.bounded;
      })
finish_load-IsTally n w key (inr x) r' g g' m t e =
    let (h, a, b) = bind-inv (store_view w key x (count_load w g)) _ e in
    subst (IsTally (suc n))
      (sym (store_view-stats w key x (count_load w g) h a)
        ∙ ap (λ (h : Group × (Error _ ⊎ ByteView)). h.0.stats) (some-inj b))
      (record {
        missed = omega (arith, t.missed, t.found, t.bounded);
        ended = omega (arith, t.missed, t.found, t.bounded);
        bounded = t.bounded;
      })

load-IsTally :
    {E : Type 0} (n : ℕ) (w : World E) (key : Key) (r : Error E ⊎ ByteView) (g g' : Group)
    → suc n < 2 ^ 64
    → IsMissed n g.stats
    → load w key g ≡ some (g', r)
    → IsTally (suc n) g'.stats
unfolding load
load-IsTally n w key r g g' m t e =
    let p = load_data w key g in
    finish_load-IsTally n w key p.1 r p.0 g' m (asked-IsLoaded n w key g m t) e

pub get_or_load-IsTally :
    {E : Type 0} (n : ℕ) (w : World E) (key : Key) (c : Cache) (found : Option ByteView)
    (r : Error E ⊎ ByteView) (g g' : Group)
    → suc n < 2 ^ 64
    → IsTally n g.stats
    → get_or_load w key (c, found) g ≡ some (g', r)
    → IsTally (suc n) g'.stats
unfolding get_or_load
get_or_load-IsTally n w key c (some x) r g g' m t e =
    subst (λ (h : Group × (Error _ ⊎ ByteView)). IsTally (suc n) h.0.stats) (some-inj e)
      (record { missed = t.missed; ended = t.ended; bounded = omega (arith, t.bounded) })
get_or_load-IsTally n w key c none r g g' m t e =
    load-IsTally n w key r
      (record g {
        main_cache = c;
        stats = record g.stats { local_misses = add64 g.stats.local_misses 1 };
      })
      g' m
      (record {
        missed = omega (arith, t.missed, t.bounded);
        ended = t.ended;
        bounded = omega (arith, t.bounded);
      })
      e
