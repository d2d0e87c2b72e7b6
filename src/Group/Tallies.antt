-- ===== src/Group/Tallies.antt =====
-- What a group (group.go) counts: every load of a `Get` ends as one of three.
use lcache.Common.{
  ℕ, suc, ◌+◌, ◌^◌, ◌<◌, ◌≡◌, refl, sym, ap, subst, ◌∙◌, ◌⊎◌, inl, inr, Bool, true, false, List, [],
  ◌∷◌, Option, some, arith, Bool-cases, if-true, if-false, if◌then◌else◌, length,
}
use lcache.Common.Panics.{bind-inv, some-inj}
use lcache.Value.{Key, ByteView}
use lcache.Store.{Env}
use lcache.Cache
use lcache.Cache.{Cache}
use lcache.Group.{
  Error, World, Group, GroupStats, store_view, get, is_empty, set, delete, clear, close,
  GroupOption, with_expiration, with_peers, with_cache_options, apply_option, apply_options,
  new_group,
}
use lcache.Group.Safe.{
  Call, gets, sets, deletes, clears, closes, apply, run, AreConfigured, run-Gives,
  new_group-IsGroup,
}
use lcache.Group.Loads.{IsTally, store_view-stats, start_sync-stats, get_or_load-IsTally}

-- A call that returns with the group as it was, where its guard holds, or goes on.
pub guarded :
    {A : Type 0} (b : Bool) (g g' : Group) (a r : A) (o : Option (Group × A)) (P : Group → Type 0)
    → P g
    → (o ≡ some (g', r) → P g')
    → (if b then some (g, a) else o) ≡ some (g', r)
    → P g'
guarded true g g' a r o P p f e = subst (λ (h : Group × _). P h.0) (some-inj e) p
guarded false g g' a r o P p f e = f e

more-IsTally : (n : ℕ) (s : GroupStats) → IsTally n s → IsTally (suc n) s
more-IsTally n s t = record {
  missed = t.missed;
  ended = t.ended;
  bounded = omega (arith, t.bounded);
}

get-IsTally :
    {E : Type 0} (n : ℕ) (w : World E) (key : Key) (r : Error E ⊎ ByteView) (g g' : Group)
    → suc n < 2 ^ 64
    → IsTally n g.stats
    → get w key g ≡ some (g', r)
    → IsTally (suc n) g'.stats
unfolding get
get-IsTally n w key r g g' m t e =
    let P = λ (h : Group). IsTally (suc n) h.stats in
    let t' = more-IsTally n g.stats t in
    guarded g.closed g g' _ r _ P t'
      (guarded (is_empty key) g g' _ r _ P t' λ e.
        let ((c, found), a, b) = bind-inv (Cache.get w.reads key g.main_cache) _ e in
        get_or_load-IsTally n w key c found r g g' m t b)
      e

set-stats :
    {E : Type 0} (w : World E) (from_peer : Bool) (key : Key) (value : List ℕ)
    (r : Option (Error E)) (g g' : Group)
    → set w from_peer key value g ≡ some (g', r)
    → g'.stats ≡ g.stats
unfolding set
set-stats w from_peer key value r g g' =
    let P = λ (h : Group). h.stats ≡ g.stats in
    guarded g.closed g g' _ r _ P refl (
      guarded (is_empty key) g g' _ r _ P refl (
        guarded (is_empty value) g g' _ r _ P refl λ e.
          let (h, a, b) = bind-inv (store_view w key (record { b = value }) g) _ e in
          ap (λ (h : Group × _). h.0.stats) (sym (some-inj b))
          ∙ (start_sync-stats from_peer _ h ∙ store_view-stats w key _ g h a)))

delete-stats :
    {E : Type 0} (from_peer : Bool) (key : Key) (r : Option (Error E)) (g g' : Group)
    → delete from_peer key g ≡ some (g', r)
    → g'.stats ≡ g.stats
unfolding delete
delete-stats from_peer key r g g' =
    let P = λ (h : Group). h.stats ≡ g.stats in
    guarded g.closed g g' _ r _ P refl (
      guarded (is_empty key) g g' _ r _ P refl λ e.
        let ((c, deleted), a, b) = bind-inv (Cache.delete key g.main_cache) _ e in
        ap (λ (h : Group × _). h.0.stats) (sym (some-inj b))
        ∙ start_sync-stats from_peer _ (record g { main_cache = c }))

clear-stats : (e : Env) (g g' : Group) → clear e g ≡ some g' → g'.stats ≡ g.stats
unfolding clear
clear-stats e g g' h = elim (Bool-cases g.closed) [
  | inl o ↦ ap (λ (k : Group). k.stats) (sym (some-inj (sym (if-true _ _ o) ∙ h)))
  | inr o ↦
      let (c, a, b) = bind-inv (Cache.clear e g.main_cache) _ (sym (if-false _ _ o) ∙ h) in
      ap (λ (k : Group). k.stats) (sym (some-inj b))
]

close-stats : (g g' : Group) → close g ≡ some g' → g'.stats ≡ g.stats
unfolding close
close-stats g g' h = elim (Bool-cases g.closed) [
  | inl o ↦ ap (λ (k : Group). k.stats) (sym (some-inj (sym (if-true _ _ o) ∙ h)))
  | inr o ↦
      let (c, a, b) = bind-inv (Cache.close g.main_cache) _ (sym (if-false _ _ o) ∙ h) in
      ap (λ (k : Group). k.stats) (sym (some-inj b))
]

same-IsTally : (n : ℕ) (s s' : GroupStats) → IsTally n s → s' ≡ s → IsTally (suc n) s'
same-IsTally n s s' t e = more-IsTally n s' (subst (IsTally n) (sym e) t)

apply-IsTally :
    {E : Type 0} (n : ℕ) (call : Call E) (g g' : Group)
    → suc n < 2 ^ 64
    → IsTally n g.stats
    → apply call g ≡ some g'
    → IsTally (suc n) g'.stats
unfolding apply
apply-IsTally n (gets w key) g g' m t e =
    let ((h, r), a, b) = bind-inv (get w key g) _ e in
    subst (λ (k : Group). IsTally (suc n) k.stats) (some-inj b) (get-IsTally n w key r g h m t a)
apply-IsTally n (sets w from_peer key value) g g' m t e =
    let ((h, r), a, b) = bind-inv (set w from_peer key value g) _ e in
    subst (λ (k : Group). IsTally (suc n) k.stats) (some-inj b)
      (same-IsTally n g.stats h.stats t (set-stats w from_peer key value r g h a))
apply-IsTally {E = E} n (deletes from_peer key) g g' m t e =
    let ((h, r), a, b) = bind-inv (delete {E = E} from_peer key g) _ e in
    subst (λ (k : Group). IsTally (suc n) k.stats) (some-inj b)
      (same-IsTally n g.stats h.stats t (delete-stats from_peer key r g h a))
apply-IsTally n (clears e) g g' m t h = same-IsTally n g.stats g'.stats t (clear-stats e g g' h)
apply-IsTally n closes g g' m t h = same-IsTally n g.stats g'.stats t (close-stats g g' h)

run_from-IsTally :
    {E : Type 0} (n total : ℕ) (calls : List (Call E)) (g g' : Group)
    → n + length calls ≡ total
    → total < 2 ^ 64
    → IsTally n g.stats
    → run calls g ≡ some g'
    → IsTally total g'.stats
unfolding run
run_from-IsTally n total [] g g' h m t e =
    subst (λ i. IsTally i g'.stats) (omega (arith, h))
      (subst (λ (k : Group). IsTally n k.stats) (some-inj e) t)
run_from-IsTally n total (call ∷ calls) g g' h m t e =
    let (k, a, b) = bind-inv (apply call g) _ e in
    run_from-IsTally (suc n) total calls k g' (omega arith) m
      (apply-IsTally n call g k (omega arith) t a) b

options-stats : (opts : List GroupOption) (g : Group) → (apply_options opts g).stats ≡ g.stats
unfolding apply_options apply_option
options-stats [] g = refl
options-stats (with_expiration d ∷ rest) g = options-stats rest (record g { expiration = d })
options-stats (with_peers peers ∷ rest) g = options-stats rest (record g { has_peers = peers })
options-stats (with_cache_options opts ∷ rest) g =
    options-stats rest (record g { main_cache = lcache.Cache.new_cache opts })

-- After fewer than 2 ^ 64 calls of `Get`, `Set`, `Delete`, `Clear` and `Close` of a new group, each miss
-- has been a load, each load has ended with a peer, with the getter or with an error, and the hits and
-- misses are no more than the calls; with options in which no index leaves its array.
pub run-IsTally :
    {E : Type 0} (name : Key) (cache_bytes : ℕ) (opts : List GroupOption) (calls : List (Call E))
    → AreConfigured opts
    → length calls < 2 ^ 64
    → (g : Group) × (run calls (new_group name cache_bytes opts) ≡ some g)
      × IsTally (length calls) g.stats
unfolding new_group
run-IsTally name cache_bytes opts calls a m =
    let (g, e, v) = run-Gives calls _ (new_group-IsGroup name cache_bytes opts a) in
    (
      g,
      e,
      run_from-IsTally 0 (length calls) calls _ g (omega arith) m
          (subst (IsTally 0) (sym (options-stats opts _))
            (record { missed = refl; ended = refl; bounded = omega arith }))
          e,
    )
