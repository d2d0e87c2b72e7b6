-- ===== src/Registry/Rounds.antt =====
-- A deletion that two nodes send each other: `Server.Delete` of server.go hands `Group.Delete` of
-- group.go a context that does not say that a peer has sent it.
use lcache.Common.{
  ℕ, zero, suc, ◌≡◌, refl, sym, ap, subst, ◌∙◌, ◌⊎◌, inr, Bool, true, false, ◌&&◌, not, List, [],
  ◌∷◌, Option, none, some, if-true, if-false,
}
use lcache.Common.Panics.{◌>>=◌, some-bind}
use lcache.Value.{Key}
use lcache.Cache.{Cache}
use lcache.Cache.Methods.{IsCache, delete-Returns}
use lcache.Group.{
  World, Group, Request, request_set, request_delete, Sync, sync_delete, sync_to_peers, start_sync,
  is_empty,
}
use lcache.Group.Methods.{IsGroup}
use lcache.Registry.Known.{put-at}
use lcache.Registry.{
  Registry, in_group, put_group, get_group, ServerError, handle_delete, handle_set, with_request,
  requests, run_syncs,
}

-- A request that comes to a node: the node handles it and runs what it has started. The node after
-- it, and the requests that it makes.
unfoldable pub receive :
    {E : Type 0} → World E → Request → Registry → Option (Registry × List Request)
receive w (request_set name key value) r = do
  (r, answer) ← handle_set w name key value r
  some (run_syncs w name r)
receive {E = E} w (request_delete name key) r = do
  (r, answer) ← handle_delete {E = E} name key r
  some (run_syncs w name r)

-- The first request that is made goes to the other node.
abbrev pub pass_on :
    (Request → Registry → Option (List Request)) → Registry × List Request → Option (List Request)
pass_on continue (r, []) = some []
pass_on continue (r, request ∷ rest) = continue request r

-- A request that comes to the first of two nodes, and what is under way of it after some rounds.
unfoldable pub bounce :
    {E : Type 0} → ℕ → World E → World E → Request → Registry → Registry → Option (List Request)
bounce zero w w' request r r' = some (request ∷ [])
bounce (suc n) w w' request r r' = do
  answer ← receive w request r
  pass_on (λ request r₂. bounce n w' w request r' r₂) answer

-- An open group of the name, with peers, that has started nothing; and a node that has one, whose
-- picker gives another node for the key.
pub record IsLinked (name : Key) (g : Group) : Type 0 where
  pub sound : IsGroup g
  pub open_ : g.closed ≡ false
  pub named : g.name ≡ name
  pub linked : g.has_peers ≡ true
  pub idle : g.started ≡ []

pub record IsNode {E : Type 0} (w : World E) (name key : Key) (r : Registry) (i : ℕ) : Type 0 where
  pub found : get_group name r ≡ some i
  pub group : IsLinked name (r.heap i)
  pub other : ((w.pick_peer key).ok ≡ true) × ((w.pick_peer key).is_self ≡ false)

delete-starts :
    {E : Type 0} (name key : Key) (g : Group)
    → is_empty key ≡ false
    → IsLinked name g
    → (c : Cache) × (lcache.Group.delete {E = E} false key g
        ≡ some (record g { main_cache = c; started = sync_delete key ∷ [] }, none))
      × IsCache c
unfolding lcache.Group.delete start_sync
delete-starts name key g k v =
    let (c, deleted, e, v') = delete-Returns key g.main_cache v.sound in
    let g' : Group = record g { main_cache = c } in
    let begun : start_sync false (sync_delete key) g'
        ≡ record g' { started = sync_delete key ∷ [] } =
      if-true _ _ v.linked ∙ ap (λ l. record g' { started = sync_delete key ∷ l }) v.idle in
    (
      c,
      if-false _ _ v.open_ ∙ (if-false _ _ k ∙ (some-bind _ e ∙ ap (λ h. some (h, none)) begun)),
      v',
    )

all_true : {a b c : Bool} → a ≡ true → b ≡ true → c ≡ false → (a && b && not c) ≡ true
all_true d e f = rw (d, e, f) refl

requests-delete :
    {E : Type 0} (w : World E) (key : Key) (g : Group)
    → g.has_peers ≡ true
    → ((w.pick_peer key).ok ≡ true) × ((w.pick_peer key).is_self ≡ false)
    → requests w (sync_delete key ∷ []) g ≡ request_delete g.name key ∷ []
unfolding requests sync_to_peers
requests-delete w key g l o = ap (λ r. with_request r []) (if-true _ _ (all_true l o.0 o.1))

-- One round.
round :
    {E : Type 0} (w : World E) (name key : Key) (r : Registry) (i : ℕ)
    → is_empty key ≡ false
    → IsNode w name key r i
    → (r₁ : Registry) × (answer : ServerError E ⊎ Bool) × (r₂ : Registry) × (handle_delete name key
          r
        ≡ some (r₁, answer))
      × (run_syncs w name r₁ ≡ (r₂, request_delete name key ∷ []))
      × IsNode w name key r₂ i
unfolding handle_delete run_syncs get_group
round w name key r i k v =
    let (c, e, v') = delete-starts name key (r.heap i) k v.group in
    let g : Group = record (r.heap i) { main_cache = c; started = sync_delete key ∷ [] } in
    let r₁ : Registry = record r { heap = put_group i g r.heap } in
    let at : r₁.heap i ≡ g = put-at i g r.heap in
    let r₂ : Registry = record r₁ {
      heap = put_group i (record (r₁.heap i) { started = [] }) r₁.heap;
    } in
    let at₂ : r₂.heap i ≡ record g { started = [] } =
      put-at i (record (r₁.heap i) { started = [] }) r₁.heap
      ∙ ap (λ (h : Group). record h { started = [] }) at in
    let sent : requests w (r₁.heap i).started (r₁.heap i) ≡ request_delete name key ∷ [] =
      ap (λ (h : Group). requests w h.started h) at
      ∙ (requests-delete w key g v.group.linked v.other
          ∙ ap (λ n. request_delete n key ∷ []) v.group.named) in
    let group : IsLinked name (record g { started = [] }) = record {
      sound = v';
      open_ = v.group.open_;
      named = v.group.named;
      linked = v.group.linked;
      idle = refl;
    } in
    (
      r₁,
      inr true,
      r₂,
      ap (in_group _ _) v.found ∙ some-bind _ e,
      ap (in_group _ _) v.found ∙ ap (λ l. (r₂, l)) sent,
      record { found = v.found; group = subst (IsLinked name) (sym at₂) group; other = v.other },
    )

-- Between two nodes that both have an open group of the name with peers, each of which picks another
-- node for the key, a request to delete the key never comes to rest: after any number of rounds the
-- same request is under way.
pub delete_bounces :
    {E : Type 0} (n : ℕ) (w w' : World E) (name key : Key) (r r' : Registry) (i i' : ℕ)
    → is_empty key ≡ false
    → IsNode w name key r i
    → IsNode w' name key r' i'
    → bounce n w w' (request_delete name key) r r' ≡ some (request_delete name key ∷ [])
unfolding bounce receive
delete_bounces zero w w' name key r r' i i' k v v' = refl
delete_bounces (suc n) w w' name key r r' i i' k v v' =
    let (r₁, answer, r₂, e, sent, v₂) = round w name key r i k v in
    let continue : Request → Registry → Option (List Request) =
      λ request r₂. bounce n w' w request r' r₂ in
    ap (λ o. o >>= pass_on continue) (some-bind _ e ∙ ap some sent)
    ∙ delete_bounces n w' w name key r' r₂ i' i k v' v₂
