-- ===== src/Registry.antt =====
-- The registry of groups of group.go, and the handlers of server.go that look groups up in it. `none`
-- is a call that does not return: a panic, or a wait for the lock that the call holds itself.
pub mod Open
pub mod Known
pub mod Rounds
pub mod Received
mod Tests
use lcache.Common.{
  ℕ, ◌+◌, Bool, true, false, List, [], ◌∷◌, Option, none, some, ◌⊎◌, inl, inr, ◌==◌, if◌then◌else◌,
}
use lcache.Common.Panics.{◌>>=◌}
use lcache.Common.Locks.{lock}
use lcache.Common.GoMap.{GoMap, lookup, insert, delete}
use lcache.Value.{Key, key_eq, ByteView}
use lcache.Group
use lcache.Group.{Group, GroupOption, new_group, World, Error, Request, Sync, sync_to_peers}

-- The map `groups`, and the groups that have been made: the first `next` numbers.
pub record Registry : Type 0 where
  pub groups : GoMap Key ℕ
  pub heap : ℕ → Group
  pub next : ℕ

abbrev pub put_group : ℕ → Group → (ℕ → Group) → ℕ → Group
put_group i g heap j = if j == i then g else heap j

-- `NewGroup` of a getter that is not nil
unfoldable pub make_group : Key → ℕ → List GroupOption → Registry → Registry
make_group name cache_bytes opts r = record {
  groups = insert key_eq name r.next r.groups;
  heap = put_group r.next (new_group name cache_bytes opts) r.heap;
  next = r.next + 1;
}

-- `GetGroup`
unfoldable pub get_group : Key → Registry → Option ℕ
get_group name r = lookup key_eq name r.groups

-- The last lines of `Close`, by whether the goroutine holds `groupsMu` already.
unfoldable pub unregister : (held : Bool) → Key → Registry → Option Registry
unregister held name r = do
  held ← lock held
  some (record r { groups = delete key_eq name r.groups })

-- `Close` of the group `i` with no other call between its critical sections; `Open` has them apart.
unfoldable pub close_holding : (held : Bool) → ℕ → Registry → Option Registry
close_holding held i r =
    let g = r.heap i in
    if g.closed
    then some r
    else (do g' ← Group.close g; unregister held g.name (record r { heap = put_group i g' r.heap }))

unfoldable pub close_group : ℕ → Registry → Option Registry
close_group i r = close_holding false i r

-- What follows a lookup: without a group, and with one.
abbrev pub in_group : {A : Type 0} → A → (ℕ → A) → Option ℕ → A
in_group a f none = a
in_group a f (some i) = f i

-- `DestroyGroup`, of a goroutine that does not hold `groupsMu`.
unfoldable pub destroy_group : Key → Registry → Option (Registry × Bool)
destroy_group name r = do
  held ← lock false
  in_group (some (r, false))
      (λ i. do
        r ← close_holding held i r
        some (record r { groups = delete key_eq name r.groups }, true))
      (get_group name r)

-- `DestroyAllGroups`, of the entries in the order in which Go visits them.
unfoldable pub destroy_each : (held : Bool) → List (Key × ℕ) → Registry → Option Registry
destroy_each held [] r = some r
destroy_each held ((name, i) ∷ entries) r = do
  r ← close_holding held i r
  destroy_each held entries (record r { groups = delete key_eq name r.groups })

unfoldable pub destroy_all_groups : (visit : GoMap Key ℕ → GoMap Key ℕ) → Registry → Option Registry
destroy_all_groups visit r = do held ← lock false; destroy_each held (visit r.groups) r

-- `Server`: a handler answers with an error of its own, or with that of the group.
pub data ServerError (E : Type 0) : Type 0 where
  group_not_found : Key → ServerError E
  of_group : Error E → ServerError E

-- `Server.Get`: the bytes of the view.
unfoldable pub handle_get :
    {E : Type 0}
    → World E
    → (group key : Key) → Registry
    → Option (Registry × (ServerError E ⊎ List ℕ))
handle_get w group key r =
    in_group (some (r, inl (group_not_found group)))
      (λ i. do
        (g, found) ← Group.get w key (r.heap i)
        some (
          record r { heap = put_group i g r.heap },
          elim found [ inl error ↦ inl (of_group error) | inr x ↦ inr x.b ],
        ))
      (get_group group r)

-- `Server.Set`: the context says from then on that a peer has sent the value.
unfoldable pub handle_set :
    {E : Type 0}
    → World E
    → (group key : Key) → List ℕ
    → Registry
    → Option (Registry × (ServerError E ⊎ List ℕ))
handle_set w group key value r =
    in_group (some (r, inl (group_not_found group)))
      (λ i. do
        (g, error) ← Group.set w true key value (r.heap i)
        some (
          record r { heap = put_group i g r.heap },
          elim error [ none ↦ inr value | some error ↦ inl (of_group error) ],
        ))
      (get_group group r)

-- `Server.Delete`: the context of a request over the wire does not say that a peer has sent it.
unfoldable pub handle_delete :
    {E : Type 0} → (group key : Key) → Registry → Option (Registry × (ServerError E ⊎ Bool))
handle_delete group key r =
    in_group (some (r, inl (group_not_found group)))
      (λ i. do
        (g, error) ← Group.delete false key (r.heap i)
        some (
          record r { heap = put_group i g r.heap },
          elim error [ none ↦ inr true | some error ↦ inl (of_group error) ],
        ))
      (get_group group r)

-- What the calls of `syncToPeers` that a group has started ask of the peers.
abbrev pub with_request : Option Request → List Request → List Request
with_request none rest = rest
with_request (some request) rest = request ∷ rest

unfoldable pub requests : {E : Type 0} → World E → List Sync → Group → List Request
requests w [] g = []
requests w (sync ∷ syncs) g = with_request (sync_to_peers w sync g) (requests w syncs g)

-- They run, for the group of a name, and are gone.
unfoldable pub run_syncs : {E : Type 0} → World E → Key → Registry → Registry × List Request
run_syncs w name r =
    in_group (r, [])
      (λ i.
        let g = r.heap i in
        (
          record r { heap = put_group i (record g { started = [] }) r.heap },
          requests w g.started g,
        ))
      (get_group name r)
