-- ===== src/Client/Remote.antt =====
-- A value that client.go sends to another node is there for any client.
use lcache.Common.{ℕ, ◌+◌, ◌≤◌, ◌<◌, ◌^◌, ◌≡◌, refl, sym, subst, true, false, List, none, some, inr}
use lcache.Common.Words.{gt64, max_int64}
use lcache.Value.{Key, view}
use lcache.Lru.{Lru, cost}
use lcache.Lru.Elements.{total}
use lcache.Lru.Invariant.{IsValid}
use lcache.Store.{lru}
use lcache.Group.{Group, World, is_empty}
use lcache.Group.Lookups.{get-set}
use lcache.Registry.Known.{put-at}
use lcache.Registry.{Registry, put_group, get_group, handle_get, handle_set}
use lcache.Client.{arrives, request, get, set}

-- A client that sets a value on a node with an open group of the name, without an expiration, whose
-- cache is over the store of lru.go, gets no error; a `Get` of a client then returns the value,
-- whatever the getter and the peers of the node say: under the conditions of that store, where the
-- requests and their answers arrive.
pub set_then_get :
    {E N : Type 0} (w w' : World E) (group key : Key) (value : List ℕ) (r : Registry) (i : ℕ)
    (s : Lru)
    → get_group group r ≡ some i
    → (r.heap i).closed ≡ false
    → is_empty key ≡ false
    → is_empty value ≡ false
    → (r.heap i).expiration ≡ 0
    → (r.heap i).main_cache.closed ≡ false
    → (r.heap i).main_cache.initialized ≡ true
    → (r.heap i).main_cache.store ≡ some (lru s)
    → IsValid s
    → s.max_bytes < 2 ^ 64
    → total s.heap s.list + cost (record { key = key; value = view (record { b = value }) })
      ≤ max_int64
    → (gt64 s.max_bytes 0 ≡ true
        → cost (record { key = key; value = view (record { b = value }) }) ≤ s.max_bytes)
    → (r' : Registry) × (r'' : Registry) × (set {N = N} arrives w group key value r
        ≡ some (r', none))
      × (get {N = N} arrives w' group key r' ≡ some (r'', inr value))
unfolding get set request handle_get handle_set get_group
set_then_get w w' group key value r i s found o k m d oc ini q v word small fits =
    let (g', g'', e, e') =
      get-set w w' true key value (r.heap i) s o k m d oc ini q v word small fits in
    let r' : Registry = record r { heap = put_group i g' r.heap } in
    let here : r'.heap i ≡ g' = put-at i g' r.heap in
    let read : lcache.Group.get w' key (r'.heap i) ≡ some (g'', inr (record { b = value })) =
      subst (λ h. lcache.Group.get w' key h ≡ some (g'', inr (record { b = value }))) (sym here)
        e' in
    (
      r',
      record r' { heap = put_group i g'' r'.heap },
      rw found (rw e refl),
      rw found (rw read refl),
    )
