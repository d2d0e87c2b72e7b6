-- ===== src/Peers.antt =====
-- `ClientPicker` of peers.go, over the ring of consistenthash/con_hash.go, and `NewClient` of client.go.
-- What etcd and gRPC answer is the record `Network`, with `E` for their errors. A method under its lock
-- is one function from state to state.
pub mod Foreign
pub mod Stale
pub mod Own
mod Tests
use lcache.Common.{
  ℕ, Bool, true, false, List, [], ◌∷◌, ◌++◌, Option, none, some, ◌⊎◌, inl, inr, not, ite,
  if◌then◌else◌,
}
use lcache.Common.GoMap.{GoMap, lookup, insert, delete}
use lcache.Value.{Key, key_eq}
use lcache.ConsistentHash
use lcache.ConsistentHash.{Config, Map, new_map}

-- `Client`, of which the connection is not looked into.
pub record Client : Type 0 where
  pub addr : Key
  pub svc_name : Key

-- `clientv3.New`, the first `Get` of the services, `grpc.Dial` of an address, and the errors of closing
-- a client and the client of etcd.
pub record Network (E : Type 0) : Type 0 where
  pub new_error : Option E
  pub services : E ⊎ List (Key × Key)
  pub dial_error : Key → Option E
  pub close_error : Key → Option E
  pub close_etcd_error : Option E

pub data PeerError (E : Type 0) : Type 0 where
  dial_failed : E → PeerError E
  new_failed : E → PeerError E
  services_failed : E → PeerError E

-- `NewClient`, of a client of etcd that is not nil.
abbrev pub dialled : {E : Type 0} → Key → Key → Option E → PeerError E ⊎ Client
dialled addr svc_name (some e) = inl (dial_failed e)
dialled addr svc_name none = inr (record { addr = addr; svc_name = svc_name })

unfoldable pub new_client : {E : Type 0} → Network E → Key → Key → PeerError E ⊎ Client
new_client net addr svc_name = dialled addr svc_name (net.dial_error addr)

-- `ClientPicker`; of its context whether it is cancelled.
pub record ClientPicker (F : Type 0) : Type 0 where
  pub self_addr : Key
  pub svc_name : Key
  pub cons_hash : Map F
  pub clients : GoMap Key Client
  pub cancelled : Bool

-- `clientv3.Event`, with the key and the value of its `Kv`.
pub data EventType : Type 0 where
  put_event delete_event : EventType

pub record Event : Type 0 where
  pub event_type : EventType
  pub key : Key
  pub value : Key

-- In `Close`, the errors of closing the clients, in the order in which Go visits the map.
unfoldable pub close_clients : {E : Type 0} → Network E → List (Key × Client) → List E
close_clients net [] = []
close_clients net ((addr, client) ∷ rest) =
    let errors = close_clients net rest in
    elim (net.close_error addr) [ none ↦ errors | some e ↦ e ∷ errors ]

module _ {F : Type 0} where
  -- `set` and `remove`
  unfoldable pub set_client :
      {E : Type 0} → Key → PeerError E ⊎ Client → ClientPicker F → ClientPicker F
  set_client addr (inl error) p = p
  set_client addr (inr client) p = record p {
    cons_hash = (ConsistentHash.add (addr ∷ []) p.cons_hash).0;
    clients = insert key_eq addr client p.clients;
  }

  unfoldable pub set : {E : Type 0} → Network E → Key → ClientPicker F → ClientPicker F
  set net addr p = set_client addr (new_client net addr p.svc_name) p

  unfoldable pub remove : Key → ClientPicker F → ClientPicker F
  remove addr p = record p {
    cons_hash = (ConsistentHash.remove addr p.cons_hash).0;
    clients = delete key_eq addr p.clients;
  }

  -- A new address, and one that is gone; the client of that is closed first.
  unfoldable pub discover :
      {E : Type 0} → Network E → Key → Option Client → ClientPicker F → ClientPicker F
  discover net addr (some client) p = p
  discover net addr none p = set net addr p

  unfoldable pub forget : Key → Option Client → ClientPicker F → ClientPicker F
  forget addr none p = p
  forget addr (some client) p = remove addr p

  unfoldable pub handle_type :
      {E : Type 0} → Network E → EventType → Key → ClientPicker F → ClientPicker F
  handle_type net put_event addr p = discover net addr (lookup key_eq addr p.clients) p
  handle_type net delete_event addr p = forget addr (lookup key_eq addr p.clients) p

  -- One event, and `handleWatchEvents`.
  unfoldable pub handle_event : {E : Type 0} → Network E → Event → ClientPicker F → ClientPicker F
  handle_event net event p =
      ite (key_eq event.value p.self_addr) p (handle_type net event.event_type event.value p)

  unfoldable pub handle_watch_events :
      {E : Type 0} → Network E → List Event → ClientPicker F → ClientPicker F
  handle_watch_events net [] p = p
  handle_watch_events net (event ∷ events) p =
      handle_watch_events net events (handle_event net event p)

  -- `fetchAllServices`: its loop over the keys and values, and the whole.
  unfoldable pub fetch_service : {E : Type 0} → Network E → Key → ClientPicker F → ClientPicker F
  fetch_service net [] p = p
  fetch_service net (x ∷ addr) p = ite (key_eq (x ∷ addr) p.self_addr) p (set net (x ∷ addr) p)

  unfoldable pub fetch_services :
      {E : Type 0} → Network E → List (Key × Key) → ClientPicker F → ClientPicker F
  fetch_services net [] p = p
  fetch_services net ((key, value) ∷ kvs) p = fetch_services net kvs (fetch_service net value p)

  abbrev pub fetched :
      {E : Type 0}
      → Network E
      → E ⊎ List (Key × Key)
      → ClientPicker F
      → PeerError E ⊎ ClientPicker F
  fetched net (inl e) p = inl (services_failed e)
  fetched net (inr kvs) p = inr (fetch_services net kvs p)

  unfoldable pub fetch_all_services :
      {E : Type 0} → Network E → ClientPicker F → PeerError E ⊎ ClientPicker F
  fetch_all_services net p = fetched net net.services p

  -- `NewClientPicker`, with the name of the service that its options leave, and the configuration of
  -- the ring; the first update is followed by the events that are watched.
  abbrev pub new_picker : Config F → Key → Key → ClientPicker F
  new_picker config addr svc_name = record {
    self_addr = addr;
    svc_name = svc_name;
    cons_hash = new_map config;
    clients = [];
    cancelled = false;
  }

  unfoldable pub connected :
      {E : Type 0} → Network E → Option E → ClientPicker F → PeerError E ⊎ ClientPicker F
  connected net (some e) p = inl (new_failed e)
  connected net none p = fetch_all_services net p

  unfoldable pub new_client_picker :
      {E : Type 0} → Network E → Config F → Key → Key → PeerError E ⊎ ClientPicker F
  new_client_picker net config addr svc_name =
      connected net net.new_error (new_picker config addr svc_name)

  -- `PickPeer`: the peer, or nil, `ok` and `self`.
  unfoldable pub pick_client : Key → Option Client → ClientPicker F → Option Client × Bool × Bool
  pick_client addr none p = (none, false, false)
  pick_client addr (some client) p = (some client, true, ite (key_eq addr p.self_addr) true false)

  unfoldable pub pick_addr : Key → ClientPicker F → Option Client × Bool × Bool
  pick_addr [] p = (none, false, false)
  pick_addr (x ∷ addr) p = pick_client (x ∷ addr) (lookup key_eq (x ∷ addr) p.clients) p

  unfoldable pub pick_peer : Key → ClientPicker F → ClientPicker F × (Option Client × Bool × Bool)
  pick_peer key p =
      let (ring, addr) = ConsistentHash.get key p.cons_hash in
      (record p { cons_hash = ring }, pick_addr addr p)

  -- `Close`: the errors of closing the clients, and that of closing the client of etcd.
  unfoldable pub close :
      {E : Type 0}
      → Network E
      → (List (Key × Client) → List (Key × Client))
      → ClientPicker F
      → ClientPicker F × List E
  close net visit p = (
    record p { cancelled = true },
    close_clients net (visit p.clients)
        ++ elim net.close_etcd_error [ none ↦ [] | some e ↦ e ∷ [] ],
  )
