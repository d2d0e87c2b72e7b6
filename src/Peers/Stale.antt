-- ===== src/Peers/Stale.antt =====
-- Nodes that are gone stay with the picker of peers.go: an event of a deletion carries no value.
use lcache.Common.{
  ◌≡◌, ◌≢◌, refl, sym, subst, ◌∙◌, List, [], ◌∷◌, Option, none, some, All, ite-cases, if_neg,
}
use lcache.Common.GoMap.{lookup, lookup-insert, lookup-delete}
use lcache.Value.{Key, key_eq}
use lcache.ConsistentHash
use lcache.Peers.{
  Client, Network, dialled, ClientPicker, Event, EventType, put_event, delete_event, new_client,
  set_client, set, remove, discover, forget, handle_type, handle_event, handle_watch_events,
  pick_peer,
}
use lcache.Peers.Foreign.{Call, watches, picks, apply, run}

-- An address has a client.
abbrev Knows : {F : Type 0} → Key → ClientPicker F → Type 0
Knows addr p = (client : Client) × (lookup key_eq addr p.clients ≡ some client)

-- What etcd says of events: that of a deletion has no value.
abbrev pub HasNoValue : Event → Type 0
HasNoValue event = event.event_type ≡ delete_event → event.value ≡ []

abbrev pub AreDocumented : {E : Type 0} → List (Call E) → Type 0
AreDocumented [] = Unit
AreDocumented (watches net events ∷ calls) = All HasNoValue events × AreDocumented calls
AreDocumented (picks key ∷ calls) = AreDocumented calls

module _ {F : Type 0} (addr : Key) where
  dialled-Knows :
      {E : Type 0} (a : Key) (o : Option E) (p : ClientPicker F)
      → Knows addr p
      → Knows addr (set_client a (dialled a p.svc_name o) p)
  unfolding set_client
  dialled-Knows a (some e) p k = k
  dialled-Knows a none p k =
      let made : Client = record { addr = a; svc_name = p.svc_name } in
      subst (λ o. (client : Client) × (o ≡ some client))
        (sym (lookup-insert key_eq a addr made p.clients))
        (ite-cases (λ o. (client : Client) × (o ≡ some client)) (key_eq a addr) (some made)
          (lookup key_eq addr p.clients) (λ _. (made, refl)) (λ _. k))

  module _ {E : Type 0} (net : Network E) where
    handle_type-Knows :
        (t : EventType) (a : Key) (o : Option Client) (p : ClientPicker F)
        → lookup key_eq a p.clients ≡ o
        → (t ≡ delete_event → a ≢ addr)
        → Knows addr p
        → Knows addr (handle_type net t a p)
    unfolding handle_type discover forget remove set new_client
    handle_type-Knows put_event a (some c) p e apart k = rw e k
    handle_type-Knows put_event a none p e apart k = rw e (dialled-Knows a (net.dial_error a) p k)
    handle_type-Knows delete_event a none p e apart k = rw e k
    handle_type-Knows delete_event a (some c) p e apart k = rw e (
      k.0,
      lookup-delete key_eq a addr p.clients ∙ (if_neg (key_eq a addr) (apart refl) _ _ ∙ k.1),
    )

    handle_event-Knows :
        (event : Event) (p : ClientPicker F)
        → addr ≢ []
        → HasNoValue event
        → Knows addr p
        → Knows addr (handle_event net event p)
    unfolding handle_event
    handle_event-Knows event p named h k =
        ite-cases (Knows addr) (key_eq event.value p.self_addr) p
          (handle_type net event.event_type event.value p) (λ _. k)
          (λ _.
            handle_type-Knows event.event_type event.value _ p refl (λ t q. named (sym q ∙ h t)) k)

    handle_watch_events-Knows :
        (events : List Event) (p : ClientPicker F)
        → addr ≢ []
        → All HasNoValue events
        → Knows addr p
        → Knows addr (handle_watch_events net events p)
    unfolding handle_watch_events
    handle_watch_events-Knows [] p named h k = k
    handle_watch_events-Knows (event ∷ events) p named h k =
        handle_watch_events-Knows events (handle_event net event p) named h.1
          (handle_event-Knows event p named h.0 k)

-- As etcd gives no value with the event of a deletion, an address that has a client keeps one, whatever
-- events come in, also that of its own deletion.
pub clients_stay :
    {F E : Type 0} (addr : Key) (calls : List (Call E)) (p : ClientPicker F)
    → addr ≢ []
    → AreDocumented calls
    → (client : Client) × (lookup key_eq addr p.clients ≡ some client)
    → (client : Client) × (lookup key_eq addr (run calls p).clients ≡ some client)
unfolding run apply pick_peer
clients_stay addr [] p named h k = k
clients_stay addr (watches net events ∷ calls) p named h k =
    clients_stay addr calls _ named h.1 (handle_watch_events-Knows addr net events p named h.0 k)
clients_stay addr (picks key ∷ calls) p named h k =
    clients_stay addr calls (record p { cons_hash = (lcache.ConsistentHash.get key p.cons_hash).0 })
      named h k
