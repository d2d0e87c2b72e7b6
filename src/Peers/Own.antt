-- ===== src/Peers/Own.antt =====
-- A node and its own registration: registry/register.go puts the address of the host before a port,
-- peers.go compares with the address as it was given.
use lcache.Common.{
  ◌<◌, ◌≡◌, ◌≢◌, refl, ap, ◌∙◌, inr, true, false, [], ◌∷◌, ◌++◌, Option, none, some, arith, if_neg,
  if_pos, length, length-append,
}
use lcache.Common.GoMap.{lookup, insert, lookup-insert}
use lcache.Value.{Key, key_eq}
use lcache.ConsistentHash
use lcache.ConsistentHash.{Config, Map, new_map, rounds}
use lcache.ConsistentHash.First.{get-add_first}
use lcache.Registration.{
  Etcd, Registered, service_key, full_addr, lease, register_full, register_at, get_local_ip,
  register_with, register,
}
use lcache.Peers.{
  Client, Network, dialled, ClientPicker, put_event, new_client, set_client, set, discover,
  handle_type, handle_event, handle_watch_events, new_picker, pick_client, pick_addr, pick_peer,
}

-- The address that is registered for a port, on a host.
abbrev pub host_port : Key → Key → Key
host_port ip port = ip ++ b':' ∷ port

host_port_differs : (ip port : Key) → 0 < length ip → host_port ip port ≢ b':' ∷ port
host_port_differs ip port h e = omega (arith, length-append {0} ip (b':' ∷ port), ap length e)

lease-put :
    {E : Type 0} (kv : Key × Key) (keep_alive : Option E)
    → (lease kv none none keep_alive).put ≡ some kv
unfolding lease
lease-put kv none = refl
lease-put kv (some e) = refl

register_puts :
    {E : Type 0} (etcd : Etcd E) (svc_name ip port : Key)
    → etcd.new_error ≡ none
    → get_local_ip etcd.interfaces ≡ inr ip
    → etcd.grant_error ≡ none
    → etcd.put_error ≡ none
    → (g : Registered E) × (register etcd svc_name (b':' ∷ port) ≡ some g)
      × (g.put ≡ some (service_key svc_name (host_port ip port), host_port ip port))
unfolding register register_with register_at register_full full_addr
register_puts etcd svc_name ip port n i g p =
    let kv : Key × Key = (service_key svc_name (host_port ip port), host_port ip port) in
    let made = ap (λ o. register_with etcd svc_name (b':' ∷ port) o) n in
    let found = ap (λ o. register_at etcd svc_name (b':' ∷ port) o) i in
    let leased = ap (λ o. some (lease kv o etcd.put_error etcd.keep_alive_error)) g in
    let put = ap (λ o. some (lease kv none o etcd.keep_alive_error)) p in
    (
      lease kv none none etcd.keep_alive_error,
      made ∙ (found ∙ (leased ∙ put)),
      lease-put kv etcd.keep_alive_error,
    )

module _ {F : Type 0} where
  pick_addr_found :
      (addr : Key) (client : Client) (p : ClientPicker F)
      → 0 < length addr
      → addr ≢ p.self_addr
      → lookup key_eq addr p.clients ≡ some client
      → pick_addr addr p ≡ (some client, true, false)
  unfolding pick_addr pick_client
  pick_addr_found [] client p h apart e = absurd (omega arith)
  pick_addr_found (x ∷ addr) client p h apart e =
      rw e (ap (λ b. (some client, true, b)) (if_neg (key_eq (x ∷ addr) p.self_addr) apart _ _))

  event_adds :
      {E : Type 0} (net : Network E) (key value : Key) (p : ClientPicker F)
      → value ≢ p.self_addr
      → lookup key_eq value p.clients ≡ none
      → net.dial_error value ≡ none
      → handle_watch_events net (record { event_type = put_event; key = key; value = value } ∷ []) p
        ≡ record p {
          cons_hash = (ConsistentHash.add (value ∷ []) p.cons_hash).0;
          clients = insert key_eq value (record { addr = value; svc_name = p.svc_name }) p.clients;
        }
  unfolding handle_watch_events handle_event handle_type set new_client discover set_client
  event_adds net key value p apart absent reached =
      if_neg (key_eq value p.self_addr) apart _ _
      ∙ (ap (λ o. discover net value o p) absent
          ∙ ap (λ o. set_client value (dialled value p.svc_name o) p) reached)

  -- A node that gives its address as a port alone registers the address of its host with the port.
  -- When the event of its own registration comes in, it takes itself for another node: alone in the
  -- cluster, it picks a client of itself for every key, and says that the key is not its own.
  pub own_address_is_picked :
      {E : Type 0} (etcd : Etcd E) (net : Network E) (config : Config F)
      (svc_name ip port key : Key)
      → etcd.new_error ≡ none
      → get_local_ip etcd.interfaces ≡ inr ip
      → etcd.grant_error ≡ none
      → etcd.put_error ≡ none
      → net.dial_error (host_port ip port) ≡ none
      → 0 < length ip
      → 0 < length key
      → 0 < rounds config.default_replicas
      → (g : Registered E) × (k : Key) × (register etcd svc_name (b':' ∷ port) ≡ some g)
        × (g.put ≡ some (k, host_port ip port))
        × ((pick_peer key (
              handle_watch_events net
                (record { event_type = put_event; key = k; value = host_port ip port } ∷ [])
                (new_picker config (b':' ∷ port) svc_name))).1
            ≡ (some (record { addr = host_port ip port; svc_name = svc_name }), true, false))
  unfolding pick_peer new_map lookup
  own_address_is_picked etcd net config svc_name ip port key n i l put dial hi hk hr =
      let (g, e, q) = register_puts etcd svc_name ip port n i l put in
      let value = host_port ip port in
      let p = new_picker config (b':' ∷ port) svc_name in
      let apart = host_port_differs ip port hi in
      let client : Client = record { addr = value; svc_name = svc_name } in
      let long : 0 < length value = omega (arith, length-append {0} ip (b':' ∷ port)) in
      let p' : ClientPicker F = record p {
        cons_hash = (ConsistentHash.add (value ∷ []) p.cons_hash).0;
        clients = insert key_eq value client p.clients;
      } in
      (
        g,
        service_key svc_name value,
        e,
        q,
        ap (λ (p : ClientPicker F). (pick_peer key p).1)
              (event_adds net (service_key svc_name value) value p apart refl dial)
            ∙ (ap (λ a. pick_addr a p') (get-add_first key value p.cons_hash refl hk long hr)
                ∙ pick_addr_found value client p' long apart (
                    lookup-insert key_eq value value client p.clients
                    ∙ if_pos (key_eq value value) refl _ _)),
      )
