-- ===== src/Peers/Foreign.antt =====
-- The picker of peers.go never picks a node at the address that it was given as its own.
use lcache.Common.{
  ◌≡◌, ◌≢◌, refl, sym, ap, subst, ◌∙◌, ◌⊎◌, inl, inr, Bool, true, false, List, [], ◌∷◌, Option,
  none, some, ite-cases, if_neg,
}
use lcache.Common.Panics.{some-inj}
use lcache.Common.GoMap.{GoMap, lookup, insert, delete, lookup-insert, lookup-delete}
use lcache.Value.{Key, key_eq}
use lcache.ConsistentHash.{Config}
use lcache.Peers.{
  Client, Network, dialled, fetched, connected, ClientPicker, Event, EventType, put_event,
  delete_event, new_client, set_client, set, remove, discover, forget, handle_type, handle_event,
  handle_watch_events, fetch_service, fetch_services, fetch_all_services, new_picker,
  new_client_picker, pick_client, pick_addr, pick_peer,
}

-- The address of the node itself stands for no client, and a client stands under its address.
abbrev AreForeign : Key → GoMap Key Client → Type 0
AreForeign self clients =
    (addr : Key) (client : Client)
    → lookup key_eq addr clients ≡ some client
    → (client.addr ≡ addr) × (addr ≢ self)

pub record IsPicker {F : Type 0} (self : Key) (p : ClientPicker F) : Type 0 where
  pub same : p.self_addr ≡ self
  pub foreign : AreForeign self p.clients

insert-AreForeign :
    (self addr : Key) (client : Client) (clients : GoMap Key Client)
    → client.addr ≡ addr
    → addr ≢ self
    → AreForeign self clients
    → AreForeign self (insert key_eq addr client clients)
insert-AreForeign self addr client clients named apart v a c e =
    ite-cases (λ o. o ≡ some c → (c.addr ≡ a) × (a ≢ self)) (key_eq addr a) (some client)
      (lookup key_eq a clients)
      (λ at e. (ap (λ (c : Client). c.addr) (sym (some-inj e)) ∙ (named ∙ at), λ q. apart (at ∙ q)))
      (λ _. v a c) (sym (lookup-insert key_eq addr a client clients) ∙ e)

delete-AreForeign :
    (self addr : Key) (clients : GoMap Key Client)
    → AreForeign self clients
    → AreForeign self (delete key_eq addr clients)
delete-AreForeign self addr clients v a c e =
    ite-cases (λ o. o ≡ some c → (c.addr ≡ a) × (a ≢ self)) (key_eq addr a) none
      (lookup key_eq a clients) (λ _ e. cc) (λ _. v a c)
      (sym (lookup-delete key_eq addr a clients) ∙ e)

inr-inj : {A B : Type 0} {b b' : B} → ◌≡◌ {A = A ⊎ B} (inr b) (inr b') → b ≡ b'
inr-inj e = cc

module _ {F : Type 0} where
  dialled-IsPicker :
      {E : Type 0} (self addr : Key) (o : Option E) (p : ClientPicker F)
      → addr ≢ self
      → IsPicker self p
      → IsPicker self (set_client addr (dialled addr p.svc_name o) p)
  unfolding set_client
  dialled-IsPicker self addr (some e) p apart v = v
  dialled-IsPicker self addr none p apart v = record {
    same = v.same;
    foreign = insert-AreForeign self addr _ p.clients refl apart v.foreign;
  }

  module _ {E : Type 0} (net : Network E) (self : Key) where
    set-IsPicker :
        (addr : Key) (p : ClientPicker F)
        → addr ≢ self
        → IsPicker self p
        → IsPicker self (set net addr p)
    unfolding set new_client
    set-IsPicker addr p apart v = dialled-IsPicker self addr (net.dial_error addr) p apart v

    handle_type-IsPicker :
        (t : EventType) (addr : Key) (o : Option Client) (p : ClientPicker F)
        → lookup key_eq addr p.clients ≡ o
        → addr ≢ self
        → IsPicker self p
        → IsPicker self (handle_type net t addr p)
    unfolding handle_type discover forget remove
    handle_type-IsPicker put_event addr (some c) p e apart v = rw e v
    handle_type-IsPicker put_event addr none p e apart v = rw e (set-IsPicker addr p apart v)
    handle_type-IsPicker delete_event addr none p e apart v = rw e v
    handle_type-IsPicker delete_event addr (some c) p e apart v =
        rw e (record { same = v.same; foreign = delete-AreForeign self addr p.clients v.foreign })

    handle_event-IsPicker :
        (event : Event) (p : ClientPicker F)
        → IsPicker self p
        → IsPicker self (handle_event net event p)
    unfolding handle_event
    handle_event-IsPicker event p v =
        ite-cases (IsPicker self) (key_eq event.value p.self_addr) p
          (handle_type net event.event_type event.value p) (λ _. v)
          (λ apart.
            handle_type-IsPicker event.event_type event.value _ p refl (λ q. apart (q ∙ sym v.same))
              v)

    pub handle_watch_events-IsPicker :
        (events : List Event) (p : ClientPicker F)
        → IsPicker self p
        → IsPicker self (handle_watch_events net events p)
    unfolding handle_watch_events
    handle_watch_events-IsPicker [] p v = v
    handle_watch_events-IsPicker (event ∷ events) p v =
        handle_watch_events-IsPicker events (handle_event net event p)
          (handle_event-IsPicker event p v)

    fetch_service-IsPicker :
        (addr : Key) (p : ClientPicker F)
        → IsPicker self p
        → IsPicker self (fetch_service net addr p)
    unfolding fetch_service
    fetch_service-IsPicker [] p v = v
    fetch_service-IsPicker (x ∷ addr) p v =
        ite-cases (IsPicker self) (key_eq (x ∷ addr) p.self_addr) p (set net (x ∷ addr) p) (λ _. v)
          (λ apart. set-IsPicker (x ∷ addr) p (λ q. apart (q ∙ sym v.same)) v)

    pub fetch_services-IsPicker :
        (kvs : List (Key × Key)) (p : ClientPicker F)
        → IsPicker self p
        → IsPicker self (fetch_services net kvs p)
    unfolding fetch_services
    fetch_services-IsPicker [] p v = v
    fetch_services-IsPicker ((key, value) ∷ kvs) p v =
        fetch_services-IsPicker kvs (fetch_service net value p) (fetch_service-IsPicker value p v)

-- What a picker gives for a key: no peer, or one that is another node.
abbrev pub IsOther : Key → Option Client × Bool × Bool → Type 0
IsOther self (none, ok, is_self) = (ok ≡ false) × (is_self ≡ false)
IsOther self (some client, ok, is_self) = (client.addr ≢ self) × (ok ≡ true) × (is_self ≡ false)

module _ {F : Type 0} where
  pick_addr-IsOther :
      (self addr : Key) (p : ClientPicker F) → IsPicker self p → IsOther self (pick_addr addr p)
  unfolding pick_addr pick_client
  pick_addr-IsOther self [] p v = (refl, refl)
  pick_addr-IsOther self (x ∷ addr) p v = found (lookup key_eq (x ∷ addr) p.clients) refl
    where
      found :
          (o : Option Client)
          → lookup key_eq (x ∷ addr) p.clients ≡ o
          → IsOther self (pick_client (x ∷ addr) o p)
      found none e = (refl, refl)
      found (some client) e =
          let (named, apart) = v.foreign (x ∷ addr) client e in
          (
            (λ q. apart (sym named ∙ q)),
            refl,
            if_neg (key_eq (x ∷ addr) p.self_addr) (λ q. apart (q ∙ v.same)) _ _,
          )

-- What happens to a picker that has been made: events come in, and keys are looked up.
pub data Call (E : Type 0) : Type 0 where
  watches : Network E → List Event → Call E
  picks : Key → Call E

module _ {F : Type 0} {E : Type 0} where
  unfoldable pub apply : Call E → ClientPicker F → ClientPicker F
  apply (watches net events) p = handle_watch_events net events p
  apply (picks key) p = (pick_peer key p).0

  unfoldable pub run : List (Call E) → ClientPicker F → ClientPicker F
  run [] p = p
  run (call ∷ calls) p = run calls (apply call p)

  run-IsPicker :
      (self : Key) (calls : List (Call E)) (p : ClientPicker F)
      → IsPicker self p
      → IsPicker self (run calls p)
  unfolding run apply pick_peer
  run-IsPicker self [] p v = v
  run-IsPicker self (watches net events ∷ calls) p v =
      run-IsPicker self calls _ (handle_watch_events-IsPicker net self events p v)
  run-IsPicker self (picks key ∷ calls) p v =
      run-IsPicker self calls _ (record { same = v.same; foreign = v.foreign })

  -- A picker that has been made and what it started with.
  fetched-IsPicker :
      (net : Network E) (services : E ⊎ List (Key × Key)) (self : Key) (p p' : ClientPicker F)
      → fetched net services p ≡ inr p'
      → IsPicker self p
      → IsPicker self p'
  fetched-IsPicker net (inl e) self p p' h v = cc
  fetched-IsPicker net (inr kvs) self p p' h v =
      subst (IsPicker self) (inr-inj h) (fetch_services-IsPicker net self kvs p v)

  new_client_picker-IsPicker :
      (net : Network E) (o : Option E) (config : Config F) (self svc_name : Key)
      (p : ClientPicker F)
      → connected net o (new_picker config self svc_name) ≡ inr p
      → IsPicker self p
  unfolding connected fetch_all_services lookup
  new_client_picker-IsPicker net (some e) config self svc_name p h = cc
  new_client_picker-IsPicker net none config self svc_name p h =
      fetched-IsPicker net net.services self _ p h
        (record { same = refl; foreign = λ addr client e. cc })

  -- Whatever services a picker has been made with, and whatever events and lookups came since, it
  -- gives for a key no peer, or the client of an address that is not its own, and never says that the
  -- key is its own.
  pub never_picks_self :
      (net : Network E) (config : Config F) (self svc_name key : Key) (calls : List (Call E))
      (p : ClientPicker F)
      → new_client_picker net config self svc_name ≡ inr p
      → IsOther self (pick_peer key (run calls p)).1
  unfolding new_client_picker pick_peer
  never_picks_self net config self svc_name key calls p h =
      let v =
        run-IsPicker self calls p
          (new_client_picker-IsPicker net net.new_error config self svc_name p h) in
      pick_addr-IsOther self _ _ (record { same = v.same; foreign = v.foreign })
