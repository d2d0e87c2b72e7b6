-- ===== src/Peers/Tests.antt =====
-- Runs of the picker of peers.go, and the theorems about it at concrete clusters.
use lcache.Common.{
  ℕ, ◌≡◌, refl, ap, inr, true, false, List, [], ◌∷◌, none, some, arith, ℕ_discrete, length,
}
use lcache.Common.GoMap.{lookup}
use lcache.Value.{Key, key_eq}
use lcache.ConsistentHash.{Config}
use lcache.Registration.{Etcd, Registered, first_ip, get_local_ip, register}
use lcache.Peers.Foreign.{Call, watches, picks, run, IsOther, never_picks_self}
use lcache.Peers.Stale.{clients_stay}
use lcache.Peers.Own.{host_port, own_address_is_picked}
use lcache.Peers.{
  Client, Network, ClientPicker, Event, put_event, delete_event, new_picker, new_client_picker,
  connected, fetch_all_services, fetch_services, handle_watch_events, pick_peer,
}

abbrev config : Config ℕ
config = record {
  default_replicas = 2;
  min_replicas = 1;
  max_replicas = 4;
  hash_func = length;
  load_balance_threshold = 0;
}

-- A network where all goes well, and no service is known yet.
abbrev net : Network ℕ
net = record {
  new_error = none;
  services = inr [];
  dial_error = λ addr. none;
  close_error = λ addr. none;
  close_etcd_error = none;
}

abbrev svc : Key
svc = b'l' ∷ []

abbrev k : Key
k = b'k' ∷ []

abbrev a : Key
a = b'a' ∷ []

-- A node comes, and goes: etcd gives the key alone with the event of its deletion.
abbrev comes : Event
comes = record { event_type = put_event; key = b'/' ∷ a; value = a }

abbrev goes : Event
goes = record { event_type = delete_event; key = b'/' ∷ a; value = [] }

abbrev calls : List (Call ℕ)
calls = watches net (comes ∷ []) ∷ picks k ∷ watches net (goes ∷ []) ∷ []

abbrev made : ClientPicker ℕ
made = new_picker config (b':' ∷ b'8' ∷ []) svc

made_lem : new_client_picker net config (b':' ∷ b'8' ∷ []) svc ≡ inr made
unfolding new_client_picker connected fetch_all_services fetch_services
made_lem = refl

never_picks_self_example : IsOther (b':' ∷ b'8' ∷ []) (pick_peer k (run calls made)).1
never_picks_self_example = never_picks_self net config (b':' ∷ b'8' ∷ []) svc k calls made made_lem

abbrev client : Client
client = record { addr = a; svc_name = svc }

abbrev known : ClientPicker ℕ
known = record made { clients = (a, client) ∷ [] }

known-a : lookup key_eq a known.clients ≡ some client
unfolding lookup key_eq ℕ_discrete
known-a = refl

clients_stay_example : (c : Client) × (lookup key_eq a (run calls known).clients ≡ some c)
clients_stay_example =
    clients_stay a calls known (λ e. absurd (omega (arith, ap length e)))
      (((λ e. cc), tt), (((λ e. refl), tt), tt)) (client, known-a)

abbrev etcd : Etcd ℕ
etcd = record {
  new_error = none;
  interfaces =
      inr (record { is_ip_net = true; is_loopback = false; is_v4 = true; text = b'9' ∷ [] } ∷ []);
  grant_error = none;
  put_error = none;
  keep_alive_error = none;
}

local_ip : get_local_ip etcd.interfaces ≡ inr (b'9' ∷ [])
unfolding get_local_ip first_ip
local_ip = refl

own_address_is_picked_example :
    (g : Registered ℕ) × (key : Key) × (register etcd svc (b':' ∷ b'8' ∷ []) ≡ some g)
    × (g.put ≡ some (key, host_port (b'9' ∷ []) (b'8' ∷ [])))
    × ((pick_peer k (
          handle_watch_events net
            (record { event_type = put_event; key = key; value = host_port (b'9' ∷ []) (b'8' ∷ []) }
              ∷ [])
            (new_picker config (b':' ∷ b'8' ∷ []) svc))).1
        ≡ (some (record { addr = host_port (b'9' ∷ []) (b'8' ∷ []); svc_name = svc }), true, false))
own_address_is_picked_example =
    own_address_is_picked etcd net config svc (b'9' ∷ []) (b'8' ∷ []) k refl local_ip refl refl refl
      (omega arith) (omega arith) (omega arith)
