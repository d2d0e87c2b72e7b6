-- ===== src/Server/Tests.antt =====
-- Runs of server.go, and the theorem about `Stop` at a server whose lease is not granted.
use lcache.Common.{ℕ, ◌^◌, ◌*◌, ◌≡◌, refl, true, false, [], ◌∷◌, none, some, inl, inr}
use lcache.Registration.{
  Etcd, grant_failed, failed, register, register_with, register_at, register_full, full_addr,
  get_local_ip, first_ip, lease,
}
use lcache.Server.Stopping.{stop_closes_once}
use lcache.Server.{
  Server, with_tls, with_dial_timeout, Host, credentials_failed, default_server_options,
  apply_option, apply_options, load_tls_credentials, grpc_options, size_options, max_recv_msg_size,
  new_with, new_server, start, run_registration, finish_stop, stop,
}

-- A host on which the files of the credentials cannot be read.
abbrev host : Host ℕ
host = record { client_error = λ endpoints timeout. none; key_pair_error = λ cert key. some 7 }

-- The client of etcd is open when the credentials fail, and nobody has it.
client_left_open :
    new_server host (b'a' ∷ []) (b'l' ∷ []) (with_dial_timeout 3 ∷ with_tls [] [] ∷ [])
    ≡ (true, inl (credentials_failed 7))
unfolding new_server new_with apply_options apply_option grpc_options load_tls_credentials
client_left_open = refl

-- A server of one option, which has been started.
abbrev server : Server
server = record {
  addr = b'9' ∷ [];
  svc_name = b'l' ∷ [];
  opts = default_server_options;
  grpc_opts = max_recv_msg_size (4 * 2 ^ 20) ∷ [];
  serving = b'l' ∷ [];
  grpc_stopped = false;
  client_open = true;
  stop_closed = false;
  registering = 1;
}

server_lem :
    new_server (record host { key_pair_error = λ cert key. none }) (b'9' ∷ []) (b'l' ∷ []) []
    ≡ (true, inr (record server { registering = 0 }))
unfolding new_server new_with apply_options grpc_options size_options
server_lem = refl

started : start {E = ℕ} none (record server { registering = 0 }) ≡ inr server
unfolding start
started = refl

abbrev etcd : Etcd ℕ
etcd = record {
  new_error = none;
  interfaces =
      inr (record { is_ip_net = true; is_loopback = false; is_v4 = true; text = b'1' ∷ [] } ∷ []);
  grant_error = some 5;
  put_error = none;
  keep_alive_error = none;
}

not_granted : register etcd (b'l' ∷ []) (b'9' ∷ []) ≡ some (failed none (grant_failed 5))
unfolding register register_with register_at register_full full_addr get_local_ip first_ip lease
not_granted = refl

stop_closes_once_example :
    (s' : Server) × (stop true server ≡ some (s', true))
    × (s'.stop_closed ≡ true)
    × (s'.grpc_stopped ≡ true)
    × (s'.client_open ≡ false)
    × (stop true s' ≡ some (s', true))
    × (run_registration etcd s' ≡ none)
    × (finish_stop false true s' ≡ none)
stop_closes_once_example =
    stop_closes_once etcd true server (failed none (grant_failed 5)) (grant_failed 5) not_granted
      refl
