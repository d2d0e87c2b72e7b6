-- ===== src/Server.antt =====
-- server.go: the options of a server, `NewServer`, `Start` and `Stop`. What etcd, the network and the
-- files of the credentials answer is a parameter, with `E` for their errors. `none` is a panic.
pub mod Stopping
mod Tests
use Prim.Native.Nat.{pred}
use lcache.Common.{
  ℕ, suc, ◌*◌, ◌^◌, Bool, true, false, List, [], ◌∷◌, ◌++◌, Option, none, some, ◌⊎◌, inl, inr,
  if◌then◌else◌,
}
use lcache.Common.Panics.{◌>>=◌}
use lcache.Common.Words.{gt64}
use lcache.Value.{Key}
use lcache.Registration.{Etcd, Registered, register}

-- `ServerOptions`; a duration is in nanoseconds.
pub record ServerOptions : Type 0 where
  pub etcd_endpoints : List Key
  pub dial_timeout : ℕ
  pub max_msg_size : ℕ
  pub tls : Bool
  pub cert_file : Key
  pub key_file : Key

-- `DefaultServerOptions`, with localhost:2379
abbrev pub default_server_options : ServerOptions
default_server_options = record {
  etcd_endpoints =
      (b'l' ∷ b'o' ∷ b'c' ∷ b'a' ∷ b'l' ∷ b'h' ∷ b'o' ∷ b's' ∷ b't' ∷ b':' ∷ b'2' ∷ b'3' ∷ b'7'
        ∷ b'9' ∷ [])
      ∷ [];
  dial_timeout = 5 * 10 ^ 9;
  max_msg_size = 4 * 2 ^ 20;
  tls = false;
  cert_file = [];
  key_file = [];
}

-- `ServerOption`, by the functions that make one.
pub data ServerOption : Type 0 where
  with_etcd_endpoints : List Key → ServerOption
  with_dial_timeout : ℕ → ServerOption
  with_tls : (cert_file key_file : Key) → ServerOption

unfoldable pub apply_option : ServerOption → ServerOptions → ServerOptions
apply_option (with_etcd_endpoints endpoints) o = record o { etcd_endpoints = endpoints }
apply_option (with_dial_timeout timeout) o = record o { dial_timeout = timeout }
apply_option (with_tls cert_file key_file) o = record o {
  tls = true;
  cert_file = cert_file;
  key_file = key_file;
}

unfoldable pub apply_options : List ServerOption → ServerOptions → ServerOptions
apply_options [] o = o
apply_options (opt ∷ opts) o = apply_options opts (apply_option opt o)

-- An option of the gRPC server: a limit of a message, or the credentials of two files.
pub data GrpcOption : Type 0 where
  max_recv_msg_size : ℕ → GrpcOption
  creds : (cert_file key_file : Key) → GrpcOption

-- `Server`: `serving` is the service that the health check reports, `stop_closed` says that `stopCh`
-- is closed, `registering` counts the goroutines of `Start` that have not ended.
pub record Server : Type 0 where
  pub addr : Key
  pub svc_name : Key
  pub opts : ServerOptions
  pub grpc_opts : List GrpcOption
  pub serving : Key
  pub grpc_stopped : Bool
  pub client_open : Bool
  pub stop_closed : Bool
  pub registering : ℕ

pub data HostError (E : Type 0) : Type 0 where
  client_failed credentials_failed listen_failed : E → HostError E

-- `clientv3.New` and `tls.LoadX509KeyPair`, by the errors that they return.
pub record Host (E : Type 0) : Type 0 where
  pub client_error : List Key → ℕ → Option E
  pub key_pair_error : Key → Key → Option E

-- `loadTLSCredentials`
unfoldable pub load_tls_credentials : {E : Type 0} → Host E → Key → Key → E ⊎ GrpcOption
load_tls_credentials host cert_file key_file = elim (host.key_pair_error cert_file key_file) [
  | some e ↦ inl e
  | none ↦ inr (creds cert_file key_file)
]

-- The options of the gRPC server.
unfoldable pub size_options : ServerOptions → List GrpcOption
size_options o = if gt64 o.max_msg_size 0 then max_recv_msg_size o.max_msg_size ∷ [] else []

unfoldable pub grpc_options : {E : Type 0} → Host E → ServerOptions → HostError E ⊎ List GrpcOption
grpc_options host o =
    if o.tls
    then elim (load_tls_credentials host o.cert_file o.key_file) [
      | inl e ↦ inl (credentials_failed e)
      | inr c ↦ inr (size_options o ++ c ∷ [])
    ]
    else inr (size_options o)

-- `NewServer`: whether a client of etcd has been opened, and the server or the error.
unfoldable pub new_with :
    {E : Type 0} → Host E → Key → Key → ServerOptions → Bool × (HostError E ⊎ Server)
new_with host addr svc_name o = elim (host.client_error o.etcd_endpoints o.dial_timeout) [
  | some e ↦ (false, inl (client_failed e))
  | none ↦ elim (grpc_options host o) [
    | inl e ↦ (true, inl e)
    | inr opts ↦ (
      true,
      inr (record {
        addr = addr;
        svc_name = svc_name;
        opts = o;
        grpc_opts = opts;
        serving = svc_name;
        grpc_stopped = false;
        client_open = true;
        stop_closed = false;
        registering = 0;
      }),
    )
  ]
]

unfoldable pub new_server :
    {E : Type 0} → Host E → Key → Key → List ServerOption → Bool × (HostError E ⊎ Server)
new_server host addr svc_name opts =
    new_with host addr svc_name (apply_options opts default_server_options)

-- `Start` up to `Serve`, by the error of `net.Listen`.
unfoldable pub start : {E : Type 0} → Option E → Server → HostError E ⊎ Server
start (some e) s = inl (listen_failed e)
start none s = inr (record s { registering = suc s.registering })

-- `close(s.stopCh)`, which panics where it is closed.
unfoldable pub close_stop : Server → Option Server
close_stop s = if s.stop_closed then none else some (record s { stop_closed = true })

-- The goroutine of `Start`, after the error of `Register`.
unfoldable pub registered : {E : Type 0} → Registered E → Server → Option Server
registered g s = elim g.error [
  | none ↦ some (record s { registering = pred s.registering })
  | some e ↦ close_stop (record s { registering = pred s.registering })
]

-- And the whole of it.
unfoldable pub run_registration : {E : Type 0} → Etcd E → Server → Option Server
run_registration etcd s = do g ← register etcd s.svc_name s.addr; registered g s

-- `Stop`, after its `select` has found the channel closed or not: the server, and whether `Stop`
-- returns. `GracefulStop` takes no more calls and waits for those that are under way; `ends` says
-- whether all of them come to an end.
unfoldable pub finish_stop : (closed ends : Bool) → Server → Option (Server × Bool)
finish_stop closed ends s = do
  s ← if closed then some s else close_stop s
  let s = record s { grpc_stopped = true }
  some (if ends then (record s { client_open = false }, true) else (s, false))

-- `Stop` with nothing in between.
unfoldable pub stop : (ends : Bool) → Server → Option (Server × Bool)
stop ends s = finish_stop s.stop_closed ends s
