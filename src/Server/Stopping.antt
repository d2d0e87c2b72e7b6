-- ===== src/Server/Stopping.antt =====
-- `Stop` of server.go, again and beside the goroutine of `Start`.
use lcache.Common.{
  ap, ◌∙◌, Bool, not, ◌&&◌, ◌≡◌, refl, true, false, none, some, Bool-cases, inl, inr,
}
use lcache.Registration.{Etcd, Registered, register, RegisterError}
use lcache.Server.{Server, close_stop, registered, run_registration, finish_stop, stop}

-- What `Stop` leaves.
abbrev pub stopped : Bool → Server → Server
stopped ends s = record s {
  stop_closed = true;
  grpc_stopped = true;
  client_open = not ends && s.client_open;
}

stop_once : (ends : Bool) (s : Server) → stop ends s ≡ some (stopped ends s, ends)
unfolding stop finish_stop close_stop
stop_once true s = elim (Bool-cases s.stop_closed) [ inl e ↦ rw e refl | inr e ↦ rw e refl ]
stop_once false s = elim (Bool-cases s.stop_closed) [ inl e ↦ rw e refl | inr e ↦ rw e refl ]

stop_again : (ends : Bool) (s : Server) → stopped ends (stopped ends s) ≡ stopped ends s
stop_again true s = refl
stop_again false s = refl

closes_again :
    (ends : Bool) (s : Server)
    → s.stop_closed ≡ true
    → (close_stop s ≡ none) × (finish_stop false ends s ≡ none)
unfolding finish_stop close_stop
closes_again ends s e = (rw e refl, rw e refl)

-- `Stop` does not panic, and leaves the channel closed and gRPC stopped. It returns, with the client
-- of etcd closed, where the calls that are under way come to an end; where they do not it waits, and
-- leaves the client as it is. Another call does the same and changes nothing. But where `Register`
-- returns an error after that, the goroutine of `Start` panics, as it closes the channel again; and so
-- does another call of `Stop` whose test of the channel came before.
pub stop_closes_once :
    {E : Type 0} (etcd : Etcd E) (ends : Bool) (s : Server) (g : Registered E) (e : RegisterError E)
    → register etcd s.svc_name s.addr ≡ some g
    → g.error ≡ some e
    → (s' : Server) × (stop ends s ≡ some (s', ends))
      × (s'.stop_closed ≡ true)
      × (s'.grpc_stopped ≡ true)
      × (s'.client_open ≡ (not ends && s.client_open))
      × (stop ends s' ≡ some (s', ends))
      × (run_registration etcd s' ≡ none)
      × (finish_stop false ends s' ≡ none)
unfolding run_registration registered close_stop
stop_closes_once etcd ends s g e h q =
    let s' = stopped ends s in
    (
      s',
      stop_once ends s,
      refl,
      refl,
      refl,
      stop_once ends s' ∙ ap (λ t. some (t, ends)) (stop_again ends s),
      rw h (rw q refl),
      (closes_again ends s' refl).1,
    )
