-- ===== src/Registration.antt =====
-- registry/register.go: what a node writes to etcd about itself, and `parseAddrFromKey` of peers.go,
-- which reads an address from a key. What etcd and the network answer is the record `Etcd`, with `E`
-- for their errors.
pub mod Keys
mod Tests
use lcache.Common.{
  ℕ, Bool, true, false, List, [], ◌∷◌, ◌++◌, Option, none, some, ◌⊎◌, inl, inr, ◌≡◌, refl, sym, ap,
  ◌∙◌, ◌==◌, ◌&&◌, not, ite, if◌then◌else◌, ℕ_discrete,
}
use lcache.Value.{Key}

-- An address of a network interface: whether it is an `*net.IPNet`, a loopback address, one of IPv4,
-- and its text.
pub record Interface : Type 0 where
  pub is_ip_net : Bool
  pub is_loopback : Bool
  pub is_v4 : Bool
  pub text : Key

-- What the calls of etcd and of the network answer in one call of `Register`: an error, or what is
-- asked for.
pub record Etcd (E : Type 0) : Type 0 where
  pub new_error : Option E
  pub interfaces : E ⊎ List Interface
  pub grant_error : Option E
  pub put_error : Option E
  pub keep_alive_error : Option E

-- `getLocalIP`: the first address that will do.
unfoldable pub first_ip : List Interface → Option Key
first_ip [] = none
first_ip (a ∷ rest) =
    let next = first_ip rest in
    if a.is_ip_net && not a.is_loopback && a.is_v4 then some a.text else next

pub data RegisterError (E : Type 0) : Type 0 where
  new_failed interfaces_failed grant_failed put_failed keep_alive_failed : E → RegisterError E
  no_local_ip : RegisterError E

unfoldable pub get_local_ip : {E : Type 0} → E ⊎ List Interface → RegisterError E ⊎ Key
get_local_ip (inl e) = inl (interfaces_failed e)
get_local_ip (inr interfaces) = elim (first_ip interfaces) [
  | none ↦ inl no_local_ip
  | some ip ↦ inr ip
]

-- `/services/%s/` and `/services/%s/%s`
abbrev pub service_prefix : Key → Key
service_prefix svc_name =
    (b'/' ∷ b's' ∷ b'e' ∷ b'r' ∷ b'v' ∷ b'i' ∷ b'c' ∷ b'e' ∷ b's' ∷ b'/' ∷ [])
    ++ (svc_name ++ b'/' ∷ [])

abbrev pub service_key : Key → Key → Key
service_key svc_name addr = service_prefix svc_name ++ addr

-- `addr[0] == ':'` puts the address of the node before the port; an empty address panics.
unfoldable pub full_addr : Key → Key → Option Key
full_addr local_ip [] = none
full_addr local_ip (x ∷ addr) = some (if x == b':' then local_ip ++ x ∷ addr else x ∷ addr)

-- `Register`: what was put into etcd, if anything was, the error that is returned, and whether the
-- client of etcd is still open, which then renews the lease. `none` is a panic.
pub record Registered (E : Type 0) : Type 0 where
  pub put : Option (Key × Key)
  pub error : Option (RegisterError E)
  pub is_open : Bool

abbrev pub failed : {E : Type 0} → Option (Key × Key) → RegisterError E → Registered E
failed put e = record { put = put; error = some e; is_open = false }

-- After the address is known: `Grant`, `Put` and `KeepAlive`, by the error of each.
unfoldable pub lease : {E : Type 0} → Key × Key → (grant put keep_alive : Option E) → Registered E
lease kv (some e) put keep_alive = failed none (grant_failed e)
lease kv none (some e) keep_alive = failed none (put_failed e)
lease kv none none (some e) = failed (some kv) (keep_alive_failed e)
lease kv none none none = record { put = some kv; error = none; is_open = true }

unfoldable pub register_full : {E : Type 0} → Etcd E → Key → Option Key → Option (Registered E)
register_full etcd svc_name none = none
register_full etcd svc_name (some full) =
    some (
      lease (service_key svc_name full, full) etcd.grant_error etcd.put_error etcd.keep_alive_error)

unfoldable pub register_at :
    {E : Type 0} → Etcd E → Key → Key → RegisterError E ⊎ Key → Option (Registered E)
register_at etcd svc_name addr (inl e) = some (failed none e)
register_at etcd svc_name addr (inr local_ip) =
    register_full etcd svc_name (full_addr local_ip addr)

unfoldable pub register_with : {E : Type 0} → Etcd E → Key → Key → Option E → Option (Registered E)
register_with etcd svc_name addr (some e) = some (failed none (new_failed e))
register_with etcd svc_name addr none =
    register_at etcd svc_name addr (get_local_ip etcd.interfaces)

unfoldable pub register : {E : Type 0} → Etcd E → Key → Key → Option (Registered E)
register etcd svc_name addr = register_with etcd svc_name addr etcd.new_error

-- `strings.HasPrefix` with `strings.TrimPrefix`
unfoldable pub trim_prefix : Key → Key → Option Key
trim_prefix [] key = some key
trim_prefix (x ∷ prefix) [] = none
trim_prefix (x ∷ prefix) (y ∷ key) = ite (ℕ_discrete x y) (trim_prefix prefix key) none

-- `parseAddrFromKey`
abbrev pub or_empty : Option Key → Key
or_empty none = []
or_empty (some addr) = addr

unfoldable pub parse_addr_from_key : Key → Key → Key
parse_addr_from_key key svc_name = or_empty (trim_prefix (service_prefix svc_name) key)
