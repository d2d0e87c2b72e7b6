-- ===== src/Registration/Tests.antt =====
-- Runs of registry/register.go, and the theorem about it at a concrete host.
use lcache.Common.{ℕ, ◌≡◌, refl, ◌⊎◌, inr, true, false, [], ◌∷◌, none, some, ℕ_discrete}
use lcache.Value.{Key}
use lcache.Registration.Keys.{IsReadable, register_settles}
use lcache.Registration.{
  Etcd, Interface, RegisterError, Registered, first_ip, get_local_ip, full_addr, lease,
  register_full, register_at, register_with, register, service_key, trim_prefix,
  parse_addr_from_key,
}

abbrev loopback : Interface
loopback = record { is_ip_net = true; is_loopback = true; is_v4 = true; text = b'1' ∷ [] }

abbrev card : Interface
card = record { is_ip_net = true; is_loopback = false; is_v4 = true; text = b'9' ∷ [] }

abbrev svc : Key
svc = b'l' ∷ []

-- No answer is an error, and one where the lease is not granted.
abbrev etcd : Etcd ℕ
etcd = record {
  new_error = none;
  interfaces = inr (loopback ∷ card ∷ []);
  grant_error = none;
  put_error = none;
  keep_alive_error = none;
}

-- The first address that is not a loopback address is put before a port.
registers :
    register etcd svc (b':' ∷ b'8' ∷ [])
    ≡ some (record {
      put = some (service_key svc (b'9' ∷ b':' ∷ b'8' ∷ []), b'9' ∷ b':' ∷ b'8' ∷ []);
      error = none;
      is_open = true;
    })
unfolding register register_with register_at register_full full_addr get_local_ip first_ip lease
registers = refl

-- An empty address panics.
empty_panics : register etcd svc [] ≡ none
unfolding register register_with register_at register_full full_addr get_local_ip first_ip
empty_panics = refl

-- A key of another service gives no address.
other_service : parse_addr_from_key (service_key svc (b'9' ∷ [])) (b'm' ∷ []) ≡ []
unfolding parse_addr_from_key trim_prefix ℕ_discrete
other_service = refl

register_settles_example :
    (g : Registered ℕ) × (register etcd svc (b':' ∷ b'8' ∷ []) ≡ some g)
    × IsReadable svc g.put
    × (((g.error ≡ none) × (g.is_open ≡ true) × ((kv : Key × Key) × (g.put ≡ some kv)))
        ⊎ (((e : RegisterError ℕ) × (g.error ≡ some e)) × (g.is_open ≡ false)))
register_settles_example = register_settles etcd svc b':' (b'8' ∷ [])
