-- ===== src/Registration/Keys.antt =====
-- The key and the address that registry/register.go puts into etcd, and what it leaves open.
use lcache.Common.{
  ℕ, ◌≡◌, refl, ap, ◌∙◌, ◌⊎◌, inl, inr, true, false, [], ◌∷◌, ◌++◌, Option, none, some, if_pos,
  ℕ_discrete,
}
use lcache.Value.{Key}
use lcache.Registration.{
  Etcd, Registered, RegisterError, failed, service_prefix, service_key, full_addr, lease,
  register_full, register_at, get_local_ip, register_with, register, trim_prefix, or_empty,
  parse_addr_from_key,
}

trim-append : (prefix addr : Key) → trim_prefix prefix (prefix ++ addr) ≡ some addr
unfolding trim_prefix
trim-append [] addr = refl
trim-append (x ∷ prefix) addr = if_pos (ℕ_discrete x x) refl _ _ ∙ trim-append prefix addr

-- What was put, if anything was, is read back from its key.
abbrev pub IsReadable : Key → Option (Key × Key) → Type 0
IsReadable svc_name none = Unit {0}
IsReadable svc_name (some (key, value)) = parse_addr_from_key key svc_name ≡ value

-- The client of etcd is open exactly where there is no error.
record IsSettled {E : Type 0} (svc_name : Key) (g : Registered E) : Type 0 where
  readable : IsReadable svc_name g.put
  settled :
      ((g.error ≡ none) × (g.is_open ≡ true) × ((kv : Key × Key) × (g.put ≡ some kv)))
      ⊎ (((e : RegisterError E) × (g.error ≡ some e)) × (g.is_open ≡ false))

failed-IsSettled :
    {E : Type 0} (svc_name : Key) (e : RegisterError E) → IsSettled svc_name (failed none e)
failed-IsSettled svc_name e = record { readable = tt; settled = inr ((e, refl), refl) }

service_key-IsReadable :
    (svc_name addr : Key) → parse_addr_from_key (service_key svc_name addr) svc_name ≡ addr
unfolding parse_addr_from_key
service_key-IsReadable svc_name addr = ap or_empty (trim-append (service_prefix svc_name) addr)

lease-IsSettled :
    {E : Type 0} (svc_name full : Key) (grant put keep_alive : Option E)
    → IsSettled svc_name (lease (service_key svc_name full, full) grant put keep_alive)
unfolding lease
lease-IsSettled svc_name full (some e) put keep_alive = failed-IsSettled svc_name _
lease-IsSettled svc_name full none (some e) keep_alive = failed-IsSettled svc_name _
lease-IsSettled svc_name full none none (some e) = record {
  readable = service_key-IsReadable svc_name full;
  settled = inr ((_, refl), refl);
}
lease-IsSettled svc_name full none none none = record {
  readable = service_key-IsReadable svc_name full;
  settled = inl (refl, refl, (_, refl));
}

abbrev Settles : {E : Type 0} → Key → Option (Registered E) → Type 0
Settles {E} svc_name o = (g : Registered E) × (o ≡ some g) × IsSettled svc_name g

at_port-Settles :
    {E : Type 0} (etcd : Etcd E) (svc_name : Key) (x : ℕ) (addr : Key) (ip : RegisterError E ⊎ Key)
    → Settles svc_name (register_at etcd svc_name (x ∷ addr) ip)
unfolding register_at register_full full_addr
at_port-Settles etcd svc_name x addr (inl e) = (_, refl, failed-IsSettled svc_name e)
at_port-Settles etcd svc_name x addr (inr ip) =
    (_, refl, lease-IsSettled svc_name _ etcd.grant_error etcd.put_error etcd.keep_alive_error)

with-Settles :
    {E : Type 0} (etcd : Etcd E) (svc_name : Key) (x : ℕ) (addr : Key) (o : Option E)
    → Settles svc_name (register_with etcd svc_name (x ∷ addr) o)
unfolding register_with
with-Settles etcd svc_name x addr (some e) = (_, refl, failed-IsSettled svc_name _)
with-Settles etcd svc_name x addr none =
    at_port-Settles etcd svc_name x addr (get_local_ip etcd.interfaces)

-- `Register` of an address that is not empty returns, whatever etcd and the network answer. The key
-- that it puts into etcd parses to the address that it puts under it. Where it returns no error it has
-- put them and the client of etcd is open; where it returns an error it has closed the client.
pub register_settles :
    {E : Type 0} (etcd : Etcd E) (svc_name : Key) (x : ℕ) (addr : Key)
    → (g : Registered E) × (register etcd svc_name (x ∷ addr) ≡ some g)
      × IsReadable svc_name g.put
      × (((g.error ≡ none) × (g.is_open ≡ true) × ((kv : Key × Key) × (g.put ≡ some kv)))
          ⊎ (((e : RegisterError E) × (g.error ≡ some e)) × (g.is_open ≡ false)))
unfolding register
register_settles etcd svc_name x addr =
    let (g, e, v) = with-Settles etcd svc_name x addr etcd.new_error in
    (g, e, v.readable, v.settled)
