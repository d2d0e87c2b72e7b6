-- ===== src/Store/Total.antt =====
-- No method of a store (store/store.go, lru.go, lru2.go) panics, and all keep it well-formed.
use lcache.Common.{ℕ, ◌-◌, ◌^◌, ◌<◌, ◌≡◌, refl, ◌∙◌, Option, some, Bool, true, false}
use lcache.Value.{Key, Value, Options}
use lcache.Lru.Invariant.{IsValid, new_lru-IsValid, delete_key-IsValid, get-IsValid}
use lcache.Lru.Writes.{set_with_expiration-IsValid}
use lcache.Lru.Changes.{clear-IsValid}
use lcache.Lru.Closing.{closed-delete_key, closed-get, closed-set_with_expiration}
use lcache.Lru.{Lru, new_lru}
use lcache.Lru
use lcache.Lru2.Safe.{IsStore, index-bound, set_with_expiration-IsStore, delete_at-IsStore}
use lcache.Lru2.Gets.{get-IsStore}
use lcache.Lru2.Sweeps.{clear-IsStore, len-some}
use lcache.Lru2.Runs.{new_lru2-IsStore}
use lcache.Lru2.{mask_of_next_pow_of2, or_default, index}
use lcache.Lru2
use lcache.Store.{
  CacheType, lru_type, lru2_type, other_type, Store, lru, lru2, Env, new_store, get,
  set_with_expiration, set, delete, clear, len, close,
}

-- A store that is well-formed and open.
abbrev pub IsStored : Store → Type 0
IsStored (lru c) = IsValid c × (c.closed ≡ false)
IsStored (lru2 s) = IsStore s

-- Options with which no index leaves its array.
pub record IsConfigured (opts : Options) : Type 0 where
  pub first : opts.cap_per_bucket < 2 ^ 16 - 1
  pub second : opts.level2_cap < 2 ^ 16 - 1
  pub masked : mask_of_next_pow_of2 (or_default opts.bucket_count 16) < 2 ^ 16 - 1

pub new_store-IsStored :
    (t : CacheType) (opts : Options) → IsConfigured opts → IsStored (new_store t opts)
unfolding new_store new_lru
new_store-IsStored lru2_type opts h = new_lru2-IsStore opts h.first h.second h.masked
new_store-IsStored lru_type opts h = (new_lru-IsValid opts, refl)
new_store-IsStored other_type opts h = (new_lru-IsValid opts, refl)

pub get-IsStored :
    (e : Env) (key : Key) (s : Store)
    → IsStored s
    → (s' : Store) × (r : Option (Option Value)) × (get e key s ≡ some (s', r)) × IsStored s'
unfolding get
get-IsStored e key (lru c) v = (
  lru (Lru.get e.now key c).0,
  _,
  refl,
  (get-IsValid e.now key v.0, closed-get e.now key c ∙ v.1),
)
get-IsStored e key (lru2 s) v =
    let r = get-IsStore e.now e.later key s v in (lru2 r.0, r.1, rw r.2 refl, r.3)

pub set_with_expiration-IsStored :
    (e : Env) (key : Key) (value : Option Value) (expiration : ℕ) (s : Store)
    → IsStored s
    → (s' : Store) × (set_with_expiration e key value expiration s ≡ some s') × IsStored s'
unfolding set_with_expiration
set_with_expiration-IsStored e key value expiration (lru c) v = (
  lru (Lru.set_with_expiration e.range e.now e.later key value expiration c),
  refl,
  (
    set_with_expiration-IsValid e.range e.now e.later key value expiration v.0,
    closed-set_with_expiration e.range e.now e.later key value expiration c ∙ v.1,
  ),
)
set_with_expiration-IsStored e key value expiration (lru2 s) v =
    let r = set_with_expiration-IsStore e.now key value expiration s v in
    (lru2 r.0, rw r.1 refl, r.2)

pub set-IsStored :
    (e : Env) (key : Key) (value : Option Value) (s : Store)
    → IsStored s
    → (s' : Store) × (set e key value s ≡ some s') × IsStored s'
unfolding set lcache.Lru2.set
set-IsStored e key value (lru c) v = (
  lru (Lru.set_with_expiration e.range e.now e.later key value 0 c),
  refl,
  (
    set_with_expiration-IsValid e.range e.now e.later key value 0 v.0,
    closed-set_with_expiration e.range e.now e.later key value 0 c ∙ v.1,
  ),
)
set-IsStored e key value (lru2 s) v =
    let r = set_with_expiration-IsStore e.now key value 9999999999999999 s v in
    (lru2 r.0, rw r.1 refl, r.2)

pub delete-IsStored :
    (key : Key) (s : Store)
    → IsStored s
    → (s' : Store) × (deleted : Bool) × (delete key s ≡ some (s', deleted)) × IsStored s'
unfolding delete lcache.Lru2.delete
delete-IsStored key (lru c) v = (
  lru (Lru.delete_key key c).0,
  _,
  refl,
  (delete_key-IsValid key v.0, closed-delete_key key c ∙ v.1),
)
delete-IsStored key (lru2 s) v =
    let r = delete_at-IsStore key (index key s) s v (index-bound key s v) in
    (lru2 r.0, r.1, rw r.2 refl, r.3)

pub clear-IsStored :
    (e : Env) (s : Store) → IsStored s → (s' : Store) × (clear e s ≡ some s') × IsStored s'
unfolding clear lcache.Lru.clear
clear-IsStored e (lru c) v = (lru (Lru.clear e.range c), refl, (clear-IsValid e.range v.0, v.1))
clear-IsStored e (lru2 s) v = let r = clear-IsStore s v in (lru2 r.0, rw r.1 refl, r.2)

pub len-IsStored : (s : Store) → IsStored s → (n : ℕ) × (len s ≡ some n)
unfolding len
len-IsStored (lru c) v = (Lru.count c, refl)
len-IsStored (lru2 s) v = len-some s v

pub close-IsStored : (s : Store) → IsStored s → (s' : Store) × (close s ≡ some s')
unfolding close lcache.Lru.close
close-IsStored (lru c) v = (lru (record c { closed = true }), rw v.1 refl)
close-IsStored (lru2 s) v = (lru2 s, refl)
