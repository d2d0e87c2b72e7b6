-- ===== src/Group/Safe.antt =====
-- Calls of `Group` (group.go), one after the other. `Stats` changes nothing, and is not among them.
use lcache.Common.{
  ℕ, ◌-◌, ◌^◌, ◌<◌, ◌≡◌, refl, ◌∙◌, Bool, List, [], ◌∷◌, Option, none, some, arith, true, inl, inr,
  ◌⊎◌, ◌++◌, ap, Bool-cases,
}
use lcache.Common.Panics.{◌>>=◌, some-bind}
use lcache.Value.{Key}
use lcache.Lru2.{mask_of_next_pow_of2}
use lcache.Store.{Env}
use lcache.Store.Total.{IsConfigured}
use lcache.Cache.{default_cache_options, new_cache, store_options}
use lcache.Cache.Methods.{new_cache-IsCache}
use lcache.Group.{
  World, Group, GroupOption, with_expiration, with_peers, with_cache_options, apply_option,
  apply_options, new_group, register_peers, get, set, delete, clear, close,
}
use lcache.Group.Methods.{
  Gives, IsGroup, clear-Gives, close-Gives, delete-Gives, get-Gives, set-Gives,
}

-- The calls of a group, but for `RegisterPeers`.
pub data Call (E : Type 0) : Type 0 where
  gets : World E → Key → Call E
  sets : World E → Bool → Key → List ℕ → Call E
  deletes : Bool → Key → Call E
  clears : Env → Call E
  closes : Call E

unfoldable pub apply : {E : Type 0} → Call E → Group → Option Group
apply (gets w key) g = do (g, r) ← get w key g; some g
apply (sets w from_peer key value) g = do (g, e) ← set w from_peer key value g; some g
apply {E = E} (deletes from_peer key) g = do (g, e) ← delete {E = E} from_peer key g; some g
apply (clears e) g = clear e g
apply closes g = close g

unfoldable pub run : {E : Type 0} → List (Call E) → Group → Option Group
run [] g = some g
run (call ∷ calls) g = do g ← apply call g; run calls g

apply-Gives : {E : Type 0} (call : Call E) (g : Group) → IsGroup g → Gives (apply call g)
unfolding apply
apply-Gives (gets w key) g v = let r = get-Gives w key g v in (r.0, some-bind _ r.2, r.3)
apply-Gives (sets w from_peer key value) g v =
    let r = set-Gives w from_peer key value g v in (r.0, some-bind _ r.2, r.3)
apply-Gives {E = E} (deletes from_peer key) g v =
    let r = delete-Gives {E = E} from_peer key g v in (r.0, some-bind _ r.2, r.3)
apply-Gives (clears e) g v = clear-Gives e g v
apply-Gives closes g v = close-Gives g v

pub run-Gives : {E : Type 0} (calls : List (Call E)) (g : Group) → IsGroup g → Gives (run calls g)
unfolding run
run-Gives [] g v = (g, refl, v)
run-Gives (call ∷ calls) g v =
    let (g₁, e, v₁) = apply-Gives call g v in
    let (g₂, e₂, v₂) = run-Gives calls g₁ v₁ in (g₂, some-bind _ e ∙ e₂, v₂)

-- And `RegisterPeers`, by whether the picker is not nil.
pub data Task (E : Type 0) : Type 0 where
  calls : Call E → Task E
  registers : Bool → Task E

unfoldable pub perform : {E : Type 0} → Task E → Group → Option Group
perform (calls call) g = apply call g
perform (registers peers) g = register_peers peers g

unfoldable pub run_tasks : {E : Type 0} → List (Task E) → Group → Option Group
run_tasks [] g = some g
run_tasks (task ∷ tasks) g = do g ← perform task g; run_tasks tasks g

-- A run that comes to a second `RegisterPeers`.
abbrev pub Panics : {E : Type 0} → List (Task E) → Group → Type 0
Panics {E} tasks g =
    (before after : List (Task E)) × (peers : Bool) × (g' : Group) × (tasks
      ≡ before ++ registers peers ∷ after)
    × (run_tasks before g ≡ some g')
    × (g'.has_peers ≡ true)
    × (run_tasks tasks g ≡ none)

perform-Gives :
    {E : Type 0} (task : Task E) (g : Group)
    → IsGroup g
    → Gives (perform task g)
      ⊎ ((peers : Bool) × (task ≡ registers peers) × (g.has_peers ≡ true) × (perform task g ≡ none))
unfolding perform register_peers
perform-Gives (calls call) g v = inl (apply-Gives call g v)
perform-Gives (registers peers) g v = elim (Bool-cases g.has_peers) [
  | inl e ↦ inr (peers, refl, e, rw e refl)
  | inr e ↦ inl (record g { has_peers = peers }, rw e refl, v)
]

run_tasks-Gives :
    {E : Type 0} (tasks : List (Task E)) (g : Group)
    → IsGroup g
    → Gives (run_tasks tasks g) ⊎ Panics tasks g
unfolding run_tasks
run_tasks-Gives [] g v = inl (g, refl, v)
run_tasks-Gives (task ∷ tasks) g v = elim (perform-Gives task g v) [
  | inr (peers, t, e, q) ↦ inr ([], tasks, peers, g, ap (λ t. t ∷ tasks) t, refl, e, rw q refl)
  | inl (g₁, e, v₁) ↦ elim (run_tasks-Gives tasks g₁ v₁) [
    | inl (g₂, e₂, v₂) ↦ inl (g₂, some-bind _ e ∙ e₂, v₂)
    | inr (before, after, peers, g', t, r, h, q) ↦ inr (
      task ∷ before,
      after,
      peers,
      g',
      ap (λ l. task ∷ l) t,
      some-bind _ e ∙ r,
      h,
      some-bind _ e ∙ q,
    )
  ]
]

-- Options with which no index of a store leaves its array.
abbrev pub AreConfigured : List GroupOption → Type 0
AreConfigured [] = Unit {0}
AreConfigured (with_cache_options opts ∷ rest) =
    IsConfigured (store_options opts) × AreConfigured rest
AreConfigured (with_expiration d ∷ rest) = AreConfigured rest
AreConfigured (with_peers peers ∷ rest) = AreConfigured rest

mask_of_16 : mask_of_next_pow_of2 16 < 2 ^ 16 - 1
unfolding mask_of_next_pow_of2
mask_of_16 = omega arith

options-IsGroup :
    (opts : List GroupOption) (g : Group)
    → AreConfigured opts
    → IsGroup g
    → IsGroup (apply_options opts g)
unfolding apply_options apply_option
options-IsGroup [] g a v = v
options-IsGroup (with_expiration d ∷ rest) g a v =
    options-IsGroup rest (record g { expiration = d }) a v
options-IsGroup (with_peers peers ∷ rest) g a v =
    options-IsGroup rest (record g { has_peers = peers }) a v
options-IsGroup (with_cache_options opts ∷ rest) g a v =
    options-IsGroup rest (record g { main_cache = new_cache opts }) a.1 (new_cache-IsCache opts a.0)

pub new_group-IsGroup :
    (name : Key) (cache_bytes : ℕ) (opts : List GroupOption)
    → AreConfigured opts
    → IsGroup (new_group name cache_bytes opts)
unfolding new_group
new_group-IsGroup name cache_bytes opts a = options-IsGroup opts _ a (
    new_cache-IsCache (record default_cache_options { max_bytes = cache_bytes })
      (record { first = omega arith; second = omega arith; masked = mask_of_16 }))

-- Any calls of a new group, one after the other, return without a panic and leave its cache
-- well-formed, whatever the getter, the peers and the clock answer; unless one of them is a
-- `RegisterPeers` that meets a group with peers, and panics. With options in which no index leaves its
-- array.
pub run-IsGroup :
    {E : Type 0} (name : Key) (cache_bytes : ℕ) (opts : List GroupOption) (tasks : List (Task E))
    → AreConfigured opts
    → ((g : Group) × (run_tasks tasks (new_group name cache_bytes opts) ≡ some g) × IsGroup g)
      ⊎ Panics tasks (new_group name cache_bytes opts)
run-IsGroup name cache_bytes opts tasks a =
    run_tasks-Gives tasks _ (new_group-IsGroup name cache_bytes opts a)
