-- ===== src/Group/Methods.antt =====
-- Each method of `Group` (group.go) returns, and keeps its cache well-formed.
use lcache.Common.{
  ℕ, ◌+◌, ◌≡◌, refl, sym, subst, ◌∙◌, ◌⊎◌, inl, inr, Bool, true, List, Option, none, some, arith,
  Bool-cases, if-true, if-false,
}
use lcache.Common.Panics.{some-bind}
use lcache.Common.Words.{add64, gt64}
use lcache.Value.{Key, ByteView}
use lcache.Store.{Env}
use lcache.Cache.{Cache}
use lcache.Cache.Methods.{
  IsCache, Returns, add-Returns, add_with_expiration-Returns, get-Returns, delete-Returns,
  clear-Returns, close-Returns,
}
use lcache.Group.{
  Error, World, Group, write, store_view, take_peer, ask_peer, take_value, ask_getter, or_getter,
  load_data, count_load, finish_load, load, get_or_load, get, is_empty, Sync, start_sync, set,
  delete, clear, close, group_closed, key_required, value_required,
}

-- A call returns, and leaves a group whose cache is well-formed.
abbrev pub IsGroup : Group → Type 0
IsGroup g = IsCache g.main_cache

abbrev pub Gives : Option Group → Type 0
Gives o = (g' : Group) × (o ≡ some g') × IsGroup g'

abbrev pub GivesWith : (A : Type 0) → Option (Group × A) → Type 0
GivesWith A o = (g' : Group) × (r : A) × (o ≡ some (g', r)) × IsGroup g'

pub write-Returns :
    {E : Type 0} (w : World E) (key : Key) (view : ByteView) (expiration : ℕ) (c : Cache)
    → IsCache c
    → Returns (write w key view expiration c)
unfolding write
write-Returns w key view expiration c v = elim (Bool-cases (gt64 expiration 0)) [
  | inl h ↦
      let r = add_with_expiration-Returns w.writes key view (w.now + expiration) c v in
      (r.0, if-true _ _ h ∙ r.1, r.2)
  | inr h ↦ let r = add-Returns w.writes key view c v in (r.0, if-false _ _ h ∙ r.1, r.2)
]

pub store_view-Gives :
    {E : Type 0} (w : World E) (key : Key) (view : ByteView) (g : Group)
    → IsGroup g
    → Gives (store_view w key view g)
unfolding store_view
store_view-Gives w key view g v =
    let (c, e, v') = write-Returns w key view g.expiration g.main_cache v in
    (record g { main_cache = c }, some-bind _ e, v')

-- Asking a peer and the getter leaves the cache as it is.
pub ask_peer-main_cache :
    {E : Type 0} (w : World E) (key : Key) (g : Group)
    → (ask_peer w key g).0.main_cache ≡ g.main_cache
unfolding ask_peer take_peer
ask_peer-main_cache w key g = grind arith

or_getter-main_cache :
    {E : Type 0} (w : World E) (key : Key) (p : Group × Option ByteView)
    → (or_getter w key p).0.main_cache ≡ p.0.main_cache
unfolding or_getter ask_getter take_value
or_getter-main_cache w key (g, some view) = refl
or_getter-main_cache w key (g, none) = grind arith

pub load_data-main_cache :
    {E : Type 0} (w : World E) (key : Key) (g : Group)
    → (load_data w key g).0.main_cache ≡ g.main_cache
unfolding load_data
load_data-main_cache w key g =
    or_getter-main_cache w key (ask_peer w key g) ∙ ask_peer-main_cache w key g

finish_load-Gives :
    {E : Type 0} (w : World E) (key : Key) (r : Error E ⊎ ByteView) (g : Group)
    → IsGroup g
    → GivesWith (Error E ⊎ ByteView) (finish_load w key r g)
unfolding finish_load
finish_load-Gives w key (inl error) g v = (_, _, refl, v)
finish_load-Gives w key (inr view) g v =
    let (g', e, v') = store_view-Gives w key view g v in (g', inr view, some-bind _ e, v')

pub load-Gives :
    {E : Type 0} (w : World E) (key : Key) (g : Group)
    → IsGroup g
    → GivesWith (Error E ⊎ ByteView) (load w key g)
unfolding load count_load
load-Gives w key g v =
    let p = load_data w key g in
    finish_load-Gives w key p.1 (count_load w p.0)
      (subst IsCache (sym (load_data-main_cache w key g)) v)

get_or_load-Gives :
    {E : Type 0} (w : World E) (key : Key) (c : Cache) (found : Option ByteView) (g : Group)
    → IsCache c
    → GivesWith (Error E ⊎ ByteView) (get_or_load w key (c, found) g)
unfolding get_or_load
get_or_load-Gives w key c (some view) g v = (_, _, refl, v)
get_or_load-Gives w key c none g v =
    load-Gives w key
      (record g {
        main_cache = c;
        stats = record g.stats { local_misses = add64 g.stats.local_misses 1 };
      })
      v

pub get-Gives :
    {E : Type 0} (w : World E) (key : Key) (g : Group)
    → IsGroup g
    → GivesWith (Error E ⊎ ByteView) (get w key g)
unfolding get
get-Gives w key g v = elim (Bool-cases g.closed) [
  | inl o ↦ (g, inl group_closed, if-true _ _ o, v)
  | inr o ↦ elim (Bool-cases (is_empty key)) [
    | inl k ↦ (g, inl key_required, if-false _ _ o ∙ if-true _ _ k, v)
    | inr k ↦
        let (c, found, e, v') = get-Returns w.reads key g.main_cache v in
        let r = get_or_load-Gives w key c found g v' in
        (r.0, r.1, if-false _ _ o ∙ (if-false _ _ k ∙ (some-bind _ e ∙ r.2)), r.3)
  ]
]

-- Starting a synchronisation leaves the rest of the group as it is.
pub start_sync-main_cache :
    (from_peer : Bool) (sync : Sync) (g : Group)
    → (start_sync from_peer sync g).main_cache ≡ g.main_cache
unfolding start_sync
start_sync-main_cache from_peer sync g = ground arith

pub start_sync-closed :
    (from_peer : Bool) (sync : Sync) (g : Group) → (start_sync from_peer sync g).closed ≡ g.closed
unfolding start_sync
start_sync-closed from_peer sync g = ground arith

pub set-Gives :
    {E : Type 0} (w : World E) (from_peer : Bool) (key : Key) (value : List ℕ) (g : Group)
    → IsGroup g
    → GivesWith (Option (Error E)) (set w from_peer key value g)
unfolding set
set-Gives w from_peer key value g v = elim (Bool-cases g.closed) [
  | inl o ↦ (g, some group_closed, if-true _ _ o, v)
  | inr o ↦ elim (Bool-cases (is_empty key)) [
    | inl k ↦ (g, some key_required, if-false _ _ o ∙ if-true _ _ k, v)
    | inr k ↦ elim (Bool-cases (is_empty value)) [
      | inl m ↦ (g, some value_required, if-false _ _ o ∙ (if-false _ _ k ∙ if-true _ _ m), v)
      | inr m ↦
          let (g', e, v') = store_view-Gives w key (record { b = value }) g v in
          (
            _,
            none,
            if-false _ _ o ∙ (if-false _ _ k ∙ (if-false _ _ m ∙ some-bind _ e)),
            subst IsCache (sym (start_sync-main_cache from_peer _ g')) v',
          )
    ]
  ]
]

pub delete-Gives :
    {E : Type 0} (from_peer : Bool) (key : Key) (g : Group)
    → IsGroup g
    → GivesWith (Option (Error E)) (delete from_peer key g)
unfolding delete
delete-Gives from_peer key g v = elim (Bool-cases g.closed) [
  | inl o ↦ (g, some group_closed, if-true _ _ o, v)
  | inr o ↦ elim (Bool-cases (is_empty key)) [
    | inl k ↦ (g, some key_required, if-false _ _ o ∙ if-true _ _ k, v)
    | inr k ↦
        let (c, deleted, e, v') = delete-Returns key g.main_cache v in
        (
          _,
          none,
          if-false _ _ o ∙ (if-false _ _ k ∙ some-bind _ e),
          subst IsCache (sym (start_sync-main_cache from_peer _ (record g { main_cache = c }))) v',
        )
  ]
]

pub clear-Gives : (e : Env) (g : Group) → IsGroup g → Gives (clear e g)
unfolding clear
clear-Gives e g v = elim (Bool-cases g.closed) [
  | inl o ↦ (g, if-true _ _ o, v)
  | inr o ↦
      let (c, h, v') = clear-Returns e g.main_cache v in
      (record g { main_cache = c }, if-false _ _ o ∙ some-bind _ h, v')
]

pub close-Gives : (g : Group) → IsGroup g → Gives (close g)
unfolding close
close-Gives g v = elim (Bool-cases g.closed) [
  | inl o ↦ (g, if-true _ _ o, v)
  | inr o ↦
      let (c, h, v') = close-Returns g.main_cache v in
      (record g { closed = true; main_cache = c }, if-false _ _ o ∙ some-bind _ h, v')
]
