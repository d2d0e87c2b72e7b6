-- ===== src/Registry/Received.antt =====
-- What `Server.Set` of server.go passes on of a value that it has received: nothing.
use lcache.Common.{
  ℕ, ◌≡◌, refl, sym, ap, ◌∙◌, ◌⊎◌, inl, inr, true, List, Option, some, Option-cases, ℕ_discrete,
}
use lcache.Common.Panics.{some-bind, bind-inv, some-inj}
use lcache.Value.{Key, ByteView}
use lcache.Group
use lcache.Group.{Error, World, Group, write, store_view, Sync, start_sync, is_empty}
use lcache.Group.Methods.{IsGroup, set-Gives}
use lcache.Group.Tallies.{guarded}
use lcache.Registry.Known.{put-at, put_other}
use lcache.Registry.{Registry, put_group, in_group, get_group, ServerError, handle_set}

store_view-started :
    {E : Type 0} (w : World E) (key : Key) (view : ByteView) (g g' : Group)
    → store_view w key view g ≡ some g'
    → g'.started ≡ g.started
unfolding store_view
store_view-started w key view g g' e =
    let (c, a, b) = bind-inv (write w key view g.expiration g.main_cache) _ e in
    sym (ap (λ (h : Group). h.started) (some-inj b))

set-started :
    {E : Type 0} (w : World E) (key : Key) (value : List ℕ) (e : Option (Error E)) (g g' : Group)
    → lcache.Group.set w true key value g ≡ some (g', e)
    → g'.started ≡ g.started
unfolding lcache.Group.set start_sync
set-started w key value r g g' =
    let P = λ (h : Group). h.started ≡ g.started in
    guarded g.closed g g' _ r _ P refl (
      guarded (is_empty key) g g' _ r _ P refl (
        guarded (is_empty value) g g' _ r _ P refl λ e.
          let (h, a, b) = bind-inv (store_view w key (record { b = value }) g) _ e in
          ap (λ (p : Group × _). p.0.started) (sym (some-inj b))
          ∙ store_view-started w key _ g h a))

-- A registry in which a group is put.
put-started :
    (i : ℕ) (g : Group) (heap : ℕ → Group) (j : ℕ)
    → g.started ≡ (heap i).started
    → (put_group i g heap j).started ≡ (heap j).started
put-started i g heap j e = elim (ℕ_discrete j i) [
  | yes at ↦
      ap (λ k. (put_group i g heap k).started) at
      ∙ (ap (λ (g : Group). g.started) (put-at i g heap)
          ∙ (e ∙ ap (λ k. (heap k).started) (sym at)))
  | no other ↦ ap (λ (g : Group). g.started) (put_other i j g heap other)
]

-- In a registry of well-formed groups, `Server.Set` returns, and starts no synchronisation, in the
-- group that the value is for or in any other: the value goes no further than one node.
pub handle_set_ends :
    {E : Type 0} (w : World E) (group key : Key) (value : List ℕ) (r : Registry)
    → ((i : ℕ) → IsGroup (r.heap i))
    → (r' : Registry) × (answer : ServerError E ⊎ List ℕ) × (handle_set w group key value r
        ≡ some (r', answer))
      × ((j : ℕ) → (r'.heap j).started ≡ (r.heap j).started)
unfolding handle_set
handle_set_ends w group key value r v = elim (Option-cases (get_group group r)) [
  | inl e ↦ (r, _, ap (in_group _ _) e, λ j. refl)
  | inr (i, e) ↦
      let (g, error, h, v') = set-Gives w true key value (r.heap i) (v i) in
      (
        record r { heap = put_group i g r.heap },
        _,
        ap (in_group _ _) e ∙ some-bind _ h,
        λ j. put-started i g r.heap j (set-started w key value error (r.heap i) g h),
      )
]
