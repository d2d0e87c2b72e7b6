-- ===== src/Registry/Open.antt =====
-- `DestroyGroup` of group.go, which holds the lock of the registry while it closes a group; and `Close`
-- of a group that has lost its name.
use lcache.Common.{
  ℕ, ◌≡◌, ◌≢◌, refl, sym, ap, subst, ◌∙◌, ◌⊎◌, inl, inr, Bool, false, List, ◌∷◌, none, some, true,
  ◌++◌, Elem, arith, Bool-cases, Option-cases, if-false, if_pos,
}
use lcache.Common.Locks.{lock}
use lcache.Common.Panics.{some-bind, some-inj}
use lcache.Common.GoMap.{lookup, delete, lookup-delete}
use lcache.Value.{Key, key_eq}
use lcache.Group
use lcache.Group.{
  Group, GroupOption, with_expiration, with_peers, with_cache_options, apply_option, apply_options,
  new_group,
}
use lcache.Group.Methods.{IsGroup, close-Gives}
use lcache.Registry.{
  Registry, put_group, get_group, close_group, close_holding, unregister, destroy_group,
}
use lcache.Registry.Known.{
  creates, marks, unregisters, destroys, works, here, next, AreKnown, Change, Elem-without, Reach,
  System, changes-AreKnown, creates-AreKnown, no_result, put_other, without-AreKnown,
}

-- What `DestroyGroup` does to a group that is open: it comes to `groupsMu.Lock()`, and holds it.
destroy_open :
    (name : Key) (r : Registry) (i : ℕ)
    → get_group name r ≡ some i
    → (r.heap i).closed ≡ false
    → destroy_group name r ≡ none
unfolding destroy_group close_holding unregister lock
destroy_open name r i e o = elim (Option-cases (Group.close (r.heap i))) [
  | inl q ↦ rw e (rw q (rw o refl))
  | inr (g, q) ↦ rw e (rw q (rw o refl))
]

destroy_closed :
    (name : Key) (r : Registry) (i : ℕ)
    → get_group name r ≡ some i
    → (r.heap i).closed ≡ true
    → destroy_group name r ≡ some (record r { groups = delete key_eq name r.groups }, true)
unfolding destroy_group close_holding lock
destroy_closed name r i e o = rw e (rw o refl)

destroy_missing :
    (name : Key) (r : Registry) → get_group name r ≡ none → destroy_group name r ≡ some (r, false)
unfolding destroy_group lock
destroy_missing name r e = rw e refl

-- What `DestroyGroup` finds, and what it does then.
abbrev pub Destroys : Key → System → Type 0
Destroys name s =
    ((get_group name s.registry ≡ none)
      × (destroy_group name s.registry ≡ some (s.registry, false)))
    ⊎ ((i : ℕ) × (get_group name s.registry ≡ some i)
        × ((s.registry.heap i).closed ≡ false)
        × (destroy_group name s.registry ≡ none))
    ⊎ ((i : ℕ) × (get_group name s.registry ≡ some i)
        × Elem i s.closing
        × ((s.registry.heap i).closed ≡ true)
        × (destroy_group name s.registry
            ≡ some (record s.registry { groups = delete key_eq name s.registry.groups }, true)))

destroy_known : (name : Key) (s : System) → AreKnown s → Destroys name s
destroy_known name s v =
    let r = s.registry in
    elim (Option-cases (get_group name r)) [
      | inl e ↦ inl (e, destroy_missing name r e)
      | inr (i, e) ↦ elim (Bool-cases (r.heap i).closed) [
        | inr o ↦ inr (inl (i, e, o, destroy_open name r i e o))
        | inl o ↦ elim (v name i e).status [
          | inl o' ↦ absurd (ground (arith, o, o'))
          | inr m ↦ inr (inr (i, e, m, o, destroy_closed name r i e o))
        ]
      ]
    ]

destroys-AreKnown :
    (name : Key) (s : System) (r : Registry) (found : Bool)
    → AreKnown s
    → destroy_group name s.registry ≡ some (r, found)
    → AreKnown (record s { registry = r })
destroys-AreKnown name s r found v e =
    let known = λ (p : Registry × Bool). AreKnown (record s { registry = p.0 }) in
    elim (destroy_known name s v) [
      | inl (a, b) ↦ subst known (some-inj (sym b ∙ e)) v
      | inr (inl (i, a, o, b)) ↦ absurd (no_result (sym b ∙ e))
      | inr (inr (i, a, m, o, b)) ↦
          subst known (some-inj (sym b ∙ e)) (without-AreKnown name s.closing s (λ i d m. m) v)
    ]

unregisters-AreKnown :
    (before after : List ℕ) (i : ℕ) (s : System) (r : Registry)
    → s.closing ≡ before ++ i ∷ after
    → unregister false (s.registry.heap i).name s.registry ≡ some r
    → AreKnown s
    → AreKnown (record { registry = r; closing = before ++ after })
unfolding unregister lock
unregisters-AreKnown before after i s r q e v =
    subst (λ r. AreKnown (record { registry = r; closing = before ++ after })) (some-inj e)
      (without-AreKnown (s.registry.heap i).name (before ++ after) s
        (λ j d m.
          Elem-without j i before after (subst (Elem j) q m)
            (λ same. d (ap (λ k. (s.registry.heap k).name) same)))
        v)

Change-AreKnown : {s u : System} → Change s u → AreKnown s → AreKnown u
Change-AreKnown {s = s} (creates name cache_bytes opts) v =
    creates-AreKnown name cache_bytes opts s v
Change-AreKnown {s = s} (marks i o) v =
    changes-AreKnown i (record (s.registry.heap i) { closed = true }) (i ∷ s.closing) s refl
      (inr (inl refl)) (λ j m. inr m) v
Change-AreKnown {s = s} (unregisters before after i r q e) v =
    unregisters-AreKnown before after i s r q e v
Change-AreKnown {s = s} (destroys name r found e) v = destroys-AreKnown name s r found v e
Change-AreKnown {s = s} (works i g c n) v = changes-AreKnown i g s.closing s n (inl c) (λ j m. m) v

Reach-AreKnown : {s : System} → Reach s → AreKnown s
unfolding get_group lookup
Reach-AreKnown (here heap) = λ name i e. cc
Reach-AreKnown (next reach change) = Change-AreKnown change (Reach-AreKnown reach)

-- Whatever has happened to the registry, when its lock is free, `DestroyGroup` finds no group of the
-- name, and says so; or an open one, and never returns, as closing it takes the lock that is held; or
-- a closed one that a call of `Close` has yet to take out of the registry, and takes it out.
pub destroy_waits : (s : System) (name : Key) → Reach s → Destroys name s
destroy_waits s name reach = destroy_known name s (Reach-AreKnown reach)

-- Closing a group takes its name out of the registry also where the name has passed to another group,
-- which stays open.
pub close_drops_successor :
    (r : Registry) (i j : ℕ)
    → IsGroup (r.heap i)
    → (r.heap i).closed ≡ false
    → (r.heap j).closed ≡ false
    → j ≢ i
    → get_group (r.heap i).name r ≡ some j
    → (r' : Registry) × (close_group i r ≡ some r')
      × (get_group (r.heap i).name r' ≡ none)
      × ((r'.heap j).closed ≡ false)
unfolding close_group close_holding unregister lock get_group
close_drops_successor r i j v o o' other e =
    let (g, h, v') = close-Gives (r.heap i) v in
    (
      record r { groups = delete key_eq (r.heap i).name r.groups; heap = put_group i g r.heap },
      if-false _ _ o ∙ some-bind _ h,
      lookup-delete key_eq (r.heap i).name (r.heap i).name r.groups ∙ if_pos (key_eq _ _) refl _ _,
      ap (λ (g : Group). g.closed) (put_other i j g r.heap other) ∙ o',
    )
