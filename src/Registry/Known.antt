-- ===== src/Registry/Known.antt =====
-- The registry of group.go with the critical sections of `Close` apart: a group that it names is open or
-- is being closed.
use lcache.Common.{
  ℕ, ◌<◌, ◌≡◌, ◌≢◌, refl, sym, ap, subst, ◌∙◌, ◌⊎◌, inl, inr, Bool, false, List, [], ◌∷◌, none,
  some, true, ◌≤◌, ◌++◌, Elem, arith, ite, ℕ_discrete,
}
use lcache.Common.Panics.{some-inj}
use lcache.Common.GoMap.{lookup, delete, lookup-insert, lookup-delete}
use lcache.Value.{Key, key_eq}
use lcache.Group.{
  Group, GroupOption, with_expiration, with_peers, with_cache_options, apply_option, apply_options,
  new_group,
}
use lcache.Registry.{Registry, put_group, make_group, get_group, unregister, destroy_group}

-- The registry, and the calls of `Close` that have marked their group as closed and have not taken its
-- name out of the registry.
pub record System : Type 0 where
  pub registry : Registry
  pub closing : List ℕ

-- What may happen: a call of the registry, a critical section of `Close`, or a change of a group that
-- leaves it as open as it was, under its name, as when `Close` closes its cache.
pub data Change (s : System) : System → Type 0 where
  creates :
      (name : Key) (cache_bytes : ℕ) (opts : List GroupOption)
      → Change s (record s { registry = make_group name cache_bytes opts s.registry })
  marks :
      (i : ℕ)
      → (s.registry.heap i).closed ≡ false
      → Change s (record {
        registry = record s.registry {
          heap = put_group i (record (s.registry.heap i) { closed = true }) s.registry.heap;
        };
        closing = i ∷ s.closing;
      })
  unregisters :
      (before after : List ℕ) (i : ℕ) (r : Registry)
      → s.closing ≡ before ++ i ∷ after
      → unregister false (s.registry.heap i).name s.registry ≡ some r
      → Change s (record { registry = r; closing = before ++ after })
  destroys :
      (name : Key) (r : Registry) (found : Bool)
      → destroy_group name s.registry ≡ some (r, found)
      → Change s (record s { registry = r })
  works :
      (i : ℕ) (g : Group)
      → g.closed ≡ (s.registry.heap i).closed
      → g.name ≡ (s.registry.heap i).name
      → Change s
          (record s { registry = record s.registry { heap = put_group i g s.registry.heap } })

pub data Reach : System → Type 0 where
  here :
      (heap : ℕ → Group)
      → Reach (record { registry = record { groups = []; heap = heap; next = 0 }; closing = [] })
  next : {s u : System} → Reach s → Change s u → Reach u

-- A name leads to a group of that name, which is open or is being closed.
pub record IsKnown (s : System) (name : Key) (i : ℕ) : Type 0 where
  pub made : i < s.registry.next
  pub status : ((s.registry.heap i).closed ≡ false) ⊎ Elem i s.closing
  pub named : (s.registry.heap i).name ≡ name

abbrev pub AreKnown : System → Type 0
AreKnown s = (name : Key) (i : ℕ) → get_group name s.registry ≡ some i → IsKnown s name i

options-name : (opts : List GroupOption) (g : Group) → (apply_options opts g).name ≡ g.name
unfolding apply_options apply_option
options-name [] g = refl
options-name (with_expiration d ∷ rest) g = options-name rest (record g { expiration = d })
options-name (with_peers peers ∷ rest) g = options-name rest (record g { has_peers = peers })
options-name (with_cache_options opts ∷ rest) g =
    options-name rest (record g { main_cache = lcache.Cache.new_cache opts })

options-closed : (opts : List GroupOption) (g : Group) → (apply_options opts g).closed ≡ g.closed
unfolding apply_options apply_option
options-closed [] g = refl
options-closed (with_expiration d ∷ rest) g = options-closed rest (record g { expiration = d })
options-closed (with_peers peers ∷ rest) g = options-closed rest (record g { has_peers = peers })
options-closed (with_cache_options opts ∷ rest) g =
    options-closed rest (record g { main_cache = lcache.Cache.new_cache opts })

-- A group that is put in place of one.
pub put-at : (i : ℕ) (g : Group) (heap : ℕ → Group) → put_group i g heap i ≡ g
put-at i g heap = ground arith

pub put_other : (i j : ℕ) (g : Group) (heap : ℕ → Group) → j ≢ i → put_group i g heap j ≡ heap j
put_other i j g heap h = ground arith

pub no_result : {A : Type 0} {a : A} → ¬ (none ≡ some a)
no_result e = cc

-- A group is known after a change that leaves it, or changes other parts of it.
IsKnown-kept :
    (s u : System) (name : Key) (i : ℕ)
    → IsKnown s name i
    → s.registry.next ≤ u.registry.next
    → (u.registry.heap i).closed ≡ (s.registry.heap i).closed
    → (u.registry.heap i).name ≡ (s.registry.heap i).name
    → (Elem i s.closing → Elem i u.closing)
    → IsKnown u name i
IsKnown-kept s u name i h n c m f = record {
  made = omega (arith, h.made, n);
  status = elim h.status [ inl o ↦ inl (c ∙ o) | inr e ↦ inr (f e) ];
  named = m ∙ h.named;
}

-- The same where the group itself is as it was.
IsKnown-same :
    (s u : System) (name : Key) (i : ℕ)
    → IsKnown s name i
    → s.registry.next ≤ u.registry.next
    → u.registry.heap i ≡ s.registry.heap i
    → (Elem i s.closing → Elem i u.closing)
    → IsKnown u name i
IsKnown-same s u name i h n e f =
    IsKnown-kept s u name i h n (ap (λ (g : Group). g.closed) e) (ap (λ (g : Group). g.name) e) f

pub creates-AreKnown :
    (name : Key) (cache_bytes : ℕ) (opts : List GroupOption) (s : System)
    → AreKnown s
    → AreKnown (record s { registry = make_group name cache_bytes opts s.registry })
unfolding make_group get_group new_group
creates-AreKnown name cache_bytes opts s v key i e =
    let r = s.registry in
    let g = new_group name cache_bytes opts in
    let u : System = record s { registry = make_group name cache_bytes opts r } in
    elim (key_eq name key)
        as (λ d. ite d (some r.next) (lookup key_eq key r.groups) ≡ some i → IsKnown u key i) [
          | yes same ↦ λ e. subst (IsKnown u key) (some-inj e) (record {
            made = omega arith;
            status =
                inl (ap (λ (g : Group). g.closed) (put-at r.next g r.heap) ∙ options-closed opts _);
            named =
                ap (λ (g : Group). g.name) (put-at r.next g r.heap) ∙ (options-name opts _ ∙ same);
          })
          | no other ↦ λ e.
              let h = v key i e in
              IsKnown-same s u key i h (omega arith)
                (put_other r.next i g r.heap (λ q. omega (arith, q, h.made))) (λ m. m)
        ]
      (sym (lookup-insert key_eq name key r.next r.groups) ∙ e)

-- A change of one group.
pub changes-AreKnown :
    (i : ℕ) (g : Group) (closing : List ℕ) (s : System)
    → g.name ≡ (s.registry.heap i).name
    → (g.closed ≡ (s.registry.heap i).closed) ⊎ Elem i closing
    → ((j : ℕ) → Elem j s.closing → Elem j closing)
    → AreKnown s
    → AreKnown (record {
      registry = record s.registry { heap = put_group i g s.registry.heap };
      closing = closing;
    })
unfolding get_group
changes-AreKnown i g closing s n c f v key j e =
    let heap = s.registry.heap in
    let u : System = record {
      registry = record s.registry { heap = put_group i g heap };
      closing = closing;
    } in
    let h = v key j e in
    elim (ℕ_discrete j i) [
      | no other ↦ IsKnown-same s u key j h (omega arith) (put_other i j g heap other) (f j)
      | yes same ↦
          let at : u.registry.heap j ≡ g = ap (λ k. put_group i g heap k) same ∙ put-at i g heap in
          let named : (u.registry.heap j).name ≡ (heap j).name =
            ap (λ (g : Group). g.name) at ∙ (n ∙ ap (λ k. (heap k).name) (sym same)) in
          elim c [
            | inl o ↦
                IsKnown-kept s u key j h (omega arith)
                  (ap (λ (g : Group). g.closed) at ∙ (o ∙ ap (λ k. (heap k).closed) (sym same)))
                  named (f j)
            | inr m ↦ record {
              made = h.made;
              status = inr (subst (λ k. Elem k closing) (sym same) m);
              named = named ∙ h.named;
            }
          ]
    ]

-- The entry of a name that is deleted, and of another one.
get_group-delete :
    (name key : Key) (r : Registry) (i : ℕ)
    → lookup key_eq key (delete key_eq name r.groups) ≡ some i
    → (name ≢ key) × (get_group key r ≡ some i)
unfolding get_group
get_group-delete name key r i e =
    elim (key_eq name key)
        as (λ d.
          ite d none (lookup key_eq key r.groups) ≡ some i
          → (name ≢ key) × (get_group key r ≡ some i)) [
            | yes same ↦ λ e. cc
            | no other ↦ λ e. (other, e)
          ]
      (sym (lookup-delete key_eq name key r.groups) ∙ e)

pub Elem-without :
    (i j : ℕ) (before after : List ℕ)
    → Elem i (before ++ j ∷ after)
    → i ≢ j
    → Elem i (before ++ after)
Elem-without i j [] after (inl e) d = absurd (d e)
Elem-without i j [] after (inr m) d = m
Elem-without i j (x ∷ before) after (inl e) d = inl e
Elem-without i j (x ∷ before) after (inr m) d = inr (Elem-without i j before after m d)

-- A name that is taken out, with the `Close` that does so.
pub without-AreKnown :
    (name : Key) (closing : List ℕ) (s : System)
    → ((i : ℕ) → (s.registry.heap i).name ≢ name → Elem i s.closing → Elem i closing)
    → AreKnown s
    → AreKnown (record {
      registry = record s.registry { groups = delete key_eq name s.registry.groups };
      closing = closing;
    })
unfolding get_group
without-AreKnown name closing s f v key i e =
    let (other, e') = get_group-delete name key s.registry i e in
    let h = v key i e' in
    IsKnown-same s _ key i h (omega arith) refl (f i (λ q. other (sym q ∙ h.named)))
