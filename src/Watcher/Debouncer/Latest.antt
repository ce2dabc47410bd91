-- ===== src/Watcher/Debouncer/Latest.antt =====
-- The debouncer as one small machine for each path.
use home_drive.Base.{
  ◌≡◌, refl, sym, ap, ◌∙◌, Bool, true, false, ◌&&◌, Option, none, some, List, [], ◌∷◌, ◌++◌,
  if◌then◌else◌, Bool-cases, Option-cases, inl, inr,
}
use mathlib.Core.Path.{subst}
use home_drive.Base.Text.{Bytes, bytes_eq, bytes_eq_iff, has_prefix}
use home_drive.Watcher.Debouncer.{
  Op, op_create, op_write, op_remove, op_rename, op_dir_rename, Event, Debouncer, new_debouncer,
  set, keep, add, forget, fire, suppress, suppress_prefix, stop,
}
use home_drive.Watcher.Debouncer.{
  Input, added, fired, suppressed, prefix_suppressed, stopped, step, emitted, steps, is_create,
  is_write,
}

-- A create stays when a write comes after it.
abbrev pub stays : Op → Op → Bool
stays op_create op_write = true
stays _ _ = false

abbrev pub latest : Option Event → Event → Event
latest none ev = ev
latest (some x) ev = if stays x.op ev.op then x else ev

-- What an input makes of the pending event of the path `p`, and what is emitted for the path.
unfoldable pub react : Bytes → Input → Option Event → Option Event × Option Event
react p (added ev) st = (if bytes_eq p ev.path then some (latest st ev) else st, none)
react p (fired q) st = if bytes_eq p q then (none, st) else (st, none)
react p (suppressed q) st = (if bytes_eq p q then none else st, none)
react p (prefix_suppressed prefix) st = (if has_prefix p prefix then none else st, none)
react p stopped st = (none, none)

unfoldable pub reacts : Bytes → List Input → Option Event → Option Event × List Event
reacts p [] st = (st, [])
reacts p (i ∷ is) st =
    let first = react p i st in
    let rest = reacts p is first.0 in (rest.0, emitted first.1 ++ rest.1)

unfoldable pub of_path : Bytes → List Event → List Event
of_path p [] = []
of_path p (ev ∷ evs) = let rest = of_path p evs in if bytes_eq p ev.path then ev ∷ rest else rest

unfoldable pub has : Option Event → Bool
has none = false
has (some ev) = true

abbrev pub Placed : Bytes → Option Event → Type 0
Placed p none = Unit
Placed p (some ev) = ev.path ≡ p

-- A timer is armed exactly for the paths with a pending event, which is an event of the path.
abbrev pub InSync : Debouncer → Type 0
InSync d = (p : Bytes) → (d.timers p ≡ has (d.pending p)) × Placed p (d.pending p)

of_path-append :
    (p : Bytes) (xs ys : List Event) → of_path p (xs ++ ys) ≡ of_path p xs ++ of_path p ys
unfolding of_path
of_path-append p [] ys = refl
of_path-append p (x ∷ xs) ys = elim (Bool-cases (bytes_eq p x.path)) [
  | inl e ↦ rw e (ap (λ l. x ∷ l) (of_path-append p xs ys))
  | inr e ↦ rw e (of_path-append p xs ys)
]

stays-ops : (a b : Op) → (is_create a && is_write b) ≡ stays a b
unfolding is_create is_write
stays-ops op_create op_create = refl
stays-ops op_create op_write = refl
stays-ops op_create op_remove = refl
stays-ops op_create op_rename = refl
stays-ops op_create op_dir_rename = refl
stays-ops op_write b = refl
stays-ops op_remove b = refl
stays-ops op_rename b = refl
stays-ops op_dir_rename b = refl

keep-latest : (st : Option Event) (ev : Event) → keep st ev ≡ latest st ev
unfolding keep
keep-latest none ev = refl
keep-latest (some x) ev = ap (λ b. if b then x else ev) (stays-ops x.op ev.op)

keep-Placed :
    (p : Bytes) (st : Option Event) (ev : Event)
    → Placed p st
    → ev.path ≡ p
    → Placed p (some (keep st ev))
unfolding keep
keep-Placed p none ev h e = e
keep-Placed p (some x) ev h e = elim (Bool-cases (is_create x.op && is_write ev.op)) [
  | inl c ↦ rw c h
  | inr c ↦ rw c e
]

-- The events of a path that a suppression drops: those with an armed timer are all there are.
gate-InSync :
    (p : Bytes) (t b : Bool) (st : Option Event)
    → t ≡ has st
    → Placed p st
    → ((if b then false else t) ≡ has (if t && b then none else st))
      × Placed p (if t && b then none else st)
unfolding has
gate-InSync p true true st e h = (refl, tt)
gate-InSync p true false st e h = (e, h)
gate-InSync p false true st e h = (e, h)
gate-InSync p false false st e h = (e, h)

gate-none :
    (t b : Bool) (st : Option Event)
    → t ≡ has st
    → (if t && b then none else st) ≡ (if b then none else st)
unfolding has
gate-none true true st e = refl
gate-none true false st e = refl
gate-none false true none e = refl
gate-none false true (some ev) e = absurd (cc e)
gate-none false false st e = refl

closed-InSync :
    (p : Bytes) (t : Bool) (st : Option Event)
    → t ≡ has st
    → Placed p st
    → (false ≡ has (if t then none else st)) × Placed p (if t then none else st)
unfolding has
closed-InSync p true st e h = (refl, tt)
closed-InSync p false st e h = (e, h)

no_event : (st : Option Event) → false ≡ has st → st ≡ none
unfolding has
no_event none e = refl
no_event (some ev) e = absurd (cc e)

closed-none : (t : Bool) (st : Option Event) → t ≡ has st → (if t then none else st) ≡ none
unfolding has
closed-none true st e = refl
closed-none false none e = refl
closed-none false (some ev) e = absurd (cc e)

module _ (p q : Bytes) (st : Option Event) where
  abbrev answered : Option Event × Option Event
  answered = if bytes_eq p q then (none, st) else (st, none)

  fire_nothing : (bytes_eq p q ≡ true → st ≡ none) → (st ≡ answered.0) × ([] ≡ emitted answered.1)
  unfolding emitted
  fire_nothing h = elim (Bool-cases (bytes_eq p q)) [
    | inl e ↦ rw (e, h e) (refl, refl)
    | inr e ↦ rw e (refl, refl)
  ]

  fire_pending :
      (ev : Event)
      → ev.path ≡ q
      → (bytes_eq p q ≡ true → st ≡ some ev)
      → ((if bytes_eq p q then none else st) ≡ answered.0)
        × (of_path p (ev ∷ []) ≡ emitted answered.1)
  unfolding emitted of_path
  fire_pending ev place h = elim (Bool-cases (bytes_eq p q)) [
    | inl e ↦ rw (e, ap (bytes_eq p) place ∙ e, h e) (refl, refl)
    | inr e ↦ rw (e, ap (bytes_eq p) place ∙ e) (refl, refl)
  ]

module _ (d : Debouncer) (sync : InSync d) where
  pub add-InSync : (ev : Event) → InSync (add ev d)
  unfolding add set has
  add-InSync ev p = elim (Bool-cases (bytes_eq p ev.path)) [
    | inl e ↦ rw e (
      refl,
      keep-Placed ev.path (d.pending ev.path) ev (sync ev.path).1 refl
          ∙ sym ((bytes_eq_iff p ev.path).0 e),
    )
    | inr e ↦ rw e (sync p)
  ]

  forget-InSync : (q : Bytes) → InSync (forget q d)
  unfolding forget set has
  forget-InSync q p = elim (Bool-cases (bytes_eq p q)) [
    | inl e ↦ rw e (refl, tt)
    | inr e ↦ rw e (sync p)
  ]

  pub suppress_prefix-InSync : (q : Bytes) → InSync (suppress_prefix q d)
  unfolding suppress_prefix has
  suppress_prefix-InSync q p =
      gate-InSync p (d.timers p) (has_prefix p q) (d.pending p) (sync p).0 (sync p).1

  pub stop-InSync : InSync (stop d)
  unfolding stop has
  stop-InSync p = closed-InSync p (d.timers p) (d.pending p) (sync p).0 (sync p).1

  add-pending :
      (ev : Event) (p : Bytes)
      → (add ev d).pending p
        ≡ (if bytes_eq p ev.path then some (keep (d.pending p) ev) else d.pending p)
  unfolding add set
  add-pending ev p = elim (Bool-cases (bytes_eq p ev.path)) [
    | inl e ↦ rw e (ap (λ q. some (keep (d.pending q) ev)) (sym ((bytes_eq_iff p ev.path).0 e)))
    | inr e ↦ rw e refl
  ]

  placed : (q : Bytes) (ev : Event) → d.pending q ≡ some ev → ev.path ≡ q
  placed q ev got = subst (Placed q) got (sync q).1

  same_pending : (p q : Bytes) → bytes_eq p q ≡ true → d.pending p ≡ d.pending q
  same_pending p q e = ap d.pending ((bytes_eq_iff p q).0 e)

  pub fire-react :
      (q : Bytes)
      → InSync (fire q d).0
        × ((p : Bytes)
            → ((fire q d).0.pending p ≡ (react p (fired q) (d.pending p)).0)
              × (of_path p (emitted (fire q d).1) ≡ emitted (react p (fired q) (d.pending p)).1))
  unfolding react fire emitted of_path
  fire-react q = elim (Option-cases (d.pending q)) [
    | inl idle ↦
        rw (idle, fire) (sync, λ p. fire_nothing p q (d.pending p) (λ e. same_pending p q e ∙ idle))
    | inr (ev, got) ↦
        rw (got, fire)
          (
            forget-InSync q,
            λ p.
                unfold forget set in
                fire_pending p q (d.pending p) ev (placed q ev got) (λ e. same_pending p q e ∙ got),
          )
  ]

  pub suppress-InSync : (q : Bytes) → InSync (suppress q d)
  unfolding suppress
  suppress-InSync q = elim (Bool-cases (d.timers q)) [
    | inl e ↦ rw e (forget-InSync q)
    | inr e ↦ rw e sync
  ]

  suppress-pending :
      (p q : Bytes) → (suppress q d).pending p ≡ (if bytes_eq p q then none else d.pending p)
  unfolding suppress forget set
  suppress-pending p q = elim (Bool-cases (d.timers q)) [
    | inl e ↦ rw e refl
    | inr e ↦ elim (Bool-cases (bytes_eq p q)) [
      | inl same ↦
          rw (e, same) (same_pending p q same ∙ no_event (d.pending q) (sym e ∙ (sync q).0))
      | inr other ↦ rw (e, other) refl
    ]
  ]

  -- One input does to each path what its machine does.
  step-react :
      (i : Input)
      → InSync (step i d).0
        × ((p : Bytes)
            → ((step i d).0.pending p ≡ (react p i (d.pending p)).0)
              × (of_path p (emitted (step i d).1) ≡ emitted (react p i (d.pending p)).1))
  unfolding step react emitted of_path
  step-react (added ev) = (
    add-InSync ev,
    λ p. (
      add-pending ev p
          ∙ ap (λ e. if bytes_eq p ev.path then some e else d.pending p)
              (keep-latest (d.pending p) ev),
      refl,
    ),
  )
  step-react (fired q) = fire-react q
  step-react (suppressed q) = (suppress-InSync q, λ p. (suppress-pending p q, refl))
  step-react (prefix_suppressed prefix) = (
    suppress_prefix-InSync prefix,
    λ p. (
      unfold suppress_prefix in
          gate-none (d.timers p) (has_prefix p prefix) (d.pending p) (sync p).0,
      refl,
    ),
  )
  step-react stopped =
      (stop-InSync, λ p. (unfold stop in closed-none (d.timers p) (d.pending p) (sync p).0, refl))

steps-from :
    (is : List Input) (d : Debouncer)
    → InSync d
    → InSync (steps is d).0
      × ((p : Bytes)
          → ((steps is d).0.pending p ≡ (reacts p is (d.pending p)).0)
            × (of_path p (steps is d).1 ≡ (reacts p is (d.pending p)).1))
unfolding steps reacts
steps-from [] d sync = (sync, λ p. (refl, unfold of_path in refl))
steps-from (i ∷ is) d sync =
    let (sync', one) = step-react d sync i in
    let (last, more) = steps-from is (step i d).0 sync' in
    (
      last,
      λ p. (
        (more p).0 ∙ ap (λ st. (reacts p is st).0) (one p).0,
        of_path-append p (emitted (step i d).1) _
            ∙ (ap (λ l. l ++ of_path p (steps is (step i d).0).1) (one p).1
                ∙ ap (λ l. emitted (react p i (d.pending p)).1 ++ l)
                    ((more p).1 ∙ ap (λ st. (reacts p is st).1) (one p).0)),
      ),
    )

-- After any sequence of events, timer callbacks and suppressions from the start: a timer is armed
-- exactly for the paths with a pending event, which is an event of the path; and each path goes on
-- as if it were alone. Its pending event and the events emitted for it are those of a machine that
-- keeps the latest event, but a create rather than a write after it, emits it with the callback
-- and drops it only when it is suppressed.
pub steps-reacts :
    (is : List Input)
    → InSync (steps is new_debouncer).0
      × ((p : Bytes)
          → ((steps is new_debouncer).0.pending p ≡ (reacts p is none).0)
            × (of_path p (steps is new_debouncer).1 ≡ (reacts p is none).1))
unfolding has
steps-reacts is = steps-from is new_debouncer (λ p. (refl, tt))
