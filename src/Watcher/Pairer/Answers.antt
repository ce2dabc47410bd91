-- ===== src/Watcher/Pairer/Answers.antt =====
-- What answers a rename that the pairer buffers: its timer, or a pair with the oldest of them.
pub mod Waits
use home_drive.Base.{
  ℕ, ◌≡◌, refl, sym, ◌≤◌, ◌-◌, Bool, true, false, not, Option, none, some, [], ◌∷◌, ltb,
  if◌then◌else◌, Bool-cases, inl, inr, ◌⊎◌, ◌∙◌, ap, arith,
}
use mathlib.Core.Path.{subst}
use home_drive.Base.Text.{Bytes}
use home_drive.Base.Time.{Time}
use home_drive.Base.Maps.{Map, lookup, erase, lookup-store, lookup-erase}
use home_drive.Base.{then-branch, else-branch}
use home_drive.Watcher.Debouncer.{Event, op_rename}
use home_drive.Watcher.Pairer.{
  Pairer, DirRename, Outcome, passed, consumed, paired, suppress_pair, fresh, oldest,
  is_tracked_dir, handle_rename, handle_create, expire_rename,
}

abbrev pub expiry : Bytes → Time → Event
expiry p at = record { path = p; op = op_rename; at = at }

-- The timer of a pending path, and one more of the same path.
pub expired :
    (p : Bytes) (at : Time) (s : Pairer)
    → lookup p s.pending ≡ some at
    → expire_rename p s ≡ (record s { pending = erase p s.pending }, some (expiry p at))
unfolding expire_rename
expired p at s e = rw (e, expire_rename) refl

pub unknown : (p : Bytes) (s : Pairer) → lookup p s.pending ≡ none → expire_rename p s ≡ (s, none)
unfolding expire_rename
unknown p s e = rw (e, expire_rename) refl

abbrev pub Expires : Bytes → Time → Pairer → Type 0
Expires p at s =
    ((expire_rename p s).1 ≡ some (expiry p at))
    × ((expire_rename p (expire_rename p s).0).1 ≡ none)

pub known-Expires :
    (p : Bytes) (at : Time) (s : Pairer) → lookup p s.pending ≡ some at → Expires p at s
known-Expires p at s e = (
  ap (λ (r : Pairer × Option Event). r.1) (expired p at s e),
  ap (λ (r : Pairer × Option Event). (expire_rename p r.0).1) (expired p at s e)
      ∙ ap (λ (r : Pairer × Option Event). r.1)
          (unknown p (record s { pending = erase p s.pending }) (lookup-erase p s.pending)),
)

-- What holds of the state of an outcome that is consumed without a pair.
abbrev pub OfConsumed : (Pairer → Type 0) → Pairer × Outcome → Type 0
OfConsumed P (s, passed) = Unit
OfConsumed P (s, consumed) = P s
OfConsumed P (s, paired dr) = Unit

pub either :
    (P : Pairer → Type 0) (b : Bool) (x : Option (Bytes × Time)) (r q : Pairer × Outcome)
    (f : Bytes × Time → Pairer × Outcome)
    → OfConsumed P r
    → OfConsumed P q
    → ((y : Bytes × Time) → OfConsumed P (f y))
    → OfConsumed P (if b then r else elim x [ none ↦ q | some y ↦ f y ])
either P true x r q f h k l = h
either P false none r q f h k l = k
either P false (some y) r q f h k l = l y

-- The entry is one of the map, and none of the map is before it.
abbrev Found : Bytes × Time → Map Time → Type 0
Found e [] = ⊥
Found e (x ∷ m) = (x ≡ e) ⊎ Found e m

abbrev Earliest : Time → Map Time → Type 0
Earliest t [] = Unit
Earliest t ((q, u) ∷ m) = (t ≤ u) × Earliest t m

abbrev pub Oldest : Bytes × Time → Map Time → Type 0
Oldest e m = Found e m × Earliest e.1 m

-- The best of the entries so far and of those of the map.
abbrev Picked : Bytes × Time → Map Time → Option (Bytes × Time) → Type 0
Picked best m none = ⊥
Picked best m (some e) = ((best ≡ e) ⊎ Found e m) × ((e.1 ≤ best.1) × Earliest e.1 m)

better : (t u v : Time) → t ≤ u → u ≤ v → t ≤ v
better t u v h k = omega arith

module _ (p q : Bytes) (u t : Time) (m : Map Time) where
  replaced : (o : Option (Bytes × Time)) → Picked (q, t) m o → t ≤ u → Picked (p, u) ((q, t) ∷ m) o
  replaced none h k = h
  replaced (some e) (inl same, (a, b)) k = (inr (inl same), (better _ _ _ a k, (a, b)))
  replaced (some e) (inr there, (a, b)) k = (inr (inr there), (better _ _ _ a k, (a, b)))

  kept : (o : Option (Bytes × Time)) → Picked (p, u) m o → u ≤ t → Picked (p, u) ((q, t) ∷ m) o
  kept none h k = h
  kept (some e) (inl same, (a, b)) k = (inl same, (a, (better _ _ _ a k, b)))
  kept (some e) (inr there, (a, b)) k = (inr (inr there), (a, (better _ _ _ a k, b)))

oldest-Picked : (p : Bytes) (u : Time) (m : Map Time) → Picked (p, u) m (oldest (some (p, u)) m)
unfolding oldest
oldest-Picked p u [] = (inl refl, (omega arith, tt))
oldest-Picked p u ((q, t) ∷ m) = elim (Bool-cases (ltb t u)) [
  | inl c ↦
      subst (λ o. Picked (p, u) ((q, t) ∷ m) o)
        (ap (λ b. oldest (some b) m) (sym (then-branch _ _ c)))
        (replaced p q u t m _ (oldest-Picked q t m) (ground (arith, c)))
  | inr c ↦
      subst (λ o. Picked (p, u) ((q, t) ∷ m) o)
        (ap (λ b. oldest (some b) m) (sym (else-branch _ _ c)))
        (kept p q u t m _ (oldest-Picked p u m) (ground (arith, c)))
]

oldest-Oldest : (m : Map Time) (e : Bytes × Time) → oldest none m ≡ some e → Oldest e m
unfolding oldest
oldest-Oldest [] e h = absurd (cc h)
oldest-Oldest ((q, t) ∷ m) e h = settled (subst (Picked (q, t) m) h (oldest-Picked q t m))
  where
    settled : Picked (q, t) m (some e) → Oldest e ((q, t) ∷ m)
    settled (there, (a, b)) = (there, (a, b))

-- The pair of an outcome takes the source from the oldest pending rename, which is pending no more.
abbrev pub FromOldest : Bytes → Map Time → Pairer → DirRename → Type 0
FromOldest path m s dr =
    (dr.to ≡ path) × (((t : Time) × Oldest (dr.from, t) m) × (lookup dr.from s.pending ≡ none))

abbrev OfPaired : (Pairer → DirRename → Type 0) → Pairer × Outcome → Type 0
OfPaired P (s, passed) = Unit
OfPaired P (s, consumed) = Unit
OfPaired P (s, paired dr) = P s dr

one_of :
    (P : Pairer → DirRename → Type 0) (b : Bool) (x : Option (Bytes × Time))
    (r q : Pairer × Outcome) (f : Bytes × Time → Pairer × Outcome)
    → OfPaired P r
    → OfPaired P q
    → ((y : Bytes × Time) → x ≡ some y → OfPaired P (f y))
    → OfPaired P (if b then r else elim x [ none ↦ q | some y ↦ f y ])
one_of P true x r q f h k l = h
one_of P false none r q f h k l = k
one_of P false (some y) r q f h k l = l y refl

-- If the creation of a directory completes a pair, the pair leads from the pending rename with the
-- earliest time to the path of the creation, and that rename is pending no more, so that its timer
-- reports nothing.
pub handle_create-FromOldest :
    (window : ℕ) (path : Bytes) (is_dir : Bool) (at paired_at : Time) (s s' : Pairer)
    (dr : DirRename)
    → handle_create window path is_dir at paired_at s ≡ (s', paired dr)
    → FromOldest path s.pending s' dr × ((expire_rename dr.from s').1 ≡ none)
unfolding handle_create suppress_pair
handle_create-FromOldest window path is_dir at paired_at s s' dr e =
    let P = FromOldest path s.pending in
    let found : FromOldest path s.pending s' dr = subst (OfPaired P) e (
      one_of P (not is_dir) (oldest none s.pending) _ _ _ tt tt
        (λ y c. (refl, ((y.1, oldest-Oldest s.pending y c), lookup-erase y.0 s.pending)))) in
    (found, ap (λ (r : Pairer × Option Event). r.1) (unknown dr.from s' found.1.1))
