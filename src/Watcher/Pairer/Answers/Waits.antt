-- ===== src/Watcher/Pairer/Answers/Waits.antt =====
-- A buffered rename waits for its timer through what the pairer does for other paths.
use home_drive.Base.{
  if_both, ◌∙◌, inl, inr, Option-cases, ℕ, ◌≡◌, ◌-◌, Bool, false, not, Option, none, some, List, [],
  ◌∷◌,
}
use mathlib.Core.Path.{subst}
use home_drive.Base.Text.{Bytes, bytes_eq}
use home_drive.Base.Time.{Time}
use home_drive.Base.Maps.{lookup, lookup-store, lookup-store-other, lookup-erase-other}
use home_drive.Watcher.Pairer.{
  Pairer, Outcome, passed, consumed, paired, suppress_pair, fresh, oldest, is_tracked_dir,
  track_dir, untrack_dir, is_suppressed, handle_rename, handle_create, expire_rename,
}
use home_drive.Watcher.Pairer.Answers.{Expires, known-Expires, OfConsumed, either, expired, unknown}

-- A call of the pairer, with the times that it is given, or a timer of a path.
pub data Turn : Type 0 where
  tracks untracks expires : Bytes → Turn
  asks : Bytes → Time → Turn
  renames : Bytes → Time → Time → Turn
  creates : Bytes → Bool → Time → Time → Turn

module _ (window : ℕ) where
  abbrev pub turn : Turn → Pairer → Pairer
  turn (tracks q) s = track_dir q s
  turn (untracks q) s = untrack_dir q s
  turn (expires q) s = (expire_rename q s).0
  turn (asks q now) s = (is_suppressed q now s).0
  turn (renames q at paired_at) s = (handle_rename window q at paired_at s).0
  turn (creates q is_dir at paired_at) s = (handle_create window q is_dir at paired_at s).0

  abbrev pub turns : List Turn → Pairer → Pairer
  turns [] s = s
  turns (t ∷ ts) s = turns ts (turn t s)

  -- No pair from the path.
  abbrev pub Spares : Bytes → Outcome → Type 0
  Spares p passed = Unit
  Spares p consumed = Unit
  Spares p (paired dr) = bytes_eq p dr.from ≡ false

  abbrev pub LeavesAlone : Bytes → Turn → Pairer → Type 0
  LeavesAlone p (expires q) s = bytes_eq p q ≡ false
  LeavesAlone p (renames q at paired_at) s = bytes_eq p q ≡ false
  LeavesAlone p (creates q is_dir at paired_at) s =
      Spares p (handle_create window q is_dir at paired_at s).1
  LeavesAlone p _ s = Unit

  -- Each of the turns leaves the path alone, where it comes.
  abbrev pub Undisturbed : Bytes → List Turn → Pairer → Type 0
  Undisturbed p [] s = Unit
  Undisturbed p (t ∷ ts) s = LeavesAlone p t s × Undisturbed p ts (turn t s)

  found_or :
      (P : Pairer × Outcome → Type 0) (x : Option (Bytes × Time)) (q : Pairer × Outcome)
      (f : Bytes × Time → Pairer × Outcome)
      → P q
      → ((y : Bytes × Time) → P (f y))
      → P (elim x [ none ↦ q | some y ↦ f y ])
  found_or P none q f h k = h
  found_or P (some y) q f h k = k y

  module _ (p : Bytes) (at : Time) (s : Pairer) (held : lookup p s.pending ≡ some at) where
    abbrev Still : Pairer → Type 0
    Still r = lookup p r.pending ≡ some at

    expire-Still : (q : Bytes) → bytes_eq p q ≡ false → Still (expire_rename q s).0
    expire-Still q e = elim (Option-cases (lookup q s.pending)) [
      | inl idle ↦ rw (unknown q s idle) held
      | inr (u, f) ↦ rw (expired q u s f) (lookup-erase-other p q s.pending e ∙ held)
    ]

    rename-Still :
        (q : Bytes) (u v : Time) → bytes_eq p q ≡ false → Still (handle_rename window q u v s).0
    unfolding handle_rename suppress_pair
    rename-Still q u v e =
        let P = (λ (r : Pairer × Outcome). Still r.0) in
        if_both P (not (is_tracked_dir q s)) _ _ (λ _. held)
          (λ _.
            found_or P (oldest none (fresh (u - window) s.recent_creates)) _ _
              (lookup-store-other p q u s.pending e ∙ held) (λ y. held))

    create-Still :
        (q : Bytes) (is_dir : Bool) (u v : Time)
        → Spares p (handle_create window q is_dir u v s).1
        → Still (handle_create window q is_dir u v s).0
    unfolding handle_create suppress_pair
    create-Still q is_dir u v h =
        let P = (λ (r : Pairer × Outcome). Spares p r.1 → Still r.0) in
        if_both P (not is_dir) _ _ (λ _ _. held)
          (λ _.
            found_or P (oldest none s.pending) _ _ (λ _. held)
              (λ y e. lookup-erase-other p y.0 s.pending e ∙ held))
          h

    turn-Still : (t : Turn) → LeavesAlone p t s → Still (turn t s)
    unfolding track_dir untrack_dir is_suppressed
    turn-Still (tracks q) h = held
    turn-Still (untracks q) h = held
    turn-Still (expires q) h = expire-Still q h
    turn-Still (asks q now) h = held
    turn-Still (renames q u v) h = rename-Still q u v h
    turn-Still (creates q is_dir u v) h = create-Still q is_dir u v h

  turns-Expires :
      (p : Bytes) (at : Time) (ts : List Turn) (s : Pairer)
      → lookup p s.pending ≡ some at
      → Undisturbed p ts s
      → Expires p at (turns ts s)
  turns-Expires p at [] s held h = known-Expires p at s held
  turns-Expires p at (t ∷ ts) s held h =
      turns-Expires p at ts (turn t s) (turn-Still p at s held t h.0) h.1

  -- If a rename is consumed without a pair, then after whatever calls and timers of the pairer that
  -- leave its path alone (no pair leads from it, it is not renamed again and its timer has not run)
  -- its timer reports it, with its path and time, as a rename that stayed unpaired, and the next
  -- timer of the path does nothing.
  pub handle_rename-Expires :
      (path : Bytes) (at paired_at : Time) (s s' : Pairer) (ts : List Turn)
      → handle_rename window path at paired_at s ≡ (s', consumed)
      → Undisturbed path ts s'
      → Expires path at (turns ts s')
  unfolding handle_rename
  handle_rename-Expires path at paired_at s s' ts e h =
      let P = (λ (r : Pairer). lookup path r.pending ≡ some at) in
      turns-Expires path at ts s'
        (subst (OfConsumed P) e (
          either P (not (is_tracked_dir path s))
            (oldest none (fresh (at - window) s.recent_creates)) _ _ _ tt
            (lookup-store path at s.pending) (λ y. tt)))
        h
