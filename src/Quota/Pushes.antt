-- ===== src/Quota/Pushes.antt =====
-- When the push workers are paused.
use home_drive.Base.{
  ◌≡◌, refl, ap, ◌∙◌, Bool, true, false, List, [], ◌∷◌, ◌++◌, if◌then◌else◌, Bool-cases, inl, inr,
  All,
}
use home_drive.Base.Time.{Time}
use home_drive.Syncer.Go.{Result, ok, fail}
use home_drive.Quota.{
  Float, QuotaInfo, State, normal, warned, blocked, is_blocked, state_eq, Action, warning,
  exhausted, pause_push, resume_push,
}
use home_drive.Quota.{
  Config, Monitor, new_monitor, used_percent, evaluate, pause, resume, emit_event, apply_transition,
  poll, polls,
}

-- Whether the workers are paused after the actions.
unfoldable pub replay : Bool → List Action → Bool
replay p [] = p
replay p (warning ∷ rest) = replay p rest
replay p (exhausted ∷ rest) = replay p rest
replay p (pause_push ∷ rest) = replay true rest
replay p (resume_push ∷ rest) = replay false rest

replay-append : (p : Bool) (xs ys : List Action) → replay p (xs ++ ys) ≡ replay (replay p xs) ys
unfolding replay
replay-append p [] ys = refl
replay-append p (warning ∷ xs) ys = replay-append p xs ys
replay-append p (exhausted ∷ xs) ys = replay-append p xs ys
replay-append p (pause_push ∷ xs) ys = replay-append true xs ys
replay-append p (resume_push ∷ xs) ys = replay-append false xs ys

module _ (fl : Float) (cfg : Config fl) where
  module _ (wet : cfg.dry_run ≡ false) (wired : cfg.has_push ≡ true) where
    replay-pause : (p : Bool) → replay p (pause fl cfg) ≡ true
    unfolding pause replay
    replay-pause p = rw (wet, wired) refl

    replay-resume : (p : Bool) → replay p (resume fl cfg) ≡ false
    unfolding resume replay
    replay-resume p = rw (wet, wired) refl

    replay-warning :
        (p : Bool) (xs : List Action) → replay p (emit_event fl cfg warning ++ xs) ≡ replay p xs
    unfolding emit_event replay
    replay-warning p xs = elim (Bool-cases cfg.has_publisher) [
      | inl e ↦ rw e refl
      | inr e ↦ rw e refl
    ]

    replay-exhausted :
        (p : Bool) (xs : List Action) → replay p (emit_event fl cfg exhausted ++ xs) ≡ replay p xs
    unfolding emit_event replay
    replay-exhausted p xs = elim (Bool-cases cfg.has_publisher) [
      | inl e ↦ rw e refl
      | inr e ↦ rw e refl
    ]

    transition-replay :
        (prev next : State)
        → replay
            (is_blocked prev)
            (if state_eq next prev then [] else apply_transition fl cfg prev next)
          ≡ is_blocked next
    unfolding replay state_eq is_blocked apply_transition
    transition-replay normal normal = refl
    transition-replay normal warned = replay-warning false []
    transition-replay normal blocked = replay-exhausted false _ ∙ replay-pause false
    transition-replay warned normal = refl
    transition-replay warned warned = refl
    transition-replay warned blocked = replay-exhausted false _ ∙ replay-pause false
    transition-replay blocked normal = replay-resume true
    transition-replay blocked warned = replay-warning true _ ∙ replay-resume true
    transition-replay blocked blocked = refl

    poll-replay :
        (a : Result QuotaInfo) (now : Time) (m : Monitor)
        → replay (is_blocked m.state) (poll fl cfg a now m).1
          ≡ is_blocked (poll fl cfg a now m).0.state
    unfolding poll
    poll-replay (fail e) now m = unfold replay in refl
    poll-replay (ok qi) now m =
        transition-replay m.state (evaluate fl cfg (used_percent fl qi) m.state)

    polls-from :
        (answers : List (Result QuotaInfo × Time)) (m : Monitor)
        → replay (is_blocked m.state) (polls fl cfg answers m).1
          ≡ is_blocked (polls fl cfg answers m).0.state
    unfolding polls
    polls-from [] m = unfold replay in refl
    polls-from ((a, now) ∷ rest) m =
        replay-append (is_blocked m.state) (poll fl cfg a now m).1 _
        ∙ (ap (λ p. replay p (polls fl cfg rest (poll fl cfg a now m).0).1) (poll-replay a now m)
            ∙ polls-from rest (poll fl cfg a now m).0)

    -- Outside a dry run, with a push controller: after any sequence of polls from the start, errors
    -- included, the calls made so far leave the push workers paused exactly if the monitor is in
    -- the blocked state.
    pub polls-paused :
        (answers : List (Result QuotaInfo × Time))
        → replay false (polls fl cfg answers new_monitor).1
          ≡ is_blocked (polls fl cfg answers new_monitor).0.state
    unfolding is_blocked
    polls-paused answers = polls-from answers new_monitor

  -- An answer that is an error, or a usage that is not below the hysteresis threshold.
  abbrev pub StaysHigh : Result QuotaInfo × Time → Type 0
  StaysHigh (fail e, now) = Unit
  StaysHigh (ok qi, now) = fl.at_least (used_percent fl qi) cfg.hysteresis_pct ≡ true

  evaluate-high :
      (pct : fl.Number)
      → fl.at_least pct cfg.hysteresis_pct ≡ true
      → evaluate fl cfg pct blocked ≡ blocked
  unfolding evaluate is_blocked
  evaluate-high pct high = elim (Bool-cases (fl.at_least pct cfg.stop_push_pct)) [
    | inl e ↦ rw e refl
    | inr e ↦ rw (e, high) refl
  ]

  poll-high :
      (a : Result QuotaInfo) (now : Time) (m : Monitor)
      → m.state ≡ blocked
      → StaysHigh (a, now)
      → ((poll fl cfg a now m).0.state ≡ blocked) × ((poll fl cfg a now m).1 ≡ [])
  unfolding poll state_eq
  poll-high (fail x) now m e h = (e, refl)
  poll-high (ok qi) now m e h = rw (e, evaluate-high (used_percent fl qi) h) (refl, refl)

  -- Once blocked, the monitor stays blocked and asks for nothing while every poll fails or reports
  -- a usage that is not below the hysteresis threshold.
  polls-hysteresis :
      (answers : List (Result QuotaInfo × Time)) (m : Monitor)
      → m.state ≡ blocked
      → All StaysHigh answers
      → ((polls fl cfg answers m).0.state ≡ blocked) × ((polls fl cfg answers m).1 ≡ [])
  unfolding polls
  polls-hysteresis [] m e h = (e, refl)
  polls-hysteresis ((a, now) ∷ rest) m e h =
      let (stays, quiet) = poll-high a now m e h.0 in
      let (still, silent) = polls-hysteresis rest (poll fl cfg a now m).0 stays h.1 in
      (still, rw quiet silent)
