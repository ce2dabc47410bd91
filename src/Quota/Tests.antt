-- ===== src/Quota/Tests.antt =====
-- Runs of the quota monitor with whole numbers in place of float64, and the theorems at such data.
use home_drive.Base.{ℕ, ◌≡◌, refl, true, false, [], ◌∷◌, List, leb}
use home_drive.Base.Time.{Time}
use home_drive.Syncer.Go.{Result, ok, fail}
use home_drive.Base.Int.{ℤ, pos, negsuc}
use home_drive.Quota.{
  Float, QuotaInfo, Config, Monitor, new_monitor, blocked, is_blocked, polls, evaluate,
  used_percent,
}
use home_drive.Quota.{
  warning, exhausted, pause_push, resume_push, poll, pause, resume, emit_event, apply_transition,
  state_eq,
}
use home_drive.Quota.Pushes.{replay, polls-paused}

abbrev magnitude : ℤ → ℕ
magnitude (pos n) = n
magnitude (negsuc n) = 0

-- Percentages of a total of 100.
abbrev whole : Float
whole = record {
  Number = ℕ;
  zero = 0;
  hundred = 1;
  of_int = magnitude;
  div = λ a b. a;
  mul = λ a b. a;
  at_least = λ a b. leb b a;
}

abbrev config : Config whole
config = record {
  warn_pct = 90;
  stop_push_pct = 99;
  hysteresis_pct = 94;
  dry_run = false;
  has_publisher = true;
  has_push = true;
}

abbrev usage : ℕ → Result QuotaInfo × Time
usage n = (ok (record { used = pos n; total = pos 100 }), 0)

abbrev broken : Result QuotaInfo × Time
broken = (fail (record { wraps = [] }), 0)

abbrev story : List (Result QuotaInfo × Time)
story = usage 91 ∷ usage 99 ∷ broken ∷ usage 95 ∷ usage 93 ∷ []

story_actions :
    (polls whole config story new_monitor).1
    ≡ warning ∷ exhausted ∷ pause_push ∷ warning ∷ resume_push ∷ []
unfolding polls poll evaluate used_percent state_eq apply_transition pause resume emit_event
    is_blocked
story_actions = refl

polls-paused_example :
    replay false (polls whole config story new_monitor).1
    ≡ is_blocked (polls whole config story new_monitor).0.state
polls-paused_example = polls-paused whole config refl refl story

abbrev full : Monitor
full = record new_monitor { state = blocked }
