-- ===== src/Quota.antt =====
-- internal/quota/quota.go: the monitor that pauses pushes when the remote storage is full. The
-- arithmetic of float64 is a parameter. A poll is a function of the answer of `Quota` and of the
-- clock; what it asks of the publisher and of the push workers is a list of actions.
pub mod Pushes
mod Tests
use home_drive.Base.{
  ℕ, Bool, true, false, ◌&&◌, Option, none, some, List, [], ◌∷◌, ◌++◌, zero, suc, if◌then◌else◌,
}
use home_drive.Base.Int.{ℤ, pos, negsuc}
use home_drive.Base.Time.{Time}
use home_drive.Syncer.Types.{Error}
use home_drive.Syncer.Go.{Result, ok, fail}

-- What the code uses of float64.
pub record Float : Type 1 where
  pub Number : Type 0
  pub zero : Number
  pub hundred : Number
  pub of_int : ℤ → Number
  pub div : Number → Number → Number
  pub mul : Number → Number → Number
  pub at_least : Number → Number → Bool

pub record QuotaInfo : Type 0 where
  pub used : ℤ
  pub total : ℤ

pub data State : Type 0 where
  normal warned blocked : State

-- `prev == StateBlocked`
unfoldable pub is_blocked : State → Bool
is_blocked normal = false
is_blocked warned = false
is_blocked blocked = true

unfoldable pub state_eq : State → State → Bool
state_eq normal normal = true
state_eq warned warned = true
state_eq blocked blocked = true
state_eq _ _ = false

-- The events `quota.warning` and `quota.exhausted`, and the calls of the push controller.
pub data Action : Type 0 where
  warning exhausted pause_push resume_push : Action

pub record Config (fl : Float) : Type 0 where
  pub warn_pct : fl.Number
  pub stop_push_pct : fl.Number
  pub hysteresis_pct : fl.Number
  pub dry_run : Bool
  pub has_publisher : Bool
  pub has_push : Bool

pub record Monitor : Type 0 where
  pub state : State
  pub last_quota : QuotaInfo
  pub last_poll : Time
  pub last_err : Option Error

abbrev pub new_monitor : Monitor
new_monitor = record {
  state = normal;
  last_quota = record { used = pos 0; total = pos 0 };
  last_poll = 0;
  last_err = none;
}

module _ (fl : Float) where
  unfoldable pub used_percent : QuotaInfo → fl.Number
  used_percent q = elim q.total [
    | negsuc _ ↦ fl.zero
    | pos zero ↦ fl.zero
    | pos (suc n) ↦ fl.mul (fl.div (fl.of_int q.used) (fl.of_int q.total)) fl.hundred
  ]

  module _ (cfg : Config fl) where
    unfoldable pub evaluate : fl.Number → State → State
    evaluate pct prev =
        if fl.at_least pct cfg.stop_push_pct
        then blocked
        else if is_blocked prev && fl.at_least pct cfg.hysteresis_pct
        then blocked
        else if fl.at_least pct cfg.warn_pct
        then warned
        else normal

    unfoldable pub pause : List Action
    pause = if cfg.dry_run then [] else if cfg.has_push then pause_push ∷ [] else []

    unfoldable pub resume : List Action
    resume = if cfg.dry_run then [] else if cfg.has_push then resume_push ∷ [] else []

    unfoldable pub emit_event : Action → List Action
    emit_event e = if cfg.has_publisher then e ∷ [] else []

    unfoldable pub apply_transition : State → State → List Action
    apply_transition prev warned = emit_event warning ++ (if is_blocked prev then resume else [])
    apply_transition prev blocked = emit_event exhausted ++ pause
    apply_transition prev normal = if is_blocked prev then resume else []

    unfoldable pub poll : Result QuotaInfo → Time → Monitor → Monitor × List Action
    poll (fail e) now m = (record m { last_poll = now; last_err = some e }, [])
    poll (ok qi) now m =
        let next = evaluate (used_percent qi) m.state in
        (
          record m { last_poll = now; last_err = none; last_quota = qi; state = next },
          if state_eq next m.state then [] else apply_transition m.state next,
        )

    -- The polls of `Run`, one for each answer and time.
    unfoldable pub polls : List (Result QuotaInfo × Time) → Monitor → Monitor × List Action
    polls [] m = (m, [])
    polls ((answer, now) ∷ rest) m =
        let first = poll answer now m in
        let more = polls rest first.0 in (more.0, first.1 ++ more.1)
