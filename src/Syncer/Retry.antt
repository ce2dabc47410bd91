-- ===== src/Syncer/Retry.antt =====
-- internal/syncer/retry.go: repeated attempts with exponential backoff. A span is an int64 in two's
-- complement, a number below 2^64, so that doubling wraps as it does in Go.
pub mod Sleeps
pub mod Rules
use home_drive.Base.{
  ℕ, zero, suc, ◌+◌, ◌*◌, ◌^◌, Bool, true, false, Option, none, some, List, [], ◌∷◌, ltb,
  if◌then◌else◌,
}
use Prim.Native.Nat.{◌%◌}
use home_drive.Syncer.Types.{Error, Sentinel, retries_exhausted}
use home_drive.Syncer.Go.{
  Go, ctx_err, sleep, Result, ok, fail, pure, raise, perform, check, tell, attempt, ◌>>=◌, ◌>>◌,
}

pub record RetryConfig : Type 0 where
  pub max_attempts : ℕ
  pub initial_backoff : ℕ
  pub max_backoff : ℕ

-- The order of int64 values.
unfoldable pub less : ℕ → ℕ → Bool
less a b = ltb ((a + 2 ^ 63) % 2 ^ 64) ((b + 2 ^ 63) % 2 ^ 64)

unfoldable pub next_backoff : ℕ → ℕ → ℕ
next_backoff current max = let next = current * 2 % 2 ^ 64 in if less max next then max else next

abbrev wraps_of : Option Error → List Sentinel
wraps_of none = []
wraps_of (some e) = e.wraps

-- `fmt.Errorf("%s: %w: %w", desc, ErrRetriesExhausted, lastErr)`
abbrev pub exhausted : Option Error → Error
exhausted last = record { wraps = retries_exhausted ∷ wraps_of last }

module _ {S A : Type 0} (cfg : RetryConfig) (fn : Go S A) where
  -- The loop with the attempts that are left; `fn` returns what its closure assigns.
  unfoldable pub attempts : ℕ → ℕ → Option Error → Go S A
  attempts zero backoff last = raise (exhausted last)
  attempts (suc k) backoff last =
      let again = attempts k (next_backoff backoff cfg.max_backoff) in
      perform ctx_err >>= λ cancelled.
      check cancelled
      >> (attempt fn >>= λ r. elim r [
        | ok a ↦ pure a
        | fail e ↦ (if ltb 0 k then tell (sleep backoff) else pure tt) >> again (some e)
      ])

  unfoldable pub retry_func : Go S A
  retry_func = attempts cfg.max_attempts cfg.initial_backoff none
