-- ===== src/Syncer/Retry/Rules.antt =====
-- A retry under a monitor that goes through stages.

use home_drive.Base.{ℕ, zero, suc, ◌≡◌, Option, none, some, ltb, if◌then◌else◌}
use home_drive.Syncer.Types.{Error}
use home_drive.Syncer.Go.{Go, ok, fail, ctx_err, sleep, pure, check, tell, ◌>>◌}
use home_drive.Syncer.Safe.{Monitor}
use home_drive.Syncer.Safe.Rules.{
  Moves, Moves-ask, Moves-attempt, Moves-bind, Moves-if, Moves-pure, Moves-raise, Moves-check,
  Moves-tell,
}
use home_drive.Syncer.Retry.{RetryConfig, next_backoff, exhausted, attempts, retry_func}

module _ {M S A : Type 0} (mon : Monitor M) (cfg : RetryConfig) (fn : Go S A) (from good : M)
    (may_ask : mon.allowed from ctx_err)
    (asks : (r : Option Error) → mon.step from ctx_err r ≡ from)
    (may_sleep : (d : ℕ) → mon.allowed from (sleep d))
    (sleeps : (d : ℕ) (r : Unit {0}) → mon.step from (sleep d) r ≡ from)
    (tries : Moves mon from from good fn) where
  attempts-Moves :
      (k backoff : ℕ) (last : Option Error)
      → Moves mon from from good (attempts cfg fn k backoff last)
  unfolding attempts
  attempts-Moves zero backoff last = Moves-raise mon from good (exhausted last)
  attempts-Moves (suc k) backoff last = Moves-ask mon from from good ctx_err _ may_ask asks λ r.
      Moves-bind mon from from good from (check r) _ (Moves-check mon from r) λ _.
        Moves-attempt mon from from good from good fn
          (λ r. elim r [
            | ok a ↦ pure a
            | fail e ↦
                (if ltb 0 k then tell (sleep backoff) else pure tt)
                >> attempts cfg fn k (next_backoff backoff cfg.max_backoff) (some e)
          ])
          tries (λ a. Moves-pure mon good from a)
          λ e.
            Moves-bind mon from from good from _ _
              (Moves-if mon from from from (ltb 0 k) _ _
                (Moves-tell mon from from from (sleep backoff) (may_sleep backoff) (sleeps backoff))
                (Moves-pure mon from from tt))
              (λ _. attempts-Moves k (next_backoff backoff cfg.max_backoff) (some e))

  -- If each attempt leads from a stage to a better one or fails and stays, so does the retry.
  pub retry_func-Moves : Moves mon from from good (retry_func cfg fn)
  unfolding retry_func
  retry_func-Moves = attempts-Moves cfg.max_attempts cfg.initial_backoff none
