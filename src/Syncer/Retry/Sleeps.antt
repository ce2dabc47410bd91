-- ===== src/Syncer/Retry/Sleeps.antt =====
-- How often and how long a retry sleeps.

use mathlib.Core.Path.{subst}
use home_drive.Base.{
  ℕ, zero, suc, ◌+◌, ◌*◌, ◌^◌, ◌<◌, ◌∙◌, ◌≡◌, refl, sym, ap, arith, Bool, true, false, Option, none,
  some, ltb, if◌then◌else◌,
}
use home_drive.Syncer.Types.{Error}
use home_drive.Syncer.Go.{
  Call, Resp, Proc, ret, panic, call, Go, sleep, Result, ok, fail, pure, check, tell, attempt,
  ◌>>=◌, ◌>>◌, bind, after, rescue,
}
use home_drive.Syncer.Safe.{Monitor, Safe, Safe-bind, Every, Only}
use home_drive.Syncer.Retry.{RetryConfig, less, next_backoff, attempts, retry_func}

-- Twice the span before, but at most the cap.
abbrev pub doubled : ℕ → ℕ → ℕ
doubled c cap = if ltb cap (c * 2) then cap else c * 2

-- The span of the sleep after the first `n + 1` attempts.
unfoldable pub span : RetryConfig → ℕ → ℕ
span cfg zero = cfg.initial_backoff
span cfg (suc n) = doubled (span cfg n) cfg.max_backoff

-- Below 2^62, a double fits an int64.
next_backoff-doubled : (c cap : ℕ) → c < 2 ^ 62 → cap < 2 ^ 62 → next_backoff c cap ≡ doubled c cap
unfolding next_backoff less
next_backoff-doubled c cap h k = ground (arith, h, k)

module _ (cfg : RetryConfig) (initial : cfg.initial_backoff < 2 ^ 62)
    (capped : cfg.max_backoff < 2 ^ 62) where
  span-fits : (n : ℕ) → span cfg n < 2 ^ 62
  unfolding span
  span-fits zero = initial
  span-fits (suc n) = ground (arith, capped)

  span-next : (n : ℕ) → next_backoff (span cfg n) cfg.max_backoff ≡ span cfg (suc n)
  unfolding span
  span-next n = next_backoff-doubled (span cfg n) cfg.max_backoff (span-fits n) capped

abbrev pub counted : ℕ → (c : Call) → Resp c → ℕ
counted n (sleep d) r = suc n
counted n _ r = n

-- The sleep after `n` sleeps has its span, and is not the one behind the last attempt.
abbrev pub Spaced : RetryConfig → ℕ → Call → Type 0
Spaced cfg n (sleep d) = (d ≡ span cfg n) × (suc n < cfg.max_attempts)
Spaced cfg n _ = Unit

abbrev pub spacing : RetryConfig → Monitor ℕ
spacing cfg = record { step = counted; allowed = Spaced cfg }

abbrev pub NoSleep : Call → Type 0
NoSleep (sleep d) = ⊥
NoSleep _ = Unit

module _ (cfg : RetryConfig) where
  NoSleep-Spaced : (n : ℕ) (c : Call) → NoSleep c → Spaced cfg n c
  NoSleep-Spaced n (sleep d) h = absurd h
  NoSleep-Spaced n _ h = tt

  NoSleep-counted : (n : ℕ) (c : Call) (r : Resp c) → NoSleep c → counted n c r ≡ n
  NoSleep-counted n (sleep d) r h = absurd h
  NoSleep-counted n _ r h = refl

  NoSleep-Safe :
      {A : Type 0} (n : ℕ) (p : Proc A) → Every NoSleep p → Safe (spacing cfg) (λ m _. m ≡ n) n p
  NoSleep-Safe n (ret a) h = refl
  NoSleep-Safe n panic h = tt
  NoSleep-Safe {A} n (call c k) h = (
    NoSleep-Spaced n c h.0,
    λ r.
        subst (λ m. Safe (spacing cfg) (λ x _. x ≡ n) m (k r)) (sym (NoSleep-counted n c r h.0))
          (NoSleep-Safe n (k r) (h.1 r)),
  )

  module _ {S A : Type 0} where
    abbrev Steady : ℕ → Go S A → Type 0
    Steady n m = (s : S) → Safe (spacing cfg) (λ m _. Unit {0}) n (m s)

    check-Steady : (n : ℕ) (o : Option Error) (m : Go S A) → Steady n m → Steady n (check o >> m)
    unfolding ◌>>=◌ bind after
    check-Steady n none m h s = h s
    check-Steady n (some e) m h s = tt

    pause-Steady :
        (n backoff : ℕ) (b : Bool) (m : Go S A)
        → backoff ≡ span cfg n
        → (b ≡ false → Steady n m)
        → (b ≡ true → (suc n < cfg.max_attempts) × Steady (suc n) m)
        → Steady n ((if b then tell (sleep backoff) else pure tt) >> m)
    unfolding ◌>>=◌ bind after
    pause-Steady n backoff false m e stop more s = stop refl s
    pause-Steady n backoff true m e stop more s =
        let (room, again) = more refl in ((e, room), λ r. again s)

    -- A block that goes on with the result of a program that does not sleep.
    attempt-Steady :
        (n : ℕ) (fn : Go S A) (f : Result A → Go S A)
        → Only NoSleep fn
        → ((r : Result A) → Steady n (f r))
        → Steady n (attempt fn >>= f)
    unfolding ◌>>=◌ attempt rescue after
    attempt-Steady n fn f own next s =
        Safe-bind (spacing cfg) (Rescued n) (λ m _. Unit {0}) (bind (fn s) rescue) (after f) n
          (Safe-bind (spacing cfg) (λ m _. m ≡ n) (Rescued n) (fn s) rescue n
            (NoSleep-Safe n (fn s) (own.at s)) (λ m a e. e))
          resume
      where
        Rescued : ℕ → ℕ → Result (Result A) × S → Type 0
        Rescued n m (ok r, t) = m ≡ n
        Rescued n m (fail e, t) = ⊥

        resume :
            (m : ℕ) (a : Result (Result A) × S)
            → Rescued n m a
            → Safe (spacing cfg) (λ m _. Unit {0}) m (after f a)
        resume m (ok r, t) e =
            subst (λ x. Safe (spacing cfg) (λ m _. Unit {0}) x (f r t)) (sym e) (next r t)
        resume m (fail x, t) e = absurd e

    module _ (fn : Go S A) (own : Only NoSleep fn) (initial : cfg.initial_backoff < 2 ^ 62)
        (capped : cfg.max_backoff < 2 ^ 62) where
      exhausted-Steady :
          (k n backoff : ℕ) (last : Option Error)
          → k ≡ 0
          → Steady n (attempts cfg fn k backoff last)
      unfolding attempts
      exhausted-Steady zero n backoff last e s = tt
      exhausted-Steady (suc k) n backoff last e s = absurd (omega (arith, e))

      attempts-Steady :
          (k n backoff : ℕ) (last : Option Error)
          → n + k ≡ cfg.max_attempts
          → backoff ≡ span cfg n
          → Steady n (attempts cfg fn k backoff last)
      unfolding attempts span ◌>>=◌ bind after
      attempts-Steady zero n backoff last total e s = tt
      attempts-Steady (suc k) n backoff last total e s = (
        tt,
        λ cancelled.
            check-Steady n cancelled _
              (attempt-Steady n fn _ own λ r.
                elim r
                  as (λ r. Steady n (elim r [
                    | ok a ↦ pure a
                    | fail e ↦
                        (if ltb 0 k then tell (sleep backoff) else pure tt)
                        >> attempts cfg fn k (next_backoff backoff cfg.max_backoff) (some e)
                  ])) [
                    | ok a ↦ λ s. tt
                    | fail x ↦
                        pause-Steady n backoff (ltb 0 k) _ e
                          (λ last_one. exhausted-Steady k n _ (some x) (ground (arith, last_one)))
                          (λ more. (
                            ground (arith, total),
                            attempts-Steady k (suc n) _ (some x) (omega (arith, total)) (
                                ap (λ b. next_backoff b cfg.max_backoff) e
                                ∙ span-next cfg initial capped n),
                          ))
                  ])
              s,
      )

      -- With an initial backoff and a cap below 2^62 ns (146 years), whatever the answers and for a
      -- function that does not sleep itself: the first sleep of a retry is the initial backoff, each
      -- further one is twice the one before, but at most the cap, and there is at most one sleep less
      -- than attempts.
      pub retry_func-spacing :
          (s : S) → Safe (spacing cfg) (λ m _. Unit {0}) 0 (retry_func cfg fn s)
      unfolding retry_func span
      retry_func-spacing s =
          attempts-Steady cfg.max_attempts 0 cfg.initial_backoff none (omega arith) refl s
