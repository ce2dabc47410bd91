-- ===== src/Syncer/Poll/Interval.antt =====
-- The interval between polls after a streak of failures for want of OAuth credentials.
use Prim.Native.Nat.{min}
use home_drive.Base.{ℕ, zero, suc, ◌-◌, ◌*◌, ◌^◌, ◌≤◌, ◌<◌, ◌≡◌, refl, arith}
use native.Mathlib.Nat.{pow-suc}
use home_drive.Syncer.Poll.{oauth_backoff_max, grow, next_poll_interval}

grow-le : (k i : ℕ) → i ≤ grow k i
unfolding grow
grow-le zero i = omega arith
grow-le (suc k) i = ground (arith, grow-le k (i * 2))

pow-pos : (k : ℕ) → 0 < 2 ^ k
pow-pos zero = omega arith
pow-pos (suc k) = rw pow-suc (omega (arith, pow-pos k))

le-mul-pow : (k i : ℕ) → i ≤ i * 2 ^ k
le-mul-pow k i = grind (arith, pow-pos k)

-- Capped, the loop is the power of two that it stands for.
grow-pow : (k i : ℕ) → min (grow k i) oauth_backoff_max ≡ min (i * 2 ^ k) oauth_backoff_max
unfolding grow
grow-pow zero i = omega arith
grow-pow (suc k) i =
    let double : i * 2 * 2 ^ k ≡ i * 2 ^ suc k = rw pow-suc (grind arith) in
    ground (arith, grow-pow k (i * 2), double, le-mul-pow (suc k) i)

-- After `streak` failures in a row the interval is the configured one times a power of two that
-- doubles with each failure from the second on, and 30 minutes at most; with no failure it is the
-- configured one.
next_poll_interval_lem :
    (interval streak : ℕ)
    → (next_poll_interval interval 0 ≡ interval)
      × (next_poll_interval interval (suc streak) ≡ min (interval * 2 ^ streak) oauth_backoff_max)
unfolding next_poll_interval
next_poll_interval_lem interval streak = (refl, capped)
  where
    one : suc streak - 1 ≡ streak
    one = omega arith

    capped :
        next_poll_interval interval (suc streak) ≡ min (interval * 2 ^ streak) oauth_backoff_max
    capped = rw one (ground (arith, grow-pow streak interval))

-- An interval that is configured longer than 30 minutes is cut by the first such failure.
next_poll_interval_cut :
    (interval streak : ℕ)
    → oauth_backoff_max < interval
    → next_poll_interval interval (suc streak) < next_poll_interval interval 0
unfolding next_poll_interval
next_poll_interval_cut interval streak long = ground (arith, grow-le (suc streak - 1) interval)
