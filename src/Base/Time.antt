-- ===== src/Base/Time.antt =====
-- Instants (`time.Time`) and spans (`time.Duration`), in nanoseconds. An instant counts from Go's
-- zero time, so 0 is the time for which `IsZero` holds.
use home_drive.Base.Tests.{leb, if◌then◌else◌}
use Prim.Native.Nat.{ℕ, ◌-◌, ◌*◌, ◌^◌}
use mathlib.Core.Bool.{Bool, ◌||◌}

abbrev pub Time : Type 0
Time = ℕ

abbrev pub second : ℕ
second = 1_000_000_000

abbrev pub minute : ℕ
minute = 60 * second

-- The test `diff := a.Sub(b); if diff < 0 { diff = -diff }; diff <= time.Second`. `Sub` saturates
-- at -2^63, whose negation is -2^63 again in an int64: an instant `a` that lies 2^63 ns or more
-- before `b` passes the test.
unfoldable pub within_second : Time → Time → Bool
within_second a b =
    if leb b a then leb (a - b) second else leb (b - a) second || leb (2 ^ 63) (b - a)
