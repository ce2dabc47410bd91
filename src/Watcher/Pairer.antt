-- ===== src/Watcher/Pairer.antt =====
-- internal/watcher/pairer.go. Each method holds the lock but for the callbacks, after which it does
-- no more, so that a method is a function that returns the pair to call back with. A path that is
-- renamed again while it is pending has two timers, and the first of them expires it.
pub mod Suppressed
pub mod Answers
use home_drive.Base.{
  ℕ, ◌+◌, ◌-◌, Bool, true, false, not, ◌||◌, Option, none, some, List, [], ◌∷◌, ◌++◌, ltb,
  if◌then◌else◌,
}
use home_drive.Base.Text.{Bytes, bytes_eq, has_prefix, trim_suffix}
use home_drive.Base.Time.{Time}
use home_drive.Base.Maps.{Map, lookup, store, erase, has_path, mark, remove_path}
use home_drive.Watcher.Debouncer.{Event, op_rename}

pub record DirRename : Type 0 where
  pub from : Bytes
  pub to : Bytes
  pub at : Time

pub record Pairer : Type 0 where
  pub pending : Map Time
  pub recent_creates : Map Time
  pub suppressed_prefixes : Map Time
  pub watched_dirs : List Bytes

abbrev pub new_pairer : Pairer
new_pairer = record {
  pending = [];
  recent_creates = [];
  suppressed_prefixes = [];
  watched_dirs = [];
}

-- What a method makes of an event: not consumed, consumed, or consumed with a pair.
pub data Outcome : Type 0 where
  passed consumed : Outcome
  paired : DirRename → Outcome

abbrev pub below : Bytes → Bytes
below p = p ++ b'/' ∷ []

unfoldable pub track_dir : Bytes → Pairer → Pairer
track_dir p s = record s { watched_dirs = mark p s.watched_dirs }

unfoldable pub untrack_dir : Bytes → Pairer → Pairer
untrack_dir p s = record s { watched_dirs = remove_path p s.watched_dirs }

unfoldable pub is_tracked_dir : Bytes → Pairer → Bool
is_tracked_dir p s = has_path s.watched_dirs p

-- The entries that are not before the cutoff.
unfoldable pub fresh : Time → Map Time → Map Time
fresh cutoff [] = []
fresh cutoff ((q, t) ∷ rest) =
    let more = fresh cutoff rest in if ltb t cutoff then more else (q, t) ∷ more

abbrev entry : Bytes → Time → Bytes × Time
entry p t = (p, t)

-- The loop that looks for the oldest entry, from the best one so far.
unfoldable pub oldest : Option (Bytes × Time) → Map Time → Option (Bytes × Time)
oldest best [] = best
oldest none ((q, t) ∷ rest) = oldest (some (entry q t)) rest
oldest (some (p, u)) ((q, t) ∷ rest) = oldest (some (if ltb t u then entry q t else entry p u)) rest

-- Both prefixes are suppressed from the time of the pair on for a window.
unfoldable pub suppress_pair : Bytes → Bytes → Time → Pairer → Pairer
suppress_pair from to until s = record s {
  suppressed_prefixes = store (below to) until (store (below from) until s.suppressed_prefixes);
}

module _ (window : ℕ) where
  unfoldable pub handle_rename : Bytes → Time → Time → Pairer → Pairer × Outcome
  handle_rename path at paired_at s =
      let creates = fresh (at - window) s.recent_creates in
      if not (is_tracked_dir path s) then (s, passed) else elim (oldest none creates) [
        | none ↦
            (record s { pending = store path at s.pending; recent_creates = creates }, consumed)
        | some (dst, _) ↦ (
          suppress_pair path dst (paired_at + window)
              (record s { recent_creates = erase dst creates }),
          paired (record { from = path; to = dst; at = at }),
        )
      ]

  -- With the answer of `os.Stat`, whether the path is a directory.
  unfoldable pub handle_create : Bytes → Bool → Time → Time → Pairer → Pairer × Outcome
  handle_create path is_dir at paired_at s =
      if not is_dir then (s, passed) else elim (oldest none s.pending) [
        | none ↦ (record s { recent_creates = store path at s.recent_creates }, passed)
        | some (src, _) ↦ (
          suppress_pair src path (paired_at + window) (record s { pending = erase src s.pending }),
          paired (record { from = src; to = path; at = at }),
        )
      ]

-- The loop of `isSuppressed`, with the entries that stay.
unfoldable pub scan_suppressed : Bytes → Time → Map Time → Map Time × Bool
scan_suppressed path now [] = ([], false)
scan_suppressed path now ((prefix, until) ∷ rest) =
    let more = scan_suppressed path now rest in
    if ltb until now
    then more
    else if bytes_eq path (trim_suffix prefix (b'/' ∷ [])) || has_prefix path prefix
    then ((prefix, until) ∷ rest, true)
    else ((prefix, until) ∷ more.0, more.1)

unfoldable pub is_suppressed : Bytes → Time → Pairer → Pairer × Bool
is_suppressed path now s =
    let r = scan_suppressed path now s.suppressed_prefixes in
    (record s { suppressed_prefixes = r.0 }, r.1)

-- The callback of a timer of the path, with the event of the fallback.
unfoldable pub expire_rename : Bytes → Pairer → Pairer × Option Event
expire_rename path s = elim (lookup path s.pending) [
  | none ↦ (s, none)
  | some at ↦ (
    record s { pending = erase path s.pending },
    some (record { path = path; op = op_rename; at = at }),
  )
]

unfoldable pub stop : Pairer → Pairer
stop s = record s { pending = []; recent_creates = []; suppressed_prefixes = [] }
