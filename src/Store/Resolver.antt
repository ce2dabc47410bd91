-- ===== src/Store/Resolver.antt =====
-- internal/store/conflict.go: the resolver that names the loser and records it in the journal.
pub mod Names
use home_drive.Base.{ℕ, Bool, true, false, Option, none, some, List, [], ◌∷◌, ltb, if◌then◌else◌}
use home_drive.Base.Text.{Bytes}
use home_drive.Base.Time.{Time}
use home_drive.OldSuffix.{Matcher, default_format, new, format, next_old_n}
use home_drive.Syncer.Types.{JournalEntry, Origin, local, remote}
use home_drive.Store.Bucket.{Bucket, Json}
use home_drive.Store.Journal.{put, exists}

-- Any other text is unknown.
pub data ConflictPolicy : Type 0 where
  newer_wins local_wins remote_wins unknown : ConflictPolicy

-- Whether there is a warning about equal times, in place of its text.
pub record ConflictResult : Type 0 where
  pub winner : Origin
  pub loser_side : Origin
  pub old_path : Bytes
  pub warning : Bool

pub record ConflictInput : Type 0 where
  pub path : Bytes
  pub local_mtime : Time
  pub remote_mtime : Time
  pub remote_md5 : Bytes

-- The label of the audit line: it says `newer_wins` for every policy.
pub data Resolution : Type 0 where
  newer_wins_by equal_mtime_by : Origin → Resolution

pub record ConflictResolver : Type 0 where
  pub policy : ConflictPolicy
  pub old_suffix_format : Bytes

unfoldable pub newer_side : Time → Time → Origin × Bool
newer_side l r =
    if ltb r l then (local, false) else if ltb l r then (remote, false) else (local, true)

-- `none` is `ErrUnknownPolicy`.
unfoldable pub store_winner : ConflictPolicy → Time → Time → Option (Origin × Bool)
store_winner local_wins l r = some (local, false)
store_winner remote_wins l r = some (remote, false)
store_winner newer_wins l r = some (newer_side l r)
store_winner unknown l r = none

unfoldable pub other_side : Origin → Origin
other_side local = remote
other_side remote = local

unfoldable pub resolution_of : Origin → Bool → Resolution
resolution_of w warning = if warning then equal_mtime_by w else newer_wins_by w

unfoldable pub loser_entry : Origin → ConflictInput → Bytes → Time → JournalEntry
loser_entry local i old_path now = record {
  path = old_path;
  local_mtime = i.local_mtime;
  remote_mtime = 0;
  remote_md5 = [];
  remote_id = [];
  last_synced_at = now;
  last_origin = local;
}
loser_entry remote i old_path now = record {
  path = old_path;
  local_mtime = 0;
  remote_mtime = i.remote_mtime;
  remote_md5 = i.remote_md5;
  remote_id = [];
  last_synced_at = now;
  last_origin = remote;
}

-- A matcher for the suffix, the default one if the format is not valid. The fallback in the code is
-- nil if the default were not valid either, which `new` of the default excludes.
unfoldable pub matcher : ConflictResolver → Option Matcher
matcher r = elim (new r.old_suffix_format) [ some m ↦ some m | none ↦ new default_format ]

-- The result of `Resolve`, with the journal after it and the label of the audit line.
pub data Resolved (B : Type 0) : Type 0 where
  unknown_policy put_failed : Resolved B
  resolved : ConflictResult → Resolution → B → Resolved B

module _ {B V : Type 0} (bk : Bucket B V) (js : Json V) (m : Matcher) where
  unfoldable pub next_old_path : B → Bytes → Bytes
  next_old_path b path = let next = next_old_n m path (exists bk js b) in format m next.0 next.1

  unfoldable pub record_loser : B → ConflictInput → Time → Origin → Bool → Resolved B
  record_loser b i now w warning =
      let old_path = next_old_path b i.path in
      elim (put bk js b (loser_entry (other_side w) i old_path now)) [
        | none ↦ put_failed
        | some b' ↦
            resolved
              (record {
                winner = w;
                loser_side = other_side w;
                old_path = old_path;
                warning = warning;
              })
              (resolution_of w warning) b'
      ]

  unfoldable pub resolve : ConflictPolicy → B → ConflictInput → Time → Resolved B
  resolve policy b i now = elim (store_winner policy i.local_mtime i.remote_mtime) [
    | none ↦ unknown_policy
    | some (w, warning) ↦ record_loser b i now w warning
  ]
