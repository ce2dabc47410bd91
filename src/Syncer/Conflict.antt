-- ===== src/Syncer/Conflict.antt =====
-- internal/syncer/conflict.go: who wins a conflict, and the steps that keep the loser.
pub mod Protocol
pub mod Order
pub mod Winner
use home_drive.Base.{
  ℕ, ◌+◌, ◌-◌, Bool, true, false, Option, none, some, List, [], ◌∷◌, ◌++◌, ltb, take, if◌then◌else◌,
}
use home_drive.Base.Text.{Bytes, last_index}
use home_drive.Base.Time.{Time}
use home_drive.OldSuffix.{Matcher, format}
use home_drive.Syncer.Types.{
  Event, RemoteObject, JournalEntry, Origin, local, remote, conflict_detected, conflict_resolved,
}
use home_drive.Syncer.Go.{
  Go, clock, local_rename, remote_download, remote_move, remote_copy, store_next_old_n,
}
use home_drive.Syncer.Go.{
  store_put, publish, pure, perform, check, lift, tell, attempt, ◌>>=◌, ◌>>◌,
}
use home_drive.Syncer.Prune.{RetentionPolicy, PruneDeps, prune_old_siblings}

-- A text that names no policy acts as `newer_wins`.
pub data ConflictPolicy : Type 0 where
  newer_wins local_wins remote_wins : ConflictPolicy

pub record ConflictResult : Type 0 where
  pub winner : Origin
  pub old_path : Bytes
  pub policy : ConflictPolicy

pub record ConflictDeps : Type 0 where
  pub matcher : Matcher
  pub policy : ConflictPolicy
  pub retention : RetentionPolicy
  pub has_publisher : Bool
  pub has_auditor : Bool
  pub dry_run : Bool

unfoldable pub determine_winner : Time → Time → ConflictPolicy → Origin
determine_winner local_mtime remote_mtime local_wins = local
determine_winner local_mtime remote_mtime remote_wins = remote
determine_winner local_mtime remote_mtime newer_wins =
    if ltb remote_mtime local_mtime
    then local
    else if ltb local_mtime remote_mtime
    then remote
    else local

-- `filepath.Dir` of a clean relative path, with "" for the root.
unfoldable pub remote_dir : Bytes → Bytes
remote_dir rel = elim (last_index rel (b'/' ∷ [])) [ none ↦ [] | some i ↦ take i rel ]

abbrev pub prune_deps : ConflictDeps → PruneDeps
prune_deps deps = record {
  matcher = deps.matcher;
  has_auditor = deps.has_auditor;
  has_publisher = deps.has_publisher;
  dry_run = deps.dry_run;
}

-- The zero entry of a path, filled in below.
abbrev entry_of : Bytes → Time → Origin → JournalEntry
entry_of path now origin = record {
  path = path;
  local_mtime = 0;
  remote_mtime = 0;
  remote_md5 = [];
  remote_id = [];
  last_synced_at = now;
  last_origin = origin;
}

module _ {S : Type 0} (deps : ConflictDeps) where
  -- The error of the retention GC is logged, never returned.
  unfoldable pub prune_after_conflict : Bytes → Go S Unit
  prune_after_conflict base =
      attempt (prune_old_siblings (prune_deps deps) deps.retention base) >>= λ _. pure tt

  unfoldable pub keep_local_loser : Bytes → Bytes → Bytes → Time → Go S Unit
  keep_local_loser path base old_path local_mtime = do
    renamed ← perform (local_rename path old_path)
    check renamed
    now ← perform clock
    recorded ←
        perform (store_put (record (entry_of old_path now local) { local_mtime = local_mtime }))
    check recorded
    prune_after_conflict base
    downloaded ← perform (remote_download path)
    check downloaded

  unfoldable pub keep_remote_loser : Bytes → Bytes → Bytes → RemoteObject → Go S Unit
  keep_remote_loser path base old_path obj = do
    moved ← perform (remote_move path old_path)
    check moved
    now ← perform clock
    recorded ← perform (
        store_put (record (entry_of old_path now remote) {
          remote_mtime = obj.mod_time;
          remote_md5 = obj.md5;
          remote_id = obj.remote_id;
        }))
    check recorded
    prune_after_conflict base
    uploaded ← perform (remote_copy path (remote_dir path))
    lift uploaded >>= λ _. pure tt

  unfoldable pub tell_event : Event → Go S Unit
  tell_event e = if deps.has_publisher then tell (publish e) else pure tt

  unfoldable pub apply_winner : Origin → Bytes → Bytes → Bytes → RemoteObject → Time → Go S Unit
  apply_winner remote path base old_path obj local_mtime =
      keep_local_loser path base old_path local_mtime
  apply_winner local path base old_path obj local_mtime = keep_remote_loser path base old_path obj

  unfoldable pub resolve_conflict : Bytes → RemoteObject → Time → Go S ConflictResult
  resolve_conflict path obj local_mtime =
      tell_event (conflict_detected path)
      >> (perform (store_next_old_n path) >>= λ numbered. lift numbered >>= λ (base, n).
          let winner = determine_winner local_mtime obj.mod_time deps.policy in
          let old_path = format deps.matcher base n in
          let result : ConflictResult = record {
            winner = winner;
            old_path = old_path;
            policy = deps.policy;
          } in
          if deps.dry_run
          then pure result
          else (apply_winner winner path base old_path obj local_mtime
              >> (tell_event (conflict_resolved path old_path) >> pure result)))
