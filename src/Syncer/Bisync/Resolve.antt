-- ===== src/Syncer/Bisync/Resolve.antt =====
-- What internal/syncer/bisync_ops.go does with one difference. The mutex is held by the caller, so
-- the entries that `NextOldN` asks for are those of one view of the journal.
use home_drive.Base.{ℕ, ◌+◌, none, some, List, [], ◌∷◌, ltb, if◌then◌else◌}
use home_drive.Base.Text.{Bytes}
use home_drive.Base.Time.{Time}
use home_drive.OldSuffix.{format, next_old_n}
use home_drive.Syncer.Types.{RemoteObject, LocalFileInfo, JournalEntry, local, remote}
use home_drive.Syncer.Go.{
  Go, clock, local_rename, local_mkdir_parent, remote_download, remote_move, remote_copy, store_put,
  store_view, ctx_err,
}
use home_drive.Syncer.Go.{
  ok, fail, pure, perform, check, lift, attempt, read_state, write_state, ◌>>=◌, ◌>>◌,
}
use home_drive.Syncer.Conflict.{remote_dir}
use home_drive.Syncer.Bisync.Defs.{
  BisyncConfig, Bisync, FileDiff, local_only, remote_only, conflicting,
}
use home_drive.Base.Maps.{mark}

-- The entries that a pass writes: none has the id of the remote object.
abbrev pub pushed_entry : LocalFileInfo → RemoteObject → Time → JournalEntry
pushed_entry l obj now = record {
  path = l.path;
  local_mtime = l.mod_time;
  remote_mtime = obj.mod_time;
  remote_md5 = obj.md5;
  remote_id = [];
  last_synced_at = now;
  last_origin = local;
}

abbrev pub pulled_entry : RemoteObject → Time → JournalEntry
pulled_entry r now = record {
  path = r.path;
  local_mtime = r.mod_time;
  remote_mtime = r.mod_time;
  remote_md5 = r.md5;
  remote_id = [];
  last_synced_at = now;
  last_origin = remote;
}

abbrev pub remote_loser_entry : Bytes → RemoteObject → Time → JournalEntry
remote_loser_entry old_path r now = record {
  path = old_path;
  local_mtime = 0;
  remote_mtime = r.mod_time;
  remote_md5 = r.md5;
  remote_id = [];
  last_synced_at = now;
  last_origin = remote;
}

abbrev pub local_loser_entry : Bytes → LocalFileInfo → Time → JournalEntry
local_loser_entry old_path l now = record {
  path = old_path;
  local_mtime = l.mod_time;
  remote_mtime = 0;
  remote_md5 = [];
  remote_id = [];
  last_synced_at = now;
  last_origin = local;
}

unfoldable pub mark_for_prune : Bytes → Go Bisync Unit
mark_for_prune base =
    read_state >>= λ b. write_state (record b { pending_prune = mark base b.pending_prune })

module _ (cfg : BisyncConfig) where
  unfoldable pub sync_local_to_remote : LocalFileInfo → Go Bisync Unit
  sync_local_to_remote l = if cfg.dry_run then pure tt else (do
    copied ← perform (remote_copy l.path (remote_dir l.path))
    obj ← lift copied
    now ← perform clock
    recorded ← perform (store_put (pushed_entry l obj now))
    check recorded)

  unfoldable pub sync_remote_to_local : RemoteObject → Go Bisync Unit
  sync_remote_to_local r = if cfg.dry_run then pure tt else (do
    made ← perform (local_mkdir_parent r.path)
    check made
    downloaded ← perform (remote_download r.path)
    check downloaded
    now ← perform clock
    recorded ← perform (store_put (pulled_entry r now))
    check recorded)

  unfoldable pub resolve_local_wins : LocalFileInfo → RemoteObject → Go Bisync Unit
  resolve_local_wins l r = perform store_view >>= λ exists.
      let base = (next_old_n cfg.matcher l.path exists).0 in
      let old_path = format cfg.matcher base (next_old_n cfg.matcher l.path exists).1 in
      do
        moved ← perform (remote_move l.path old_path)
        check moved
        copied ← perform (remote_copy l.path (remote_dir l.path))
        obj ← lift copied
        now ← perform clock
        recorded ← perform (store_put (pushed_entry l obj now))
        check recorded
        later ← perform clock
        kept ← perform (store_put (remote_loser_entry old_path r later))
        check kept
        mark_for_prune base

  unfoldable pub resolve_remote_wins : LocalFileInfo → RemoteObject → Go Bisync Unit
  resolve_remote_wins l r = perform store_view >>= λ exists.
      let base = (next_old_n cfg.matcher l.path exists).0 in
      let old_path = format cfg.matcher base (next_old_n cfg.matcher l.path exists).1 in
      do
        renamed ← perform (local_rename l.path old_path)
        check renamed
        made ← perform (local_mkdir_parent l.path)
        check made
        downloaded ← perform (remote_download l.path)
        check downloaded
        now ← perform clock
        recorded ← perform (store_put (record (pulled_entry r now) { path = l.path }))
        check recorded
        later ← perform clock
        kept ← perform (store_put (local_loser_entry old_path l later))
        check kept
        mark_for_prune base

  unfoldable pub resolve_conflict : LocalFileInfo → RemoteObject → Go Bisync Unit
  resolve_conflict l r =
      if cfg.dry_run
      then pure tt
      else if ltb r.mod_time l.mod_time
      then resolve_local_wins l r
      else if ltb l.mod_time r.mod_time
      then resolve_remote_wins l r
      else resolve_local_wins l r

-- What a pass did so far.
pub record Counts : Type 0 where
  pub pushed : ℕ
  pub pulled : ℕ
  pub conflicts : ℕ

module _ (cfg : BisyncConfig) where
  -- One round of the loop. A failure is logged, that of a dangling shortcut at a lower level; only
  -- a conflict counts all the same.
  unfoldable pub sync_diff : FileDiff → Counts → Go Bisync Counts
  sync_diff (local_only l) n = attempt (sync_local_to_remote cfg l) >>= λ r.
      pure (elim r [ ok _ ↦ record n { pushed = n.pushed + 1 } | fail _ ↦ n ])
  sync_diff (remote_only o) n = attempt (sync_remote_to_local cfg o) >>= λ r.
      pure (elim r [ ok _ ↦ record n { pulled = n.pulled + 1 } | fail _ ↦ n ])
  sync_diff (conflicting l o) n =
      attempt (resolve_conflict cfg l o) >>= λ _. pure (record n { conflicts = n.conflicts + 1 })

  unfoldable pub sync_diffs : List FileDiff → Counts → Go Bisync Counts
  sync_diffs [] n = pure n
  sync_diffs (d ∷ ds) n = perform ctx_err >>= λ cancelled. elim cancelled [
    | some _ ↦ pure n
    | none ↦ sync_diff d n >>= λ m. sync_diffs ds m
  ]
