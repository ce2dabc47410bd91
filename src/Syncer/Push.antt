-- ===== src/Syncer/Push.antt =====
-- internal/syncer/syncer.go, push_dir.go, push_remove.go and `pushEntry` of push_journal.go: what a
-- push worker does with one watcher event. The shared mutex is held between two calls of its own.
pub mod Journal
pub mod DryRun
use home_drive.Base.{Bool, true, false, Option, none, some, List, [], ◌∷◌, if◌then◌else◌, ◌||◌}
use home_drive.Base.Text.{Bytes}
use home_drive.Base.Time.{Time}
use home_drive.Syncer.Types.{
  Error, is_err, not_found, is_dir_err, RemoteObject, JournalEntry, local, FileInfo, found, missing,
  unreadable,
}
use home_drive.Syncer.Types.{
  Op, create, write, remove, rename, AuditOp, AuditEntry, push, dir_rename, Event, push_success,
  push_failure, rename_success, rename_failure,
}
use home_drive.Syncer.Go.{
  Go, clock, local_stat, bisync_rlock, bisync_runlock, remote_copy, remote_delete, remote_move,
  store_put, store_rewrite_prefix, publish, audit,
}
use home_drive.Syncer.Go.{
  Result, ok, fail, pure, raise, perform, check, lift, tell, attempt, ◌>>=◌, ◌>>◌,
}
use home_drive.Syncer.Conflict.{remote_dir}
use home_drive.Syncer.Retry.{RetryConfig, retry_func}

-- A watcher event, without its time, which no code of the push reads.
pub record FileEvent : Type 0 where
  pub path : Bytes
  pub op : Op

pub record DirRename : Type 0 where
  pub from : Bytes
  pub to : Bytes

-- The configuration, with the presence of the audit log and of the publisher.
pub record PushConfig : Type 0 where
  pub retry : RetryConfig
  pub dry_run : Bool
  pub has_audit : Bool
  pub has_publisher : Bool

unfoldable pub is_upload : Op → Bool
is_upload create = true
is_upload write = true
is_upload remove = false
is_upload rename = false

abbrev pub audit_line : AuditOp → Bytes → Bool → Bool → AuditEntry
audit_line op path dry failed = record { op = op; path = path; dry_run = dry; failed = failed }

abbrev pub rename_line : DirRename → Bool → Bool → AuditEntry
rename_line dr dry failed = audit_line (dir_rename dr.from dr.to) [] dry failed

abbrev empty_entry : Bytes → Time → JournalEntry
empty_entry rel now = record {
  path = rel;
  local_mtime = 0;
  remote_mtime = 0;
  remote_md5 = [];
  remote_id = [];
  last_synced_at = now;
  last_origin = local;
}

abbrev remote_entry : Bytes → Time → RemoteObject → JournalEntry
remote_entry rel now obj = record (empty_entry rel now) {
  remote_mtime = obj.mod_time;
  remote_md5 = obj.md5;
  remote_id = obj.remote_id;
}

module _ {S : Type 0} where
  unfoldable pub skip_dir_event : FileEvent → Go S Bool
  skip_dir_event ev =
      if is_upload ev.op
      then (perform (local_stat ev.path) >>= λ st. elim st [
        | found info ↦ pure info.is_dir
        | missing ↦ pure false
        | unreadable _ ↦ pure false
      ])
      else pure false

  unfoldable pub exec_remove : Bytes → Go S Unit
  exec_remove rel = perform (remote_delete rel) >>= λ r. elim r [
    | none ↦ pure tt
    | some e ↦ if is_err e not_found || is_err e is_dir_err then pure tt else raise e
  ]

  unfoldable pub upload : Bytes → Go S (Option RemoteObject)
  upload path =
      perform (remote_copy path (remote_dir path)) >>= λ r. lift r >>= λ obj. pure (some obj)

  -- An operation that is not handled is an error of its own.
  unfoldable pub exec_event : FileEvent → Go S (Option RemoteObject)
  exec_event ev = elim ev.op [
    | create ↦ upload ev.path
    | write ↦ upload ev.path
    | remove ↦ exec_remove ev.path >> pure none
    | rename ↦ raise (record { wraps = [] })
  ]

  unfoldable pub push_entry : Bytes → Option RemoteObject → Go S JournalEntry
  push_entry rel obj = perform clock >>= λ now. elim obj [
    | none ↦ pure (empty_entry rel now)
    | some obj ↦ perform (local_stat rel) >>= λ st. elim st [
      | found info ↦ pure (record (remote_entry rel now obj) { local_mtime = info.mod_time })
      | missing ↦ pure (remote_entry rel now obj)
      | unreadable _ ↦ pure (remote_entry rel now obj)
    ]
  ]

  module _ (cfg : PushConfig) where
    unfoldable pub append_audit : AuditEntry → Go S Unit
    append_audit e = if cfg.has_audit then tell (audit e) else pure tt

    unfoldable pub publish_event : Event → Go S Unit
    publish_event e = if cfg.has_publisher then tell (publish e) else pure tt

    -- An error of the journal is logged only.
    unfoldable pub record_result : FileEvent → Result (Option RemoteObject) → Go S Unit
    record_result ev (fail e) =
        append_audit (audit_line (push ev.op) ev.path false true)
        >> publish_event (push_failure ev.op ev.path)
    record_result ev (ok obj) = do
      entry ← push_entry ev.path obj
      tell (store_put entry)
      append_audit (audit_line (push ev.op) ev.path false false)
      publish_event (push_success ev.op ev.path)

    unfoldable pub log_dry_run : FileEvent → Go S Unit
    log_dry_run ev = append_audit (audit_line (push ev.op) ev.path true false)

    unfoldable pub handle_event : FileEvent → Go S Unit
    handle_event ev = skip_dir_event ev >>= λ skip.
        if skip then pure tt else if cfg.dry_run then log_dry_run ev else do
          tell bisync_rlock
          r ← attempt (retry_func cfg.retry (exec_event ev))
          record_result ev r
          tell bisync_runlock

    -- An error of the prefix rewrite is logged only.
    unfoldable pub finish_dir_rename : DirRename → Result (Unit {0}) → Go S Unit
    finish_dir_rename dr (ok _) = do
      tell (store_rewrite_prefix dr.from dr.to)
      append_audit (rename_line dr false false)
      publish_event (rename_success dr.from dr.to)
    finish_dir_rename dr (fail e) =
        append_audit (rename_line dr false true) >> publish_event (rename_failure dr.from dr.to)

    unfoldable pub move_dir : DirRename → Go S Unit
    move_dir dr = perform (remote_move dr.from dr.to) >>= λ r. check r

    unfoldable pub handle_dir_rename : DirRename → Go S Unit
    handle_dir_rename dr = if cfg.dry_run then append_audit (rename_line dr true false) else do
      tell bisync_rlock
      r ← attempt (retry_func cfg.retry (move_dir dr))
      finish_dir_rename dr r
      tell bisync_runlock
