-- ===== src/Syncer/Pull/DryRun.antt =====
-- A dry run of the puller on one change.
use home_drive.Base.{◌≡◌, true, false, none}
use home_drive.Base.Text.{Bytes}
use home_drive.Base.Time.{Time}
use home_drive.Syncer.Types.{Change, JournalEntry, RemoteObject, FileInfo, Event, AuditEntry}
use home_drive.Syncer.Go.{Call}
use home_drive.Syncer.Go.{
  store_next_old_n, store_get, local_md5, local_stat, store_put, store_delete, store_set_token,
  store_rewrite_prefix, store_set_meta, local_remove, local_rename, local_mkdir_parent,
  remote_download, remote_copy, remote_move, remote_delete,
}
use home_drive.Syncer.Safe.{
  Only, Only-bind, Only-pure, Only-call, only_rules, Only-then, Only-deref, Only-lift, Only-stat,
  Only-result, Only-option, Only-if, Only-attempt, Only-raise,
}
use home_drive.Syncer.Conflict.{ConflictResult, resolve_conflict, tell_event}
use home_drive.Syncer.Pull.{
  PullerConfig, dry_run, process_change, process_delete, process_file_change, download_file,
  log_audit, emit, adopt, adopt_identical_remote, detect_conflict, handle_conflict, record_conflict,
  refresh, compare_with_journal,
}

-- Calls that change no file, no journal entry, no page token and no remote object.
abbrev pub ReadOnly : Call → Type 0
ReadOnly (store_put _) = ⊥
ReadOnly (store_delete _) = ⊥
ReadOnly (store_set_token _) = ⊥
ReadOnly (store_rewrite_prefix _ _) = ⊥
ReadOnly (store_set_meta _ _) = ⊥
ReadOnly (local_remove _) = ⊥
ReadOnly (local_rename _ _) = ⊥
ReadOnly (local_mkdir_parent _) = ⊥
ReadOnly (remote_download _) = ⊥
ReadOnly (remote_copy _ _) = ⊥
ReadOnly (remote_move _ _) = ⊥
ReadOnly (remote_delete _) = ⊥
ReadOnly _ = Unit

module _ (cfg : PullerConfig) (dry : dry_run cfg ≡ true) where
  log_audit-ReadOnly : (e : AuditEntry) → Only ReadOnly (log_audit cfg e)
  unfolding log_audit
  log_audit-ReadOnly e = search only_rules

  emit-ReadOnly : (e : Event) → Only ReadOnly (emit cfg e)
  unfolding emit
  emit-ReadOnly e = search only_rules

  process_delete-ReadOnly : (ch : Change) → Only ReadOnly (process_delete cfg ch)
  unfolding process_delete
  process_delete-ReadOnly ch = Only-then _ _ dry (log_audit-ReadOnly _)

  download_file-ReadOnly : (ch : Change) → Only ReadOnly (download_file cfg ch)
  unfolding download_file
  download_file-ReadOnly ch =
      Only-bind _ _ (Only-deref _) (λ obj. Only-then _ _ dry (log_audit-ReadOnly _))

  tell_event-ReadOnly : {S : Type 0} (e : Event) → Only ReadOnly {S = S} (tell_event cfg.deps e)
  unfolding tell_event
  tell_event-ReadOnly e = search only_rules

  resolve_conflict-ReadOnly :
      {S : Type 0} (path : Bytes) (obj : RemoteObject) (t : Time)
      → Only ReadOnly {S = S} (resolve_conflict cfg.deps path obj t)
  unfolding resolve_conflict
  resolve_conflict-ReadOnly path obj t = Only-bind _ _ (tell_event-ReadOnly _) λ _.
      Only-call (store_next_old_n path) _ tt
        λ numbered. Only-bind _ _ (Only-lift numbered) λ named. Only-then _ _ dry (Only-pure _)

  adopt-ReadOnly :
      (path : Bytes) (j : JournalEntry) (obj : RemoteObject) (info : FileInfo)
      → Only ReadOnly (adopt cfg path j obj info)
  unfolding adopt
  adopt-ReadOnly path j obj info = Only-call (local_md5 path) _ tt λ hashed.
      Only-bind _ _ (Only-lift hashed)
        λ sum. Only-if _ _ _ (Only-pure false) (Only-then _ _ dry (Only-pure true))

  adopt_identical_remote-ReadOnly :
      (ch : Change) (j : JournalEntry) → Only ReadOnly (adopt_identical_remote cfg ch j)
  unfolding adopt_identical_remote
  adopt_identical_remote-ReadOnly ch j = Only-if _ _ _ (Only-pure false) (
      Only-bind _ _ (Only-deref _) λ obj. Only-if _ _ _ (Only-pure false) (
        Only-call (local_stat ch.path) _ tt λ st.
          Only-stat st _ _ _
            (λ info. Only-if _ _ _ (Only-pure false) (adopt-ReadOnly ch.path j obj info))
            (Only-pure false) (λ e. Only-pure false)))

  detect_conflict-ReadOnly :
      (ch : Change) (j : JournalEntry) → Only ReadOnly (detect_conflict cfg ch j)
  unfolding detect_conflict
  detect_conflict-ReadOnly ch j = Only-call (local_stat ch.path) _ tt λ st.
      Only-stat st _ _ _ (λ info. Only-bind _ _ (Only-deref _) (λ obj. Only-pure _))
        (Only-pure none) (λ e. Only-raise e)

  record_conflict-ReadOnly :
      (path : Bytes) (obj : RemoteObject) (r : ConflictResult) (t : Time)
      → Only ReadOnly (record_conflict cfg path obj r t)
  unfolding record_conflict
  record_conflict-ReadOnly path obj r t = Only-then _ _ dry (Only-pure tt)

  handle_conflict-ReadOnly : (ch : Change) (t : Time) → Only ReadOnly (handle_conflict cfg ch t)
  unfolding handle_conflict
  handle_conflict-ReadOnly ch t = Only-bind _ _ (Only-deref _) λ obj.
      Only-bind _ _ (Only-attempt _ (resolve_conflict-ReadOnly ch.path obj t)) λ r.
        Only-result r _ _
          (λ result.
            Only-bind _ _ (record_conflict-ReadOnly ch.path obj result t)
              λ _. Only-bind _ _ (log_audit-ReadOnly _) (λ _. emit-ReadOnly _))
          (λ e.
            Only-bind _ _ (emit-ReadOnly _)
              λ _. Only-bind _ _ (log_audit-ReadOnly _) (λ _. Only-raise e))

  refresh-ReadOnly : (ch : Change) (j : JournalEntry) → Only ReadOnly (refresh cfg ch j)
  unfolding refresh
  refresh-ReadOnly ch j =
      Only-bind _ _ (Only-deref _) (λ obj. Only-if _ _ _ (Only-pure tt) (download_file-ReadOnly ch))

  compare-ReadOnly :
      (ch : Change) (j : JournalEntry) → Only ReadOnly (compare_with_journal cfg ch j)
  unfolding compare_with_journal
  compare-ReadOnly ch j = Only-bind _ _ (adopt_identical_remote-ReadOnly ch j) λ same.
      Only-if _ _ _ (Only-pure tt) (
        Only-bind _ _ (detect_conflict-ReadOnly ch j)
          λ found. Only-option found _ _ (refresh-ReadOnly ch j) (handle_conflict-ReadOnly ch))

  process_file_change-ReadOnly : (ch : Change) → Only ReadOnly (process_file_change cfg ch)
  unfolding process_file_change
  process_file_change-ReadOnly ch = Only-call (store_get ch.path) _ tt λ got.
      Only-bind _ _ (Only-lift got)
        λ entry. Only-option entry _ _ (download_file-ReadOnly ch) (compare-ReadOnly ch)

  -- In a dry run, processing a remote change makes no call that changes a local file, a journal
  -- entry, the page token or a remote object, whatever the answers to its calls.
  pub process_change-ReadOnly : (ch : Change) → Only ReadOnly (process_change cfg ch)
  unfolding process_change
  process_change-ReadOnly ch =
      Only-if _ _ _ (process_delete-ReadOnly ch)
        (Only-if _ _ _ (Only-pure tt) (process_file_change-ReadOnly ch))
