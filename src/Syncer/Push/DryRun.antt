-- ===== src/Syncer/Push/DryRun.antt =====
-- A dry run of a push worker on one event.
use home_drive.Base.{◌≡◌, true, false}
use home_drive.Syncer.Types.{AuditEntry}
use home_drive.Syncer.Go.{local_stat, audit}
use home_drive.Syncer.Safe.{
  Only, Only-bind, Only-pure, Only-call, Only-stat, Only-if, Only-then, Only-tell,
}
use home_drive.Syncer.Pull.DryRun.{ReadOnly}
use home_drive.Syncer.Push.{
  FileEvent, DirRename, PushConfig, skip_dir_event, append_audit, log_dry_run, handle_event,
  handle_dir_rename,
}

module _ {S : Type 0} (cfg : PushConfig) (dry : cfg.dry_run ≡ true) where
  append_audit-ReadOnly : (e : AuditEntry) → Only ReadOnly {S = S} (append_audit cfg e)
  unfolding append_audit
  append_audit-ReadOnly e = Only-if _ _ _ (Only-tell (audit e) tt) (Only-pure tt)

  skip_dir_event-ReadOnly : (ev : FileEvent) → Only ReadOnly {S = S} (skip_dir_event ev)
  unfolding skip_dir_event
  skip_dir_event-ReadOnly ev =
      Only-if _ _ _
        (Only-call (local_stat ev.path) _ tt λ st.
          Only-stat st _ _ _ (λ info. Only-pure info.is_dir) (Only-pure false)
            (λ e. Only-pure false))
        (Only-pure false)

  -- In a dry run, a push of a file event or of a renamed directory makes no call that changes a
  -- local file, a journal entry, the page token or a remote object, whatever the answers.
  pub handle-ReadOnly :
      (ev : FileEvent) (dr : DirRename)
      → Only ReadOnly {S = S} (handle_event cfg ev)
        × Only ReadOnly {S = S} (handle_dir_rename cfg dr)
  unfolding handle_event log_dry_run handle_dir_rename
  handle-ReadOnly ev dr = (
    Only-bind _ _ (skip_dir_event-ReadOnly ev)
        λ skip. Only-if _ _ _ (Only-pure tt) (Only-then _ _ dry (append_audit-ReadOnly _)),
    Only-then _ _ dry (append_audit-ReadOnly _),
  )
