-- ===== src/Syncer/Tests/Push.antt =====
-- Runs of the push side against the environment of Syncer/Tests.antt, and the theorems at such data.
use home_drive.Base.{arith}
use home_drive.Base.{◌≡◌, refl, ◌*◌, Bool, true, false, some}
use home_drive.Base.Text.{codes}
use home_drive.Base.Time.{minute}
use home_drive.Syncer.Go.{ok, run}
use home_drive.Syncer.Go.{bisync_rlock}
use home_drive.Syncer.Safe.{Safe, Only}
use home_drive.Syncer.Pull.{Puller}
use home_drive.Syncer.Pull.DryRun.{ReadOnly}
use home_drive.Base.Time.{second}
use home_drive.Base.Text.{last_index, has_prefix}
use home_drive.Syncer.Types.{write}
use home_drive.Syncer.Go.{bind, after, rescue, attempt, ◌>>=◌, tell}
use home_drive.Syncer.Safe.{Only-tell}
use home_drive.Syncer.Safe.Rules.{Moves}
use home_drive.Syncer.Retry.{RetryConfig, retry_func, attempts, next_backoff, less}
use home_drive.Syncer.Retry.Sleeps.{spacing, retry_func-spacing}
use home_drive.Syncer.Push.{
  PushConfig, FileEvent, DirRename, handle_event, handle_dir_rename, skip_dir_event, is_upload,
  exec_event, upload, append_audit, publish_event, record_result, log_dry_run,
}
use home_drive.Syncer.Push.Journal.{turns, outside, handle_event-Moves}
use home_drive.Syncer.Push.DryRun.{handle-ReadOnly}
use home_drive.Syncer.Conflict.{remote_dir}
use home_drive.Syncer.Tests.{offline, idle}

abbrev retry : RetryConfig
retry = record { max_attempts = 5; initial_backoff = 5 * second; max_backoff = 5 * minute }

abbrev pusher : Bool → PushConfig
pusher dry = record { retry = retry; dry_run = dry; has_audit = true; has_publisher = true }

abbrev written : FileEvent
written = record { path = codes "docs/f"; op = write }

abbrev moved : DirRename
moved = record { from = codes "docs"; to = codes "papers" }

-- Five attempts without credentials: the clock, the mutex, an upload and a sleep between two.
push_offline : run offline 0 (handle_event (pusher false) written idle) ≡ some ((ok tt, idle), 19)
unfolding run bind after rescue attempt ◌>>=◌ handle_event skip_dir_event is_upload retry_func
    attempts exec_event upload next_backoff less append_audit publish_event record_result remote_dir
    last_index has_prefix log_dry_run
push_offline = refl

retry_func-spacing_example :
    Safe (spacing retry) (λ m _. Unit {0}) 0 (retry_func retry (tell bisync_rlock) idle)
retry_func-spacing_example =
    retry_func-spacing retry (tell bisync_rlock) (Only-tell bisync_rlock tt) (omega arith)
      (omega arith) idle

handle_event-Moves_example :
    Moves {S = Puller} turns outside outside outside (handle_event (pusher false) written)
handle_event-Moves_example = handle_event-Moves (pusher false) written

handle-ReadOnly_example :
    Only ReadOnly {S = Puller} (handle_event (pusher true) written)
    × Only ReadOnly {S = Puller} (handle_dir_rename (pusher true) moved)
handle-ReadOnly_example = handle-ReadOnly (pusher true) refl written moved
