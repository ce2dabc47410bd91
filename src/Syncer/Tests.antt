-- ===== src/Syncer/Tests.antt =====
-- Runs of the sync code against small environments, and the theorems at such data.
mod Push
mod Bisync
use home_drive.Base.{ℕ, ◌+◌, ◌≡◌, refl, ◌*◌, ◌^◌, arith, Bool, true, false, none, some, [], ◌∷◌}
use Prim.Native.Nat.{min}
use home_drive.Base.Text.{codes}
use home_drive.Base.Time.{minute}
use home_drive.OldSuffix.{Matcher}
use home_drive.Syncer.Types.{
  Error, oauth_client_missing, RemoteObject, Change, Changes, missing, absent,
}
use home_drive.Syncer.Go.{Call, Resp, Result, ok, fail, run}
use home_drive.Syncer.Go.{
  clock, ctx_err, bisync_rlock, bisync_runlock, sleep, local_stat, local_lstat, local_remove,
  local_mkdir_parent, local_md5, local_rename,
}
use home_drive.Syncer.Go.{
  store_get_token, store_set_token, store_get, store_delete, store_next_old_n, store_siblings,
  store_put, store_rewrite_prefix,
}
use home_drive.Syncer.Go.{
  remote_start_token, remote_list_changes, remote_download, remote_delete, remote_copy, remote_move,
  publish, audit,
}
use home_drive.Syncer.Safe.{Safe, Only}
use home_drive.Syncer.Conflict.{ConflictDeps, newer_wins, resolve_conflict}
use home_drive.Syncer.Conflict.Protocol.{order, Kept, fresh}
use home_drive.Syncer.Conflict.Order.{resolve_conflict-Safe}
use home_drive.Syncer.Pull.{Puller, PullerConfig, process_change}
use home_drive.Syncer.Pull.DryRun.{ReadOnly, process_change-ReadOnly}
use home_drive.Syncer.Poll.{wants_reset, oauth_backoff_max, next_poll_interval, fetch_changes}
use home_drive.Syncer.Poll.Streak.{with_streak}
use home_drive.Base.{◌≢◌, List}
use home_drive.Base.Time.{second}
use home_drive.Base.Text.{Bytes, bytes_eq, has_suffix, trim_suffix, last_index, has_prefix}
use home_drive.OldSuffix.{trim_one, check_parts}
use home_drive.Syncer.Types.{write, JournalEntry, FileInfo, local, remote}
use home_drive.Syncer.Go.{bind, after, rescue, attempt, ◌>>=◌, tell}
use home_drive.Syncer.Safe.{Only-tell}
use home_drive.Syncer.Safe.Rules.{Moves}
use home_drive.Syncer.Retry.{RetryConfig, retry_func, attempts, next_backoff, less}
use home_drive.Syncer.Retry.Sleeps.{span, spacing, retry_func-spacing}
use home_drive.Syncer.Push.{
  PushConfig, FileEvent, DirRename, handle_event, handle_dir_rename, skip_dir_event, is_upload,
  exec_event, upload, append_audit, publish_event, record_result, log_dry_run,
}
use home_drive.Syncer.Push.Journal.{turns, outside, handle_event-Moves}
use home_drive.Syncer.Push.DryRun.{handle-ReadOnly}
use home_drive.Syncer.Conflict.{remote_dir}
use home_drive.Syncer.Conflict.Winner.{Spares, resolve_conflict-Spares}
use home_drive.Syncer.Pull.{conflict_mtime}
use home_drive.Syncer.Pull.Detect.{Apart, conflict_mtime_lem}
use home_drive.Syncer.Prune.{
  RetentionPolicy, max_per_file_reached, select_evictions, pick, sort, insert, before, siblings_of,
  too_old, over_count,
}
use home_drive.Syncer.Poll.{poll}
use home_drive.Syncer.Go.{
  bisync_lock, bisync_unlock, store_set_meta, store_get_meta, remote_list, local_walk, store_view,
  store_entries, audit_bisync,
}

abbrev pub matcher : Matcher
matcher = record { pre = codes ".old."; post = [] }

abbrev pub deps : Bool → ConflictDeps
deps dry = record {
  matcher = matcher;
  policy = newer_wins;
  retention = record { max_per_file = 3; max_age = 0 };
  has_publisher = true;
  has_auditor = true;
  dry_run = dry;
}

abbrev pub config : Bool → PullerConfig
config dry = record { deps = deps dry; interval = 30; has_audit = true }

abbrev pub object : RemoteObject
object = record {
  path = codes "docs/f";
  size = 3;
  mod_time = 5000000000;
  md5 = codes "0f";
  remote_id = codes "id";
  is_dir = false;
}

abbrev change : Change
change = record { path = codes "docs/f"; deleted = false; object = some object }

abbrev no_client : Error
no_client = record { wraps = oauth_client_missing ∷ [] }

-- A remote without OAuth credentials, an empty journal and no local files. It counts the calls.
abbrev pub offline : ℕ → (c : Call) → Resp c × ℕ
offline w clock = (7000000000, w + 1)
offline w ctx_err = (none, w + 1)
offline w bisync_rlock = (tt, w + 1)
offline w bisync_runlock = (tt, w + 1)
offline w bisync_lock = (tt, w + 1)
offline w bisync_unlock = (tt, w + 1)
offline w (sleep d) = (tt, w + 1)
offline w (local_stat p) = (missing, w + 1)
offline w (local_lstat p) = (missing, w + 1)
offline w (local_remove p) = (absent, w + 1)
offline w (local_mkdir_parent p) = (none, w + 1)
offline w (local_md5 p) = (ok (codes "0f"), w + 1)
offline w (local_rename p q) = (none, w + 1)
offline w store_get_token = (ok (codes "12"), w + 1)
offline w (store_set_token t) = (none, w + 1)
offline w (store_get p) = (ok none, w + 1)
offline w (store_delete p) = (none, w + 1)
offline w (store_next_old_n p) = (ok (p, 1), w + 1)
offline w (store_siblings p) = (ok [], w + 1)
offline w (store_put e) = (none, w + 1)
offline w (store_rewrite_prefix p q) = (ok 0, w + 1)
offline w (store_set_meta k v) = (none, w + 1)
offline w (store_get_meta k) = (ok [], w + 1)
offline w (remote_list p) = (ok [], w + 1)
offline w local_walk = ([], w + 1)
offline w store_view = ((λ p. false), w + 1)
offline w store_entries = (ok [], w + 1)
offline w remote_start_token = (fail no_client, w + 1)
offline w (remote_list_changes t) = (fail no_client, w + 1)
offline w (remote_download p) = (some no_client, w + 1)
offline w (remote_delete p) = (some no_client, w + 1)
offline w (remote_copy p d) = (fail no_client, w + 1)
offline w (remote_move p q) = (some no_client, w + 1)
offline w (publish e) = (tt, w + 1)
offline w (audit e) = (tt, w + 1)
offline w (audit_bisync e) = (tt, w + 1)

abbrev pub idle : Puller
idle = record { streak = 1; dangling = [] }

process_change-ReadOnly_example : Only ReadOnly (process_change (config true) change)
process_change-ReadOnly_example = process_change-ReadOnly (config true) refl change

resolve_conflict-Safe_example :
    Safe
      (order matcher (codes "docs/f"))
      Kept
      fresh
      (resolve_conflict (deps false) (codes "docs/f") object 4000000000 idle)
resolve_conflict-Safe_example =
    resolve_conflict-Safe (deps false) (codes "docs/f") object 4000000000 idle refl

resolve_conflict-Spares_example :
    Only
      (Spares remote)
      {S = Puller}
      (resolve_conflict (deps false) (codes "docs/f") object 4000000000)
resolve_conflict-Spares_example =
    resolve_conflict-Spares (deps false) remote (codes "docs/f") object 4000000000 (omega arith)

abbrev synced : JournalEntry
synced = record {
  path = codes "docs/f";
  local_mtime = 1000000000;
  remote_mtime = 1000000000;
  remote_md5 = codes "0e";
  remote_id = codes "id";
  last_synced_at = 1000000000;
  last_origin = local;
}

abbrev edited : FileInfo
edited = record { is_dir = false; mod_time = 4000000000; size = 3 }

abbrev loser : Bytes → ℕ → JournalEntry
loser p t = record synced { path = p; last_synced_at = t }

abbrev losers : List JournalEntry
losers =
    loser (codes "f.old.1") 1 ∷ loser (codes "f.old.2") 2 ∷ loser (codes "f.old.1.old.1") 3 ∷ []

abbrev keep_one : RetentionPolicy
keep_one = record { max_per_file = 1; max_age = 0 }

select_oldest :
    select_evictions matcher (codes "f") losers keep_one 9
    ≡ record { entry = loser (codes "f.old.1") 1; reason = max_per_file_reached } ∷ []
unfolding select_evictions pick sort insert before siblings_of too_old over_count trim_one
    has_suffix trim_suffix last_index check_parts bytes_eq
select_oldest = refl
