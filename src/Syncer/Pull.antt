-- ===== src/Syncer/Pull.antt =====
-- internal/syncer/pull_process.go, pull_dir.go, pull_dangling.go and `adoptIdenticalRemote` of
-- push_journal.go: what the puller does with one remote change.
pub mod DryRun
pub mod Detect
pub mod Order
use home_drive.Base.{
  ℕ, ◌-◌, ◌+◌, Bool, true, false, not, ◌&&◌, ◌||◌, Option, none, some, List, [], ◌∷◌, ◌++◌, ltb,
  leb, ◌==◌, if◌then◌else◌, is_empty, map,
}
use home_drive.Base.Text.{Bytes, bytes_eq}
use home_drive.Base.Time.{Time, within_second}
use home_drive.Syncer.Types.{
  Error, is_err, dangling_shortcut, RemoteObject, Change, JournalEntry, Origin, local, remote,
}
use home_drive.Syncer.Types.{
  FileInfo, found, missing, unreadable, removed, absent, refused, AuditEntry, pull, pull_delete,
  conflict,
}
use home_drive.Syncer.Types.{Event, pull_success, pull_failure}
use home_drive.Syncer.Go.{
  Go, clock, local_stat, local_lstat, local_remove, local_mkdir_parent, local_md5, remote_download,
}
use home_drive.Syncer.Go.{store_get, store_put, store_delete, publish, audit, Result, ok, fail}
use home_drive.Syncer.Go.{
  pure, raise, perform, check, lift, tell, attempt, deref, read_state, write_state, ◌>>=◌, ◌>>◌,
}
use home_drive.Syncer.Conflict.{ConflictDeps, ConflictResult, resolve_conflict}

pub record DanglingKey : Type 0 where
  pub path : Bytes
  pub remote_id : Bytes
  pub mod_time : Time

-- What a `Puller` keeps in memory between polls.
pub record Puller : Type 0 where
  pub streak : ℕ
  pub dangling : List DanglingKey

-- The configuration, with the presence of the publisher and of the audit logger.
pub record PullerConfig : Type 0 where
  pub deps : ConflictDeps
  pub interval : ℕ
  pub has_audit : Bool

abbrev pub dry_run : PullerConfig → Bool
dry_run cfg = cfg.deps.dry_run

-- `strings.EqualFold` on ASCII text.
unfoldable pub lower : ℕ → ℕ
lower c = if leb b'A' c && leb c b'Z' then c + 32 else c

unfoldable pub equal_fold : Bytes → Bytes → Bool
equal_fold a b = bytes_eq (map lower a) (map lower b)

unfoldable pub dangling_key : Bytes → RemoteObject → DanglingKey
dangling_key path obj = record { path = path; remote_id = obj.remote_id; mod_time = obj.mod_time }

unfoldable pub key_eq : DanglingKey → DanglingKey → Bool
key_eq a b =
    bytes_eq a.path b.path && (bytes_eq a.remote_id b.remote_id && a.mod_time == b.mod_time)

unfoldable pub knows : List DanglingKey → DanglingKey → Bool
knows [] k = false
knows (j ∷ js) k = key_eq j k || knows js k

module _ (cfg : PullerConfig) where
  unfoldable pub emit : Event → Go Puller Unit
  emit e = if cfg.deps.has_publisher then tell (publish e) else pure tt

  unfoldable pub log_audit : AuditEntry → Go Puller Unit
  log_audit e = if cfg.has_audit then tell (audit e) else pure tt

  -- `removeLocal`: a directory that still holds entries is kept.
  unfoldable pub remove_local : Bytes → Go Puller Unit
  remove_local p = perform (local_remove p) >>= λ r. elim r [
    | removed ↦ pure tt
    | absent ↦ pure tt
    | refused e ↦ perform (local_lstat p) >>= λ st. elim st [
      | found info ↦ if info.is_dir then pure tt else raise e
      | missing ↦ raise e
      | unreadable _ ↦ raise e
    ]
  ]

  unfoldable pub process_delete : Change → Go Puller Unit
  process_delete ch =
      if dry_run cfg
      then log_audit (record { op = pull_delete; path = ch.path; dry_run = true; failed = false })
      else do
        remove_local ch.path
        deleted ← perform (store_delete ch.path)
        check deleted
        log_audit (record { op = pull_delete; path = ch.path; dry_run = false; failed = false })

  -- The test of `adoptIdenticalRemote` on the journal entry and the object.
  unfoldable pub has_baseline : JournalEntry → Bool
  has_baseline j = not (is_empty j.remote_md5) || not (j.local_mtime == 0)

  unfoldable pub adopt : Bytes → JournalEntry → RemoteObject → FileInfo → Go Puller Bool
  adopt path journal obj info = do
    hashed ← perform (local_md5 path)
    sum ← lift hashed
    if not (equal_fold sum obj.md5) then pure false else if dry_run cfg then pure true else do
      now ← perform clock
      put ← perform (
          store_put (record {
            path = path;
            local_mtime = info.mod_time;
            remote_mtime = obj.mod_time;
            remote_md5 = obj.md5;
            remote_id = obj.remote_id;
            last_synced_at = now;
            last_origin = journal.last_origin;
          }))
      check put
      pure true

  unfoldable pub adopt_identical_remote : Change → JournalEntry → Go Puller Bool
  adopt_identical_remote ch journal =
      if has_baseline journal
      then pure false
      else (deref ch.object >>= λ obj.
          if is_empty obj.md5
          then pure false
          else (perform (local_stat ch.path) >>= λ st. elim st [
            | missing ↦ pure false
            | unreadable _ ↦ pure false
            | found info ↦ if info.is_dir then pure false else adopt ch.path journal obj info
          ]))

  -- `none` is no conflict, `some t` a conflict with a local file of mtime `t`.
  unfoldable pub conflict_mtime : JournalEntry → RemoteObject → FileInfo → Option Time
  conflict_mtime journal obj info =
      if bytes_eq obj.md5 journal.remote_md5 || within_second info.mod_time journal.local_mtime
      then none
      else some info.mod_time

  unfoldable pub detect_conflict : Change → JournalEntry → Go Puller (Option Time)
  detect_conflict ch journal = perform (local_stat ch.path) >>= λ st. elim st [
    | missing ↦ pure none
    | unreadable e ↦ raise e
    | found info ↦ deref ch.object >>= λ obj. pure (conflict_mtime journal obj info)
  ]

  unfoldable pub build_conflict_entry :
      Bytes → RemoteObject → ConflictResult → Time → Time → JournalEntry
  build_conflict_entry path obj result local_mtime now = record {
    path = path;
    local_mtime = elim result.winner [ remote ↦ obj.mod_time | local ↦ local_mtime ];
    remote_mtime = obj.mod_time;
    remote_md5 = obj.md5;
    remote_id = obj.remote_id;
    last_synced_at = now;
    last_origin = remote;
  }

  unfoldable pub record_conflict : Bytes → RemoteObject → ConflictResult → Time → Go Puller Unit
  record_conflict path obj result local_mtime = if dry_run cfg then pure tt else do
    now ← perform clock
    put ← perform (store_put (build_conflict_entry path obj result local_mtime now))
    check put

  unfoldable pub handle_conflict : Change → Time → Go Puller Unit
  handle_conflict ch local_mtime = deref ch.object >>= λ obj.
      attempt (resolve_conflict cfg.deps ch.path obj local_mtime) >>= λ r. elim r [
        | fail e ↦
            emit (pull_failure ch.path e)
            >> (log_audit (record { op = conflict; path = ch.path; dry_run = false; failed = true })
                >> raise e)
        | ok result ↦
            record_conflict ch.path obj result local_mtime
            >> (log_audit
                  (record { op = conflict; path = ch.path; dry_run = dry_run cfg; failed = false })
                >> emit (pull_success ch.path obj.size))
      ]

  unfoldable pub record_download : Bytes → RemoteObject → Go Puller Unit
  record_download path obj = perform (local_stat path) >>= λ st. elim st [
    | missing ↦ raise (record { wraps = [] })
    | unreadable e ↦ raise e
    | found info ↦ do
      now ← perform clock
      put ← perform (
          store_put (record {
            path = path;
            local_mtime = info.mod_time;
            remote_mtime = obj.mod_time;
            remote_md5 = obj.md5;
            remote_id = obj.remote_id;
            last_synced_at = now;
            last_origin = remote;
          }))
      check put
      log_audit (record { op = pull; path = path; dry_run = false; failed = false })
      emit (pull_success path obj.size)
  ]

  unfoldable pub skip_dangling_shortcut : Bytes → RemoteObject → Error → Go Puller Unit
  skip_dangling_shortcut path obj e = do
    p ← read_state
    write_state (record p { dangling = dangling_key path obj ∷ p.dangling })
    emit (pull_failure path e)
    log_audit (record { op = pull; path = path; dry_run = false; failed = true })

  -- The download of an object that is not known to be dangling, and what its answer leads to.
  unfoldable pub fetch_file : Bytes → RemoteObject → Go Puller Unit
  fetch_file path obj = do
    made ← perform (local_mkdir_parent path)
    check made
    got ← perform (remote_download path)
    elim got [
      | none ↦ record_download path obj
      | some e ↦
          if is_err e dangling_shortcut
          then skip_dangling_shortcut path obj e
          else (emit (pull_failure path e)
              >> (log_audit (record { op = pull; path = path; dry_run = false; failed = true })
                  >> raise e))
    ]

  unfoldable pub download_file : Change → Go Puller Unit
  download_file ch = deref ch.object >>= λ obj.
      if dry_run cfg
      then log_audit (record { op = pull; path = ch.path; dry_run = true; failed = false })
      else (read_state >>= λ p.
          if knows p.dangling (dangling_key ch.path obj) then pure tt else fetch_file ch.path obj)

  -- After the conflict check: a remote mtime that the journal knows is in sync.
  unfoldable pub refresh : Change → JournalEntry → Go Puller Unit
  refresh ch journal = deref ch.object >>= λ obj.
      if within_second obj.mod_time journal.remote_mtime then pure tt else download_file ch

  unfoldable pub compare_with_journal : Change → JournalEntry → Go Puller Unit
  compare_with_journal ch journal = do
    same ← adopt_identical_remote ch journal
    if same then pure tt else do
      conflicting ← detect_conflict ch journal
      elim conflicting [ some t ↦ handle_conflict ch t | none ↦ refresh ch journal ]

  unfoldable pub process_file_change : Change → Go Puller Unit
  process_file_change ch = do
    read ← perform (store_get ch.path)
    entry ← lift read
    elim entry [ none ↦ download_file ch | some journal ↦ compare_with_journal ch journal ]

  -- `ch.Object != nil && ch.Object.IsDir`
  unfoldable pub names_dir : Change → Bool
  names_dir ch = elim ch.object [ none ↦ false | some obj ↦ obj.is_dir ]

  unfoldable pub process_change : Change → Go Puller Unit
  process_change ch =
      if ch.deleted
      then process_delete ch
      else if names_dir ch
      then pure tt
      else process_file_change ch
