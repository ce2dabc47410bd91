-- ===== src/Syncer/Types.antt =====
-- The data of internal/syncer/ifaces.go and types.go, internal/rcloneclient/remotefs.go and
-- internal/store/journal.go. Of an error only the sentinels that `errors.Is` finds in it are kept;
-- `fmt.Errorf` with `%w` passes them on.
use home_drive.Base.{ℕ, Bool, false, ◌||◌, Option, List, [], ◌∷◌, ◌==◌}
use home_drive.Base.Text.{Bytes}
use home_drive.Base.Time.{Time}

pub data Sentinel : Type 0 where
  gone token_rejected not_found is_dir_err oauth_client_missing dangling_shortcut : Sentinel
  retries_exhausted canceled : Sentinel

abbrev rank : Sentinel → ℕ
rank gone = 0
rank token_rejected = 1
rank not_found = 2
rank is_dir_err = 3
rank oauth_client_missing = 4
rank dangling_shortcut = 5
rank retries_exhausted = 6
rank canceled = 7

pub record Error : Type 0 where
  pub wraps : List Sentinel

abbrev is_among : List Sentinel → Sentinel → Bool
is_among [] s = false
is_among (x ∷ xs) s = rank x == rank s || is_among xs s

-- `errors.Is(err, s)`
abbrev pub is_err : Error → Sentinel → Bool
is_err e s = is_among e.wraps s

-- Without the mark of an object that a dry run made up, which no code of the sync reads, and
-- without the size -1 of an object whose size is not known.
pub record RemoteObject : Type 0 where
  pub path : Bytes
  pub size : ℕ
  pub mod_time : Time
  pub md5 : Bytes
  pub remote_id : Bytes
  pub is_dir : Bool

pub record Change : Type 0 where
  pub path : Bytes
  pub deleted : Bool
  pub object : Option RemoteObject

pub record Changes : Type 0 where
  pub items : List Change
  pub next_page_token : Bytes

pub data Origin : Type 0 where
  local remote : Origin

pub record JournalEntry : Type 0 where
  pub path : Bytes
  pub local_mtime : Time
  pub remote_mtime : Time
  pub remote_md5 : Bytes
  pub remote_id : Bytes
  pub last_synced_at : Time
  pub last_origin : Origin

pub record FileInfo : Type 0 where
  pub is_dir : Bool
  pub mod_time : Time
  pub size : ℕ

-- What `os.Stat` and `os.Lstat` report; `missing` is an error for which `os.IsNotExist` holds.
pub data Stat : Type 0 where
  found : FileInfo → Stat
  missing : Stat
  unreadable : Error → Stat

-- What `os.Remove` reports.
pub data Removal : Type 0 where
  removed absent : Removal
  refused : Error → Removal

-- The operations of internal/syncer/ifaces.go on a file.
pub data Op : Type 0 where
  create write remove rename : Op

-- The operation of an audit line, for a renamed directory with its `From` and `To`.
pub data AuditOp : Type 0 where
  pull pull_delete conflict conflict_gc : AuditOp
  push : Op → AuditOp
  dir_rename : Bytes → Bytes → AuditOp
  conflict_repair : Bytes → AuditOp

-- An audit line, without its time stamp and duration.
pub record AuditEntry : Type 0 where
  pub op : AuditOp
  pub path : Bytes
  pub dry_run : Bool
  pub failed : Bool

pub record LocalFileInfo : Type 0 where
  pub path : Bytes
  pub size : ℕ
  pub mod_time : Time

-- What `filepath.WalkDir` hands to its callback: an error, a directory, or a file with the answer
-- of its `Info`.
pub data WalkEntry : Type 0 where
  walk_error : Error → WalkEntry
  walk_dir : WalkEntry
  walk_file : Bytes → FileInfo → WalkEntry
  walk_stat_error : Error → WalkEntry

-- The line of a bisync pass in the audit log, without its time stamp and duration.
pub record BisyncLine : Type 0 where
  pub files_pushed : ℕ
  pub files_pulled : ℕ
  pub conflicts : ℕ
  pub dry_run : Bool
  pub failed : Bool

pub data Event : Type 0 where
  pull_success : Bytes → ℕ → Event
  pull_failure : Bytes → Error → Event
  pull_reset : Bool → Event
  conflict_detected : Bytes → Event
  conflict_resolved : Bytes → Bytes → Event
  conflict_pruned : Bytes → Bytes → Bool → Event
  push_success push_failure : Op → Bytes → Event
  rename_success rename_failure : Bytes → Bytes → Event
  bisync_started : Bool → Event
  bisync_completed : ℕ → ℕ → Bool → Bool → Event
