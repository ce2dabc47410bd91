-- ===== src/Agent.antt =====
-- cmd/homedrive/agent_run.go, agent_control.go and adapters.go: the state of the agent, and how it
-- hands the events of the watcher to the push workers.
pub mod Control
pub mod Pump
pub mod Build
pub mod Ctl
mod Tests
use home_drive.Base.{
  ◌-◌, ◌%◌, ◌^◌, ◌&&◌, leb, ℕ, zero, suc, ◌+◌, ◌*◌, Bool, true, false, not, ◌||◌, Option, none,
  some, List, [], ◌∷◌, ◌++◌, is_empty, length, ltb, if◌then◌else◌,
}
use home_drive.Base.Int.{ℤ, pos, negsuc}
use home_drive.Base.Text.{Bytes, bytes_eq, has_prefix, codes}
use home_drive.Base.Time.{Time}
use home_drive.Watcher.Debouncer as Debouncer
use home_drive.Watcher.Debouncer.{op_create, op_write, op_remove, op_rename, op_dir_rename}
use home_drive.Watcher.Pairer as Pairer
use home_drive.Watcher.Loop.{WatchEvent, file_event, dir_renamed}
use home_drive.Syncer.Types.{Op, create, write, remove, rename}
use home_drive.Syncer.Push.{FileEvent, DirRename}

pub data LogLevel : Type 0 where
  debug info warn error : LogLevel

-- The fields that change after the construction, with those of the configuration that are read
-- then. An instant is 0 where there is none yet; `log_level` is `none` for a nil `LevelVar`.
pub record Agent : Type 0 where
  pub local_root : Bytes
  pub version : Bytes
  pub capacity : ℕ
  pub log_level : Option LogLevel
  pub paused : Bool
  pub reloaded_dry_run : Bool
  pub start_time : Time
  pub last_push : Time
  pub last_pull : Time
  pub push_events : List FileEvent
  pub push_renames : List DirRename

-- `workers*4 + 4` in an int64, as a number below 2^64; -(n + 1) is `negsuc n`.
unfoldable pub capacity_bits : ℤ → ℕ
capacity_bits (pos n) = (n * 4 + 4) % 2 ^ 64
capacity_bits (negsuc n) = (2 ^ 64 - n * 4 % 2 ^ 64) % 2 ^ 64

-- The capacity of the two channels; `none` is the panic of `make` for a size that is negative, or
-- above the limit that the runtime has for them.
unfoldable pub channel_capacity : ℕ → ℤ → Option ℕ
channel_capacity limit workers =
    if ltb (capacity_bits workers) (2 ^ 63) && leb (capacity_bits workers) limit
    then some (capacity_bits workers)
    else none

unfoldable pub to_syncer_op : Debouncer.Op → Op
to_syncer_op op_create = create
to_syncer_op op_write = write
to_syncer_op op_remove = remove
to_syncer_op op_rename = rename
to_syncer_op op_dir_rename = write

unfoldable pub below_root : Bytes → Option Bytes → Bytes
below_root p none = p
below_root p (some q) =
    if bytes_eq q (codes "..") then p else if has_prefix q (codes "../") then p else q

-- `rel` is `filepath.Rel`, whose error is `none`; an absolute path begins with a slash.
module _ (rel : Bytes → Bytes → Option Bytes) where
  unfoldable pub rel_to_root : Bytes → Bytes → Bytes
  rel_to_root root p =
      if is_empty root
      then p
      else if not (has_prefix p (codes "/"))
      then p
      else below_root p (rel root p)

  abbrev pub pushed_event : Bytes → Debouncer.Event → FileEvent
  pushed_event root e = record { path = rel_to_root root e.path; op = to_syncer_op e.op }

  abbrev pub pushed_rename : Bytes → Pairer.DirRename → DirRename
  pushed_rename root d = record { from = rel_to_root root d.from; to = rel_to_root root d.to }

  -- A send that ends by `ctx.Done` changes nothing. `none` is a send that waits for room. The send
  -- to a channel of capacity 0 is not modelled.
  unfoldable pub dispatch_event : Bool → Time → Debouncer.Event → Agent → Option Agent
  dispatch_event canceled now e a =
      if canceled
      then some a
      else if ltb (length a.push_events) a.capacity
      then some (record a {
        push_events = a.push_events ++ pushed_event a.local_root e ∷ [];
        last_push = now;
      })
      else none

  unfoldable pub dispatch_rename : Bool → Time → Pairer.DirRename → Agent → Option Agent
  dispatch_rename canceled now d a =
      if canceled
      then some a
      else if ltb (length a.push_renames) a.capacity
      then some (record a {
        push_renames = a.push_renames ++ pushed_rename a.local_root d ∷ [];
        last_push = now;
      })
      else none

  unfoldable pub forward : Bool → Time → WatchEvent → Agent → Option Agent
  forward canceled now (dir_renamed d) a = dispatch_rename canceled now d a
  forward canceled now (file_event e) a = dispatch_event canceled now e a

  unfoldable pub dispatch_watch_event : Bool → Time → WatchEvent → Agent → Option Agent
  dispatch_watch_event canceled now we a = if a.paused then some a else forward canceled now we a
