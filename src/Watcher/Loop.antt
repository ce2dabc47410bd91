-- ===== src/Watcher/Loop.antt =====
-- internal/watcher/watcher.go: one input of the loop after the other, with filter.go and
-- internal/pathfilter/pathfilter.go. The inputs come in one order; the locks of the parts and the
-- channel keep their effects apart.
use home_drive.Base.{
  ℕ, Bool, true, false, not, ◌&&◌, ◌||◌, ◌==◌, Option, none, some, List, [], ◌∷◌, ◌++◌, length, ltb,
  if◌then◌else◌,
}
use home_drive.Base.Text.{Bytes, has_prefix, has_suffix, trim_suffix, codes}
use home_drive.Base.Time.{Time, within_second}
use home_drive.Base.{drop}
use home_drive.Watcher.Debouncer.{
  Op, op_create, op_write, op_remove, op_rename, Event, Debouncer, add, suppress, suppress_prefix,
  is_create, is_write,
}
use home_drive.Watcher.Pairer.{
  Pairer, DirRename, Outcome, passed, consumed, paired, below, track_dir, untrack_dir,
  is_suppressed, handle_rename, handle_create,
}

pub record SyncRecord : Type 0 where
  pub local_mtime : Time
  pub size : ℕ

pub record FileInfo : Type 0 where
  pub mod_time : Time
  pub size : ℕ

pub data WatchEvent : Type 0 where
  file_event : Event → WatchEvent
  dir_renamed : DirRename → WatchEvent

-- An event of fsnotify, with the operations it has.
pub record FsEvent : Type 0 where
  pub name : Bytes
  pub has_create : Bool
  pub has_write : Bool
  pub has_remove : Bool
  pub has_rename : Bool

-- What `filepath.WalkDir` meets below a directory: a directory with what is in it, or a file with
-- whether it is regular and the time at which its turn comes. An entry with an error is left out.
mutual
  pub data Node : Type 0 where
    dir : Bytes → Forest → Node
    file : Bytes → Bool → Time → Node

  pub data Forest : Type 0 where
    leaf : Forest
    branch : Node → Forest → Forest

-- The answers of the outside during one input: the clock at the check of the suppression, at the
-- event and at a pair, `os.Stat` of the pairer, of the loop and of the guard, the sync records,
-- whether a watch is added, and what lies below a directory.
pub record World : Type 0 where
  pub checked_at : Time
  pub now : Time
  pub paired_at : Time
  pub pair_is_dir : Bool
  pub is_dir : Bool
  pub stat : Bytes → Option FileInfo
  pub sync_record : Bytes → Option SyncRecord
  pub watch_added : Bytes → Bool
  pub tree : Bytes → Forest

pub record Watcher : Type 0 where
  pub debouncer : Debouncer
  pub pairer : Pairer
  pub events : List WatchEvent

abbrev pub capacity : ℕ
capacity = 1024

-- `Excluded` of pathfilter.go, with `doublestar.Match`; an error of it is no match.
module _ (matches : Bytes → Bytes → Bool) where
  unfoldable pub excluded_by : Bytes → Bytes → Bool
  excluded_by pattern rel =
      if matches pattern rel
      then true
      else if matches pattern (rel ++ b'/' ∷ [])
      then true
      else if has_suffix pattern (codes "/**")
      then matches (trim_suffix pattern (codes "/**")) rel
      else false

  unfoldable pub any_excludes : List Bytes → Bytes → Bool
  any_excludes [] rel = false
  any_excludes (p ∷ ps) rel = if excluded_by p rel then true else any_excludes ps rel

  unfoldable pub excluded_path : List Bytes → Bytes → Bool
  excluded_path patterns rel =
      any_excludes patterns (if has_prefix rel (b'/' ∷ []) then drop 1 rel else rel)

-- A send that does not block: an event that does not fit is dropped.
unfoldable pub send : WatchEvent → Watcher → Watcher
send e w = if ltb (length w.events) capacity then record w { events = w.events ++ e ∷ [] } else w

-- The pairer's dirs below a prefix.
unfoldable pub dirs_below : Bytes → List Bytes → List Bytes
dirs_below prefix [] = []
dirs_below prefix (d ∷ ds) =
    let more = dirs_below prefix ds in
    if ltb (length prefix) (length d) && has_prefix d prefix then d ∷ more else more

unfoldable pub untrack_all : List Bytes → Pairer → Pairer
untrack_all [] p = p
untrack_all (d ∷ ds) p = untrack_all ds (untrack_dir d p)

unfoldable pub remove_subtree_watches : Bytes → Pairer → Pairer
remove_subtree_watches root p =
    let rest = untrack_dir root p in untrack_all (dirs_below (below root) rest.watched_dirs) rest

-- The filter of the paths, the window of the pairer, and whether there is a sync store.
module _ (excluded : Bytes → Bool) (window : ℕ) (has_store : Bool) where
  module _ (o : World) where
    unfoldable pub add_watch : Bytes → Pairer → Pairer
    add_watch p s = if o.watch_added p then track_dir p s else s

    unfoldable pub is_self_induced : Bytes → Bool
    is_self_induced p = elim (o.sync_record p) [
      | none ↦ false
      | some rec ↦ elim (o.stat p) [
        | none ↦ false
        | some info ↦ within_second info.mod_time rec.local_mtime && (info.size == rec.size)
      ]
    ]

    unfoldable pub suppress_self_induced : Bytes → Op → Bool
    suppress_self_induced p op =
        if not has_store || (not (is_write op) && not (is_create op))
        then false
        else is_self_induced p

    unfoldable pub debounce_path : Bytes → Op → Time → Watcher → Watcher
    debounce_path p op at w =
        if suppress_self_induced p op
        then w
        else record w { debouncer = add (record { path = p; op = op; at = at }) w.debouncer }

    unfoldable pub fire_event : Event → Watcher → Watcher
    fire_event ev w = if suppress_self_induced ev.path ev.op then w else send (file_event ev) w

    unfoldable mutual
      pub walk_node : Bool → Node → Watcher → Watcher
      walk_node emit (dir p below_p) w =
          if excluded p
          then w
          else walk_new_dir emit below_p (record w { pairer = add_watch p w.pairer })
      walk_node emit (file p regular at) w =
          if emit && (regular && not (excluded p)) then debounce_path p op_create at w else w

      pub walk_new_dir : Bool → Forest → Watcher → Watcher
      walk_new_dir emit leaf w = w
      walk_new_dir emit (branch n ns) w = walk_new_dir emit ns (walk_node emit n w)

    unfoldable pub on_dir_rename_paired : DirRename → Watcher → Watcher
    on_dir_rename_paired dr w =
        let rewatched = add_watch dr.to (remove_subtree_watches dr.from w.pairer) in
        let walked = walk_new_dir false (o.tree dr.to) (record w { pairer = rewatched }) in
        let quiet =
          suppress_prefix (below dr.to)
            (suppress_prefix (below dr.from) (suppress dr.to walked.debouncer)) in
        send (dir_renamed dr) (record walked { debouncer = quiet })

    unfoldable pub answer : Pairer × Outcome → (Watcher → Watcher) → Watcher → Watcher
    answer (p, passed) otherwise w = otherwise (record w { pairer = p })
    answer (p, consumed) otherwise w = record w { pairer = p }
    answer (p, paired dr) otherwise w = on_dir_rename_paired dr (record w { pairer = p })

    unfoldable pub new_path : Bytes → Watcher → Watcher
    new_path p w = debounce_path p op_create o.now (
        if o.is_dir
        then walk_new_dir true (o.tree p) (record w { pairer = add_watch p w.pairer })
        else w)

    -- What `handleFSEvent` does with an event that is neither excluded nor suppressed.
    unfoldable pub dispatch : FsEvent → Watcher → Watcher
    dispatch ev w =
        if ev.has_rename
        then answer (handle_rename window ev.name o.now o.paired_at w.pairer)
            (debounce_path ev.name op_rename o.now) w
        else if ev.has_create
        then answer (handle_create window ev.name o.pair_is_dir o.now o.paired_at w.pairer)
            (new_path ev.name) w
        else if ev.has_write
        then debounce_path ev.name op_write o.now w
        else if ev.has_remove
        then debounce_path ev.name op_remove o.now
            (record w { pairer = untrack_dir ev.name w.pairer })
        else w

    unfoldable pub handle_fs_event : FsEvent → Watcher → Watcher
    handle_fs_event ev w =
        let r = is_suppressed ev.name o.checked_at w.pairer in
        let w' : Watcher = record w { pairer = r.0 } in
        if excluded ev.name then w else if r.1 then w' else dispatch ev w'
