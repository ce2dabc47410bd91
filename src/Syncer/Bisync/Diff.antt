-- ===== src/Syncer/Bisync/Diff.antt =====
-- The difference of the two sides in internal/syncer/bisync_ops.go.
pub mod Cases
pub mod Drift
use home_drive.Base.{
  Bool, true, false, not, ◌||◌, ◌==◌, Option, none, some, List, [], ◌∷◌, ◌++◌, if◌then◌else◌,
}
use home_drive.Base.Text.{Bytes, bytes_eq}
use home_drive.Syncer.Types.{
  RemoteObject, LocalFileInfo, JournalEntry, WalkEntry, walk_error, walk_dir, walk_file,
  walk_stat_error,
}
use home_drive.Syncer.Go.{
  Go, ctx_err, local_walk, remote_list, store_get, Result, ok, fail, pure, raise, perform, check,
  lift, ◌>>=◌, ◌>>◌,
}
use home_drive.Syncer.Bisync.Defs.{FileDiff, local_only, remote_only, conflicting}
use home_drive.Base.Maps.{Map, lookup, store}

-- Nothing in the journal, or an error of it, compares the two sides directly.
unfoldable pub diverges : Result (Option JournalEntry) → LocalFileInfo → RemoteObject → Bool
diverges (fail e) l r = not (l.mod_time == r.mod_time)
diverges (ok none) l r = not (l.mod_time == r.mod_time)
diverges (ok (some entry)) l r =
    not (l.mod_time == entry.local_mtime)
    || (not (bytes_eq r.md5 entry.remote_md5) || not (r.mod_time == entry.remote_mtime))

-- The map of the files by path: a later one replaces an earlier one.
unfoldable pub local_map : List LocalFileInfo → Map LocalFileInfo → Map LocalFileInfo
local_map [] acc = acc
local_map (l ∷ ls) acc = local_map ls (store l.path l acc)

unfoldable pub remote_map : List RemoteObject → Map RemoteObject → Map RemoteObject
remote_map [] acc = acc
remote_map (r ∷ rs) acc = remote_map rs (store r.path r acc)

unfoldable pub diff_remote_against_local : Map LocalFileInfo → Map RemoteObject → List FileDiff
diff_remote_against_local locals [] = []
diff_remote_against_local locals ((path, r) ∷ rest) =
    let more = diff_remote_against_local locals rest in
    elim (lookup path locals) [ none ↦ remote_only r ∷ more | some _ ↦ more ]

module _ {S : Type 0} where
  -- The callback of `WalkDir` on the entries that are left.
  unfoldable pub walk_entries : List WalkEntry → Go S (List LocalFileInfo)
  walk_entries [] = pure []
  walk_entries (walk_error e ∷ rest) = raise e
  walk_entries (walk_dir ∷ rest) =
      perform ctx_err >>= λ cancelled. check cancelled >> walk_entries rest
  walk_entries (walk_stat_error e ∷ rest) =
      perform ctx_err >>= λ cancelled. check cancelled >> raise e
  walk_entries (walk_file path info ∷ rest) = do
    cancelled ← perform ctx_err
    check cancelled
    files ← walk_entries rest
    pure (record { path = path; size = info.size; mod_time = info.mod_time } ∷ files)

  unfoldable pub walk_local : Go S (List LocalFileInfo)
  walk_local = perform local_walk >>= walk_entries

  unfoldable pub list_remote : Go S (List RemoteObject)
  list_remote = perform (remote_list []) >>= lift

  unfoldable pub diff_local_against_remote :
      Map LocalFileInfo → Map RemoteObject → Go S (List FileDiff)
  diff_local_against_remote [] remotes = pure []
  diff_local_against_remote ((path, l) ∷ rest) remotes = elim (lookup path remotes) [
    | none ↦ diff_local_against_remote rest remotes >>= λ more. pure (local_only l ∷ more)
    | some r ↦ do
      entry ← perform (store_get path)
      more ← diff_local_against_remote rest remotes
      pure (if diverges entry l r then conflicting l r ∷ more else more)
  ]

  unfoldable pub diff : Go S (List FileDiff)
  diff = do
    local_files ← walk_local
    remote_files ← list_remote
    first ← diff_local_against_remote (local_map local_files []) (remote_map remote_files [])
    pure
        (first ++ diff_remote_against_local (local_map local_files []) (remote_map remote_files []))
