-- ===== src/Remote/MemFs/Refines.antt =====
-- internal/rcloneclient/memfs.go: the files as a function from paths, which forgets the ids, the
-- checksums, the quota and the order.
use mathlib.Core.Option
use home_drive.Base.{ℕ, Option, none, some, List, [], ◌∷◌, if◌then◌else◌}
use home_drive.Base.Text.{Bytes, bytes_eq}
use home_drive.Base.Time.{Time}
use home_drive.Base.Maps.{Map, lookup}
use home_drive.Syncer.Types.{Error, RemoteObject}
use home_drive.Remote.Changes.{join}
use home_drive.Remote.MemFs.{
  MemFs, copy_file, delete_file, move_file, path_base, not_found_error, already_exists_error,
}

pub record File : Type 0 where
  pub path : Bytes
  pub size : ℕ
  pub mod_time : Time

abbrev pub file_of : RemoteObject → File
file_of o = record { path = o.path; size = o.size; mod_time = o.mod_time }

abbrev pub Files : Type 0
Files = Bytes → Option File

abbrev pub view : Map RemoteObject → Files
view m p = Option.map file_of (lookup p m)

abbrev pub put : Bytes → File → Files → Files
put k f v p = if bytes_eq p k then some f else v p

abbrev pub remove : Bytes → Files → Files
remove k v p = if bytes_eq p k then none else v p

pub data Command : Type 0 where
  copy : Time → Bytes → Bytes → Command
  delete : Bytes → Command
  move : Bytes → Bytes → Command

-- What the interface promises.
abbrev pub promised : Command → Files → Option Error × Files
promised (copy now src dst_dir) v =
    let p = join dst_dir (path_base src) in
    (none, put p (record { path = p; size = 1024; mod_time = now }) v)
promised (delete p) v = elim (v p) [
  | none ↦ (some not_found_error, v)
  | some f ↦ (none, remove p v)
]
promised (move src dst) v = elim (v src) [
  | none ↦ (some not_found_error, v)
  | some f ↦ elim (v dst) [
    | some g ↦ (some already_exists_error, v)
    | none ↦ (none, remove src (put dst (record f { path = dst }) v))
  ]
]

unfoldable pub perform : Command → MemFs → Option Error × MemFs
perform (copy now src dst_dir) m = (none, (copy_file now src dst_dir m).1)
perform (delete p) m = delete_file p m
perform (move src dst) m = move_file src dst m

abbrev seen : Option Error × MemFs → Option Error × Files
seen r = (r.0, view r.1.files)

-- One command after the other, with the errors they return.
unfoldable pub run : List Command → MemFs → List (Option Error) × MemFs
run [] m = ([], m)
run (c ∷ cs) m = let first = perform c m in let rest = run cs first.1 in (first.0 ∷ rest.0, rest.1)

abbrev pub run_promised : List Command → Files → List (Option Error) × Files
run_promised [] v = ([], v)
run_promised (c ∷ cs) v =
    let first = promised c v in let rest = run_promised cs first.1 in (first.0 ∷ rest.0, rest.1)
