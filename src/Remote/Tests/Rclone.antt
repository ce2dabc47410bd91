-- ===== src/Remote/Tests/Rclone.antt =====
-- A download, an upload and the construction of a `RcloneFS`, and the theorems at such data.
use home_drive.Base.{◌≡◌, refl, true, Option, none, some, List, [], ◌∷◌}
use home_drive.Base.Text.{Bytes, codes, bytes_eq}
use home_drive.Syncer.Go.{ok}
use home_drive.Remote.Rclone.{
  Object, Refresh, refreshed, rejected, found, Ask, Answer, new_object, delete_object, open_object,
  move_object, upload, copy_stream, close_stream, about, open_local, create_local, mkdir_parent,
  stat_local, close_local, chtimes, set_config_path, build_fs, file_get_value, force_refresh,
  new_service, Task, done, ask, and_then, deferred, guarded, download_file, download_object,
  write_local, fill_local,
}
use home_drive.Remote.Rclone.Start.{
  RcloneFsConfig, failed, client_misconfigured, new_rclone_fs, new_rclone_fs_at, start_remote,
  validate_oauth_credential, read_oauth_config, build_oauth_config, config_value,
  force_oauth_refresh, refresh_error, classify_oauth_refresh_err, client_setup_error_codes,
}
use home_drive.Remote.Rclone.Watched.{Passes}
use home_drive.Remote.Rclone.Careful.{Careful, downloads}
use home_drive.Remote.Rclone.Careful.Performs.{perform-Careful}
use home_drive.Remote.Rclone.Start.Ordered.{starting, Explains, no_progress}
use home_drive.Remote.Rclone.Start.Explained.{new_rclone_fs-Explains}

abbrev file_a : Object
file_a = record {
  remote = codes "a";
  size = 3;
  mod_time = 5;
  id = some (codes "id");
  mime_type = codes "text/plain";
}

-- An rclone that has one object, and answers every call without an error.
abbrev friendly : Object → Refresh → (a : Ask) → Answer a
friendly o r (new_object p) = found o
friendly o r (delete_object x) = none
friendly o r (open_object x) = none
friendly o r (move_object p x) = none
friendly o r (upload p t) = ok o
friendly o r copy_stream = none
friendly o r close_stream = none
friendly o r about = none
friendly o r (open_local p) = none
friendly o r (create_local p) = none
friendly o r (mkdir_parent p) = none
friendly o r stat_local = ok 5
friendly o r close_local = none
friendly o r (chtimes p t) = none
friendly o r (set_config_path p) = none
friendly o r (build_fs p) = ok true
friendly o r (file_get_value name key) = some (codes "x")
friendly o r (force_refresh c) = r
friendly o r (new_service c) = none

-- The calls of a task, and its result.
abbrev trace : {A : Type 0} → ((a : Ask) → Answer a) → Task A → List Ask × A
trace env (done r) = ([], r)
trace env (ask a k) = (a ∷ (trace env (k (env a))).0, (trace env (k (env a))).1)

download_calls : trace (friendly file_a refreshed) (download_file (codes "a") (codes "/r/a")) ≡ (
  new_object (codes "a")
      ∷ open_object file_a
      ∷ mkdir_parent (codes "/r/a")
      ∷ create_local (codes "/r/a")
      ∷ copy_stream
      ∷ close_local
      ∷ chtimes (codes "/r/a") 5
      ∷ close_local
      ∷ close_stream
      ∷ [],
  none,
)
unfolding download_file download_object write_local fill_local guarded deferred bytes_eq
download_calls = refl

perform-Careful_example : Careful (downloads (codes "a") (codes "/r/a"))
perform-Careful_example = perform-Careful (downloads (codes "a") (codes "/r/a"))

abbrev gdrive : RcloneFsConfig
gdrive = record { remote = codes "gdrive:"; config_path = codes "/etc/rclone.conf"; exclude = [] }

-- Of a stored token, the whole text as the refresh token.
abbrev whole : Bytes → Option Bytes
whole = some

-- The endpoint does not know the client.
client_unknown :
    (trace (friendly file_a (rejected (codes "invalid_client"))) (new_rclone_fs whole gdrive)).1
    ≡ failed (client_misconfigured (codes "invalid_client"))
unfolding new_rclone_fs new_rclone_fs_at start_remote validate_oauth_credential read_oauth_config
    build_oauth_config config_value force_oauth_refresh refresh_error classify_oauth_refresh_err
    client_setup_error_codes and_then bytes_eq
client_unknown = refl

new_rclone_fs-Explains_example :
    Passes (starting whole gdrive) Explains no_progress (new_rclone_fs whole gdrive)
new_rclone_fs-Explains_example = new_rclone_fs-Explains whole gdrive
