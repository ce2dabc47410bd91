-- ===== src/Remote/Rclone.antt =====
-- internal/rcloneclient/rclonefs.go: the operations of `RcloneFS` on files, and its construction
-- with oauthvalidate.go. What rclone, the OAuth endpoint and the local disk are asked is a tree with
-- a branch for every answer. The listing and the changes are in Remote/Walk.

pub mod Start
pub mod Watched
pub mod Careful
use home_drive.Base.{ℕ, Bool, true, false, Option, none, some, List, [], ◌∷◌, if◌then◌else◌}
use home_drive.Base.Int.{ℤ, pos, negsuc}
use home_drive.Base.Text.{Bytes, codes, bytes_eq}
use home_drive.Base.Time.{Time}
use home_drive.Syncer.Types.{Error, RemoteObject, not_found, is_dir_err, dangling_shortcut}
use home_drive.Syncer.Go.{Result, ok, fail}
use home_drive.Quota.{QuotaInfo}
use home_drive.Remote.Changes.{join}
use home_drive.Remote.MemFs.{path_base}
use home_drive.Remote.RootId.{any_error}

-- An object of rclone; without an id it is no `IDer`.
pub record Object : Type 0 where
  pub remote : Bytes
  pub size : ℕ
  pub mod_time : Time
  pub id : Option Bytes
  pub mime_type : Bytes

-- What `NewObject` returns: `object_absent` is `ErrorObjectNotFound`, `names_folder` is `ErrorIsDir`.
pub data Lookup : Type 0 where
  found : Object → Lookup
  object_absent names_folder : Lookup
  lookup_failed : Error → Lookup

-- A nil pointer is `none`.
pub record Usage : Type 0 where
  pub used : Option ℤ
  pub total : Option ℤ

-- What `buildOAuthConfig` makes of a section of rclone.conf; of the stored token it is the refresh
-- token.
pub record OauthConfig : Type 0 where
  pub client_id : Bytes
  pub client_secret : Bytes
  pub refresh_token : Bytes

-- What a forced refresh returns: `rejected` has the code of a `RetrieveError`.
pub data Refresh : Type 0 where
  refreshed unreachable : Refresh
  rejected : Bytes → Refresh

-- `upload` is `operations.Rcat`, which closes the file that is open.
pub data Ask : Type 0 where
  new_object : Bytes → Ask
  delete_object open_object : Object → Ask
  move_object : Bytes → Object → Ask
  upload : Bytes → Time → Ask
  copy_stream close_stream about : Ask
  open_local create_local mkdir_parent : Bytes → Ask
  stat_local close_local : Ask
  chtimes : Bytes → Time → Ask
  set_config_path build_fs : Bytes → Ask
  file_get_value : Bytes → Bytes → Ask
  force_refresh new_service : OauthConfig → Ask

-- `about` is `none` for an Fs that is no `Abouter`; `build_fs` tells whether the Fs is of Drive.
abbrev pub Answer : Ask → Type 0
Answer (new_object p) = Lookup
Answer (delete_object o) = Option Error
Answer (open_object o) = Option Error
Answer (move_object p o) = Option Error
Answer (upload p t) = Result Object
Answer copy_stream = Option Error
Answer close_stream = Option Error
Answer about = Option (Result Usage)
Answer (open_local p) = Option Error
Answer (create_local p) = Option Error
Answer (mkdir_parent p) = Option Error
Answer stat_local = Result Time
Answer close_local = Option Error
Answer (chtimes p t) = Option Error
Answer (set_config_path p) = Option Error
Answer (build_fs p) = Result Bool
Answer (file_get_value name key) = Option Bytes
Answer (force_refresh c) = Refresh
Answer (new_service c) = Option Error

pub data Task (A : Type 0) : Type 0 where
  done : A → Task A
  ask : (a : Ask) → (Answer a → Task A) → Task A

unfoldable pub and_then : {A B : Type 0} → Task A → (A → Task B) → Task B
and_then (done a) f = f a
and_then (ask a k) f = ask a (λ x. and_then (k x) f)

-- A `defer` of a call whose error is dropped.
unfoldable pub deferred : {A : Type 0} → Task A → (a : Ask) → Task A
deferred (done r) c = ask c (λ _. done r)
deferred (ask a k) c = ask a (λ x. deferred (k x) c)

-- `if err != nil { return err }`
unfoldable pub guarded : Option Error → Task (Option Error) → Task (Option Error)
guarded none t = t
guarded (some e) t = done (some e)

unfoldable pub remote_id_of : Option Bytes → Bytes
remote_id_of none = []
remote_id_of (some id) = id

unfoldable pub remote_object_from_rclone : Object → RemoteObject
unfolding remote_id_of
remote_object_from_rclone o = record {
  path = o.remote;
  size = o.size;
  mod_time = o.mod_time;
  md5 = [];
  remote_id = remote_id_of o.id;
  is_dir = false;
}

unfoldable pub copied_object : Result Object → Result RemoteObject
copied_object (fail e) = fail e
copied_object (ok o) = ok (remote_object_from_rclone o)

unfoldable pub copy_file : Bytes → Bytes → Task (Result RemoteObject)
copy_file src dst_dir = ask (open_local src) (λ r. elim r [
  | some e ↦ done (fail e)
  | none ↦ ask stat_local (λ i. elim i [
    | fail e ↦ ask close_local (λ _. done (fail e))
    | ok t ↦ ask (upload (join dst_dir (path_base src)) t) (λ o. done (copied_object o))
  ])
])

-- An error of rclone wraps no sentinel of this package.
unfoldable pub delete_file : Bytes → Task (Option Error)
delete_file p = ask (new_object p) (λ l. elim l [
  | found o ↦ ask (delete_object o) (λ r. done r)
  | object_absent ↦ done (some (record { wraps = not_found ∷ [] }))
  | names_folder ↦ done (some (record { wraps = is_dir_err ∷ [] }))
  | lookup_failed e ↦ done (some e)
])

unfoldable pub move_file : Bytes → Bytes → Task (Option Error)
move_file src dst = ask (new_object src) (λ l. elim l [
  | found o ↦ ask (move_object dst o) (λ r. done r)
  | object_absent ↦ done (some any_error)
  | names_folder ↦ done (some any_error)
  | lookup_failed e ↦ done (some e)
])

unfoldable pub stat : Bytes → Task (Result RemoteObject)
stat p = ask (new_object p) (λ l. elim l [
  | found o ↦ done (ok (remote_object_from_rclone o))
  | object_absent ↦ done (fail any_error)
  | names_folder ↦ done (fail any_error)
  | lookup_failed e ↦ done (fail e)
])

abbrev pub dangling_shortcut_mime_type : Bytes
dangling_shortcut_mime_type = codes "application/vnd.google-apps.shortcut.dangling"

-- From `io.Copy` on.
unfoldable pub fill_local : Object → Bytes → Task (Option Error)
fill_local o q = ask copy_stream (λ r.
    guarded r (ask close_local (λ c. guarded c (ask (chtimes q o.mod_time) (λ _. done none)))))

unfoldable pub write_local : Object → Bytes → Task (Option Error)
write_local o q =
    ask (mkdir_parent q) (λ r.
      guarded r (ask (create_local q) (λ f. guarded f (deferred (fill_local o q) close_local))))

unfoldable pub download_object : Object → Bytes → Task (Option Error)
download_object o q =
    if bytes_eq o.mime_type dangling_shortcut_mime_type
    then done (some (record { wraps = dangling_shortcut ∷ [] }))
    else ask (open_object o) (λ r. guarded r (deferred (write_local o q) close_stream))

unfoldable pub download_file : Bytes → Bytes → Task (Option Error)
download_file p q = ask (new_object p) (λ l. elim l [
  | found o ↦ download_object o q
  | object_absent ↦ done (some any_error)
  | names_folder ↦ done (some any_error)
  | lookup_failed e ↦ done (some e)
])

unfoldable pub pointed : ℤ → Option ℤ → ℤ
pointed default none = default
pointed default (some n) = n

unfoldable pub quota_of : Usage → QuotaInfo
quota_of u = record { used = pointed (pos 0) u.used; total = pointed (negsuc 0) u.total }

unfoldable pub quota : Task (Result QuotaInfo)
quota = ask about (λ r. elim r [
  | none ↦ done (fail any_error)
  | some (fail e) ↦ done (fail e)
  | some (ok u) ↦ done (ok (quota_of u))
])
