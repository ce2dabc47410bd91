-- ===== src/Remote/Fs.antt =====
-- internal/rcloneclient/remotefs.go: the interface `RemoteFS`, on the state of what implements it.
use home_drive.Base.{Option, List}
use home_drive.Base.Text.{Bytes}
use home_drive.Syncer.Types.{Error, RemoteObject, Changes}
use home_drive.Syncer.Go.{Result}
use home_drive.Quota.{QuotaInfo}

-- An `error` is `some`. Of `list_changes`, `none` is a panic.
pub record RemoteFs (S : Type 0) : Type 0 where
  pub copy_file : Bytes → Bytes → S → Result RemoteObject × S
  pub delete_file : Bytes → S → Option Error × S
  pub move_file : Bytes → Bytes → S → Option Error × S
  pub stat : Bytes → S → Result RemoteObject × S
  pub list : Bytes → S → Result (List RemoteObject) × S
  pub list_changes : Bytes → S → Option (Result Changes × S)
  pub get_start_page_token : S → Result Bytes × S
  pub download_file : Bytes → Bytes → S → Option Error × S
  pub quota : S → Result QuotaInfo × S
