-- ===== src/Remote/Rclone/Start.antt =====
-- internal/rcloneclient/rclonefs.go and oauthvalidate.go: the construction of a `RcloneFS`, which
-- forces a refresh of the OAuth token first, and the client of the Changes API of driveapi.go. What
-- JSON reads as the refresh token of a stored token is a parameter.
pub mod Ordered
pub mod Explained
use home_drive.Base.{
  ℕ, Bool, true, false, not, ◌&&◌, ◌||◌, Option, none, some, List, [], ◌∷◌, is_empty, ◌==◌,
  if◌then◌else◌,
}
use home_drive.Base.Text.{Bytes, codes, bytes_eq}
use home_drive.Syncer.Types.{Error}
use home_drive.Syncer.Go.{Result, ok, fail}
use home_drive.Remote.RootId.{any_error}
use home_drive.Remote.Rclone.{
  OauthConfig, Refresh, refreshed, unreachable, rejected, Task, done, ask, set_config_path,
  build_fs, file_get_value, force_refresh, new_service, and_then,
}

pub record RcloneFsConfig : Type 0 where
  pub remote : Bytes
  pub config_path : Bytes
  pub exclude : List Bytes

-- `ready` tells that `fsObj` is set, `changes_svc` that the client of the Changes API is.
pub record RcloneFs : Type 0 where
  pub remote : Bytes
  pub remote_name : Bytes
  pub ready : Bool
  pub exclude : List Bytes
  pub changes_svc : Bool
  pub oauth_checked : Bool
  pub oauth_client_configured : Bool

-- The errors of the construction; `client_misconfigured` and `token_invalid` wrap the sentinels
-- `ErrOAuthClientMisconfigured` and `ErrOAuthTokenInvalid`, with the code of the endpoint.
pub data StartError : Type 0 where
  config_path_refused init_failed : Error → StartError
  remote_required not_drive : StartError
  client_misconfigured token_invalid : Bytes → StartError

pub data Started : Type 0 where
  started : RcloneFs → Started
  failed : StartError → Started

unfoldable pub remote_section_name : Bytes → Bytes
remote_section_name [] = []
remote_section_name (c ∷ s) = let rest = remote_section_name s in if c == b':' then [] else c ∷ rest

unfoldable pub client_setup_error_codes : Bytes → Bool
client_setup_error_codes c =
    bytes_eq c (codes "invalid_client")
    || (bytes_eq c (codes "unauthorized_client")
        || (bytes_eq c (codes "unsupported_grant_type") || bytes_eq c (codes "invalid_scope")))

unfoldable pub classify_oauth_refresh_err : Bytes → StartError
classify_oauth_refresh_err code =
    if client_setup_error_codes code then client_misconfigured code else token_invalid code

unfoldable pub refresh_error : Refresh → Option StartError
refresh_error refreshed = none
refresh_error unreachable = none
refresh_error (rejected code) = some (classify_oauth_refresh_err code)

unfoldable pub force_oauth_refresh : OauthConfig → Task (Option StartError)
force_oauth_refresh c = ask (force_refresh c) (λ r. done (refresh_error r))

-- A value of rclone.conf, "" if it is absent.
unfoldable pub config_value : Option Bytes → Bytes
config_value none = []
config_value (some v) = v

unfoldable pub client_configured : OauthConfig → Bool
client_configured c = not (is_empty c.client_id) && not (is_empty c.client_secret)

unfoldable pub observed : OauthConfig → RcloneFs → RcloneFs
observed c r = record r { oauth_checked = true; oauth_client_configured = client_configured c }

module _ (parse_token : Bytes → Option Bytes) where
  -- `none` is an error.
  unfoldable pub build_oauth_config : Bytes → Bytes → Bytes → Option OauthConfig
  build_oauth_config json id secret = elim (parse_token json) [
    | none ↦ none
    | some t ↦ some (record { client_id = id; client_secret = secret; refresh_token = t })
  ]

  unfoldable pub read_oauth_config : Bytes → Task (Option OauthConfig)
  read_oauth_config name = ask (file_get_value name (codes "token")) (λ t.
      elim (is_empty (config_value t)) [
        | true ↦ done none
        | false ↦ ask (file_get_value name (codes "client_id")) (λ i.
            ask (file_get_value name (codes "client_secret"))
              (λ s. done (build_oauth_config (config_value t) (config_value i) (config_value s))))
      ])

  unfoldable pub validate_oauth_credential : RcloneFs → Task (Option StartError × RcloneFs)
  validate_oauth_credential r = and_then (read_oauth_config r.remote_name) (λ read. elim read [
    | none ↦ done (none, r)
    | some c ↦ elim (is_empty c.refresh_token) [
      | true ↦ done (none, observed c r)
      | false ↦ and_then (force_oauth_refresh c) (λ e. done (e, observed c r))
    ]
  ])

  -- From the validation on.
  unfoldable pub start_remote : RcloneFs → Task Started
  start_remote r = and_then (validate_oauth_credential r) (λ v. elim v.0 [
    | some e ↦ done (failed e)
    | none ↦ ask (build_fs r.remote) (λ b. elim b [
      | fail e ↦ done (failed (init_failed e))
      | ok false ↦ done (failed not_drive)
      | ok true ↦ done (started (record v.1 { ready = true }))
    ])
  ])

  unfoldable pub new_rclone_fs_at : RcloneFsConfig → Task Started
  new_rclone_fs_at cfg = elim (is_empty cfg.remote) [
    | true ↦ done (failed remote_required)
    | false ↦ start_remote (record {
      remote = cfg.remote;
      remote_name = remote_section_name cfg.remote;
      ready = false;
      exclude = cfg.exclude;
      changes_svc = false;
      oauth_checked = false;
      oauth_client_configured = false;
    })
  ]

  unfoldable pub new_rclone_fs : RcloneFsConfig → Task Started
  new_rclone_fs cfg = elim (is_empty cfg.config_path) [
    | true ↦ new_rclone_fs_at cfg
    | false ↦ ask (set_config_path cfg.config_path) (λ r. elim r [
      | some e ↦ done (failed (config_path_refused e))
      | none ↦ new_rclone_fs_at cfg
    ])
  ]

  unfoldable pub oauth_http_client : RcloneFs → Task (Option OauthConfig × RcloneFs)
  oauth_http_client r =
      and_then (read_oauth_config r.remote_name)
        (λ read. elim read [ none ↦ done (none, r) | some c ↦ done (some c, observed c r) ])

  -- With the error.
  unfoldable pub drive_service : RcloneFs → Task (Option Error × RcloneFs)
  drive_service r = elim r.changes_svc [
    | true ↦ done (none, r)
    | false ↦ and_then (oauth_http_client r) (λ c. elim c.0 [
      | none ↦ done (some any_error, c.1)
      | some cfg ↦ ask (new_service cfg) (λ e. elim e [
        | some x ↦ done (some x, c.1)
        | none ↦ done (none, record c.1 { changes_svc = true })
      ])
    ])
  ]
