-- ===== src/Remote/Rclone/Start/Explained.antt =====
-- The construction of a `RcloneFS` explains itself.
use home_drive.Base.{
  ◌≡◌, refl, ap, ◌∙◌, if◌then◌else◌, Bool, true, false, Option, none, some, is_empty,
}
use home_drive.Base.Text.{Bytes}
use home_drive.Syncer.Types.{Error}
use home_drive.Syncer.Go.{Result, ok, fail}
use home_drive.Remote.Rclone.{
  OauthConfig, Refresh, refreshed, unreachable, rejected, done, ask, set_config_path, build_fs,
  and_then,
}
use home_drive.Remote.Rclone.Start.{
  RcloneFsConfig, RcloneFs, StartError, config_path_refused, init_failed, remote_required,
  not_drive, client_misconfigured, token_invalid, started, failed, remote_section_name,
  client_setup_error_codes, classify_oauth_refresh_err, refresh_error, force_oauth_refresh,
  observed, validate_oauth_credential, start_remote, new_rclone_fs_at, new_rclone_fs,
}
use home_drive.Remote.Rclone.Watched.{Passes, Passes-and_then}
use home_drive.Remote.Rclone.Start.Ordered.{
  asked, is_accepted, Progress, no_progress, progress, starting, Explains, ReadAs, refreshable_as,
  read_oauth_config-ReadAs,
}

module _ (parse_token : Bytes → Option Bytes) (cfg : RcloneFsConfig) where
  -- What a validation tells of the token.
  abbrev Unrefused : Progress → Option StartError × RcloneFs → Type 0
  Unrefused s (none, r) = (is_accepted s.verdict ≡ true) × (s.built ≡ false)
  Unrefused s (some e, r) = Explains s (failed e)

  classified :
      (code : Bytes) (b : Bool) (s : Progress)
      → client_setup_error_codes code ≡ b
      → s.verdict ≡ asked (rejected code)
      → s.built ≡ false
      → Explains s (failed (if b then client_misconfigured code else token_invalid code))
  classified code true s e h k = (h, (e, k))
  classified code false s e h k = (h, (e, k))

  refresh-Unrefused :
      (s : Progress) (r : RcloneFs) (x : Refresh)
      → s.verdict ≡ asked x
      → s.built ≡ false
      → Unrefused s (refresh_error x, r)
  unfolding refresh_error classify_oauth_refresh_err
  refresh-Unrefused s r refreshed h k = (ap is_accepted h, k)
  refresh-Unrefused s r unreachable h k = (ap is_accepted h, k)
  refresh-Unrefused s r (rejected code) h k = classified code _ s refl h k

  token-Unrefused :
      (s : Progress) (r : RcloneFs) (c : OauthConfig) (b : Bool)
      → is_empty c.refresh_token ≡ b
      → ReadAs s (some c)
      → Passes (starting parse_token cfg) Unrefused s (elim b [
        | true ↦ done (none, observed c r)
        | false ↦ and_then (force_oauth_refresh c) (λ e. done (e, observed c r))
      ])
  unfolding and_then force_oauth_refresh
  token-Unrefused s r c true e h = (ap is_accepted (h.1 ∙ refreshable_as c e), h.0)
  token-Unrefused s r c false e h = (
    h.1 ∙ refreshable_as c e,
    λ x. refresh-Unrefused (record s { verdict = asked x }) (observed c r) x refl h.0,
  )

  config-Unrefused :
      (r : RcloneFs) (s : Progress) (c : Option OauthConfig)
      → ReadAs s c
      → Passes (starting parse_token cfg) Unrefused s (elim c [
        | none ↦ done (none, r)
        | some c ↦ elim (is_empty c.refresh_token) [
          | true ↦ done (none, observed c r)
          | false ↦ and_then (force_oauth_refresh c) (λ e. done (e, observed c r))
        ]
      ])
  config-Unrefused r s none h = (ap is_accepted h.1, h.0)
  config-Unrefused r s (some c) h = token-Unrefused s r c _ refl h

  built_fs :
      (s : Progress) (r : RcloneFs) (b : Result Bool)
      → is_accepted s.verdict ≡ true
      → s.built ≡ false
      → Passes
          (starting parse_token cfg)
          Explains
          (progress parse_token s (build_fs cfg.remote) b)
          (elim b [
            | fail e ↦ done (failed (init_failed e))
            | ok false ↦ done (failed not_drive)
            | ok true ↦ done (started (record r { ready = true }))
          ])
  built_fs s r (fail e) h k = k
  built_fs s r (ok false) h k = refl
  built_fs s r (ok true) h k = (refl, (refl, h))

  start-Explains :
      (s : Progress) (v : Option StartError × RcloneFs)
      → Unrefused s v
      → Passes (starting parse_token cfg) Explains s (elim v.0 [
        | some e ↦ done (failed e)
        | none ↦ ask (build_fs cfg.remote) (λ b. elim b [
          | fail e ↦ done (failed (init_failed e))
          | ok false ↦ done (failed not_drive)
          | ok true ↦ done (started (record v.1 { ready = true }))
        ])
      ])
  start-Explains s (some e, r) h = h
  start-Explains s (none, r) h = ((refl, h.0), λ b. built_fs s r b h.0 h.1)

  remote-Explains :
      (b : Bool)
      → Passes (starting parse_token cfg) Explains no_progress (elim b [
        | true ↦ done (failed remote_required)
        | false ↦ start_remote parse_token (record {
          remote = cfg.remote;
          remote_name = remote_section_name cfg.remote;
          ready = false;
          exclude = cfg.exclude;
          changes_svc = false;
          oauth_checked = false;
          oauth_client_configured = false;
        })
      ])
  unfolding start_remote validate_oauth_credential
  remote-Explains true = refl
  remote-Explains false =
      Passes-and_then _ Unrefused Explains _ _ no_progress
        (Passes-and_then _ ReadAs Unrefused _ _ no_progress
          (read_oauth_config-ReadAs parse_token cfg) (config-Unrefused _))
        start-Explains

  path_set-Explains :
      (r : Option Error)
      → Passes (starting parse_token cfg) Explains no_progress (elim r [
        | some e ↦ done (failed (config_path_refused e))
        | none ↦ new_rclone_fs_at parse_token cfg
      ])
  unfolding new_rclone_fs_at
  path_set-Explains none = remote-Explains _
  path_set-Explains (some e) = refl

  path-Explains :
      (b : Bool)
      → Passes (starting parse_token cfg) Explains no_progress (elim b [
        | true ↦ new_rclone_fs_at parse_token cfg
        | false ↦ ask (set_config_path cfg.config_path) (λ r. elim r [
          | some e ↦ done (failed (config_path_refused e))
          | none ↦ new_rclone_fs_at parse_token cfg
        ])
      ])
  unfolding new_rclone_fs_at
  path-Explains true = remote-Explains _
  path-Explains false = (refl, path_set-Explains)

  -- Whatever the answers, the construction sets no other path of rclone.conf than the configured one,
  -- reads the values of the section of the remote, and asks for a refresh only if the
  -- token that it read has a refresh token. It builds the remote only after the token was read, and
  -- if it has a refresh token only after the refresh was asked for and not rejected. If the
  -- construction succeeds, the remote was built and is of Drive. It fails for a misconfigured client,
  -- or for an invalid token, only if the endpoint rejected the refresh with a code that is, or is not,
  -- one of the client's setup, and then, as in every failure, there is no remote of Drive.
  pub new_rclone_fs-Explains :
      Passes (starting parse_token cfg) Explains no_progress (new_rclone_fs parse_token cfg)
  unfolding new_rclone_fs
  new_rclone_fs-Explains = path-Explains _
