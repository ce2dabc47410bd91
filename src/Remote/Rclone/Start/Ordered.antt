-- ===== src/Remote/Rclone/Start/Ordered.antt =====
-- What is known while a `RcloneFS` is constructed: a remote is built only when the endpoint has not
-- refused its OAuth token.
use home_drive.Base.{
  ◌≡◌, refl, ap, ◌∙◌, if◌then◌else◌, Bool, true, false, Option, none, some, is_empty,
}
use home_drive.Base.Text.{Bytes, codes, bytes_eq}
use home_drive.Syncer.Go.{ok}
use home_drive.Remote.Rclone.{
  OauthConfig, Refresh, refreshed, unreachable, rejected, Ask, Answer, done, ask, set_config_path,
  build_fs, file_get_value, force_refresh,
}
use home_drive.Remote.Rclone.Start.{
  RcloneFsConfig, client_misconfigured, token_invalid, Started, started, failed,
  remote_section_name, client_setup_error_codes, config_value, build_oauth_config,
  read_oauth_config,
}
use home_drive.Remote.Rclone.Watched.{Observer, Passes}

-- What is known of the token: not read, read and of no use for a refresh, read with a refresh token,
-- or sent to the endpoint.
pub data Verdict : Type 0 where
  unread not_refreshable refreshable : Verdict
  asked : Refresh → Verdict

abbrev pub is_accepted : Verdict → Bool
is_accepted unread = false
is_accepted not_refreshable = true
is_accepted refreshable = false
is_accepted (asked refreshed) = true
is_accepted (asked unreachable) = true
is_accepted (asked (rejected code)) = false

pub record Progress : Type 0 where
  pub verdict : Verdict
  pub built : Bool

abbrev pub no_progress : Progress
no_progress = record { verdict = unread; built = false }

abbrev pub of_refresh_token : Option Bytes → Verdict
of_refresh_token none = not_refreshable
of_refresh_token (some t) = if is_empty t then not_refreshable else refreshable

abbrev pub StartAllows : RcloneFsConfig → Progress → Ask → Type 0
StartAllows cfg s (set_config_path p) = p ≡ cfg.config_path
StartAllows cfg s (file_get_value name key) = name ≡ remote_section_name cfg.remote
StartAllows cfg s (force_refresh c) = s.verdict ≡ refreshable
StartAllows cfg s (build_fs p) = (p ≡ cfg.remote) × (is_accepted s.verdict ≡ true)
StartAllows cfg s a = ⊥

abbrev pub Refused : Bytes → Bool → Progress → Type 0
Refused code setup s =
    (s.verdict ≡ asked (rejected code))
    × ((client_setup_error_codes code ≡ setup) × (s.built ≡ false))

-- What the construction returns against how far it came.
abbrev pub Explains : Progress → Started → Type 0
Explains s (started r) = (r.ready ≡ true) × ((s.built ≡ true) × (is_accepted s.verdict ≡ true))
Explains s (failed (client_misconfigured code)) = Refused code true s
Explains s (failed (token_invalid code)) = Refused code false s
Explains s (failed e) = s.built ≡ false

abbrev pub verdict_of : Option OauthConfig → Verdict
verdict_of none = not_refreshable
verdict_of (some c) = of_refresh_token (some c.refresh_token)

abbrev pub ReadAs : Progress → Option OauthConfig → Type 0
ReadAs s c = (s.built ≡ false) × (s.verdict ≡ verdict_of c)

pub refreshable_as :
    (c : OauthConfig) {b : Bool}
    → is_empty c.refresh_token ≡ b
    → verdict_of (some c) ≡ (if b then not_refreshable else refreshable)
refreshable_as c = ap (λ b. if b then not_refreshable else refreshable)

config_verdict :
    (id secret : Bytes) (o : Option Bytes)
    → of_refresh_token o
      ≡ verdict_of (elim o [
        | none ↦ none
        | some t ↦ some (record { client_id = id; client_secret = secret; refresh_token = t })
      ])
config_verdict id secret none = refl
config_verdict id secret (some t) = refl

module _ (parse_token : Bytes → Option Bytes) where
  abbrev pub of_stored : Bytes → Verdict
  of_stored json = if is_empty json then not_refreshable else of_refresh_token (parse_token json)

  abbrev pub progress : Progress → (a : Ask) → Answer a → Progress
  progress s (file_get_value name key) v =
      if bytes_eq key (codes "token") then record s { verdict = of_stored (config_value v) } else s
  progress s (force_refresh c) r = record s { verdict = asked r }
  progress s (build_fs p) (ok b) = record s { built = b }
  progress s _ r = s

  abbrev pub starting : RcloneFsConfig → Observer Progress
  starting cfg = record { step = progress; allowed = StartAllows cfg }

  stored_as :
      (json : Bytes) (b : Bool)
      → is_empty json ≡ b
      → of_stored json ≡ (if b then not_refreshable else of_refresh_token (parse_token json))
  stored_as json b = ap (λ b. if b then not_refreshable else of_refresh_token (parse_token json))

  module _ (cfg : RcloneFsConfig) where
    values-ReadAs :
        (json : Bytes) (b : Bool)
        → is_empty json ≡ b
        → Passes
            (starting cfg)
            ReadAs
            (record { verdict = of_stored json; built = false })
            (elim b [
              | true ↦ done none
              | false ↦
                  ask (file_get_value (remote_section_name cfg.remote) (codes "client_id")) (λ i.
                    ask
                      (file_get_value (remote_section_name cfg.remote) (codes "client_secret"))
                      (λ s.
                        done
                          (build_oauth_config parse_token json (config_value i) (config_value s))))
            ])
    unfolding build_oauth_config bytes_eq
    values-ReadAs json true e = (refl, stored_as json true e)
    values-ReadAs json false e = (
      refl,
      λ i. (
        refl,
        λ s. (
          refl,
          stored_as json false e
              ∙ config_verdict (config_value i) (config_value s) (parse_token json),
        ),
      ),
    )

    pub read_oauth_config-ReadAs :
        Passes
          (starting cfg)
          ReadAs
          no_progress
          (read_oauth_config parse_token (remote_section_name cfg.remote))
    unfolding read_oauth_config bytes_eq
    read_oauth_config-ReadAs = (refl, λ t. values-ReadAs (config_value t) _ refl)
