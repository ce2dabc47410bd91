-- ===== src/Agent/Ctl.antt =====
-- cmd/homedrive/ctl.go: the requests of `homedrive ctl`. The network is left out: a request reaches
-- the endpoint as it was made, with the query of its path apart.
use home_drive.Base.{
  ◌≡◌, refl, ◌∙◌, ◌*◌, arith, Bool, true, false, not, ◌&&◌, Option, none, some, [], ◌∷◌, ◌++◌,
  is_empty, leb, if◌then◌else◌, inl, inr, Bool-cases, then-branch,
}
use home_drive.Base.Int.{ℤ, pos, is_positive}
use home_drive.Base.Text.{Bytes, codes, bytes_eq, bytes_eq_refl}
use home_drive.Base.Time.{second}
use home_drive.Config.{Config}
use home_drive.Control.Metrics.{Metrics}
use home_drive.Control.Server.{
  Deps, ServerConfig, Net, Request, Response, new_server, default_listen, routes,
}
use home_drive.Control.Guarded.{effect, is_authorized, routes-effect}
use home_drive.Agent.Build.{server_config}

abbrev pub default_ctl_addr : Bytes
default_ctl_addr = codes "127.0.0.1:6090"

abbrev pub default_ctl_http_timeout : ℤ
default_ctl_http_timeout = pos (10 * second)

-- The address, the token and the configured timeout, from what `config.Load` returns.
pub record Target : Type 0 where
  pub addr : Bytes
  pub token : Bytes
  pub cfg_timeout : ℤ

unfoldable pub ctl_target : Option Config → Target
ctl_target none = record { addr = default_ctl_addr; token = []; cfg_timeout = pos 0 }
ctl_target (some c) = record {
  addr = if is_empty c.http.listen then default_ctl_addr else c.http.listen;
  token = c.http.auth_token;
  cfg_timeout = c.http.ctl_timeout;
}

-- The flag is `none` where it was not given.
unfoldable pub configured_timeout : ℤ → ℤ
configured_timeout t = if is_positive t then t else default_ctl_http_timeout

unfoldable pub ctl_effective_timeout : Option ℤ → ℤ → ℤ
ctl_effective_timeout none cfg = configured_timeout cfg
ctl_effective_timeout (some t) cfg = if is_positive t then t else configured_timeout cfg

-- The request of `ctlDo`.
unfoldable pub ctl_request : Bytes → Bytes → Bytes → Bytes → Request
ctl_request method token path dry_run = record {
  method = method;
  path = path;
  authorization = if is_empty token then [] else codes "Bearer " ++ token;
  dry_run = dry_run;
}

-- Whether `ctlDo` returns no error for a response.
unfoldable pub ctl_accepts : Response → Bool
ctl_accepts r = not (leb 400 r.code)

unfoldable pub ctl_run_action : Bytes → Target → Request
ctl_run_action action t = ctl_request (codes "POST") t.token (b'/' ∷ action) []

unfoldable pub ctl_run_status : Target → Request
ctl_run_status t = ctl_request (codes "GET") t.token (codes "/status") []

unfoldable pub ctl_run_conflict_repair : Bool → Target → Request
ctl_run_conflict_repair dry t =
    ctl_request (codes "POST") t.token (codes "/conflict/repair") (if dry then codes "1" else [])

same_token :
    (net : Net) (given cfg : ServerConfig)
    → new_server net given ≡ some cfg
    → cfg.auth_token ≡ given.auth_token
unfolding new_server default_listen
same_token net given cfg h = ground arith

authorized :
    (cfg : ServerConfig) (method token path dry_run : Bytes)
    → cfg.auth_token ≡ token
    → is_authorized cfg (ctl_request method token path dry_run) ≡ true
unfolding ctl_request
authorized cfg method token path dry_run e = elim (Bool-cases (is_empty token)) [
  | inl none_set ↦ rw (e, none_set) refl
  | inr set ↦ rw (e, set) (bytes_eq_refl (codes "Bearer " ++ token))
]

-- A POST of `ctl` with the token of a configuration is carried out by the server of it.
posted :
    {S : Type 0} (deps : Deps S) (net : Net) (c : Config) (cfg : ServerConfig)
    (path dry_run : Bytes) (m : Metrics) (s : S)
    → new_server net (server_config c) ≡ some cfg
    → (routes deps cfg (ctl_request (codes "POST") c.http.auth_token path dry_run) m s).2
      ≡ effect deps path dry_run s
unfolding ctl_request server_config
posted deps net c cfg path dry_run m s made =
    let r = ctl_request (codes "POST") c.http.auth_token path dry_run in
    let allowed : (is_authorized cfg r && bytes_eq (codes "POST") (codes "POST")) ≡ true =
      rw
        (authorized cfg (codes "POST") c.http.auth_token path dry_run
          (same_token net (server_config c) cfg made))
        (bytes_eq_refl (codes "POST")) in
    routes-effect deps cfg r m s ∙ then-branch (effect deps path dry_run s) s allowed

repaired :
    {S : Type 0} (deps : Deps S) (dry : Bool) (s : S)
    → effect deps (codes "/conflict/repair") (if dry then codes "1" else []) s
      ≡ (deps.run_chain_repair dry s).1
unfolding bytes_eq
repaired deps true s = refl
repaired deps false s = refl

-- Where the agent and `homedrive ctl` have loaded the same configuration, an action of `ctl` does
-- to what the endpoint controls what the POST to its path does, and a repair of the chains runs,
-- dry if it is asked to.
pub ctl-Performs :
    {S : Type 0} (deps : Deps S) (net : Net) (c : Config) (cfg : ServerConfig) (m : Metrics) (s : S)
    → new_server net (server_config c) ≡ some cfg
    → ((action : Bytes)
        → (routes deps cfg (ctl_run_action action (ctl_target (some c))) m s).2
          ≡ effect deps (b'/' ∷ action) [] s)
      × ((dry : Bool)
          → (routes deps cfg (ctl_run_conflict_repair dry (ctl_target (some c))) m s).2
            ≡ (deps.run_chain_repair dry s).1)
unfolding ctl_run_action ctl_run_conflict_repair ctl_target
ctl-Performs deps net c cfg m s made = (
  λ action. posted deps net c cfg (b'/' ∷ action) [] m s made,
  λ dry.
      posted deps net c cfg (codes "/conflict/repair") (if dry then codes "1" else []) m s made
      ∙ repaired deps dry s,
)
