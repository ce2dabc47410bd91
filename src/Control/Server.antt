-- ===== src/Control/Server.antt =====
-- internal/http/server.go, handlers.go and interfaces.go. The paths of requests are clean, so the
-- mux compares them whole; of a response the status, the two headers and the value that is encoded
-- as JSON are kept.
use home_drive.Base.{
  ℕ, Bool, true, false, not, ◌&&◌, ◌||◌, Option, none, some, List, [], ◌∷◌, ◌++◌, is_empty, drop,
  if◌then◌else◌,
}
use home_drive.Base.Text.{Bytes, codes, bytes_eq, has_prefix}
use home_drive.Syncer.Types.{Error}
use home_drive.Syncer.Go.{Result, ok, fail}
use home_drive.Control.Metrics.{Metrics, MetricEntry, inc_counter, write_to}

pub record StatusInfo : Type 0 where
  pub state : Bytes
  pub version : Bytes
  pub pending_up : ℕ
  pub pending_down : ℕ
  pub last_push : Bytes
  pub last_pull : Bytes
  pub quota_used_pct : ℕ
  pub conflicts_24h : ℕ
  pub bytes_up_24h : ℕ
  pub bytes_down_24h : ℕ
  pub dry_run : Bool
  pub uptime_seconds : ℕ

pub record ComponentHealth : Type 0 where
  pub name : Bytes
  pub healthy : Bool
  pub message : Bytes
  pub degraded : Bool

pub record HealthResult : Type 0 where
  pub healthy : Bool
  pub components : List ComponentHealth

pub record RepairedLink : Type 0 where
  pub old_path : Bytes
  pub new_path : Bytes
  pub side : Bytes

pub record RepairReport : Type 0 where
  pub scanned : ℕ
  pub repaired : ℕ
  pub links : List RepairedLink
  pub dry_run : Bool

-- Pausable, Resyncable, Reloadable, ChainRepairer, StatusProvider and HealthChecker, on what they
-- keep. An `error` is `some`.
pub record Deps (S : Type 0) : Type 0 where
  pub pause : S → Option Error × S
  pub resume : S → Option Error × S
  pub force_resync : S → Option Error × S
  pub reload : S → Option Error × S
  pub run_chain_repair : Bool → S → Result RepairReport × S
  pub status : S → Result StatusInfo
  pub healthz : S → Result HealthResult

pub record ServerConfig : Type 0 where
  pub listen_addr : Bytes
  pub enable_metrics : Bool
  pub auth_token : Bytes

-- What of Go's net and strings packages a test of an address needs: the host of "host:port", no
-- host where that is not its form, and whether a text is an IP address, and one of loopback.
pub record Net : Type 0 where
  pub split_host : Bytes → Option Bytes
  pub equal_fold : Bytes → Bytes → Bool
  pub ip_loopback : Bytes → Option Bool

unfoldable pub host_of : Net → Bytes → Bytes
host_of net addr = elim (net.split_host addr) [ none ↦ addr | some host ↦ host ]

unfoldable pub is_loopback_addr : Net → Bytes → Bool
unfolding host_of
is_loopback_addr net addr =
    if is_empty (host_of net addr)
    then false
    else if net.equal_fold (host_of net addr) (codes "localhost")
    then true
    else elim (net.ip_loopback (host_of net addr)) [ none ↦ false | some l ↦ l ]

unfoldable pub default_listen : ServerConfig → ServerConfig
default_listen cfg =
    if is_empty cfg.listen_addr then record cfg { listen_addr = codes "127.0.0.1:6090" } else cfg

-- `none` is `ErrAuthTokenRequired`. Of a server its configuration is kept.
unfoldable pub new_server : Net → ServerConfig → Option ServerConfig
unfolding default_listen
new_server net cfg =
    let c = default_listen cfg in
    if is_empty c.auth_token && not (is_loopback_addr net c.listen_addr) then none else some c

-- `authorization` is "" and `dry_run` is "" where the request has none.
pub record Request : Type 0 where
  pub method : Bytes
  pub path : Bytes
  pub authorization : Bytes
  pub dry_run : Bytes

pub data Body : Type 0 where
  text : Body
  message error_message : Bytes → Body
  status_info : StatusInfo → Body
  repair_report : RepairReport → Body
  health_result : HealthResult → Body
  metrics_text : List MetricEntry → Body

pub record Response : Type 0 where
  pub code : ℕ
  pub www_authenticate : Bool
  pub allow : Bytes
  pub body : Body

abbrev pub respond : ℕ → Body → Response
respond code body = record { code = code; www_authenticate = false; allow = []; body = body }

-- A handler, on the metrics of the server and on what it controls.
abbrev pub Handler : Type 0 → Type 0
Handler S = Request → Metrics → S → Response × Metrics × S

abbrev counted : Bytes → Metrics → Metrics
counted name m = inc_counter (codes "homedrive_http_requests_total_" ++ name) m

-- A call of a dependency that returns only an error.
unfoldable pub acted : ℕ → Bytes → Bytes → Option Error → Response
acted code done failed none = respond code (message done)
acted code done failed (some e) = respond 500 (error_message failed)

unfoldable pub has_valid_bearer_token : Bytes → Bytes → Bool
has_valid_bearer_token header want =
    has_prefix header (codes "Bearer ") && bytes_eq (drop 7 header) want

module _ {S : Type 0} where
  unfoldable pub method_only : Bytes → Handler S → Handler S
  method_only method handler r m s =
      if bytes_eq r.method method
      then handler r m s
      else (record { code = 405; www_authenticate = false; allow = method; body = text }, m, s)

  unfoldable pub mux : List (Bytes × Handler S) → Handler S
  mux [] r m s = (respond 404 text, m, s)
  mux ((path, handler) ∷ rest) r m s =
      let more = mux rest r m s in if bytes_eq r.path path then handler r m s else more

  unfoldable pub with_auth : ServerConfig → Handler S → Handler S
  with_auth cfg next r m s =
      if is_empty cfg.auth_token || has_valid_bearer_token r.authorization cfg.auth_token
      then next r m s
      else (record { code = 401; www_authenticate = true; allow = []; body = text }, m, s)

module _ {S : Type 0} (deps : Deps S) where
  unfoldable pub handle_status : Handler S
  handle_status r m s = elim (deps.status s) [
    | fail e ↦ (
      respond 500 (error_message (codes "failed to retrieve status")),
      counted (codes "status") m,
      s,
    )
    | ok info ↦ (respond 200 (status_info info), counted (codes "status") m, s)
  ]

  unfoldable pub handle_pause : Handler S
  handle_pause r m s =
      let a = deps.pause s in
      (acted 200 (codes "paused") (codes "failed to pause") a.0, counted (codes "pause") m, a.1)

  unfoldable pub handle_resume : Handler S
  handle_resume r m s =
      let a = deps.resume s in
      (acted 200 (codes "resumed") (codes "failed to resume") a.0, counted (codes "resume") m, a.1)

  unfoldable pub handle_resync : Handler S
  handle_resync r m s =
      let a = deps.force_resync s in
      (
        acted 202 (codes "resync_triggered") (codes "failed to trigger resync") a.0,
        counted (codes "resync") m,
        a.1,
      )

  unfoldable pub handle_reload : Handler S
  handle_reload r m s =
      let a = deps.reload s in
      (
        acted 200 (codes "reloaded") (codes "failed to reload config") a.0,
        counted (codes "reload") m,
        a.1,
      )

  unfoldable pub reported : Result RepairReport → Response
  reported (fail e) = respond 500 (error_message (codes "chain repair failed"))
  reported (ok report) = respond 200 (repair_report report)

  unfoldable pub handle_conflict_repair : Handler S
  handle_conflict_repair r m s =
      let a = deps.run_chain_repair (bytes_eq r.dry_run (codes "1")) s in
      (reported a.0, counted (codes "conflict_repair") m, a.1)

  unfoldable pub handle_healthz : Handler S
  handle_healthz r m s = elim (deps.healthz s) [
    | fail e ↦
        (respond 500 (error_message (codes "health check error")), counted (codes "healthz") m, s)
    | ok result ↦ (
      respond (if result.healthy then 200 else 503) (health_result result),
      counted (codes "healthz") m,
      s,
    )
  ]

  unfoldable pub handle_metrics : Handler S
  handle_metrics r m s = (respond 200 (metrics_text (write_to m)), m, s)

  -- The handlers by their paths.
  abbrev pub handlers : ServerConfig → List (Bytes × Handler S)
  handlers cfg =
      (codes "/status", method_only (codes "GET") handle_status)
      ∷ (codes "/pause", method_only (codes "POST") handle_pause)
      ∷ (codes "/resume", method_only (codes "POST") handle_resume)
      ∷ (codes "/resync", method_only (codes "POST") handle_resync)
      ∷ (codes "/reload", method_only (codes "POST") handle_reload)
      ∷ (codes "/conflict/repair", method_only (codes "POST") handle_conflict_repair)
      ∷ (codes "/healthz", method_only (codes "GET") handle_healthz)
      ∷ (if cfg.enable_metrics
          then (codes "/metrics", method_only (codes "GET") handle_metrics) ∷ []
          else [])

  unfoldable pub routes : ServerConfig → Handler S
  routes cfg r m s = with_auth cfg (mux (handlers cfg)) r m s
