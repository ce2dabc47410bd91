-- ===== src/Agent/Control.antt =====
-- cmd/homedrive/agent_control.go: what the control endpoint asks of the agent.
use home_drive.Base.{
  ℕ, ◌+◌, ◌==◌, Bool, true, false, not, ◌&&◌, Option, none, some, List, [], ◌∷◌, ◌++◌, length, all,
  map, if◌then◌else◌,
}
use home_drive.Base.Int.{ℤ, is_positive}
use home_drive.Base.Text.{Bytes, bytes_eq, codes}
use home_drive.Base.Time.{Time}
use home_drive.Syncer.Types.{Error, Origin, local, remote}
use home_drive.Syncer.Go.{Result, ok, fail}
use home_drive.Syncer.Bisync.Repair as Repair
use home_drive.Quota.{QuotaInfo}
use home_drive.Config.{Config, load}
use home_drive.Control.Server.{
  Deps, StatusInfo, ComponentHealth, HealthResult, RepairedLink, RepairReport,
}
use home_drive.Agent.{Agent, LogLevel, debug, info, warn, error}

pub record OauthStatus : Type 0 where
  pub checked : Bool
  pub client_configured : Bool

-- What the agent calls: the text of the configuration file and what YAML makes of it, the bisync,
-- the remote, the journal, the MQTT client (`none` if it is disabled), the clock, and the texts of
-- times and errors. A remote may be nil, and may not report the state of OAuth. `percent` is
-- `int(float64(used) / float64(total) * 100)`.
pub record Outside (W : Type 0) : Type 0 where
  pub config_file : W → Result Bytes
  pub unmarshal : Bytes → Option Config
  pub force_run : W → Option Error × W
  pub run_chain_repair : Bool → W → Result Repair.Report × W
  pub quota : W → Result QuotaInfo
  pub percent : ℤ → ℤ → ℕ
  pub count_error : W → Option Error
  pub has_remote : Bool
  pub oauth_status : W → Option OauthStatus
  pub mqtt_connected : W → Option Bool
  pub seconds_since : Time → W → ℕ
  pub rfc3339 : Time → Bytes
  pub error_text : Error → Bytes

unfoldable pub parse_log_level : Bytes → LogLevel
parse_log_level level =
    if bytes_eq level (codes "debug")
    then debug
    else if bytes_eq level (codes "warn")
    then warn
    else if bytes_eq level (codes "error")
    then error
    else info

abbrev side_name : Origin → Bytes
side_name local = codes "local"
side_name remote = codes "remote"

unfoldable pub repaired_link : Repair.RepairedLink → RepairedLink
repaired_link l = record { old_path = l.old_path; new_path = l.new_path; side = side_name l.side }

unfoldable pub report_of : Bool → Result Repair.Report → Result RepairReport
report_of dry (fail e) = fail e
report_of dry (ok r) = ok (record {
  scanned = r.scanned;
  repaired = length r.links;
  links = map repaired_link r.links;
  dry_run = dry;
})

unfoldable pub set_level : Config → Option LogLevel → Option LogLevel
set_level c none = none
set_level c (some l) = some (parse_log_level c.logging.level)

module _ {W : Type 0} (o : Outside W) where
  unfoldable pub pause : Agent × W → Option Error × (Agent × W)
  pause (a, w) = (none, (record a { paused = true }, w))

  unfoldable pub resume : Agent × W → Option Error × (Agent × W)
  resume (a, w) = (none, (record a { paused = false }, w))

  unfoldable pub force_resync : Agent × W → Option Error × (Agent × W)
  force_resync (a, w) = let r = o.force_run w in (r.0, (a, r.1))

  unfoldable pub run_chain_repair : Bool → Agent × W → Result RepairReport × (Agent × W)
  run_chain_repair dry (a, w) = let r = o.run_chain_repair dry w in (report_of dry r.0, (a, r.1))

  unfoldable pub reloaded : Config → Agent → Agent
  reloaded c a = record a { log_level = set_level c a.log_level; reloaded_dry_run = c.dry_run }

  unfoldable pub reload : Agent × W → Option Error × (Agent × W)
  reload (a, w) = elim (load o.unmarshal (o.config_file w)) [
    | none ↦ (some (record { wraps = [] }), (a, w))
    | some c ↦ (none, (reloaded c a, w))
  ]

  unfoldable pub quota_used_pct : W → ℕ
  quota_used_pct w = elim (o.quota w) [
    | fail e ↦ 0
    | ok q ↦ if is_positive q.total then o.percent q.used q.total else 0
  ]

  unfoldable pub instant_text : Time → Bytes
  instant_text t = if t == 0 then [] else o.rfc3339 t

  unfoldable pub status : Agent × W → Result StatusInfo
  status (a, w) = ok (record {
    state = if a.paused then codes "paused" else codes "running";
    version = a.version;
    pending_up = length a.push_events + length a.push_renames;
    pending_down = 0;
    last_push = instant_text a.last_push;
    last_pull = instant_text a.last_pull;
    quota_used_pct = quota_used_pct w;
    conflicts_24h = 0;
    bytes_up_24h = 0;
    bytes_down_24h = 0;
    dry_run = a.reloaded_dry_run;
    uptime_seconds = o.seconds_since a.start_time w;
  })

  abbrev healthy_component : Bytes → Bytes → Bool → ComponentHealth
  healthy_component name message degraded = record {
    name = name;
    healthy = true;
    message = message;
    degraded = degraded;
  }

  abbrev unhealthy_component : Bytes → Bytes → ComponentHealth
  unhealthy_component name message = record {
    name = name;
    healthy = false;
    message = message;
    degraded = false;
  }

  unfoldable pub store_health : W → ComponentHealth
  store_health w = elim (o.count_error w) [
    | some e ↦ unhealthy_component (codes "store") (o.error_text e)
    | none ↦ healthy_component (codes "store") [] false
  ]

  abbrev initialized : Bytes
  initialized = codes "initialized; no live probe (avoids Drive API quota use on health checks)"

  abbrev oauth_missing : Bytes
  oauth_missing =
      codes "oauth client_id/client_secret not configured for remote; "
      ++ codes "Drive Changes API polling is failing and backing off (push and the "
      ++ codes "hourly bisync safety net are unaffected) -- see homedrive/README.md "
      ++ codes "prerequisites"

  unfoldable pub rclone_health : W → ComponentHealth
  rclone_health w =
      if not o.has_remote
      then unhealthy_component (codes "rclone") (codes "not initialized")
      else elim (o.oauth_status w) [
        | none ↦ healthy_component (codes "rclone") initialized false
        | some st ↦
            if st.checked && not st.client_configured
            then healthy_component (codes "rclone") oauth_missing true
            else healthy_component (codes "rclone") initialized false
      ]

  unfoldable pub mqtt_health : Bool → ComponentHealth
  mqtt_health connected =
      if connected
      then healthy_component (codes "mqtt") [] false
      else unhealthy_component (codes "mqtt") (codes "disconnected")

  unfoldable pub components : W → List ComponentHealth
  components w =
      store_health w
      ∷ rclone_health w
      ∷ elim (o.mqtt_connected w) [ none ↦ [] | some c ↦ mqtt_health c ∷ [] ]

  unfoldable pub healthz : Agent × W → Result HealthResult
  healthz (a, w) =
      ok (record { healthy = all (λ c. c.healthy) (components w); components = components w })

  -- The agent behind the control endpoint.
  unfoldable pub agent_deps : Deps (Agent × W)
  agent_deps = record {
    pause = pause;
    resume = resume;
    force_resync = force_resync;
    reload = reload;
    run_chain_repair = run_chain_repair;
    status = status;
    healthz = healthz;
  }
