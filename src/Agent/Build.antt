-- ===== src/Agent/Build.antt =====
-- cmd/homedrive/agent.go: `newAgent`, with what it holds open when it returns. The parts that it
-- only fills in from the configuration (push syncer, puller, bisync) are left out.
pub mod Released
use home_drive.Base.{
  ℕ, Bool, true, false, not, ◌&&◌, ◌||◌, Option, none, some, List, [], is_empty, if◌then◌else◌,
}
use home_drive.Base.Text.{Bytes}
use home_drive.Base.Time.{Time}
use home_drive.OldSuffix.{new}
use home_drive.Config.{Config}
use home_drive.Control.Server.{ServerConfig, Net, new_server}
use home_drive.Agent.{Agent, LogLevel, channel_capacity}

-- The flags of the command line, and what the calls of the construction return: what `config.Load`
-- does, and whether the directories, the journal, the audit file, rclone, the MQTT client and the
-- watcher come up.
pub record Setup : Type 0 where
  pub dry_run_flag : Bool
  pub version : Bytes
  pub log_level : Option LogLevel
  pub loaded : Option Config
  pub state_dir_made : Bool
  pub local_root_made : Bool
  pub journal_opens : Bool
  pub audit_dir_made : Bool
  pub audit_opens : Bool
  pub rclone_ready : Bool
  pub mqtt_connects : Bool
  pub watcher_ready : Bool
  pub channel_limit : ℕ
  pub net : Net

-- What is open.
pub record Resources : Type 0 where
  pub journal : Bool
  pub audit_file : Bool
  pub mqtt_client : Bool

abbrev pub nothing_open : Resources
nothing_open = record { journal = false; audit_file = false; mqtt_client = false }

-- The panic is that of `make` for a channel whose capacity is out of range.
pub data Built : Type 0 where
  failed panicked : Resources → Built
  built : Agent → ServerConfig → Resources → Built

-- `journal.Close()` and `closeAuditFile`, which does nothing for a nil file; as in `closeResources`.
unfoldable pub close_resources : Resources → Resources
close_resources r = record r { journal = false; audit_file = false }

unfoldable pub server_config : Config → ServerConfig
server_config c = record {
  listen_addr = c.http.listen;
  enable_metrics = c.http.metrics;
  auth_token = c.http.auth_token;
}

unfoldable pub with_flag : Bool → Config → Config
with_flag flag c = if flag then record c { dry_run = true } else c

module _ (s : Setup) where
  unfoldable pub new_state : Config → ℕ → Agent
  new_state c capacity = record {
    local_root = c.local_root;
    version = s.version;
    capacity = capacity;
    log_level = s.log_level;
    paused = false;
    reloaded_dry_run = c.dry_run;
    start_time = 0;
    last_push = 0;
    last_pull = 0;
    push_events = [];
    push_renames = [];
  }

  unfoldable pub build_http_server : Config → Agent → Resources → Built
  build_http_server c a r = elim (new_server s.net (server_config c)) [
    | none ↦ failed (close_resources r)
    | some server ↦ built a server r
  ]

  unfoldable pub build_watcher : Config → Agent → Resources → Built
  build_watcher c a r =
      if s.watcher_ready then build_http_server c a r else failed (close_resources r)

  -- The channels, from the matcher on.
  unfoldable pub build_agent : Config → Resources → Built
  build_agent c r = elim (new c.conflict.old_suffix_format) [
    | none ↦ failed (close_resources r)
    | some m ↦ elim (channel_capacity s.channel_limit c.push.workers) [
      | none ↦ panicked r
      | some n ↦ build_watcher c (new_state c n) r
    ]
  ]

  unfoldable pub build_publisher : Config → Resources → Built
  build_publisher c r =
      if not c.mqtt.enabled
      then build_agent c r
      else if s.mqtt_connects
      then build_agent c (record r { mqtt_client = true })
      else failed (close_resources r)

  unfoldable pub init_rclone : Config → Resources → Built
  init_rclone c r = if s.rclone_ready then build_publisher c r else failed (close_resources r)

  -- On an error only the journal is there to close.
  unfoldable pub build_audit_log : Config → Resources → Built
  build_audit_log c r =
      if is_empty c.state.audit_log
      then init_rclone c r
      else if s.audit_dir_made && s.audit_opens
      then init_rclone c (record r { audit_file = true })
      else failed (record r { journal = false })

  unfoldable pub open_journal : Config → Built
  open_journal c =
      if not (s.state_dir_made && s.local_root_made)
      then failed nothing_open
      else if s.journal_opens
      then build_audit_log c (record nothing_open { journal = true })
      else failed nothing_open

  unfoldable pub new_agent : Built
  new_agent = elim s.loaded [
    | none ↦ failed nothing_open
    | some c ↦ open_journal (with_flag s.dry_run_flag c)
  ]
