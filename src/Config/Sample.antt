-- ===== src/Config/Sample.antt =====
-- A configuration for tests, but for its retention.
use home_drive.Base.{false, true, none, []}
use home_drive.Base.Int.{pos}
use home_drive.Base.Text.{codes}
use home_drive.OldSuffix.{default_format}
use home_drive.Config.{Config, RetentionCfg}

abbrev pub sample : RetentionCfg → Config
sample r = record {
  local_root = codes "/home/me/drive";
  remote = codes "gdrive:";
  rclone_config = [];
  watcher = record { debounce = pos 0; dir_rename_pair_window = pos 0; exclude = [] };
  push = record {
    workers = pos 2;
    retry = record { max_attempts = pos 5; initial_backoff = pos 1; max_backoff = pos 60 };
  };
  pull = record { changes_api_interval = pos 0; bisync_interval = pos 0 };
  conflict = record {
    policy = codes "newer_wins";
    old_suffix_format = default_format;
    retention = r;
    repair_chains = none;
  };
  state = record { path = codes "/var/lib/homedrive/state.db"; audit_log = codes "/var/log/audit" };
  http = record { listen = []; metrics = false; auth_token = []; ctl_timeout = pos 0 };
  mqtt = record {
    enabled = true;
    broker = codes "tcp://nas:1883";
    client_id_prefix = [];
    base_topic = [];
    ha_discovery_prefix = [];
    publish_interval = pos 0;
    qos = 0;
  };
  logging = record { level = codes "info"; format = codes "text" };
  dry_run = false;
}
