-- ===== src/Config.antt =====
-- internal/config/config.go. What `yaml.Unmarshal` makes of a text is a parameter. Of the
-- configuration the quota thresholds are left out, two floats that the agent does not read.
pub mod Retention
pub mod Sample
mod Tests
use home_drive.Base.{ℕ, ◌*◌, Bool, true, false, not, ◌&&◌, Option, none, some, List, if◌then◌else◌}
use home_drive.Base.Int.{ℤ, pos, is_zero, is_positive, pos_part}
use home_drive.Base.Text.{Bytes}
use home_drive.Base.Time.{minute}
use home_drive.OldSuffix.{Matcher, new}
use home_drive.Syncer.Go.{Result, ok, fail}
use home_drive.Syncer.Prune.{RetentionPolicy}

-- A duration of the file, in nanoseconds.
abbrev pub Duration : Type 0
Duration = ℤ

pub record WatcherConfig : Type 0 where
  pub debounce : Duration
  pub dir_rename_pair_window : Duration
  pub exclude : List Bytes

pub record RetryConfig : Type 0 where
  pub max_attempts : ℤ
  pub initial_backoff : Duration
  pub max_backoff : Duration

pub record PushConfig : Type 0 where
  pub workers : ℤ
  pub retry : RetryConfig

pub record PullConfig : Type 0 where
  pub changes_api_interval : Duration
  pub bisync_interval : Duration

pub record RetentionCfg : Type 0 where
  pub max_per_file : ℤ
  pub max_age : Duration
  pub sweep_interval : Duration

-- `repair_chains` is `none` where the file has no such line.
pub record ConflictCfg : Type 0 where
  pub policy : Bytes
  pub old_suffix_format : Bytes
  pub retention : RetentionCfg
  pub repair_chains : Option Bool

pub record StateConfig : Type 0 where
  pub path : Bytes
  pub audit_log : Bytes

pub record HttpConfig : Type 0 where
  pub listen : Bytes
  pub metrics : Bool
  pub auth_token : Bytes
  pub ctl_timeout : Duration

pub record MqttConfig : Type 0 where
  pub enabled : Bool
  pub broker : Bytes
  pub client_id_prefix : Bytes
  pub base_topic : Bytes
  pub ha_discovery_prefix : Bytes
  pub publish_interval : Duration
  pub qos : ℕ

pub record LoggingConfig : Type 0 where
  pub level : Bytes
  pub format : Bytes

pub record Config : Type 0 where
  pub local_root : Bytes
  pub remote : Bytes
  pub rclone_config : Bytes
  pub watcher : WatcherConfig
  pub push : PushConfig
  pub pull : PullConfig
  pub conflict : ConflictCfg
  pub state : StateConfig
  pub http : HttpConfig
  pub mqtt : MqttConfig
  pub logging : LoggingConfig
  pub dry_run : Bool

abbrev pub default_max_per_file : ℤ
default_max_per_file = pos 3

abbrev pub default_sweep_interval : Duration
default_sweep_interval = pos (24 * (60 * minute))

unfoldable pub retention_omitted : RetentionCfg → Bool
retention_omitted r = is_zero r.max_per_file && (is_zero r.max_age && is_zero r.sweep_interval)

unfoldable pub retention_defaults : RetentionCfg → RetentionCfg
unfolding retention_omitted
retention_defaults r =
    if retention_omitted r
    then record r { max_per_file = default_max_per_file; sweep_interval = default_sweep_interval }
    else if not (is_positive r.max_per_file)
    then record r { max_per_file = pos 1 }
    else r

unfoldable pub repair_default : Option Bool → Option Bool
repair_default none = some true
repair_default (some b) = some b

unfoldable pub apply_defaults : Config → Config
unfolding retention_defaults repair_default
apply_defaults c = record c {
  conflict = record c.conflict {
    retention = retention_defaults c.conflict.retention;
    repair_chains = repair_default c.conflict.repair_chains;
  };
}

unfoldable pub checked : Config → Option Matcher → Option Config
checked c none = none
checked c (some m) = some (apply_defaults c)

unfoldable pub parsed : Option Config → Option Config
parsed none = none
parsed (some c) = checked c (new c.conflict.old_suffix_format)

-- `Load`, from what `os.ReadFile` returns; `none` is an error.
unfoldable pub load : (Bytes → Option Config) → Result Bytes → Option Config
load unmarshal (fail e) = none
load unmarshal (ok text) = parsed (unmarshal text)

-- `retentionPolicy` of cmd/homedrive/agent.go.
unfoldable pub retention_policy : RetentionCfg → RetentionPolicy
retention_policy r = record { max_per_file = pos_part r.max_per_file; max_age = pos_part r.max_age }
