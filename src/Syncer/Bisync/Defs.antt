-- ===== src/Syncer/Bisync/Defs.antt =====
-- The configuration, the state and the differences of internal/syncer/bisync.go and types.go.
use home_drive.Base.{ℕ, Bool, List}
use home_drive.Base.Text.{Bytes}
use home_drive.Base.Time.{Time}
use home_drive.OldSuffix.{Matcher}
use home_drive.Syncer.Types.{RemoteObject, LocalFileInfo}
use home_drive.Syncer.Prune.{RetentionPolicy, PruneDeps}

-- The configuration, with the presence of the publisher, the audit writer and the auditor.
pub record BisyncConfig : Type 0 where
  pub matcher : Matcher
  pub retention : RetentionPolicy
  pub sweep_interval : ℕ
  pub repair_chains : Bool
  pub dry_run : Bool
  pub has_mqtt : Bool
  pub has_audit : Bool
  pub has_auditor : Bool

-- What a `Bisync` keeps in memory; `pending_prune` lists the keys of its map.
pub record Bisync : Type 0 where
  pub running : Bool
  pub last_sweep : Time
  pub pending_prune : List Bytes

-- A `FileDiff`, with the infos that its kind has.
pub data FileDiff : Type 0 where
  local_only : LocalFileInfo → FileDiff
  remote_only : RemoteObject → FileDiff
  conflicting : LocalFileInfo → RemoteObject → FileDiff

abbrev pub prune_deps : BisyncConfig → PruneDeps
prune_deps cfg = record {
  matcher = cfg.matcher;
  has_auditor = cfg.has_auditor;
  has_publisher = cfg.has_mqtt;
  dry_run = cfg.dry_run;
}
