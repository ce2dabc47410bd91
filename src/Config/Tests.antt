-- ===== src/Config/Tests.antt =====
-- Runs of the configuration at concrete inputs.
use home_drive.Base.{◌≡◌, refl, []}
use home_drive.Base.Int.{pos, negsuc}
use home_drive.Base.Text.{codes}
use home_drive.Syncer.Types.{JournalEntry, local}
use home_drive.Config.{RetentionCfg, retention_defaults}

abbrev unlimited : RetentionCfg
unlimited = record { max_per_file = negsuc 0; max_age = pos 0; sweep_interval = pos 60 }

abbrev omitted : RetentionCfg
omitted = record { max_per_file = pos 0; max_age = pos 0; sweep_interval = pos 0 }

abbrev loser : JournalEntry
loser = record {
  path = codes "a.old.1";
  local_mtime = 1;
  remote_mtime = 1;
  remote_md5 = [];
  remote_id = [];
  last_synced_at = 1;
  last_origin = local;
}

clamped : (retention_defaults unlimited).max_per_file ≡ pos 1
unfolding retention_defaults
clamped = refl

defaulted : (retention_defaults omitted).max_per_file ≡ pos 3
unfolding retention_defaults
defaulted = refl
