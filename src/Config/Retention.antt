-- ===== src/Config/Retention.antt =====
-- internal/config/config.go with internal/store/prune.go: what a loaded configuration means for the
-- losers that are kept.
use home_drive.Base.{◌≡◌, ◌+◌, ◌≤◌, ◌<◌, some, List, length}
use home_drive.Base.Text.{Bytes}
use home_drive.Base.Time.{Time}
use home_drive.OldSuffix.{Matcher, new}
use home_drive.Syncer.Types.{JournalEntry}
use home_drive.Syncer.Prune.{siblings_of, select_evictions}
use home_drive.Syncer.Prune.Justified.{Retains}
use home_drive.Config.{Config, retention_policy}

-- What the retention of a configuration is to select for removal behind a base.
abbrev pub Bounded : Config → Bytes → List JournalEntry → Time → Type 0
Bounded c base candidates now =
    (m : Matcher) × (new c.conflict.old_suffix_format ≡ some m)
    × (0 < (retention_policy c.conflict.retention).max_per_file)
    × (length (siblings_of m base candidates)
        ≤ length (select_evictions m base candidates (retention_policy c.conflict.retention) now)
          + (retention_policy c.conflict.retention).max_per_file)
    × Retains (retention_policy c.conflict.retention) now (siblings_of m base candidates)
        (select_evictions m base candidates (retention_policy c.conflict.retention) now)
