-- ===== src/Syncer/Poll/Token.antt =====
-- The page token in a dry run.
use home_drive.Base.{[]}
use home_drive.Base.Text.{codes}
use home_drive.Syncer.Types.{Changes}
use home_drive.Syncer.Go.{ok, bind, after, ◌>>=◌}
use home_drive.Syncer.Safe.{Every, Only}
use home_drive.Syncer.Pull.{PullerConfig}
use home_drive.Syncer.Pull.DryRun.{ReadOnly}
use home_drive.Syncer.Poll.{poll, ensure_page_token, fetch_changes, on_listing, persist_token}

abbrev quiet : Changes
quiet = record { items = []; next_page_token = codes "2" }

-- Whatever the configuration, also in a dry run, a poll does not keep to calls that change nothing:
-- some answers lead it to write the page token.
poll-writes : (cfg : PullerConfig) → ¬ Only ReadOnly (poll cfg)
unfolding poll ensure_page_token fetch_changes on_listing persist_token ◌>>=◌ bind after
poll-writes cfg h =
    let started : Every ReadOnly (poll cfg (record { streak = 0; dangling = [] })) = h.at _ in
    ((started.1 (ok (codes "1"))).1 (ok quiet)).0
