-- ===== src/Syncer/Tests/Bisync.antt =====
-- Runs of the bisync pass against the environment of Syncer/Tests.antt, and the theorems at such
-- data.
use home_drive.Syncer.Go.{run}
use home_drive.Syncer.Tests.{offline}
use home_drive.Base.{[], ◌∷◌}
use home_drive.Base.{List, ℕ}
use home_drive.Store.Bucket.{Among}
use home_drive.Syncer.Bisync.Defs.{FileDiff}
use home_drive.Syncer.Bisync.Diff.{diff_local_against_remote, diverges}
use home_drive.Base.{◌+◌}
use home_drive.Base.Text.{bytes_eq}
use home_drive.Base.Maps.{Map, lookup}
use home_drive.Syncer.Go.{Call, Resp, store_get, bind, after, ◌>>=◌}
use home_drive.Syncer.Types.{JournalEntry}
use home_drive.Syncer.Bisync.Defs.{conflicting, local_only}
use home_drive.Syncer.Bisync.Resolve.{pulled_entry}
use home_drive.Syncer.Bisync.Diff.Drift.{Drifts, diff_local_against_remote-Drifts}
use home_drive.Syncer.Tests.{idle}
use home_drive.Base.{Bool, ◌≡◌, refl, ◌↔◌, true, false, some}
use home_drive.Base.Text.{codes}
use home_drive.Syncer.Types.{LocalFileInfo, local, remote}
use home_drive.Syncer.Go.{ok}
use home_drive.Syncer.Safe.Rules.{Moves}
use home_drive.Syncer.Safe.Reach.{Reaches}
use home_drive.Syncer.Conflict.{determine_winner, newer_wins}
use home_drive.Syncer.Bisync.Defs.{BisyncConfig}
use home_drive.Syncer.Bisync.Resolve.{resolve_conflict, resolve_local_wins, resolve_remote_wins}
use home_drive.Syncer.Bisync.Order.{
  start, done, protocol, resolve_conflict-Order, resolve_conflict-determine_winner,
}
use home_drive.Syncer.Bisync.Pass.{execute}
use home_drive.Syncer.Bisync.Pass.Mutex.{mutex, execute-Mutex}
use home_drive.Syncer.Tests.{matcher, object}

abbrev config : Bool → BisyncConfig
config dry = record {
  matcher = matcher;
  retention = record { max_per_file = 3; max_age = 0 };
  sweep_interval = 60;
  repair_chains = true;
  dry_run = dry;
  has_mqtt = true;
  has_audit = true;
  has_auditor = true;
}

abbrev file : LocalFileInfo
file = record { path = codes "docs/f"; size = 4; mod_time = 6000000000 }

execute-Mutex_example : Moves (mutex false) false false false (execute (config false))
execute-Mutex_example = execute-Mutex (config false)

resolve_conflict-Order_example :
    Reaches
      (protocol matcher (codes "docs/f") remote)
      start
      done
      (resolve_conflict (config false) file object)
resolve_conflict-Order_example = resolve_conflict-Order (config false) file object refl

resolve_conflict-determine_winner_example :
    resolve_conflict (config false) file object
    ≡ elim (determine_winner 6000000000 5000000000 newer_wins) [
      | local ↦ resolve_local_wins (config false) file object
      | remote ↦ resolve_remote_wins (config false) file object
    ]
resolve_conflict-determine_winner_example =
    resolve_conflict-determine_winner (config false) file object refl

-- The path was synced with the remote object as it is; the local file has another time.
abbrev synced : JournalEntry
synced = pulled_entry object 1

abbrev journaled : ℕ → (c : Call) → Resp c × ℕ
journaled w (store_get p) = (ok (some synced), w + 1)
journaled w c = offline w c

abbrev both_sides : Map LocalFileInfo
both_sides = (codes "docs/f", file) ∷ (codes "docs/g", record file { path = codes "docs/g" }) ∷ []

diff_local_against_remote-Drifts_example :
    (ds : List FileDiff) × (w' : ℕ) × (run journaled 0
        (diff_local_against_remote both_sides ((codes "docs/f", object) ∷ []) idle)
      ≡ some ((ok ds, idle), w'))
    × ((d : FileDiff)
        → Among d ds ↔ Drifts (λ p. ok (some synced)) both_sides ((codes "docs/f", object) ∷ []) d)
diff_local_against_remote-Drifts_example =
    diff_local_against_remote-Drifts journaled (λ p. ok (some synced)) both_sides
      ((codes "docs/f", object) ∷ []) 0 idle (λ v p. refl)

-- The first is a conflict, the second is alone.
found_drifts :
    run journaled 0 (diff_local_against_remote both_sides ((codes "docs/f", object) ∷ []) idle)
    ≡ some (
      (
        ok (conflicting file object ∷ local_only (record file { path = codes "docs/g" }) ∷ []),
        idle,
      ),
      1,
    )
unfolding run bind after ◌>>=◌ diff_local_against_remote diverges lookup bytes_eq
found_drifts = refl
