-- ===== src/Syncer/Bisync/Pass.antt =====
-- One pass of internal/syncer/bisync.go, with the chain repair and the retention around it.
pub mod Locked
pub mod Steps
pub mod Mutex
use Prim.Native.Nat.{min}
use home_drive.Base.{
  ℕ, ◌+◌, ◌-◌, ◌^◌, Bool, true, false, not, ◌==◌, Option, none, some, List, [], ◌∷◌, leb,
  if◌then◌else◌,
}
use home_drive.Base.Text.{Bytes, bytes_eq, codes}
use home_drive.Syncer.Types.{Event, BisyncLine, bisync_started, bisync_completed}
use home_drive.Syncer.Go.{
  Go, clock, bisync_lock, bisync_unlock, store_get_meta, store_set_meta, publish, audit_bisync,
}
use home_drive.Syncer.Go.{
  ok, fail, pure, perform, lift, tell, attempt, read_state, write_state, ◌>>=◌, ◌>>◌,
}
use home_drive.Syncer.Prune.{prune_old_siblings}
use home_drive.Syncer.Prune.Sweep.{sweep_old_files}
use home_drive.Syncer.Bisync.Defs.{BisyncConfig, Bisync, FileDiff, prune_deps}
use home_drive.Syncer.Bisync.Diff.{walk_local, list_remote, diff}
use home_drive.Syncer.Bisync.Resolve.{Counts, sync_diffs}
use home_drive.Syncer.Bisync.Repair.{RepairDeps, Report, repair_chains}

abbrev pub key_chain_repair : Bytes
key_chain_repair = codes "old_chain_repair_v1"

abbrev pub done_mark : Bytes
done_mark = codes "done"

abbrev pub repair_deps : BisyncConfig → Bool → RepairDeps
repair_deps cfg dry = record { matcher = cfg.matcher; dry_run = dry; has_auditor = cfg.has_auditor }

abbrev pub no_counts : Counts
no_counts = record { pushed = 0; pulled = 0; conflicts = 0 }

abbrev pub line_of : BisyncConfig → Counts → Bool → BisyncLine
line_of cfg n failed = record {
  files_pushed = n.pushed;
  files_pulled = n.pulled;
  conflicts = n.conflicts;
  dry_run = cfg.dry_run;
  failed = failed;
}

unfoldable pub set_running : Bool → Go Bisync Unit
set_running r = read_state >>= λ b. write_state (record b { running = r })

module _ (cfg : BisyncConfig) where
  module _ {S : Type 0} where
    -- An error of the write is only logged.
    unfoldable pub write_audit : Counts → Bool → Go S Unit
    write_audit n failed =
        if cfg.has_audit
        then (perform clock >>= λ _. tell (audit_bisync (line_of cfg n failed)))
        else pure tt

    unfoldable pub publish_event : Event → Go S Unit
    publish_event e = if cfg.has_mqtt then tell (publish e) else pure tt

    unfoldable pub should_repair_chains : Go S Bool
    should_repair_chains =
        if not cfg.repair_chains
        then pure false
        else (perform (store_get_meta key_chain_repair) >>= λ got.
            pure (elim got [ fail _ ↦ false | ok val ↦ not (bytes_eq val done_mark) ]))

    -- An error of writing the mark is only logged.
    unfoldable pub run_chain_repair : Bool → Bool → Go S Report
    run_chain_repair dry mark_done = do
      locals ← walk_local
      remotes ← list_remote
      report ← repair_chains (repair_deps cfg dry) locals remotes
      if dry
          then pure report
          else if not mark_done
          then pure report
          else (tell (store_set_meta key_chain_repair done_mark) >> pure report)

    -- Between the two calls of the mutex; the second one is deferred.
    unfoldable pub run_chain_repair_locked : Bool → Go S Report
    run_chain_repair_locked dry =
        tell bisync_lock
        >> (attempt (run_chain_repair dry (not dry)) >>= λ r. tell bisync_unlock >> lift r)

    unfoldable pub prune_after_conflict : Bytes → Go S Unit
    prune_after_conflict base =
        attempt (prune_old_siblings (prune_deps cfg) cfg.retention base) >>= λ _. pure tt

    unfoldable pub prune_all : List Bytes → Go S Unit
    prune_all [] = pure tt
    prune_all (b ∷ bs) = prune_after_conflict b >> prune_all bs

    unfoldable pub sweep : Go S Unit
    sweep = attempt (sweep_old_files (prune_deps cfg) cfg.retention) >>= λ _. pure tt

  -- `now.Sub(t)` saturates at 2^63 - 1.
  unfoldable pub should_sweep : Go Bisync Bool
  should_sweep =
      if cfg.sweep_interval == 0
      then pure false
      else (perform clock >>= λ now.
          read_state >>= λ b. pure (leb cfg.sweep_interval (min (now - b.last_sweep) (2 ^ 63 - 1))))

  unfoldable pub sweep_if_due : Go Bisync Unit
  sweep_if_due = should_sweep >>= λ due.
      if due
      then (sweep
          >> (perform clock >>= λ now.
              read_state >>= λ b. write_state (record b { last_sweep = now })))
      else pure tt

  unfoldable pub prune_pending : Go Bisync Unit
  prune_pending = do
    b ← read_state
    prune_all b.pending_prune
    c ← read_state
    write_state (record c { pending_prune = [] })

  -- The end of a pass, with the time that the line and the event are made.
  unfoldable pub report_pass : Counts → Bool → Go Bisync Unit
  report_pass n failed = do
    write_audit n failed
    now ← perform clock
    publish_event (bisync_completed (n.pushed + n.pulled) n.conflicts cfg.dry_run failed)

  unfoldable pub sync_all : List FileDiff → Go Bisync Unit
  sync_all diffs = do
    n ← sync_diffs cfg diffs no_counts
    prune_pending
    sweep_if_due
    now ← perform clock
    report_pass n false

  unfoldable pub repair_if_due : Go Bisync Unit
  repair_if_due = should_repair_chains >>= λ due.
      if due then (attempt (run_chain_repair cfg.dry_run true) >>= λ _. pure tt) else pure tt

  -- What is done under the mutex.
  unfoldable pub pass : Go Bisync Unit
  pass =
      repair_if_due
      >> (attempt diff >>= λ r. elim r [
        | ok diffs ↦ sync_all diffs
        | fail e ↦ report_pass no_counts true
      ])

  -- The steps after the guard. The mutex and the mark are given back by `defer`.
  unfoldable pub execute_once : Go Bisync Unit
  execute_once = do
    set_running true
    start ← perform clock
    publish_event (bisync_started cfg.dry_run)
    tell bisync_lock
    _ ← attempt pass
    tell bisync_unlock
    set_running false

  unfoldable pub execute : Go Bisync Unit
  execute = read_state >>= λ b. if b.running then pure tt else execute_once
