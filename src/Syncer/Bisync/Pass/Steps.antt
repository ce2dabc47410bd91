-- ===== src/Syncer/Bisync/Pass/Steps.antt =====
-- The calls of the steps of a bisync pass.

use home_drive.Base.{◌≡◌, Bool, true, false, List, [], ◌∷◌}
use home_drive.Base.Text.{Bytes}
use home_drive.Syncer.Types.{Event, RemoteObject, LocalFileInfo}
use home_drive.Syncer.Go.{clock, ctx_err}
use home_drive.Syncer.Go.{
  store_put, store_view, store_set_meta, local_rename, local_mkdir_parent, remote_download,
  remote_copy, remote_move,
}
use home_drive.Syncer.Safe.{
  Only, Only-bind, Only-pure, Only-call, only_rules, Only-split, Only-lift, Only-check, Only-result,
  Only-option, Only-if, Only-attempt, Only-tell, Only-scoped,
}
use home_drive.Syncer.Bisync.Defs.{
  BisyncConfig, Bisync, FileDiff, local_only, remote_only, conflicting,
}
use home_drive.Syncer.Bisync.Resolve.{
  Counts, mark_for_prune, sync_local_to_remote, sync_remote_to_local, resolve_local_wins,
  resolve_remote_wins, resolve_conflict, sync_diff, sync_diffs,
}
use home_drive.Syncer.Bisync.Repair.{repair_chains}
use home_drive.Syncer.Bisync.Pass.{
  write_audit, publish_event, should_repair_chains, run_chain_repair, prune_after_conflict,
  prune_all, sweep, should_sweep, sweep_if_due, prune_pending, report_pass, sync_all, repair_if_due,
  pass, repair_deps,
}
use home_drive.Syncer.Bisync.Pass.Locked.{
  Inside, walk_local-Inside, list_remote-Inside, diff-Inside, prune-Inside, sweep_old_files-Inside,
  repair_all-Inside,
}

module _ (cfg : BisyncConfig) where
  mark-Inside : (b : Bytes) → Only (Inside cfg.dry_run) (mark_for_prune b)
  unfolding mark_for_prune
  mark-Inside b = search only_rules

  push_new-Inside : (l : LocalFileInfo) → Only (Inside cfg.dry_run) (sync_local_to_remote cfg l)
  unfolding sync_local_to_remote
  push_new-Inside l =
      Only-split _ _ _ (λ dry. Only-pure tt)
        λ wet. Only-call (remote_copy _ _) _ wet λ copied.
          Only-bind _ _ (Only-lift copied)
            λ obj. Only-call clock _ tt λ now. Only-call (store_put _) _ wet Only-check

  pull_new-Inside : (r : RemoteObject) → Only (Inside cfg.dry_run) (sync_remote_to_local cfg r)
  unfolding sync_remote_to_local
  pull_new-Inside r =
      Only-split _ _ _ (λ dry. Only-pure tt)
        λ wet. Only-call (local_mkdir_parent _) _ wet λ made. Only-bind _ _ (Only-check made) λ _.
          Only-call (remote_download _) _ wet λ got.
            Only-bind _ _ (Only-check got)
              λ _. Only-call clock _ tt λ now. Only-call (store_put _) _ wet Only-check

  local_wins-Inside :
      (l : LocalFileInfo) (r : RemoteObject)
      → cfg.dry_run ≡ false
      → Only (Inside cfg.dry_run) (resolve_local_wins cfg l r)
  unfolding resolve_local_wins
  local_wins-Inside l r wet = Only-call store_view _ tt λ exists.
      Only-call (remote_move _ _) _ wet λ moved. Only-bind _ _ (Only-check moved) λ _.
        Only-call (remote_copy _ _) _ wet λ copied. Only-bind _ _ (Only-lift copied) λ obj.
          Only-call clock _ tt λ now. Only-call (store_put _) _ wet λ recorded.
            Only-bind _ _ (Only-check recorded) λ _. Only-call clock _ tt λ later.
              Only-call (store_put _) _ wet
                λ kept. Only-bind _ _ (Only-check kept) (λ _. mark-Inside _)

  remote_wins-Inside :
      (l : LocalFileInfo) (r : RemoteObject)
      → cfg.dry_run ≡ false
      → Only (Inside cfg.dry_run) (resolve_remote_wins cfg l r)
  unfolding resolve_remote_wins
  remote_wins-Inside l r wet = Only-call store_view _ tt λ exists.
      Only-call (local_rename _ _) _ wet λ renamed. Only-bind _ _ (Only-check renamed) λ _.
        Only-call (local_mkdir_parent _) _ wet λ made. Only-bind _ _ (Only-check made) λ _.
          Only-call (remote_download _) _ wet λ got. Only-bind _ _ (Only-check got) λ _.
            Only-call clock _ tt λ now. Only-call (store_put _) _ wet λ recorded.
              Only-bind _ _ (Only-check recorded) λ _. Only-call clock _ tt λ later.
                Only-call (store_put _) _ wet
                  λ kept. Only-bind _ _ (Only-check kept) (λ _. mark-Inside _)

  resolve-Inside :
      (l : LocalFileInfo) (r : RemoteObject) → Only (Inside cfg.dry_run) (resolve_conflict cfg l r)
  unfolding resolve_conflict
  resolve-Inside l r =
      Only-split _ _ _ (λ dry. Only-pure tt)
        λ wet.
          Only-if _ _ _ (local_wins-Inside l r wet)
            (Only-if _ _ _ (remote_wins-Inside l r wet) (local_wins-Inside l r wet))

  sync_diff-Inside : (d : FileDiff) (n : Counts) → Only (Inside cfg.dry_run) (sync_diff cfg d n)
  unfolding sync_diff
  sync_diff-Inside (local_only l) n = let h = push_new-Inside l in search only_rules
  sync_diff-Inside (remote_only r) n = let h = pull_new-Inside r in search only_rules
  sync_diff-Inside (conflicting l r) n = let h = resolve-Inside l r in search only_rules

  sync_diffs-Inside :
      (ds : List FileDiff) (n : Counts) → Only (Inside cfg.dry_run) (sync_diffs cfg ds n)
  unfolding sync_diffs
  sync_diffs-Inside [] n = search only_rules
  sync_diffs-Inside (d ∷ ds) n = Only-call ctx_err _ tt λ cancelled.
      Only-option cancelled _ _ (Only-bind _ _ (sync_diff-Inside d n) (sync_diffs-Inside ds))
        (λ e. Only-pure n)

  module _ {S : Type 0} where
    write_audit-Inside :
        (n : Counts) (b : Bool) → Only (Inside cfg.dry_run) {S = S} (write_audit cfg n b)
    unfolding write_audit
    write_audit-Inside n b = search only_rules

    publish-Inside : (e : Event) → Only (Inside cfg.dry_run) {S = S} (publish_event cfg e)
    unfolding publish_event
    publish-Inside e = search only_rules

    should_repair-Inside : Only (Inside cfg.dry_run) {S = S} (should_repair_chains cfg)
    unfolding should_repair_chains
    should_repair-Inside = search only_rules

    repair_chains-Inside :
        (dry : Bool) (ls : List LocalFileInfo) (rs : List RemoteObject)
        → Only (Inside dry) {S = S} (repair_chains (repair_deps cfg dry) ls rs)
    unfolding repair_chains
    repair_chains-Inside dry ls rs =
        Only-bind _ _ (Only-scoped _ _ (repair_all-Inside (repair_deps cfg dry) _))
          (λ _. Only-pure _)

    pub run_chain_repair-Inside :
        (dry mark_done : Bool) → Only (Inside dry) {S = S} (run_chain_repair cfg dry mark_done)
    unfolding run_chain_repair
    run_chain_repair-Inside dry mark_done = Only-bind _ _ (walk_local-Inside dry) λ ls.
        Only-bind _ _ (list_remote-Inside dry) λ rs.
          Only-bind _ _ (repair_chains-Inside dry ls rs) λ report.
            Only-split _ _ _ (λ on. Only-pure report)
              λ wet.
                Only-if _ _ _ (Only-pure report)
                  (Only-bind _ _ (Only-tell (store_set_meta _ _) wet) (λ _. Only-pure report))

    prune_after-Inside :
        (b : Bytes) → Only (Inside cfg.dry_run) {S = S} (prune_after_conflict cfg b)
    unfolding prune_after_conflict
    prune_after-Inside b = let h = prune-Inside {S = S} cfg in search only_rules

    prune_all-Inside : (bs : List Bytes) → Only (Inside cfg.dry_run) {S = S} (prune_all cfg bs)
    unfolding prune_all
    prune_all-Inside [] = search only_rules
    prune_all-Inside (b ∷ bs) =
        let h = prune_after-Inside b in let ih = prune_all-Inside bs in search only_rules

    sweep-Inside : Only (Inside cfg.dry_run) {S = S} (sweep cfg)
    unfolding sweep
    sweep-Inside = let h = sweep_old_files-Inside {S = S} cfg in search only_rules

  should_sweep-Inside : Only (Inside cfg.dry_run) (should_sweep cfg)
  unfolding should_sweep
  should_sweep-Inside = search only_rules

  sweep_if_due-Inside : Only (Inside cfg.dry_run) (sweep_if_due cfg)
  unfolding sweep_if_due
  sweep_if_due-Inside =
      Only-bind _ _ should_sweep-Inside
        λ due. let h = sweep-Inside {S = Bisync} in search only_rules depth 8

  prune_pending-Inside : Only (Inside cfg.dry_run) (prune_pending cfg)
  unfolding prune_pending
  prune_pending-Inside = let h = prune_all-Inside {S = Bisync} in search only_rules

  report_pass-Inside : (n : Counts) (b : Bool) → Only (Inside cfg.dry_run) (report_pass cfg n b)
  unfolding report_pass
  report_pass-Inside n b =
      let h = write_audit-Inside {S = Bisync} n b in
      let k = publish-Inside {S = Bisync} in search only_rules

  sync_all-Inside : (ds : List FileDiff) → Only (Inside cfg.dry_run) (sync_all cfg ds)
  unfolding sync_all
  sync_all-Inside ds = Only-bind _ _ (sync_diffs-Inside ds _) λ n.
      Only-bind _ _ prune_pending-Inside λ _.
        Only-bind _ _ sweep_if_due-Inside
          λ _. Only-call clock _ tt (λ now. report_pass-Inside n false)

  repair_if_due-Inside : Only (Inside cfg.dry_run) (repair_if_due cfg)
  unfolding repair_if_due
  repair_if_due-Inside = Only-bind _ _ should_repair-Inside λ due.
      Only-if _ _ _
        (Only-bind _ _ (Only-attempt _ (run_chain_repair-Inside cfg.dry_run true))
          (λ _. Only-pure tt))
        (Only-pure tt)

  pub pass-Inside : Only (Inside cfg.dry_run) (pass cfg)
  unfolding pass
  pass-Inside = Only-bind _ _ repair_if_due-Inside λ _.
      Only-bind _ _ (Only-attempt _ (diff-Inside cfg.dry_run))
        λ r. Only-result r _ _ sync_all-Inside (λ e. report_pass-Inside _ true)
