-- ===== src/Syncer/Bisync/Pass/Locked.antt =====
-- The calls of a bisync pass under the mutex of the workers.
use home_drive.Base.{◌≡◌, Bool, true, false, List, [], ◌∷◌}
use home_drive.Base.Text.{Bytes}
use home_drive.Base.Time.{Time}
use home_drive.Syncer.Types.{
  RemoteObject, LocalFileInfo, JournalEntry, WalkEntry, walk_error, walk_dir, walk_file,
  walk_stat_error,
}
use home_drive.Syncer.Go.{Call}
use home_drive.Syncer.Go.{
  store_get, store_put, store_delete, store_set_token, store_rewrite_prefix, store_set_meta,
  local_remove, local_rename, local_mkdir_parent, remote_download, remote_copy, remote_move,
  remote_delete, bisync_lock, bisync_unlock, bisync_rlock, bisync_runlock,
}
use home_drive.Syncer.Safe.{
  Only, Only-bind, Only-pure, Only-read, Only-call, only_rules, Only-split, Only-check, Only-result,
  Only-option, Only-if, Only-attempt, Only-raise, Only-removal, Only-origin,
}
use home_drive.Syncer.Prune.{
  RetentionPolicy, Eviction, evict, evict_all, evicted, remove_evicted, remove_local_loser,
  remove_remote_loser, publish_pruned, prune_old_siblings,
}
use home_drive.Syncer.Prune.Sweep.{Groups, sweep_groups, sweep_old_files}
use home_drive.Syncer.Bisync.Defs.{BisyncConfig, prune_deps}
use home_drive.Base.Maps.{Map, lookup}
use home_drive.Syncer.Bisync.Diff.{
  walk_entries, walk_local, list_remote, diff_local_against_remote, diff,
}
use home_drive.Syncer.Bisync.Repair.{
  RepairDeps, Candidate, rename_link, carry_entry, repair_one, repair_all,
}

-- Calls that leave the mutex alone, and in a dry run change no file, no journal entry, no mark of
-- the journal and no remote object.
abbrev pub Inside : Bool → Call → Type 0
Inside dry (store_put _) = dry ≡ false
Inside dry (store_delete _) = dry ≡ false
Inside dry (store_set_token _) = ⊥
Inside dry (store_rewrite_prefix _ _) = ⊥
Inside dry (store_set_meta _ _) = dry ≡ false
Inside dry (local_remove _) = dry ≡ false
Inside dry (local_rename _ _) = dry ≡ false
Inside dry (local_mkdir_parent _) = dry ≡ false
Inside dry (remote_download _) = dry ≡ false
Inside dry (remote_copy _ _) = dry ≡ false
Inside dry (remote_move _ _) = dry ≡ false
Inside dry (remote_delete _) = dry ≡ false
Inside dry bisync_lock = ⊥
Inside dry bisync_unlock = ⊥
Inside dry bisync_rlock = ⊥
Inside dry bisync_runlock = ⊥
Inside dry _ = Unit

module _ {S : Type 0} where
  walk_entries-Inside :
      (dry : Bool) (es : List WalkEntry) → Only (Inside dry) {S = S} (walk_entries es)
  unfolding walk_entries
  walk_entries-Inside dry [] = search only_rules
  walk_entries-Inside dry (walk_error e ∷ es) = search only_rules
  walk_entries-Inside dry (walk_dir ∷ es) = let ih = walk_entries-Inside dry es in search only_rules
  walk_entries-Inside dry (walk_stat_error e ∷ es) = search only_rules
  walk_entries-Inside dry (walk_file p i ∷ es) =
      let ih = walk_entries-Inside dry es in search only_rules

  pub walk_local-Inside : (dry : Bool) → Only (Inside dry) {S = S} walk_local
  unfolding walk_local
  walk_local-Inside dry = let ih = walk_entries-Inside dry in search only_rules

  pub list_remote-Inside : (dry : Bool) → Only (Inside dry) {S = S} list_remote
  unfolding list_remote
  list_remote-Inside dry = search only_rules

  against_remote-Inside :
      (dry : Bool) (ls : Map LocalFileInfo) (rs : Map RemoteObject)
      → Only (Inside dry) {S = S} (diff_local_against_remote ls rs)
  unfolding diff_local_against_remote
  against_remote-Inside dry [] rs = search only_rules
  against_remote-Inside dry ((p, l) ∷ ls) rs =
      let ih = against_remote-Inside dry ls rs in
      Only-option (lookup p rs) _ _ (search only_rules) (λ r. search only_rules)

  pub diff-Inside : (dry : Bool) → Only (Inside dry) {S = S} diff
  unfolding diff
  diff-Inside dry =
      let a = walk_local-Inside dry in
      let b = list_remote-Inside dry in let c = against_remote-Inside dry in search only_rules

module _ {S : Type 0} (cfg : BisyncConfig) where
  publish_pruned-Inside :
      (b p : Bytes) (d : Bool)
      → Only (Inside cfg.dry_run) {S = S} (publish_pruned (prune_deps cfg) b p d)
  unfolding publish_pruned
  publish_pruned-Inside b p d = search only_rules

  module _ (wet : cfg.dry_run ≡ false) where
    remove_local-Inside : (p : Bytes) → Only (Inside cfg.dry_run) {S = S} (remove_local_loser p)
    unfolding remove_local_loser
    remove_local-Inside p =
        Only-call (local_remove p) _ wet
          λ r. Only-removal r _ _ _ (Only-pure tt) (Only-pure tt) Only-raise

    remove_remote-Inside : (p : Bytes) → Only (Inside cfg.dry_run) {S = S} (remove_remote_loser p)
    unfolding remove_remote_loser
    remove_remote-Inside p =
        Only-call (remote_delete p) _ wet
          λ r. Only-option r _ _ (Only-pure tt) (λ e. Only-if _ _ _ (Only-pure tt) (Only-raise e))

    remove_evicted-Inside :
        (e : JournalEntry) → Only (Inside cfg.dry_run) {S = S} (remove_evicted e)
    unfolding remove_evicted
    remove_evicted-Inside e =
        Only-origin e.last_origin _ _ (remove_local-Inside e.path) (remove_remote-Inside e.path)

    evicted-Inside :
        (b : Bytes) (ev : Eviction)
        → Only (Inside cfg.dry_run) {S = S} (evicted (prune_deps cfg) b ev)
    unfolding evicted
    evicted-Inside b ev = let h = publish_pruned-Inside in search only_rules

  evict-Inside :
      (b : Bytes) (ev : Eviction) → Only (Inside cfg.dry_run) {S = S} (evict (prune_deps cfg) b ev)
  unfolding evict
  evict-Inside b ev =
      Only-split _ _ _
        (λ dry. Only-bind _ _ (publish_pruned-Inside b _ true) (λ _. Only-pure false))
        (λ wet.
          Only-bind _ _ (Only-attempt _ (remove_evicted-Inside wet _))
            λ r. Only-result r _ _ (λ _. evicted-Inside wet b ev) (λ e. Only-pure false))

  evict_all-Inside :
      (b : Bytes) (evs : List Eviction)
      → Only (Inside cfg.dry_run) {S = S} (evict_all (prune_deps cfg) b evs)
  unfolding evict_all
  evict_all-Inside b [] = search only_rules
  evict_all-Inside b (ev ∷ evs) =
      let h = evict-Inside b ev in let ih = evict_all-Inside b evs in search only_rules

  pub prune-Inside :
      (p : RetentionPolicy) (b : Bytes)
      → Only (Inside cfg.dry_run) {S = S} (prune_old_siblings (prune_deps cfg) p b)
  unfolding prune_old_siblings
  prune-Inside p b = let h = evict_all-Inside in search only_rules

  sweep_groups-Inside :
      (p : RetentionPolicy) (now : Time) (gs : Groups)
      → Only (Inside cfg.dry_run) {S = S} (sweep_groups (prune_deps cfg) p now gs)
  unfolding sweep_groups
  sweep_groups-Inside p now [] = search only_rules
  sweep_groups-Inside p now ((b, es) ∷ gs) =
      let h = evict_all-Inside b in let ih = sweep_groups-Inside p now gs in search only_rules

  pub sweep_old_files-Inside :
      (p : RetentionPolicy) → Only (Inside cfg.dry_run) {S = S} (sweep_old_files (prune_deps cfg) p)
  unfolding sweep_old_files
  sweep_old_files-Inside p = let h = sweep_groups-Inside p in search only_rules

module _ (deps : RepairDeps) where
  module _ (wet : deps.dry_run ≡ false) where
    rename_link-Inside :
        (c : Candidate) (p : Bytes) → Only (Inside deps.dry_run) (rename_link deps c p)
    unfolding rename_link
    rename_link-Inside c p =
        Only-origin c.side _ _ (Only-call (local_rename c.path p) _ wet Only-check)
          (Only-call (remote_move c.path p) _ wet Only-check)

    carry_entry-Inside :
        (c : Candidate) (p : Bytes) → Only (Inside deps.dry_run) (carry_entry deps c p)
    unfolding carry_entry
    carry_entry-Inside c p = Only-call (store_get c.path) _ tt λ got.
        Only-call (store_delete c.path) _ wet λ _.
          Only-result got _ _
            (λ o. Only-option o _ _ (Only-pure tt) (λ e. Only-call (store_put _) _ wet Only-check))
            (λ e. Only-pure tt)

    repair_one-Inside :
        (c : Candidate) (p : Bytes) → Only (Inside deps.dry_run) (repair_one deps c p)
    unfolding repair_one
    repair_one-Inside c p =
        let a = rename_link-Inside c p in
        let b = carry_entry-Inside c p in search only_rules depth 12

  pub repair_all-Inside : (cs : List Candidate) → Only (Inside deps.dry_run) (repair_all deps cs)
  unfolding repair_all
  repair_all-Inside [] = search only_rules
  repair_all-Inside (c ∷ cs) = Only-bind _ _ Only-read λ sets.
      Only-split _ _ _ (λ dry. Only-bind _ _ (repair_all-Inside cs) (λ _. Only-pure _))
        (λ wet.
          Only-bind _ _ (Only-attempt _ (repair_one-Inside wet c _))
            λ r. Only-bind _ _ (repair_all-Inside cs) (λ _. Only-pure _))
