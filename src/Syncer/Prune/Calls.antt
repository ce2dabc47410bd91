-- ===== src/Syncer/Prune/Calls.antt =====
-- The calls that the retention of conflict losers makes.
use home_drive.Base.{Bool, true, false, List, [], ◌∷◌, ◌++◌}
use home_drive.Base.Text.{Bytes}
use home_drive.Syncer.Types.{
  Event, AuditEntry, JournalEntry, Origin, local, remote, Removal, removed, absent, refused,
  conflict_pruned,
}
use home_drive.Syncer.Go.{
  Call, Go, clock, local_remove, remote_delete, store_delete, store_siblings, publish, audit, pure,
  raise,
}
use home_drive.Syncer.Safe.{
  Only, Only-bind, Only-call, Only-pure, Only-raise, Only-if, Only-tell, Only-lift, Only-option,
  Only-result, Only-attempt,
}
use home_drive.Syncer.Prune.{
  RetentionPolicy, Eviction, PruneDeps, remove_local_loser, remove_remote_loser, remove_evicted,
  publish_pruned, evicted, evict, evict_all, prune_old_siblings,
}

-- The predicate holds of every call that retention can make.
pub record Permits (P : Call → Type 0) : Type 0 where
  pub clock_call : P clock
  pub remove_call : (p : Bytes) → P (local_remove p)
  pub delete_call : (p : Bytes) → P (remote_delete p)
  pub forget_call : (p : Bytes) → P (store_delete p)
  pub siblings_call : (p : Bytes) → P (store_siblings p)
  pub publish_call : (e : Event) → P (publish e)
  pub audit_call : (e : AuditEntry) → P (audit e)

module _ {P : Call → Type 0} (h : Permits P) {S : Type 0} where
  remove_local-Only : (p : Bytes) → Only P {S = S} (remove_local_loser p)
  unfolding remove_local_loser
  remove_local-Only p = Only-call (local_remove p) _ (h.remove_call p) λ r. branch r
    where
      branch :
          (r : Removal)
          → Only P {S = S} {A = Unit} (elim r as (λ _. Go S Unit) [
            | removed ↦ pure tt
            | absent ↦ pure tt
            | refused e ↦ raise e
          ])
      branch removed = Only-pure tt
      branch absent = Only-pure tt
      branch (refused e) = Only-raise e

  remove_remote-Only : (p : Bytes) → Only P {S = S} (remove_remote_loser p)
  unfolding remove_remote_loser
  remove_remote-Only p =
      Only-call (remote_delete p) _ (h.delete_call p)
        λ r. Only-option r _ _ (Only-pure tt) (λ e. Only-if _ _ _ (Only-pure tt) (Only-raise e))

  remove_evicted-Only : (e : JournalEntry) → Only P {S = S} (remove_evicted e)
  unfolding remove_evicted
  remove_evicted-Only e = branch e.last_origin
    where
      branch :
          (o : Origin)
          → Only P {S = S} {A = Unit} (elim o as (λ _. Go S Unit) [
            | remote ↦ remove_remote_loser e.path
            | local ↦ remove_local_loser e.path
          ])
      branch remote = remove_remote-Only e.path
      branch local = remove_local-Only e.path

  publish_pruned-Only :
      (deps : PruneDeps) (b p : Bytes) (dry : Bool) → Only P {S = S} (publish_pruned deps b p dry)
  unfolding publish_pruned
  publish_pruned-Only deps b p dry =
      Only-if _ _ _ (Only-tell (publish (conflict_pruned b p dry)) (h.publish_call _))
        (Only-pure tt)

  evicted-Only : (deps : PruneDeps) (b : Bytes) (ev : Eviction) → Only P {S = S} (evicted deps b ev)
  unfolding evicted
  evicted-Only deps b ev = Only-call (store_delete ev.entry.path) _ (h.forget_call _) λ _.
      Only-bind _ _ (Only-if _ _ _ (Only-tell (audit _) (h.audit_call _)) (Only-pure tt))
        λ _. Only-bind _ _ (publish_pruned-Only deps b ev.entry.path false) (λ _. Only-pure true)

  evict-Only : (deps : PruneDeps) (b : Bytes) (ev : Eviction) → Only P {S = S} (evict deps b ev)
  unfolding evict
  evict-Only deps b ev =
      Only-if _ _ _
        (Only-bind _ _ (publish_pruned-Only deps b ev.entry.path true) (λ _. Only-pure false))
        (Only-bind _ _ (Only-attempt _ (remove_evicted-Only ev.entry))
          λ r. Only-result r _ _ (λ _. evicted-Only deps b ev) (λ _. Only-pure false))

  evict_all-Only :
      (deps : PruneDeps) (b : Bytes) (evs : List Eviction) → Only P {S = S} (evict_all deps b evs)
  unfolding evict_all
  evict_all-Only deps b [] = Only-pure []
  evict_all-Only deps b (ev ∷ evs) =
      Only-bind _ _ (evict-Only deps b ev)
        λ gone. Only-bind _ _ (evict_all-Only deps b evs) (λ rest. Only-pure _)

  pub prune_old_siblings-Only :
      (deps : PruneDeps) (policy : RetentionPolicy) (b : Bytes)
      → Only P {S = S} (prune_old_siblings deps policy b)
  unfolding prune_old_siblings
  prune_old_siblings-Only deps policy b =
      Only-call (store_siblings (b ++ deps.matcher.pre)) _ (h.siblings_call _) λ found.
        Only-bind _ _ (Only-lift found)
          λ candidates. Only-call clock _ h.clock_call λ now. evict_all-Only deps b _
