-- ===== src/Syncer/Prune.antt =====
-- internal/store/prune.go with the closures of `pruneDeps` in internal/syncer/conflict.go: the
-- retention of conflict losers. A limit of 0 stands for every limit that is not positive.
pub mod Select
pub mod Justified
pub mod Sweep
pub mod Calls
use home_drive.Base.{
  ℕ, zero, suc, ◌+◌, ◌-◌, ◌^◌, Bool, true, false, not, ◌&&◌, ◌||◌, Option, none, some,
}
use home_drive.Base.{List, [], ◌∷◌, ◌++◌, ltb, leb, ◌==◌, if◌then◌else◌}
use Prim.Native.Nat.{min}
use home_drive.Base.Text.{Bytes, bytes_eq}
use home_drive.Base.Time.{Time}
use home_drive.OldSuffix.{Matcher, trim_one}
use home_drive.Syncer.Types.{
  Error, is_err, not_found, JournalEntry, Origin, local, remote, removed, absent, refused, Removal,
}
use home_drive.Syncer.Types.{AuditEntry, conflict_gc, conflict_pruned}
use home_drive.Syncer.Go.{
  Go, Call, clock, local_remove, remote_delete, store_delete, store_siblings, publish, audit,
}
use home_drive.Syncer.Go.{ok, fail, pure, raise, perform, check, lift, tell, attempt, ◌>>=◌, ◌>>◌}

pub record RetentionPolicy : Type 0 where
  pub max_per_file : ℕ
  pub max_age : ℕ

pub data Reason : Type 0 where
  max_age_reached max_per_file_reached : Reason

pub record Eviction : Type 0 where
  pub entry : JournalEntry
  pub reason : Reason

pub record Indexed : Type 0 where
  pub entry : JournalEntry
  pub n : ℕ

-- The candidates that are direct siblings of `base`, with their numbers.
unfoldable pub siblings_of : Matcher → Bytes → List JournalEntry → List Indexed
siblings_of m base [] = []
siblings_of m base (e ∷ es) =
    let rest = siblings_of m base es in
    elim (trim_one m e.path) [
      | none ↦ rest
      | some (trimmed, n) ↦
          if bytes_eq trimmed base then record { entry = e; n = n } ∷ rest else rest
    ]

-- The order of `sort.Slice`: later synced first, then the greater number.
unfoldable pub before : Indexed → Indexed → Bool
before a b =
    if a.entry.last_synced_at == b.entry.last_synced_at
    then ltb b.n a.n
    else ltb b.entry.last_synced_at a.entry.last_synced_at

unfoldable pub insert : Indexed → List Indexed → List Indexed
insert a [] = a ∷ []
insert a (b ∷ bs) = if before b a then b ∷ insert a bs else a ∷ b ∷ bs

unfoldable pub sort : List Indexed → List Indexed
sort [] = []
sort (a ∷ rest) = insert a (sort rest)

-- `now.Sub(t)` saturates at 2^63 - 1; a negative age is never above a positive limit.
unfoldable pub too_old : RetentionPolicy → Time → Indexed → Bool
too_old policy now s =
    ltb 0 policy.max_age && ltb policy.max_age (min (now - s.entry.last_synced_at) (2 ^ 63 - 1))

unfoldable pub over_count : RetentionPolicy → ℕ → Bool
over_count policy i = ltb 0 policy.max_per_file && leb policy.max_per_file i

-- The loop over the sorted siblings, from index `i`.
unfoldable pub pick : RetentionPolicy → Time → ℕ → List Indexed → List Eviction
pick policy now i [] = []
pick policy now i (s ∷ ss) =
    let rest = pick policy now (i + 1) ss in
    if too_old policy now s
    then record { entry = s.entry; reason = max_age_reached } ∷ rest
    else if over_count policy i
    then record { entry = s.entry; reason = max_per_file_reached } ∷ rest
    else rest

unfoldable pub select_evictions :
    Matcher → Bytes → List JournalEntry → RetentionPolicy → Time → List Eviction
select_evictions m base candidates policy now =
    pick policy now 0 (sort (siblings_of m base candidates))

pub record PruneDeps : Type 0 where
  pub matcher : Matcher
  pub has_auditor : Bool
  pub has_publisher : Bool
  pub dry_run : Bool

module _ {S : Type 0} where
  -- `RemoveLocal`: a file that is not there counts as removed.
  unfoldable pub remove_local_loser : Bytes → Go S Unit
  remove_local_loser p = do
    r ← perform (local_remove p)
    elim r [ removed ↦ pure tt | absent ↦ pure tt | refused e ↦ raise e ]

  -- `RemoveRemote`: an object that is not there counts as removed.
  unfoldable pub remove_remote_loser : Bytes → Go S Unit
  remove_remote_loser p = do
    r ← perform (remote_delete p)
    elim r [ none ↦ pure tt | some e ↦ if is_err e not_found then pure tt else raise e ]

  unfoldable pub remove_evicted : JournalEntry → Go S Unit
  remove_evicted e = elim e.last_origin [
    | remote ↦ remove_remote_loser e.path
    | local ↦ remove_local_loser e.path
  ]

  unfoldable pub publish_pruned : PruneDeps → Bytes → Bytes → Bool → Go S Unit
  publish_pruned deps base path dry =
      if deps.has_publisher then tell (publish (conflict_pruned base path dry)) else pure tt

  -- The audit line and the event of an eviction. A journal entry that cannot be deleted is only
  -- logged.
  unfoldable pub evicted : PruneDeps → Bytes → Eviction → Go S Bool
  evicted deps base ev = do
    failed ← perform (store_delete ev.entry.path)
    if deps.has_auditor
        then tell (
            audit
              (record { op = conflict_gc; path = ev.entry.path; dry_run = false; failed = false }))
        else pure tt
    publish_pruned deps base ev.entry.path false
    pure true

  unfoldable pub evict : PruneDeps → Bytes → Eviction → Go S Bool
  evict deps base ev =
      if deps.dry_run
      then (publish_pruned deps base ev.entry.path true >> pure false)
      else (attempt (remove_evicted ev.entry) >>= λ r. elim r [
        | fail e ↦ pure false
        | ok _ ↦ evicted deps base ev
      ])

  unfoldable pub evict_all : PruneDeps → Bytes → List Eviction → Go S (List Bytes)
  evict_all deps base [] = pure []
  evict_all deps base (ev ∷ evs) = do
    gone ← evict deps base ev
    rest ← evict_all deps base evs
    pure (if gone then ev.entry.path ∷ rest else rest)

  unfoldable pub prune_old_siblings : PruneDeps → RetentionPolicy → Bytes → Go S (List Bytes)
  prune_old_siblings deps policy base = do
    found ← perform (store_siblings (base ++ deps.matcher.pre))
    candidates ← lift found
    now ← perform clock
    evict_all deps base (select_evictions deps.matcher base candidates policy now)
