-- ===== src/Syncer/Prune/Sweep.antt =====
-- `SweepOldFiles` of internal/store/prune.go: the retention over the whole journal.
use home_drive.Base.{none, some, List, [], ◌∷◌, ◌++◌, if◌then◌else◌}
use home_drive.Base.Text.{Bytes, bytes_eq}
use home_drive.Base.Time.{Time}
use home_drive.OldSuffix.{Matcher, trim_one}
use home_drive.Syncer.Types.{JournalEntry}
use home_drive.Syncer.Go.{Go, clock, store_entries, pure, perform, lift, ◌>>=◌}
use home_drive.Syncer.Prune.{RetentionPolicy, PruneDeps, select_evictions, evict_all}

-- The groups by base, in the order in which the map is walked.
abbrev pub Groups : Type 0
Groups = List (Bytes × List JournalEntry)

unfoldable pub add_to_group : Bytes → JournalEntry → Groups → Groups
add_to_group base e [] = (base, e ∷ []) ∷ []
add_to_group base e ((b, es) ∷ rest) =
    let more = add_to_group base e rest in
    if bytes_eq b base then (b, es ++ e ∷ []) ∷ rest else (b, es) ∷ more

-- The walk of `ForEach` over the entries that are left.
unfoldable pub group : Matcher → List JournalEntry → Groups → Groups
group m [] acc = acc
group m (e ∷ es) acc =
    group m es (elim (trim_one m e.path) [ none ↦ acc | some (base, _) ↦ add_to_group base e acc ])

module _ {S : Type 0} where
  unfoldable pub sweep_groups : PruneDeps → RetentionPolicy → Time → Groups → Go S (List Bytes)
  sweep_groups deps policy now [] = pure []
  sweep_groups deps policy now ((base, siblings) ∷ rest) = do
    gone ← evict_all deps base (select_evictions deps.matcher base siblings policy now)
    more ← sweep_groups deps policy now rest
    pure (gone ++ more)

  unfoldable pub sweep_old_files : PruneDeps → RetentionPolicy → Go S (List Bytes)
  sweep_old_files deps policy = do
    walked ← perform store_entries
    entries ← lift walked
    now ← perform clock
    sweep_groups deps policy now (group deps.matcher entries [])
