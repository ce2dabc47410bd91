-- ===== src/Store/Tests/Journal.antt =====
-- The journal and the resolver on the bucket of Store/Tests.antt, and the theorems at such data.
use home_drive.Base.{sym}
use home_drive.Base.{◌≡◌, ◌≢◌, refl, true, false, none, some, [], ◌∷◌, arith}
use home_drive.Base.Text.{Bytes, codes, bytes_eq, has_prefix, has_suffix, trim_suffix, last_index}
use home_drive.OldSuffix.{
  Matcher, next_old_n, format, base, strip, trim_one, trim_rest, check_parts, itoa, collapse, probe,
}
use home_drive.Syncer.Types.{local, remote}
use home_drive.Store.Bucket.{Among, at_most}
use home_drive.Store.Journal.{
  put, get, exists, delete, decoded, not_found, list_by_prefix, list_entries,
}
use home_drive.Store.Journal
use home_drive.Store.Journal.Reads.{list_by_prefix-Among}
use home_drive.Store.Resolver.{
  newer_wins, ConflictInput, ConflictResult, newer_wins_by, resolved, resolve, record_loser,
  next_old_path, store_winner, newer_side, other_side, resolution_of, loser_entry,
}
use home_drive.Store.Resolver.Names.{resolve-next_old_path}
use home_drive.Store.Tests.{
  Cell, cell, cell_laws, plain, entry, sibling, cell_get, cell_put, cell_delete, cell_seek,
}

abbrev path : Bytes
path = codes "photos2/x"

written : put cell plain none (entry path) ≡ some sibling
unfolding put cell_put
written = refl

deleted : delete cell plain sibling path ≡ some none
unfolding delete cell_delete bytes_eq
deleted = refl

held : get cell plain sibling path ≡ Journal.entry (entry path)
unfolding get decoded cell_get bytes_eq
held = refl

below : has_prefix path (codes "photos") ≡ true
unfolding has_prefix
below = refl

listed : list_by_prefix cell plain sibling (codes "photos") ≡ some (entry path ∷ [])
unfolding list_by_prefix list_entries cell_seek at_most has_prefix
listed = refl

list_by_prefix-Among_example : Among (entry path) (entry path ∷ [])
list_by_prefix-Among_example =
    list_by_prefix-Among cell plain cell_laws sibling (codes "photos") path (entry path)
      (entry path ∷ []) held below listed

abbrev matcher : Matcher
matcher = record { pre = codes ".old."; post = [] }

abbrev conflict : ConflictInput
conflict = record { path = codes "f"; local_mtime = 5; remote_mtime = 3; remote_md5 = codes "0f" }

abbrev result : ConflictResult
result = record { winner = local; loser_side = remote; old_path = codes "f.old.1"; warning = false }

abbrev loser : Cell
loser = some (codes "f.old.1", loser_entry remote conflict (codes "f.old.1") 9)

settled :
    resolve cell plain matcher newer_wins none conflict 9
    ≡ resolved result (newer_wins_by local) loser
unfolding resolve record_loser next_old_path store_winner newer_side other_side resolution_of
    loser_entry put exists cell_get cell_put next_old_n collapse probe format itoa base strip
    trim_one trim_rest check_parts has_suffix trim_suffix last_index has_prefix
settled = refl

free_two :
    exists cell plain loser
      (format matcher (next_old_n matcher (codes "f") (exists cell plain loser)).0 2)
    ≡ false
unfolding exists cell_get bytes_eq next_old_n collapse probe format itoa base strip trim_one
    trim_rest check_parts has_suffix trim_suffix last_index has_prefix loser_entry
free_two = refl

resolve-next_old_path_example :
    ((get cell plain loser (codes "f.old.1")
        ≡ Journal.entry (loser_entry remote conflict (codes "f.old.1") 9))
      × (remote ≡ other_side local))
    × (next_old_path cell plain matcher loser (codes "f") ≢ codes "f.old.1")
resolve-next_old_path_example =
    resolve-next_old_path cell plain matcher cell_laws newer_wins none loser conflict 9 result
      (newer_wins_by local) (codes "f") 2 (λ v e. sym e) settled (omega arith) (omega arith)
      free_two
