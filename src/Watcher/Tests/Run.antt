-- ===== src/Watcher/Tests/Run.antt =====
-- A directory that is renamed in a watched tree, and the theorems at such data.
use home_drive.Base.{◌≡◌, refl, true, false, none, List, [], ◌∷◌, inr, arith}
use home_drive.Base.Text.{Bytes, codes, bytes_eq, has_prefix}
use home_drive.Base.Maps.{store, erase, has_path}
use home_drive.Watcher.Debouncer.Latest.{has}
use home_drive.Watcher.Pairer.{
  Pairer, DirRename, consumed, paired, new_pairer, below, handle_rename, handle_create,
  expire_rename, oldest, fresh, is_tracked_dir, suppress_pair,
}
use home_drive.Base.{List}
use home_drive.Watcher.Pairer.Answers.Waits.{Turn, renames, creates, turns, handle_rename-Expires}
use home_drive.Watcher.Pairer.Answers.{Expires, FromOldest, handle_create-FromOldest}
use home_drive.Watcher.Loop.{World, Watcher, FsEvent, leaf, dispatch, handle_fs_event}
use home_drive.Watcher.Run.{Input, fs_event, rename_expired, received, steps, new_watcher}
use home_drive.Watcher.Run.Bounded.{WellFormed, steps-WellFormed}
use home_drive.Watcher.Run.Quiet.{Dropped, dispatch-Dropped}

abbrev tracked : Pairer
tracked = record new_pairer { watched_dirs = codes "/r/old" ∷ [] }

abbrev waiting : Pairer
waiting = record tracked { pending = (codes "/r/old", 5) ∷ [] }

abbrev world : World
world = record {
  checked_at = 6;
  now = 7;
  paired_at = 8;
  pair_is_dir = true;
  is_dir = true;
  stat = λ p. none;
  sync_record = λ p. none;
  watch_added = λ p. true;
  tree = λ p. leaf;
}

abbrev created : Bytes → FsEvent
created p = record {
  name = p;
  has_create = true;
  has_write = false;
  has_remove = false;
  has_rename = false;
}

abbrev renamed : Bytes → FsEvent
renamed p = record (created p) { has_create = false; has_rename = true }

abbrev pairing : Watcher
pairing = record new_watcher { pairer = waiting }

abbrev dr : DirRename
dr = record { from = codes "/r/old"; to = codes "/r/new"; at = 7 }

abbrev after_rename : Pairer
after_rename = (handle_rename 500 (codes "/r/old") 5 6 tracked).0

buffered : handle_rename 500 (codes "/r/old") 5 6 tracked ≡ (waiting, consumed)
unfolding handle_rename oldest fresh is_tracked_dir has_path store bytes_eq
buffered = refl

-- Another directory is renamed before the timer runs, and a file is created.
abbrev meanwhile : List Turn
meanwhile = renames (codes "/r/x") 6 7 ∷ creates (codes "/r/f") false 7 8 ∷ []

handle_rename-Expires_example : Expires (codes "/r/old") 5 (turns 500 meanwhile waiting)
unfolding bytes_eq handle_create
handle_rename-Expires_example =
    handle_rename-Expires 500 (codes "/r/old") 5 6 tracked waiting meanwhile buffered
      (refl, (tt, tt))

abbrev done : Pairer
done = record waiting {
  pending = [];
  suppressed_prefixes = (codes "/r/old/", 508) ∷ (codes "/r/new/", 508) ∷ [];
}

pairs : handle_create 500 (codes "/r/new") true 7 8 waiting ≡ (done, paired dr)
unfolding handle_create oldest suppress_pair store erase bytes_eq
pairs = refl

handle_create-FromOldest_example :
    FromOldest (codes "/r/new") waiting.pending done dr
    × ((expire_rename (codes "/r/old") done).1 ≡ none)
handle_create-FromOldest_example =
    handle_create-FromOldest 500 (codes "/r/new") true 7 8 waiting done dr pairs

pairing-WellFormed : WellFormed pairing
unfolding has
pairing-WellFormed = record { fits = omega arith; in_sync = λ p. (refl, tt) }

below_new : has_prefix (codes "/r/new/f") (below (codes "/r/new")) ≡ true
unfolding has_prefix
below_new = refl

dispatch-Dropped_example :
    Dropped
      (handle_fs_event
        (λ p. false)
        500
        true
        (record world { checked_at = 9 })
        (created (codes "/r/new/f"))
        (dispatch (λ p. false) 500 true world (created (codes "/r/new")) pairing))
      (dispatch (λ p. false) 500 true world (created (codes "/r/new")) pairing)
dispatch-Dropped_example =
    dispatch-Dropped (λ p. false) 500 true world (record world { checked_at = 9 })
      (created (codes "/r/new")) (created (codes "/r/new/f")) pairing done dr pairs
      (inr (inr below_new)) (omega arith)

abbrev inputs : List Input
inputs =
    fs_event world (created (codes "/r/old"))
    ∷ fs_event world (renamed (codes "/r/old"))
    ∷ rename_expired (codes "/r/old")
    ∷ received
    ∷ []

steps-WellFormed_example : WellFormed (steps (λ p. false) 500 true inputs new_watcher)
steps-WellFormed_example = steps-WellFormed (λ p. false) 500 true inputs
