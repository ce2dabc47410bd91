-- ===== src/Watcher/Run.antt =====
-- The inputs of internal/watcher/watcher.go in the order in which they take effect: events of
-- fsnotify, callbacks of the timers of the pairer and of the debouncer, and the consumer of the
-- channel. The start walks the tree once.
pub mod Bounded
pub mod Covered
pub mod Quiet
use home_drive.Base.{ℕ, Bool, true, false, Option, none, some, List, [], ◌∷◌, drop, if◌then◌else◌}
use home_drive.Base.Text.{Bytes}
use home_drive.Watcher.Debouncer.{Event, Debouncer, fire, new_debouncer}
use home_drive.Watcher.Debouncer
use home_drive.Watcher.Pairer
use home_drive.Watcher.Loop.{Forest, leaf, branch, Node, dir, file}
use home_drive.Watcher.Pairer.{track_dir, Pairer, new_pairer, expire_rename}
use home_drive.Watcher.Loop.{
  World, Watcher, FsEvent, Forest, leaf, branch, Node, dir, file, file_event, send, add_watch,
  fire_event, handle_fs_event,
}

abbrev pub new_watcher : Watcher
new_watcher = record { debouncer = new_debouncer; pairer = new_pairer; events = [] }

pub data Input : Type 0 where
  fs_event : World → FsEvent → Input
  rename_expired : Bytes → Input
  debounced : World → Bytes → Input
  received stop_called : Input

unfoldable pub unpaired : Option Event → Watcher → Watcher
unpaired none w = w
unpaired (some ev) w = send (file_event ev) w

module _ (excluded : Bytes → Bool) (window : ℕ) (has_store : Bool) where
  unfoldable pub fired : World → Option Event → Watcher → Watcher
  fired o none w = w
  fired o (some ev) w = fire_event excluded window has_store o ev w

  unfoldable pub step : Input → Watcher → Watcher
  step (fs_event o ev) w = handle_fs_event excluded window has_store o ev w
  step (rename_expired p) w =
      let r = expire_rename p w.pairer in unpaired r.1 (record w { pairer = r.0 })
  step (debounced o p) w = let r = fire p w.debouncer in fired o r.1 (record w { debouncer = r.0 })
  step received w = record w { events = drop 1 w.events }
  step stop_called w = record w {
    debouncer = Debouncer.stop w.debouncer;
    pairer = Pairer.stop w.pairer;
  }

  unfoldable pub steps : List Input → Watcher → Watcher
  steps [] w = w
  steps (i ∷ is) w = steps is (step i w)

-- `initialWalk`, below the root with the root itself: a watch that cannot be added ends the start.
module _ (excluded : Bytes → Bool) (o : World) where
  unfoldable mutual
    pub start_node : Node → Pairer → Option Pairer
    start_node (dir p below_p) s =
        if excluded p
        then some s
        else if o.watch_added p
        then initial_walk below_p (track_dir p s)
        else none
    start_node (file p regular at) s = some s

    pub initial_walk : Forest → Pairer → Option Pairer
    initial_walk leaf s = some s
    initial_walk (branch n ns) s = elim (start_node n s) [
      | none ↦ none
      | some t ↦ initial_walk ns t
    ]
