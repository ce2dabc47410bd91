-- ===== src/Watcher/Tests.antt =====
-- Runs of the debouncer, and the theorem at such a run.
mod Run
use home_drive.Base.{◌≡◌, refl, none, List, [], ◌∷◌}
use home_drive.Base.Text.{Bytes, codes, bytes_eq, has_prefix}
use home_drive.Watcher.Debouncer.{
  Event, Op, op_create, op_write, op_remove, new_debouncer, Input, added, fired, prefix_suppressed,
  steps, step, add, fire, keep, set, forget, suppress_prefix, emitted, is_create, is_write,
}
use home_drive.Watcher.Debouncer.Latest.{InSync, reacts, of_path, steps-reacts}

abbrev event : Bytes → Op → Event
event p o = record { path = p; op = o; at = 0 }

-- A file is created and written, another removed below a directory that is renamed.
abbrev inputs : List Input
inputs =
    added (event (codes "a") op_create)
    ∷ added (event (codes "d/b") op_remove)
    ∷ added (event (codes "a") op_write)
    ∷ prefix_suppressed (codes "d/")
    ∷ fired (codes "d/b")
    ∷ fired (codes "a")
    ∷ fired (codes "a")
    ∷ []

create_wins : (steps inputs new_debouncer).1 ≡ event (codes "a") op_create ∷ []
unfolding steps step add fire keep set forget suppress_prefix emitted is_create is_write bytes_eq
    has_prefix
create_wins = refl

steps-reacts_example :
    InSync (steps inputs new_debouncer).0
    × ((p : Bytes)
        → ((steps inputs new_debouncer).0.pending p ≡ (reacts p inputs none).0)
          × (of_path p (steps inputs new_debouncer).1 ≡ (reacts p inputs none).1))
steps-reacts_example = steps-reacts inputs
