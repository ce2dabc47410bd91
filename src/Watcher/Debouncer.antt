-- ===== src/Watcher/Debouncer.antt =====
-- internal/watcher/debouncer.go with `Event` and `Op` of types.go. Each method and each callback of
-- a timer holds the lock, so that a run is a sequence of inputs. A callback that could no longer
-- be stopped runs like one of the timer that replaced it: both look only at the pending event.
pub mod Latest
use home_drive.Base.{
  ℕ, Bool, true, false, not, ◌&&◌, ◌||◌, Option, none, some, List, [], ◌∷◌, ◌++◌, if◌then◌else◌,
}
use home_drive.Base.Text.{Bytes, bytes_eq, has_prefix}
use home_drive.Base.Time.{Time}

pub data Op : Type 0 where
  op_create op_write op_remove op_rename op_dir_rename : Op

pub record Event : Type 0 where
  pub path : Bytes
  pub op : Op
  pub at : Time

unfoldable pub is_create : Op → Bool
is_create op_create = true
is_create op_write = false
is_create op_remove = false
is_create op_rename = false
is_create op_dir_rename = false

unfoldable pub is_write : Op → Bool
is_write op_create = false
is_write op_write = true
is_write op_remove = false
is_write op_rename = false
is_write op_dir_rename = false

-- The two maps by path: the armed timers and the pending events.
pub record Debouncer : Type 0 where
  pub timers : Bytes → Bool
  pub pending : Bytes → Option Event

abbrev pub new_debouncer : Debouncer
new_debouncer = record { timers = λ p. false; pending = λ p. none }

-- A map with another value at `p`.
unfoldable pub set {ℓ} : {A : Type ℓ} → Bytes → A → (Bytes → A) → Bytes → A
set p a f q = if bytes_eq q p then a else f q

-- The event that stays pending: a write does not replace a create.
unfoldable pub keep : Option Event → Event → Event
keep none ev = ev
keep (some existing) ev = if is_create existing.op && is_write ev.op then existing else ev

unfoldable pub add : Event → Debouncer → Debouncer
add ev d = record {
  timers = set ev.path true d.timers;
  pending = set ev.path (some (keep (d.pending ev.path) ev)) d.pending;
}

unfoldable pub forget : Bytes → Debouncer → Debouncer
forget p d = record { timers = set p false d.timers; pending = set p none d.pending }

-- The callback of a timer of the path, with the event that it emits.
unfoldable pub fire : Bytes → Debouncer → Debouncer × Option Event
fire p d = elim (d.pending p) [ none ↦ (d, none) | some ev ↦ (forget p d, some ev) ]

unfoldable pub suppress : Bytes → Debouncer → Debouncer
suppress p d = if d.timers p then forget p d else d

unfoldable pub suppress_prefix : Bytes → Debouncer → Debouncer
suppress_prefix prefix d = record {
  timers = λ p. if has_prefix p prefix then false else d.timers p;
  pending = λ p. if d.timers p && has_prefix p prefix then none else d.pending p;
}

unfoldable pub stop : Debouncer → Debouncer
stop d = record { timers = λ p. false; pending = λ p. if d.timers p then none else d.pending p }

pub data Input : Type 0 where
  added : Event → Input
  fired suppressed prefix_suppressed : Bytes → Input
  stopped : Input

-- One input, with the event that is emitted.
unfoldable pub step : Input → Debouncer → Debouncer × Option Event
step (added ev) d = (add ev d, none)
step (fired p) d = fire p d
step (suppressed p) d = (suppress p d, none)
step (prefix_suppressed prefix) d = (suppress_prefix prefix d, none)
step stopped d = (stop d, none)

unfoldable pub emitted : Option Event → List Event
emitted none = []
emitted (some ev) = ev ∷ []

unfoldable pub steps : List Input → Debouncer → Debouncer × List Event
steps [] d = (d, [])
steps (i ∷ is) d =
    let first = step i d in let rest = steps is first.0 in (rest.0, emitted first.1 ++ rest.1)
