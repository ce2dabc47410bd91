-- ===== src/Remote/Rclone/Careful.antt =====
-- What the operations of `RcloneFS` may ask, and when.
pub mod Downloads
pub mod Performs
use mathlib.Core.Option
use home_drive.Base.{
  ℕ, ◌≡◌, refl, ◌∙◌, if◌then◌else◌, Bool, true, false, ◌||◌, Option, none, some, List, [], ◌∷◌, ◌⊎◌,
  inl, inr,
}
use home_drive.Base.Text.{Bytes, bytes_eq}
use home_drive.Base.Time.{Time}
use home_drive.Syncer.Types.{Error, dangling_shortcut}
use home_drive.Syncer.Go.{Result, ok, fail}
use home_drive.Remote.Changes.{join}
use home_drive.Remote.MemFs.{path_base}
use home_drive.Remote.Rclone.{
  Object, Lookup, found, object_absent, names_folder, lookup_failed, Ask, Answer, new_object,
  delete_object, open_object, move_object, upload, copy_stream, close_stream, about, open_local,
  create_local, mkdir_parent, stat_local, close_local, chtimes, Task, done, ask, and_then, guarded,
  deferred, copied_object, copy_file, delete_file, move_file, stat, dangling_shortcut_mime_type,
  fill_local, write_local, download_object, download_file, quota,
}
use home_drive.Remote.Rclone.Watched.{Observer, Passes, Passes-and_then, Passes-deferred}

pub data Operation : Type 0 where
  uploads moves downloads : Bytes → Bytes → Operation
  deletes stats : Bytes → Operation
  asks_usage : Operation

abbrev pub succeeds : Option Error → Bool
succeeds none = true
succeeds (some e) = false

abbrev pub returns_value : {A : Type 0} → Result A → Bool
returns_value (ok a) = true
returns_value (fail e) = false

-- Whether an operation succeeds.
abbrev pub perform : Operation → Task Bool
perform (uploads src dir) = and_then (copy_file src dir) (λ r. done (returns_value r))
perform (moves src dst) = and_then (move_file src dst) (λ e. done (succeeds e))
perform (downloads p q) = and_then (download_file p q) (λ e. done (succeeds e))
perform (deletes p) = and_then (delete_file p) (λ e. done (succeeds e))
perform (stats p) = and_then (stat p) (λ r. done (returns_value r))
perform asks_usage = and_then quota (λ r. done (returns_value r))

-- The object that was found, the time of the local file that is read, whether a stream of the remote
-- or a local file is open, whether all of a stream was copied to the file that is open, whether a
-- local file was created or emptied, and whether the operation is complete: the call of rclone that
-- changes the remote succeeded, or a file to which a whole stream was copied was closed.
pub record Held : Type 0 where
  pub object : Option Object
  pub local_time : Option Time
  pub stream : Bool
  pub file : Bool
  pub copied : Bool
  pub created : Bool
  pub complete : Bool

abbrev pub nothing_held : Held
nothing_held = record {
  object = none;
  local_time = none;
  stream = false;
  file = false;
  copied = false;
  created = false;
  complete = false;
}

abbrev pub held_step : Held → (a : Ask) → Answer a → Held
held_step h (new_object p) (found o) = record h { object = some o }
held_step h (delete_object o) none = record h { complete = true }
held_step h (move_object p o) none = record h { complete = true }
held_step h (upload p t) (ok o) = record h { file = false; complete = true }
held_step h (upload p t) (fail e) = record h { file = false }
held_step h (open_object o) none = record h { stream = true }
held_step h close_stream r = record h { stream = false }
held_step h (open_local p) none = record h { file = true }
held_step h (create_local p) none = record h { file = true; created = true }
held_step h stat_local (ok t) = record h { local_time = some t }
held_step h copy_stream none = record h { copied = true }
held_step h close_local none = record h {
  file = false;
  copied = false;
  complete = h.complete || h.copied;
}
held_step h close_local (some e) = record h { file = false; copied = false }
held_step h _ r = h

abbrev pub HeldAllows : Operation → Held → Ask → Type 0
HeldAllows (uploads src dir) h (open_local p) = p ≡ src
HeldAllows (uploads src dir) h stat_local = h.file ≡ true
HeldAllows (uploads src dir) h close_local = h.file ≡ true
HeldAllows (uploads src dir) h (upload p t) =
    (p ≡ join dir (path_base src)) × ((h.file ≡ true) × (h.local_time ≡ some t))
HeldAllows (moves src dst) h (new_object p) = p ≡ src
HeldAllows (moves src dst) h (move_object p o) = (p ≡ dst) × (h.object ≡ some o)
HeldAllows (downloads p q) h (new_object r) = r ≡ p
HeldAllows (downloads p q) h (open_object o) =
    (h.object ≡ some o) × (bytes_eq o.mime_type dangling_shortcut_mime_type ≡ false)
HeldAllows (downloads p q) h (mkdir_parent r) = (r ≡ q) × (h.stream ≡ true)
HeldAllows (downloads p q) h (create_local r) = (r ≡ q) × (h.stream ≡ true)
HeldAllows (downloads p q) h copy_stream = (h.stream ≡ true) × (h.file ≡ true)
HeldAllows (downloads p q) h close_local = Unit
HeldAllows (downloads p q) h close_stream = h.stream ≡ true
HeldAllows (downloads p q) h (chtimes r t) =
    (r ≡ q) × ((h.complete ≡ true) × (Option.map (λ o. o.mod_time) h.object ≡ some t))
HeldAllows (deletes p) h (new_object q) = q ≡ p
HeldAllows (deletes p) h (delete_object o) = h.object ≡ some o
HeldAllows (stats p) h (new_object q) = q ≡ p
HeldAllows asks_usage h about = Unit
HeldAllows _ h a = ⊥

abbrev pub holding : Operation → Observer Held
holding op = record { step = held_step; allowed = HeldAllows op }

-- Of what an operation does. A download that fails may have created or emptied the local file.
abbrev pub Effect : Operation → Held → Bool → Type 0
Effect (stats p) h b = (h.complete ≡ false) × (h.created ≡ false)
Effect asks_usage h b = (h.complete ≡ false) × (h.created ≡ false)
Effect (downloads p q) h b = (h.complete ≡ b) × (b ≡ true → h.created ≡ true)
Effect _ h b = (h.complete ≡ b) × (h.created ≡ false)

-- Nothing is left open, and an operation that changes anything is complete if and only if it
-- succeeds.
abbrev pub Settled : Operation → Held → Bool → Type 0
Settled op h b = (h.stream ≡ false) × ((h.file ≡ false) × Effect op h b)

unfoldable pub Careful : Operation → Type 0
Careful op = Passes (holding op) (Settled op) nothing_held (perform op)

pub lookup_cases :
    (P : Lookup → Type 0)
    → ((o : Object) → P (found o))
    → P object_absent
    → P names_folder
    → ((e : Error) → P (lookup_failed e))
    → (l : Lookup) → P l
lookup_cases P f a d e (found o) = f o
lookup_cases P f a d e object_absent = a
lookup_cases P f a d e names_folder = d
lookup_cases P f a d e (lookup_failed x) = e x

pub option_cases :
    {A : Type 0} (P : Option A → Type 0) → P none → ((a : A) → P (some a)) → (o : Option A) → P o
option_cases P n s none = n
option_cases P n s (some a) = s a

pub result_cases :
    {A : Type 0} (P : Result A → Type 0)
    → ((a : A) → P (ok a))
    → ((e : Error) → P (fail e))
    → (r : Result A) → P r
result_cases P s f (ok a) = s a
result_cases P s f (fail e) = f e
