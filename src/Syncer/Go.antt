-- ===== src/Syncer/Go.antt =====
-- Go code as programs: a tree of calls to the outside with a branch for every answer. The state
-- that a struct keeps in memory is passed along, an `error` result ends a block as
-- `if err != nil { return err }` does, and a nil dereference is `panic`.
use home_drive.Base.{ℕ, Bool, Option, none, some, List}
use home_drive.Base.Text.{Bytes}
use home_drive.Base.Time.{Time}
use home_drive.Syncer.Types.{
  Error, RemoteObject, Changes, JournalEntry, Stat, Removal, AuditEntry, Event, BisyncLine,
  WalkEntry,
}

-- Local calls name a path relative to the local root. `store_view` is the test `Exists` of the
-- journal as it is then, and `store_entries` what `ForEach` walks.
pub data Call : Type 0 where
  clock ctx_err bisync_rlock bisync_runlock bisync_lock bisync_unlock : Call
  sleep : ℕ → Call
  local_stat local_lstat local_remove local_mkdir_parent local_md5 : Bytes → Call
  local_rename : Bytes → Bytes → Call
  store_get_token : Call
  store_set_token store_get store_delete store_next_old_n store_siblings : Bytes → Call
  store_put : JournalEntry → Call
  store_rewrite_prefix store_set_meta : Bytes → Bytes → Call
  store_get_meta remote_list : Bytes → Call
  local_walk store_view store_entries : Call
  remote_start_token : Call
  remote_list_changes remote_download remote_delete : Bytes → Call
  remote_copy remote_move : Bytes → Bytes → Call
  publish : Event → Call
  audit : AuditEntry → Call
  audit_bisync : BisyncLine → Call

pub data Result {ℓ} (A : Type ℓ) : Type ℓ where
  ok : A → Result A
  fail : Error → Result A

-- The answers. `Option Error` is a Go `error`, `none` for nil.
abbrev pub Resp : Call → Type 0
Resp clock = Time
Resp ctx_err = Option Error
Resp bisync_rlock = Unit
Resp bisync_runlock = Unit
Resp bisync_lock = Unit
Resp bisync_unlock = Unit
Resp (sleep d) = Unit
Resp (local_stat p) = Stat
Resp (local_lstat p) = Stat
Resp (local_remove p) = Removal
Resp (local_mkdir_parent p) = Option Error
Resp (local_md5 p) = Result Bytes
Resp (local_rename p q) = Option Error
Resp store_get_token = Result Bytes
Resp (store_set_token t) = Option Error
Resp (store_get p) = Result (Option JournalEntry)
Resp (store_delete p) = Option Error
Resp (store_next_old_n p) = Result (Bytes × ℕ)
Resp (store_siblings p) = Result (List JournalEntry)
Resp (store_put e) = Option Error
Resp (store_rewrite_prefix p q) = Result ℕ
Resp (store_set_meta k v) = Option Error
Resp (store_get_meta k) = Result Bytes
Resp (remote_list p) = Result (List RemoteObject)
Resp local_walk = List WalkEntry
Resp store_view = Bytes → Bool
Resp store_entries = Result (List JournalEntry)
Resp remote_start_token = Result Bytes
Resp (remote_list_changes t) = Result Changes
Resp (remote_download p) = Option Error
Resp (remote_delete p) = Option Error
Resp (remote_copy p d) = Result RemoteObject
Resp (remote_move p q) = Option Error
Resp (publish e) = Unit
Resp (audit e) = Unit
Resp (audit_bisync e) = Unit

pub data Proc (A : Type 0) : Type 0 where
  ret : A → Proc A
  panic : Proc A
  call : (c : Call) → (Resp c → Proc A) → Proc A

unfoldable pub bind : {A B : Type 0} → Proc A → (A → Proc B) → Proc B
bind (ret a) f = f a
bind panic f = panic
bind (call c k) f = call c (λ r. bind (k r) f)

abbrev pub Go : Type 0 → Type 0 → Type 0
Go S A = S → Proc (Result A × S)

abbrev pub pure : {S A : Type 0} → A → Go S A
pure a s = ret (ok a, s)

abbrev pub raise : {S A : Type 0} → Error → Go S A
raise e s = ret (fail e, s)

abbrev pub crash : {S A : Type 0} → Go S A
crash s = panic

abbrev pub perform : {S : Type 0} (c : Call) → Go S (Resp c)
perform c s = call c (λ r. ret (ok r, s))

-- `err` of a call that returns nothing else.
abbrev pub check : {S : Type 0} → Option Error → Go S Unit
check none = pure tt
check (some e) = raise e

abbrev pub lift : {S A : Type 0} → Result A → Go S A
lift (ok a) = pure a
lift (fail e) = raise e

unfoldable pub after : {S A B : Type 0} → (A → Go S B) → Result A × S → Proc (Result B × S)
after f (ok a, s) = f a s
after f (fail e, s) = ret (fail e, s)

infixl 5 ◌>>=◌ ◌>>◌
unfoldable pub ◌>>=◌ : {S A B : Type 0} → Go S A → (A → Go S B) → Go S B
unfolding bind after
◌>>=◌ m f s = bind (m s) (after f)

abbrev pub ◌>>◌ : {S B : Type 0} → Go S Unit → Go S B → Go S B
m >> k = m >>= λ _. k

-- The value and the error of a call together.
unfoldable pub rescue : {S A : Type 0} → Result A × S → Proc (Result (Result A) × S)
rescue (r, s) = ret (ok r, s)

unfoldable pub attempt : {S A : Type 0} → Go S A → Go S (Result A)
unfolding bind rescue
attempt m s = bind (m s) rescue

unfoldable pub forget : {S T A : Type 0} → S → Result A × T → Proc (Result A × S)
forget s (r, t) = ret (r, s)

-- A program with a state of its own, such as the sets that a function makes.
unfoldable pub scoped : {S T A : Type 0} → T → Go T A → Go S A
unfolding bind forget
scoped t m s = bind (m t) (forget s)

-- Statements for their effect: a call whose answer is not used, or is the `error` to return.
abbrev pub tell : {S : Type 0} → Call → Go S Unit
tell c = perform c >>= λ _. pure tt

abbrev pub read_state : {S : Type 0} → Go S S
read_state s = ret (ok s, s)

abbrev pub write_state : {S : Type 0} → S → Go S Unit
write_state t s = ret (ok tt, t)

-- Dereference of a pointer.
abbrev pub deref : {S A : Type 0} → Option A → Go S A
deref none = crash
deref (some a) = pure a

-- A run against an environment with a state of its own; `none` is a panic.
unfoldable pub run : {W A : Type 0} → (W → (c : Call) → Resp c × W) → W → Proc A → Option (A × W)
run env w (ret a) = some (a, w)
run env w panic = none
run env w (call c k) = run env (env w c).1 (k (env w c).0)
