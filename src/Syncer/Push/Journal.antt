-- ===== src/Syncer/Push/Journal.antt =====
-- The shared mutex and the journal in a push.
use home_drive.Base.{
  [], ◌≡◌, refl, ◌⊎◌, inl, inr, Bool, true, false, ◌||◌, Option, none, some, if◌then◌else◌,
}
use home_drive.Base.Text.{Bytes}
use home_drive.Syncer.Types.{
  Error, is_err, not_found, is_dir_err, RemoteObject, Event, AuditEntry, create, write, remove,
  rename,
}
use home_drive.Syncer.Go.{Call, Resp, Result, ok, fail, pure, raise, lift, tell, ◌>>=◌, ◌>>◌}
use home_drive.Syncer.Go.{
  clock, ctx_err, sleep, local_stat, publish, audit, bisync_rlock, bisync_runlock, remote_copy,
  remote_delete, store_put,
}
use home_drive.Syncer.Safe.{Monitor}
use home_drive.Syncer.Safe.Rules.{
  Moves, Moves-call, Moves-attempt, Moves-bind, Moves-if, Moves-stat, Moves-pure, Moves-raise,
  Moves-tell,
}
use home_drive.Syncer.Retry.Rules.{retry_func-Moves}
use home_drive.Syncer.Conflict.{remote_dir}
use home_drive.Syncer.Push.{
  is_upload, FileEvent, PushConfig, skip_dir_event, exec_remove, upload, exec_event, push_entry,
  append_audit, publish_event, record_result, log_dry_run, handle_event,
}

-- A push is outside the shared mutex, inside it, or inside it with the remote change done.
pub data Stage : Type 0 where
  outside inside pushed : Stage

-- An absent object and a directory count as deleted.
abbrev pub on_deleted : Option Error → Stage
on_deleted none = pushed
on_deleted (some e) = if is_err e not_found || is_err e is_dir_err then pushed else inside

abbrev pub on_copied : Result RemoteObject → Stage
on_copied (ok obj) = pushed
on_copied (fail e) = inside

abbrev pub follow : Stage → (c : Call) → Resp c → Stage
follow m bisync_rlock r = inside
follow m bisync_runlock r = outside
follow m (remote_copy p d) r = on_copied r
follow m (remote_delete p) r = on_deleted r
follow m _ r = m

-- The mutex is taken and given back in turn; the remote changes only inside it, and not again
-- after a success; the journal is written only inside it and after a success.
abbrev pub InTurn : Stage → Call → Type 0
InTurn m bisync_rlock = m ≡ outside
InTurn m bisync_runlock = (m ≡ inside) ⊎ (m ≡ pushed)
InTurn m (remote_copy p d) = m ≡ inside
InTurn m (remote_delete p) = m ≡ inside
InTurn m (store_put e) = m ≡ pushed
InTurn m clock = Unit
InTurn m ctx_err = Unit
InTurn m (sleep d) = Unit
InTurn m (local_stat p) = Unit
InTurn m (publish e) = Unit
InTurn m (audit e) = Unit
InTurn m _ = ⊥

abbrev pub turns : Monitor Stage
turns = record { step = follow; allowed = InTurn }

module _ {S : Type 0} where
  upload-Moves : (path : Bytes) → Moves {S = S} turns inside inside pushed (upload path)
  unfolding upload
  upload-Moves path =
      Moves-call turns inside inside pushed (remote_copy path (remote_dir path)) _ refl λ r.
        elim r
          as (λ r.
            Moves {S = S} turns (on_copied r) inside pushed (lift r >>= λ obj. pure (some obj))) [
              | ok obj ↦
                  Moves-bind turns pushed inside pushed pushed (pure obj) _
                    (Moves-pure turns pushed inside obj)
                    (λ o. Moves-pure turns pushed inside (some o))
              | fail e ↦
                  Moves-bind turns inside inside pushed pushed (raise e) _
                    (Moves-raise turns inside pushed e)
                    (λ o. Moves-pure turns pushed inside (some o))
            ]

  exec_remove-Moves : (rel : Bytes) → Moves {S = S} turns inside inside pushed (exec_remove rel)
  unfolding exec_remove
  exec_remove-Moves rel =
      Moves-call turns inside inside pushed (remote_delete rel) _ refl after_delete
    where
      -- The branches of `execRemove`.
      decide :
          (b : Bool) (e : Error)
          → Moves {S = S} turns
              (if b then pushed else inside)
              inside
              pushed
              (if b then pure tt else raise e)
      decide true e = Moves-pure turns pushed inside tt
      decide false e = Moves-raise turns inside pushed e

      after_delete :
          (r : Option Error)
          → Moves {S = S} turns (on_deleted r) inside pushed (elim r [
            | none ↦ pure tt
            | some e ↦ if is_err e not_found || is_err e is_dir_err then pure tt else raise e
          ])
      after_delete none = Moves-pure turns pushed inside tt
      after_delete (some e) = decide (is_err e not_found || is_err e is_dir_err) e

  exec_event-Moves : (ev : FileEvent) → Moves {S = S} turns inside inside pushed (exec_event ev)
  unfolding exec_event
  exec_event-Moves ev =
      elim ev.op
        as (λ op. Moves {S = S} turns inside inside pushed (elim op [
          | create ↦ upload ev.path
          | write ↦ upload ev.path
          | remove ↦ exec_remove ev.path >> pure none
          | rename ↦ raise (record { wraps = [] })
        ])) [
          | create ↦ upload-Moves ev.path
          | write ↦ upload-Moves ev.path
          | remove ↦
              Moves-bind turns inside inside pushed pushed (exec_remove ev.path) _
                (exec_remove-Moves ev.path) (λ _. Moves-pure turns pushed inside none)
          | rename ↦ Moves-raise turns inside pushed _
        ]

  push_entry-Moves :
      (rel : Bytes) (obj : Option RemoteObject)
      → Moves {S = S} turns pushed outside pushed (push_entry rel obj)
  unfolding push_entry
  push_entry-Moves rel none =
      Moves-call turns pushed outside pushed clock _ tt (λ now. Moves-pure turns pushed outside _)
  push_entry-Moves rel (some obj) = Moves-call turns pushed outside pushed clock _ tt λ now.
      Moves-call turns pushed outside pushed (local_stat rel) _ tt λ st.
        Moves-stat turns pushed outside pushed st _ _ _ (λ info. Moves-pure turns pushed outside _)
          (Moves-pure turns pushed outside _) (λ e. Moves-pure turns pushed outside _)

  module _ (cfg : PushConfig) where
    append_audit-Moves :
        (m : Stage) (e : AuditEntry) → Moves {S = S} turns m outside m (append_audit cfg e)
    unfolding append_audit
    append_audit-Moves m e =
        Moves-if turns m outside m cfg.has_audit _ _
          (Moves-tell turns m m outside (audit e) tt (λ r. refl)) (Moves-pure turns m outside tt)

    publish_event-Moves :
        (m : Stage) (e : Event) → Moves {S = S} turns m outside m (publish_event cfg e)
    unfolding publish_event
    publish_event-Moves m e =
        Moves-if turns m outside m cfg.has_publisher _ _
          (Moves-tell turns m m outside (publish e) tt (λ r. refl)) (Moves-pure turns m outside tt)

    record_ok-Moves :
        (ev : FileEvent) (obj : Option RemoteObject)
        → Moves {S = S} turns pushed outside pushed (record_result cfg ev (ok obj))
    unfolding record_result
    record_ok-Moves ev obj =
        Moves-bind turns pushed outside pushed pushed _ _ (push_entry-Moves ev.path obj) λ entry.
          Moves-bind turns pushed outside pushed pushed _ _
            (Moves-tell turns pushed pushed outside (store_put entry) refl (λ r. refl))
            λ _.
              Moves-bind turns pushed outside pushed pushed _ _ (append_audit-Moves pushed _)
                λ _. publish_event-Moves pushed _

    record_fail-Moves :
        (ev : FileEvent) (e : Error)
        → Moves {S = S} turns inside outside inside (record_result cfg ev (fail e))
    unfolding record_result
    record_fail-Moves ev e =
        Moves-bind turns inside outside inside inside _ _ (append_audit-Moves inside _)
          λ _. publish_event-Moves inside _

    skip_dir_event-Moves :
        (ev : FileEvent) → Moves {S = S} turns outside outside outside (skip_dir_event ev)
    unfolding skip_dir_event
    skip_dir_event-Moves ev =
        Moves-if turns outside outside outside (is_upload ev.op) _ _
          (Moves-call turns outside outside outside (local_stat ev.path) _ tt λ st.
            Moves-stat turns outside outside outside st _ _ _
              (λ info. Moves-pure turns outside outside info.is_dir)
              (Moves-pure turns outside outside false)
              (λ e. Moves-pure turns outside outside false))
          (Moves-pure turns outside outside false)

    -- Whatever the answers, handling a watcher event takes the shared mutex only when it does not
    -- hold it and does not hold it at the end; it changes the remote only while it holds the mutex,
    -- and not again after a success; and it writes the journal only while it holds the mutex and
    -- after the remote change succeeded, where an object that is absent or is a directory counts as
    -- deleted.
    pub handle_event-Moves :
        (ev : FileEvent) → Moves {S = S} turns outside outside outside (handle_event cfg ev)
    unfolding handle_event log_dry_run
    handle_event-Moves ev =
        Moves-bind turns outside outside outside outside _ _ (skip_dir_event-Moves ev) λ skip.
          Moves-if turns outside outside outside skip _ _ (Moves-pure turns outside outside tt) (
            Moves-if turns outside outside outside cfg.dry_run _ _ (append_audit-Moves outside _) (
              Moves-bind turns outside outside outside inside _ _
                (Moves-tell turns outside inside outside bisync_rlock refl (λ r. refl))
                λ _.
                  Moves-attempt turns inside outside outside inside pushed _
                    (λ r. record_result cfg ev r >> tell bisync_runlock)
                    (retry_func-Moves turns cfg.retry (exec_event ev) inside pushed tt (λ r. refl)
                      (λ d. tt) (λ d r. refl) (exec_event-Moves ev))
                    (λ obj.
                      Moves-bind turns pushed outside outside pushed _ _ (record_ok-Moves ev obj)
                        λ _.
                          Moves-tell turns pushed outside outside bisync_runlock (inr refl)
                            (λ r. refl))
                    (λ e.
                      Moves-bind turns inside outside outside inside _ _ (record_fail-Moves ev e)
                        λ _.
                          Moves-tell turns inside outside outside bisync_runlock (inl refl)
                            (λ r. refl))))
