-- ===== src/Syncer/Bisync/Pass/Mutex.antt =====
-- A bisync pass and a chain repair hold the mutex of the workers exclusively while they change
-- anything, and give it back.
use mathlib.Core.Path.{subst}
use home_drive.Base.{◌≡◌, refl, sym, Bool, true, false, not}
use home_drive.Syncer.Types.{bisync_started}
use home_drive.Syncer.Go.{Call, Go, Result, ok, fail, clock}
use home_drive.Syncer.Go.{bisync_lock, bisync_unlock}
use home_drive.Syncer.Safe.{Only}
use home_drive.Syncer.Bisync.Defs.{BisyncConfig, Bisync}
use home_drive.Syncer.Bisync.Repair.{Report}
use home_drive.Syncer.Bisync.Pass.{publish_event}
use home_drive.Syncer.Bisync.Pass.Locked.{Inside}
use home_drive.Syncer.Go.{
  Resp, Proc, ret, panic, call, ◌>>=◌, bind, after, pure, tell, lift, publish,
}
use home_drive.Base.{if◌then◌else◌}
use home_drive.Syncer.Safe.{Monitor, Safe, Every}
use home_drive.Syncer.Safe.Rules.{
  Moves, Leaves, Moves-ask, Moves-attempt, Moves-bind, Moves-if, Moves-pure, Moves-raise,
  Moves-tell,
}
use home_drive.Syncer.Bisync.Pass.{execute, execute_once, set_running, run_chain_repair_locked}
use home_drive.Syncer.Bisync.Pass.Steps.{pass-Inside, run_chain_repair-Inside}

-- The mutex: whether the pass holds it.
abbrev mutex_step : Bool → (c : Call) → Resp c → Bool
mutex_step m bisync_lock r = true
mutex_step m bisync_unlock r = false
mutex_step m _ r = m

-- Without the mutex it may be taken, and nothing may change; with it, in a dry run nothing may
-- change either.
abbrev MutexAllows : Bool → Bool → Call → Type 0
MutexAllows dry m bisync_lock = m ≡ false
MutexAllows dry m bisync_unlock = m ≡ true
MutexAllows dry true c = Inside dry c
MutexAllows dry false c = Inside true c

abbrev pub mutex : Bool → Monitor Bool
mutex dry = record { step = mutex_step; allowed = MutexAllows dry }

mutex_step-Inside :
    (dry : Bool) (c : Call) → Inside dry c → (r : Resp c) → mutex_step true c r ≡ true
mutex_step-Inside dry bisync_lock h r = absurd h
mutex_step-Inside dry bisync_unlock h r = absurd h
mutex_step-Inside dry _ h r = refl

Inside-MutexAllows : (dry : Bool) (c : Call) → Inside dry c → MutexAllows dry true c
Inside-MutexAllows dry bisync_lock h = absurd h
Inside-MutexAllows dry bisync_unlock h = absurd h
Inside-MutexAllows dry _ h = h

-- A program that leaves the mutex alone keeps it.
held :
    {A S : Type 0} (dry : Bool) (p : Proc (Result A × S))
    → Every (Inside dry) p
    → Safe (mutex dry) (Leaves true true) true p
held dry (ret (ok a, s)) h = refl
held dry (ret (fail e, s)) h = refl
held dry panic h = tt
held dry (call c k) h = (
  Inside-MutexAllows dry c h.0,
  λ r.
      subst (λ m. Safe (mutex dry) (Leaves true true) m (k r)) (sym (mutex_step-Inside dry c h.0 r))
        (held dry (k r) (h.1 r)),
)

module _ {A S : Type 0} where
  Only-Moves : (dry : Bool) (p : Go S A) → Only (Inside dry) p → Moves (mutex dry) true true true p
  Only-Moves dry p h = record { at = λ s. held dry (p s) (h.at s) }

returned :
    {S : Type 0} (dry : Bool) (r : Result Report)
    → Moves {S = S} (mutex dry) false false false (lift r)
returned dry (ok a) = Moves-pure _ false false a
returned dry (fail e) = Moves-raise _ false false e

module _ (cfg : BisyncConfig) where
  start_event-Moves :
      Moves
        (mutex cfg.dry_run)
        false
        false
        false
        (publish_event cfg {S = Bisync} (bisync_started cfg.dry_run))
  unfolding publish_event
  start_event-Moves =
      Moves-if _ _ _ _ _ _ _
        (Moves-tell _ false false false (publish (bisync_started cfg.dry_run)) tt (λ r. refl))
        (Moves-pure _ false false tt)

  set_running-Moves : (b : Bool) → Moves (mutex cfg.dry_run) false false false (set_running b)
  unfolding set_running ◌>>=◌ bind after
  set_running-Moves b = record { at = λ s. refl }

  give_back :
      Moves (mutex cfg.dry_run) true false false (tell bisync_unlock >>= λ _. set_running false)
  give_back =
      Moves-bind _ true false false false _ _
        (Moves-tell _ true false false bisync_unlock refl (λ r. refl))
        (λ _. set_running-Moves false)

  execute_once-Moves : Moves (mutex cfg.dry_run) false false false (execute_once cfg)
  unfolding execute_once
  execute_once-Moves = Moves-bind _ false false false false _ _ (set_running-Moves true) λ _.
      Moves-ask _ false false false clock _ tt (λ r. refl)
        λ start. Moves-bind _ false false false false _ _ start_event-Moves λ _.
          Moves-bind _ false false false true _ _
            (Moves-tell _ false true false bisync_lock refl (λ r. refl))
            λ _.
              Moves-attempt _ true false false true true _ _
                (Only-Moves cfg.dry_run _ (pass-Inside cfg)) (λ _. give_back) (λ e. give_back)

  -- A bisync pass that starts without the mutex ends without it, after an early return on a failed
  -- diff too. Whatever the answers to its calls, it changes a local file, the remote or the journal
  -- only while it holds the mutex, and in a dry run not at all.
  pub execute-Mutex : Moves (mutex cfg.dry_run) false false false (execute cfg)
  unfolding execute ◌>>=◌ bind after
  execute-Mutex = record {
    at = λ s.
        elim s.running
          as (λ b.
            Safe (mutex cfg.dry_run) (Leaves false false) false
              ((if b then pure tt else execute_once cfg) s)) [
                | true ↦ refl
                | false ↦ execute_once-Moves.at s
              ];
  }

  -- A chain repair on demand that starts without the mutex ends without it, when it fails too.
  -- Whatever the answers to its calls, it changes a local file, the remote or the journal only
  -- while it holds the mutex, and in a dry run not at all.
  pub run_chain_repair-Mutex :
      {S : Type 0} (dry : Bool)
      → Moves {S = S} (mutex dry) false false false (run_chain_repair_locked cfg dry)
  unfolding run_chain_repair_locked
  run_chain_repair-Mutex {S = S} dry =
      Moves-bind _ false false false true _ _
        (Moves-tell _ false true false bisync_lock refl (λ r. refl))
        λ _.
          Moves-attempt _ true false false true true _ _
            (Only-Moves dry _ (run_chain_repair-Inside cfg dry (not dry)))
            (λ report. unlock (ok report)) (λ e. unlock (fail e))
    where
      unlock :
          (r : Result Report)
          → Moves {S = S} (mutex dry) true false false (tell bisync_unlock >>= λ _. lift r)
      unlock r =
          Moves-bind _ true false false false _ _
            (Moves-tell _ true false false bisync_unlock refl (λ r. refl)) (λ _. returned dry r)
