-- ===== src/Syncer/Conflict/Order.antt =====
-- The order of the steps of a conflict: the loser is moved and recorded before anything is
-- overwritten or deleted.
use home_drive.Base.{ℕ, ◌≡◌, refl, sym, List, Bool, true, false, Option, none, some, if◌then◌else◌}
use mathlib.Core.Path.{subst}
use home_drive.Base.Text.{Bytes}
use home_drive.Base.Time.{Time}
use home_drive.OldSuffix.{format}
use home_drive.Syncer.Types.{
  Event, Error, RemoteObject, Origin, local, remote, conflict_detected, conflict_resolved,
}
use home_drive.Syncer.Go.{
  Call, Resp, Go, Result, ok, fail, bind, after, rescue, ◌>>=◌, ◌>>◌, attempt, perform, check, lift,
  pure, tell,
}
use home_drive.Syncer.Go.{
  clock, local_rename, remote_download, remote_move, remote_copy, store_put, store_next_old_n,
  publish,
}
use home_drive.Syncer.Safe.{Safe, Safe-bind}
use home_drive.Syncer.Prune.{prune_old_siblings}
use home_drive.Syncer.Prune.Calls.{prune_old_siblings-Only}
use home_drive.Syncer.Conflict.{
  ConflictDeps, prune_deps, prune_after_conflict, keep_local_loser, keep_remote_loser, tell_event,
  apply_winner, remote_dir, resolve_conflict,
}
use home_drive.Syncer.Conflict.Protocol.{
  Phase, fresh, transferred, named, moved, recorded, on_nil, on_value, advance, Allowed, order,
  Kept, retention-Permits, recorded-Safe,
}

module _ {S : Type 0} (deps : ConflictDeps) (path : Bytes) where
  Safe-call :
      {A : Type 0} (x : Phase) (c : Call) (f : Resp c → Go S A) (s : S)
      → Allowed deps.matcher path x c
      → ((r : Resp c) → Safe (order deps.matcher path) Kept (advance deps.matcher x c r) (f r s))
      → Safe (order deps.matcher path) Kept x ((perform c >>= f) s)
  unfolding ◌>>=◌ bind after
  Safe-call x c f s h next = (h, next)

  Safe-check :
      {A : Type 0} (x : Option Error → Phase) (o : Option Error) (k : Go S A) (s : S)
      → Safe (order deps.matcher path) Kept (x none) (k s)
      → Safe (order deps.matcher path) Kept (x o) ((check o >> k) s)
  unfolding ◌>>=◌ bind after
  Safe-check x none k s h = h
  Safe-check x (some e) k s h = tt

  -- The download as the last statement of a block.
  Safe-last :
      (o : Option Error) (s : S)
      → Safe (order deps.matcher path) Kept (on_nil o transferred (recorded local)) (check o s)
  Safe-last none s = refl
  Safe-last (some e) s = tt

  abbrev Calm : {A : Type 0} → Origin → Phase → Result A × S → Type 0
  Calm o x (ok a, s) = x ≡ recorded o
  Calm o x (fail e, s) = ⊥

  -- After the loser is recorded, the retention makes no call that the order forbids, and returns.
  prune-Calm :
      (o : Origin) (b : Bytes) (s : S)
      → Safe (order deps.matcher path) (Calm o) (recorded o) (prune_after_conflict deps b s)
  unfolding prune_after_conflict ◌>>=◌ bind after attempt rescue
  prune-Calm o b s =
      let body : Go S (List Bytes) = prune_old_siblings (prune_deps deps) deps.retention b in
      Safe-bind (order deps.matcher path) (Calm o) (Calm o) (bind (body s) rescue)
        (after (λ _. pure tt)) (recorded o)
        (Safe-bind (order deps.matcher path) (λ x _. x ≡ recorded o) (Calm o) (body s) rescue
          (recorded o)
          (recorded-Safe deps.matcher path o (body s)
            ((prune_old_siblings-Only retention-Permits (prune_deps deps) deps.retention b).at s))
          (λ x a e. e))
        finish
    where
      finish :
          (x : Phase) (a : Result (Result (List Bytes)) × S)
          → Calm o x a
          → Safe (order deps.matcher path) (Calm {A = Unit} o) x (after (λ _. pure tt) a)
      finish x (ok a, t) e = e
      finish x (fail y, t) e = absurd e

  Safe-prune :
      {A : Type 0} (o : Origin) (b : Bytes) (k : Go S A) (s : S)
      → ((t : S) → Safe (order deps.matcher path) Kept (recorded o) (k t))
      → Safe (order deps.matcher path) Kept (recorded o) ((prune_after_conflict deps b >> k) s)
  unfolding ◌>>=◌ after
  Safe-prune {A} o b k s next =
      Safe-bind (order deps.matcher path) (Calm o) Kept (prune_after_conflict deps b s)
        (after (λ _. k)) (recorded o) (prune-Calm o b s) finish
    where
      finish :
          (x : Phase) (a : Result Unit × S)
          → Calm o x a
          → Safe (order deps.matcher path) (Kept {S = S} {A = A}) x (after (λ _. k) a)
      finish x (ok a, t) e =
          subst (λ y. Safe (order deps.matcher path) Kept y (k t)) (sym e) (next t)
      finish x (fail y, t) e = absurd e

  keep_local-Safe :
      (b old_path : Bytes) (t : Time) (s : S)
      → Safe
          (order deps.matcher path)
          Kept
          (named old_path)
          (keep_local_loser deps path b old_path t s)
  unfolding keep_local_loser
  keep_local-Safe b old_path t s =
      Safe-call (named old_path) (local_rename path old_path) _ s (refl, refl)
        λ r.
          Safe-check (λ o. on_nil o (moved local old_path) (named old_path)) r _ s
            (Safe-call (moved local old_path) clock _ s tt λ now.
              Safe-call (moved local old_path) (store_put _) _ s (refl, refl)
                λ q.
                  Safe-check (λ o. on_nil o (recorded local) (moved local old_path)) q _ s
                    (Safe-prune local b _ s λ u.
                      Safe-call (recorded local) (remote_download path) _ u refl
                        λ d. Safe-last d u))

  Safe-uploaded :
      (d : Result RemoteObject) (s : S)
      → Safe
          (order deps.matcher path)
          Kept
          (on_value d (λ _. transferred) (recorded remote))
          ((lift d >>= λ _. pure tt) s)
  unfolding ◌>>=◌ bind after
  Safe-uploaded (ok a) s = refl
  Safe-uploaded (fail e) s = tt

  keep_remote-Safe :
      (b old_path : Bytes) (obj : RemoteObject) (s : S)
      → Safe
          (order deps.matcher path)
          Kept
          (named old_path)
          (keep_remote_loser deps path b old_path obj s)
  unfolding keep_remote_loser
  keep_remote-Safe b old_path obj s =
      Safe-call (named old_path) (remote_move path old_path) _ s (refl, refl)
        λ r.
          Safe-check (λ o. on_nil o (moved remote old_path) (named old_path)) r _ s
            (Safe-call (moved remote old_path) clock _ s tt λ now.
              Safe-call (moved remote old_path) (store_put _) _ s (refl, refl)
                λ q.
                  Safe-check (λ o. on_nil o (recorded remote) (moved remote old_path)) q _ s
                    (Safe-prune remote b _ s λ u.
                      Safe-call (recorded remote) (remote_copy path (remote_dir path)) _ u
                        (refl, refl) λ d. Safe-uploaded d u))

  apply_winner-Safe :
      (w : Origin) (b old_path : Bytes) (obj : RemoteObject) (t : Time) (s : S)
      → Safe
          (order deps.matcher path)
          Kept
          (named old_path)
          (apply_winner deps w path b old_path obj t s)
  unfolding apply_winner
  apply_winner-Safe remote b old_path obj t s = keep_local-Safe b old_path t s
  apply_winner-Safe local b old_path obj t s = keep_remote-Safe b old_path obj s

  Safe-tell :
      {A : Type 0} (x : Phase) (e : Event) (k : Go S A) (s : S)
      → Safe (order deps.matcher path) Kept x (k s)
      → Safe (order deps.matcher path) Kept x ((tell_event deps e >> k) s)
  unfolding tell_event ◌>>=◌ bind after
  Safe-tell {A} x e k s h = branch deps.has_publisher
    where
      same : (x : Phase) (r : Unit) → x ≡ advance deps.matcher x (publish e) r
      same fresh r = refl
      same (named q) r = refl
      same (moved local q) r = refl
      same (moved remote q) r = refl
      same (recorded local) r = refl
      same (recorded remote) r = refl
      same transferred r = refl

      allowed : (x : Phase) → Allowed deps.matcher path x (publish e)
      allowed fresh = tt
      allowed (named q) = tt
      allowed (moved local q) = tt
      allowed (moved remote q) = tt
      allowed (recorded local) = tt
      allowed (recorded remote) = tt
      allowed transferred = tt

      branch :
          (b : Bool)
          → Safe
              (order deps.matcher path)
              (Kept {S = S} {A = A})
              x
              (((if b then tell (publish e) else pure tt) >> k) s)
      branch true = (
        allowed x,
        λ r.
            subst (λ y. Safe (order deps.matcher path) (Kept {S = S} {A = A}) y (k s)) (same x r) h,
      )
      branch false = h

  -- The name that the store gives, if it gives one.
  Safe-named :
      {A : Type 0} (r : Result (Bytes × ℕ)) (f : Bytes × ℕ → Go S A) (s : S)
      → ((b : Bytes) (n : ℕ)
          → Safe (order deps.matcher path) Kept (named (format deps.matcher b n)) (f (b, n) s))
      → Safe
          (order deps.matcher path)
          Kept
          (on_value r (λ (b, n). named (format deps.matcher b n)) fresh)
          ((lift r >>= f) s)
  unfolding ◌>>=◌ bind after
  Safe-named (ok (b, n)) f s next = next b n
  Safe-named (fail e) f s next = tt

  Safe-else :
      {A : Type 0} (x : Phase) {b : Bool} (k n : Go S A) (s : S)
      → b ≡ false
      → Safe (order deps.matcher path) Kept x (n s)
      → Safe (order deps.matcher path) Kept x ((if b then k else n) s)
  Safe-else x k n s e h = rw e h

  -- A block that goes on where another leaves the winner transferred.
  Safe-and_then :
      {A B : Type 0} (x : Phase) (p : Go S B) (k : Go S A) (s : S)
      → Safe (order deps.matcher path) Kept x (p s)
      → ((t : S) → Safe (order deps.matcher path) Kept transferred (k t))
      → Safe (order deps.matcher path) Kept x ((p >>= λ _. k) s)
  unfolding ◌>>=◌ after
  Safe-and_then {A} {B} x p k s h next =
      Safe-bind (order deps.matcher path) Kept Kept (p s) (after (λ _. k)) x h finish
    where
      finish :
          (y : Phase) (a : Result B × S)
          → Kept y a
          → Safe (order deps.matcher path) (Kept {S = S} {A = A}) y (after (λ _. k) a)
      finish y (ok a, t) e =
          subst (λ z. Safe (order deps.matcher path) Kept z (k t)) (sym e) (next t)
      finish y (fail z, t) e = tt

  -- Outside a dry run, whatever the answers: the resolution of a conflict moves the copy of one side
  -- from the path to the name with the number that the store gives for the path, records it under
  -- that name as of that side, and only after that transfers the path from the other side (it
  -- downloads it, or uploads it to its directory) or lets the retention delete anything; and if it
  -- succeeds then the loser was moved and recorded and the winner transferred.
  pub resolve_conflict-Safe :
      (obj : RemoteObject) (t : Time) (s : S)
      → deps.dry_run ≡ false
      → Safe (order deps.matcher path) Kept fresh (resolve_conflict deps path obj t s)
  unfolding resolve_conflict
  resolve_conflict-Safe obj t s wet = Safe-tell fresh (conflict_detected path) _ s (
      Safe-call fresh (store_next_old_n path) _ s refl λ numbered. Safe-named numbered _ s λ b n.
        Safe-else (named _) _ _ s wet (
          Safe-and_then (named _) (apply_winner deps _ path b _ obj t) _ s
            (apply_winner-Safe _ b _ obj t s)
            (λ u.
              Safe-tell transferred (conflict_resolved path (format deps.matcher b n)) (pure _) u
                refl)))
