-- ===== src/Syncer/Conflict/Winner.antt =====
-- Which side of a conflict a resolution touches.
use home_drive.Base.{◌≡◌, refl, ◌<◌, ◌≤◌, arith}
use mathlib.Core.Path.{subst}
use home_drive.Base.Text.{Bytes}
use home_drive.Base.Time.{Time}
use home_drive.Syncer.Types.{Event, RemoteObject, Origin, local, remote}
use home_drive.Syncer.Go.{
  Call, clock, local_rename, remote_move, remote_copy, remote_download, store_next_old_n, store_put,
  publish,
}
use home_drive.Syncer.Safe.{
  Only, Only-bind, Only-pure, Only-call, Only-if, Only-tell, Only-check, Only-lift, Only-attempt,
}
use home_drive.Syncer.Prune.Calls.{Permits, prune_old_siblings-Only}
use home_drive.Syncer.Conflict.{
  ConflictPolicy, newer_wins, local_wins, remote_wins, ConflictDeps, prune_deps, determine_winner,
  prune_after_conflict, keep_local_loser, keep_remote_loser, tell_event, apply_winner,
  resolve_conflict, remote_dir,
}

-- The policy and the two times are for the side; equal times are for the local one.
abbrev pub Favours : Origin → ConflictPolicy → Time → Time → Type 0
Favours local local_wins l r = Unit
Favours local remote_wins l r = ⊥
Favours local newer_wins l r = r ≤ l
Favours remote local_wins l r = ⊥
Favours remote remote_wins l r = Unit
Favours remote newer_wins l r = l < r

determine_winner_lem :
    (w : Origin) (p : ConflictPolicy) (l r : Time) → Favours w p l r → determine_winner l r p ≡ w
unfolding determine_winner
determine_winner_lem local local_wins l r h = refl
determine_winner_lem local remote_wins l r h = absurd h
determine_winner_lem local newer_wins l r h = ground arith
determine_winner_lem remote local_wins l r h = absurd h
determine_winner_lem remote remote_wins l r h = refl
determine_winner_lem remote newer_wins l r h = ground arith

-- Calls that neither move the copy of the side away nor overwrite it.
abbrev pub Spares : Origin → Call → Type 0
Spares local (local_rename p q) = ⊥
Spares local (remote_download p) = ⊥
Spares remote (remote_move p q) = ⊥
Spares remote (remote_copy p d) = ⊥
Spares w _ = Unit

retention-Spares : (w : Origin) → Permits (Spares w)
retention-Spares local = record {
  clock_call = tt;
  remove_call = λ p. tt;
  delete_call = λ p. tt;
  forget_call = λ p. tt;
  siblings_call = λ p. tt;
  publish_call = λ e. tt;
  audit_call = λ e. tt;
}
retention-Spares remote = record {
  clock_call = tt;
  remove_call = λ p. tt;
  delete_call = λ p. tt;
  forget_call = λ p. tt;
  siblings_call = λ p. tt;
  publish_call = λ e. tt;
  audit_call = λ e. tt;
}

next_number : (w : Origin) (path : Bytes) → Spares w (store_next_old_n path)
next_number local path = tt
next_number remote path = tt

module _ {S : Type 0} (deps : ConflictDeps) where
  prune-Spares : (w : Origin) (b : Bytes) → Only (Spares w) {S = S} (prune_after_conflict deps b)
  unfolding prune_after_conflict
  prune-Spares w b =
      Only-bind _ _
        (Only-attempt _
          (prune_old_siblings-Only (retention-Spares w) (prune_deps deps) deps.retention b))
        (λ _. Only-pure tt)

  tell_event-Spares : (w : Origin) (e : Event) → Only (Spares w) {S = S} (tell_event deps e)
  unfolding tell_event
  tell_event-Spares local e = Only-if _ _ _ (Only-tell (publish e) tt) (Only-pure tt)
  tell_event-Spares remote e = Only-if _ _ _ (Only-tell (publish e) tt) (Only-pure tt)

  keep_local-Spares :
      (path b old_path : Bytes) (t : Time)
      → Only (Spares remote) {S = S} (keep_local_loser deps path b old_path t)
  unfolding keep_local_loser
  keep_local-Spares path b old_path t = Only-call (local_rename path old_path) _ tt λ r.
      Only-bind _ _ (Only-check r) λ _. Only-call clock _ tt λ now.
        Only-call (store_put _) _ tt λ q. Only-bind _ _ (Only-check q) λ _.
          Only-bind _ _ (prune-Spares remote b)
            λ _. Only-call (remote_download path) _ tt Only-check

  keep_remote-Spares :
      (path b old_path : Bytes) (obj : RemoteObject)
      → Only (Spares local) {S = S} (keep_remote_loser deps path b old_path obj)
  unfolding keep_remote_loser
  keep_remote-Spares path b old_path obj = Only-call (remote_move path old_path) _ tt λ r.
      Only-bind _ _ (Only-check r) λ _. Only-call clock _ tt λ now.
        Only-call (store_put _) _ tt λ q. Only-bind _ _ (Only-check q) λ _.
          Only-bind _ _ (prune-Spares local b) λ _.
            Only-call (remote_copy path (remote_dir path)) _ tt
              λ u. Only-bind _ _ (Only-lift u) (λ _. Only-pure tt)

  apply_winner-Spares :
      (w : Origin) (path b old_path : Bytes) (obj : RemoteObject) (t : Time)
      → Only (Spares w) {S = S} (apply_winner deps w path b old_path obj t)
  unfolding apply_winner
  apply_winner-Spares remote path b old_path obj t = keep_local-Spares path b old_path t
  apply_winner-Spares local path b old_path obj t = keep_remote-Spares path b old_path obj

  favoured-Spares :
      (w x : Origin) (path b old_path : Bytes) (obj : RemoteObject) (t : Time)
      → x ≡ w
      → Only (Spares w) {S = S} (apply_winner deps x path b old_path obj t)
  favoured-Spares w x path b old_path obj t e =
      subst (λ v. Only (Spares v) {S = S} (apply_winner deps x path b old_path obj t)) e
        (apply_winner-Spares x path b old_path obj t)

  -- The resolution of a conflict spares the side that the policy and the two times favour (the
  -- local one if they are equal), whatever the answers: if it is the local one, no local file is
  -- renamed and none is downloaded, and if it is the remote one, no remote object is moved and none
  -- is uploaded.
  pub resolve_conflict-Spares :
      (w : Origin) (path : Bytes) (obj : RemoteObject) (t : Time)
      → Favours w deps.policy t obj.mod_time
      → Only (Spares w) {S = S} (resolve_conflict deps path obj t)
  unfolding resolve_conflict
  resolve_conflict-Spares w path obj t h = Only-bind _ _ (tell_event-Spares w _) λ _.
      Only-call (store_next_old_n path) _ (next_number w path) λ numbered.
        Only-bind _ _ (Only-lift numbered) λ (b, n). Only-if _ _ _ (Only-pure _) (
          Only-bind _ _
            (favoured-Spares w _ path b _ obj t
              (determine_winner_lem w deps.policy t obj.mod_time h))
            λ _. Only-bind _ _ (tell_event-Spares w _) (λ _. Only-pure _))
