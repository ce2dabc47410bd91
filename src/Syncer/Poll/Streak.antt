-- ===== src/Syncer/Poll/Streak.antt =====
-- How one call of `fetchChanges` changes the streak of failures that the poll interval goes by.
use home_drive.Base.{[], ℕ, ◌+◌, ◌≡◌, refl, some, if◌then◌else◌, Bool-cases, inl, inr}
use home_drive.Base.Text.{Bytes}
use home_drive.Syncer.Types.{pull_failure, Event, Error, Changes, is_err, oauth_client_missing}
use home_drive.Syncer.Go.{
  Call, Resp, Go, Result, ok, fail, run, remote_list_changes, remote_start_token, store_set_token,
  raise, publish, lift, check, pure, ◌>>=◌, ◌>>◌, after, bind,
}
use home_drive.Syncer.Ends.{
  Ends, Ends-run, Frame, Frame-pure, Frame-if, Frame-tell, Frame-bind, Frame-lift, Frame-check,
  Frame-call, tell_if-then,
}
use home_drive.Syncer.Pull.{Puller, PullerConfig, emit}
use home_drive.Syncer.Poll.{
  set_streak, on_listing, fetch_changes, wants_reset, reset_token, report_failure,
}

-- The streak after an answer of the Changes API: only a failure for want of OAuth credentials
-- that asks for no reset makes it longer, and any other answer ends it.
abbrev pub next_streak : Result Changes → ℕ → ℕ
next_streak (ok changes) n = 0
next_streak (fail e) n =
    if wants_reset e then 0 else if is_err e oauth_client_missing then n + 1 else 0

emit-Frame : (cfg : PullerConfig) (e : Event) → Frame (emit cfg e)
unfolding emit
emit-Frame cfg e = Frame-if _ _ _ (Frame-tell (publish e)) (Frame-pure tt)

-- `p` with another streak.
abbrev pub with_streak : Puller → ℕ → Puller
with_streak p n = record p { streak = n }

set_streak-then :
    {B : Type 0} (Q : Result B × Puller → Type 0) (f : ℕ → ℕ) (m : Go Puller B) (p : Puller)
    → Ends Q (m (with_streak p (f p.streak)))
    → Ends Q ((set_streak f >> m) p)
unfolding ◌>>=◌ bind after
set_streak-then Q f m p h = h

-- The result holds the streak `n`, and the rest of the state as it was.
abbrev Leaves : {A : Type 0} → Puller → ℕ → Result A × Puller → Type 0
Leaves p n (r, q) = q ≡ with_streak p n

module _ (cfg : PullerConfig) (p : Puller) where
  reset-streak : (e : Error) → Ends (Leaves p 0) (reset_token cfg e p)
  unfolding reset_token
  reset-streak e =
      set_streak-then (Leaves p 0) (λ n. 0) _ p
        ((Frame-bind (emit cfg _) _ (emit-Frame cfg _) λ _.
            Frame-call remote_start_token _ λ started.
              Frame-bind (lift started) _ (Frame-lift started) λ token.
                Frame-call (store_set_token token) _ λ put.
                  Frame-bind (check put) _ (Frame-check put)
                    λ _. Frame-call (remote_list_changes token) _ Frame-lift).at
          (with_streak p 0))

  abbrev failed_streak : Error → ℕ
  failed_streak e = if is_err e oauth_client_missing then p.streak + 1 else 0

  report-streak : (e : Error) → Ends (Leaves p (failed_streak e)) (report_failure cfg e p)
  unfolding report_failure emit
  report-streak e =
      tell_if-then (Leaves p (failed_streak e)) cfg.deps.has_publisher (publish (pull_failure [] e))
        (set_streak grown >> raise e) p
        (set_streak-then (Leaves p (failed_streak e)) grown (raise e) p refl)
    where
      grown : ℕ → ℕ
      grown n = if is_err e oauth_client_missing then n + 1 else 0

  listing-streak :
      (listed : Result Changes)
      → Ends (Leaves p (next_streak listed p.streak)) (on_listing cfg listed p)
  unfolding on_listing
  listing-streak (ok changes) = set_streak-then (Leaves p 0) (λ n. 0) (pure changes) p refl
  listing-streak (fail e) = elim (Bool-cases (wants_reset e)) [
    | inl yes_reset ↦ rw yes_reset (reset-streak e)
    | inr no_reset ↦ rw no_reset (report-streak e)
  ]

-- Whatever the answers, fetching changes returns without a panic, and leaves the streak that the
-- first answer of the Changes API asks for: one more than before if it is a failure for want of
-- OAuth credentials that asks for no reset, and 0 after any other answer. The remembered dangling
-- shortcuts stay as they were.
fetch_changes-streak :
    {W : Type 0} (cfg : PullerConfig) (token : Bytes) (p : Puller)
    (env : W → (c : Call) → Resp c × W) (w : W)
    → (r : Result Changes) × (q : Puller) × (w' : W) × (run env w (fetch_changes cfg token p)
        ≡ some ((r, q), w'))
      × (q ≡ with_streak p (next_streak (env w (remote_list_changes token)).0 p.streak))
unfolding fetch_changes ◌>>=◌ bind after run
fetch_changes-streak cfg token p env w =
    let (a, w', e, h) =
      Ends-run (Leaves p (next_streak (env w (remote_list_changes token)).0 p.streak)) _ env
        (env w (remote_list_changes token)).1
        (listing-streak cfg p (env w (remote_list_changes token)).0) in
    (a.0, a.1, w', e, h)
