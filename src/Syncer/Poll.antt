-- ===== src/Syncer/Poll.antt =====
-- internal/syncer/puller.go: one poll of the Changes API, the page token, and the poll interval.
-- The state `Puller` and the handling of one change are in Syncer/Pull.antt.
pub mod Interval
pub mod Streak
pub mod Token
use home_drive.Base.{
  ℕ, zero, suc, ◌+◌, ◌-◌, ◌*◌, Bool, true, false, not, ◌&&◌, ◌||◌, Option, none, some, List, [],
  ◌∷◌, ltb, ◌==◌, if◌then◌else◌, is_empty,
}
use home_drive.Base.Text.{Bytes}
use home_drive.Base.Time.{minute}
use home_drive.Syncer.Types.{
  Error, is_err, gone, token_rejected, oauth_client_missing, Change, Changes, pull_failure,
  pull_reset,
}
use home_drive.Syncer.Go.{
  Go, ctx_err, store_get_token, store_set_token, remote_start_token, remote_list_changes, Result,
  ok, fail,
}
use home_drive.Syncer.Go.{
  pure, raise, perform, check, lift, attempt, read_state, write_state, ◌>>=◌, ◌>>◌,
}
use home_drive.Syncer.Pull.{Puller, PullerConfig, emit, process_change}

abbrev pub oauth_backoff_max : ℕ
oauth_backoff_max = 30 * minute

-- The loop of `NextPollInterval` for the rounds that are left. It doubles only values below the
-- cap, so that nothing overflows an int64.
unfoldable pub grow : ℕ → ℕ → ℕ
grow zero interval = interval
grow (suc k) interval = elim (ltb interval oauth_backoff_max) [
  | true ↦ grow k (interval * 2)
  | false ↦ interval
]

unfoldable pub next_poll_interval : ℕ → ℕ → ℕ
next_poll_interval interval streak =
    if streak == 0
    then interval
    else let grown = grow (streak - 1) interval in
      if ltb oauth_backoff_max grown then oauth_backoff_max else grown

abbrev pub set_streak : (ℕ → ℕ) → Go Puller Unit
set_streak f = read_state >>= λ p. write_state (record p { streak = f p.streak })

unfoldable pub ensure_page_token : Go Puller Bytes
ensure_page_token = do
  stored ← perform store_get_token
  token ← lift stored
  if not (is_empty token) then pure token else do
    started ← perform remote_start_token
    start_token ← lift started
    put ← perform (store_set_token start_token)
    check put
    pure start_token

unfoldable pub persist_token : Bytes → Go Puller Unit
persist_token token =
    if is_empty token then pure tt else (perform (store_set_token token) >>= λ put. check put)

-- `ErrGone` or `ErrTokenRejected`: the token is unusable.
unfoldable pub wants_reset : Error → Bool
wants_reset e = is_err e gone || is_err e token_rejected

module _ (cfg : PullerConfig) where
  unfoldable pub report_failure : Error → Go Puller Changes
  report_failure e =
      emit cfg (pull_failure [] e)
      >> (set_streak (λ n. if is_err e oauth_client_missing then n + 1 else 0) >> raise e)

  unfoldable pub reset_token : Error → Go Puller Changes
  reset_token e = do
    set_streak (λ n. 0)
    emit cfg (pull_reset (is_err e token_rejected))
    started ← perform remote_start_token
    token ← lift started
    put ← perform (store_set_token token)
    check put
    listed ← perform (remote_list_changes token)
    lift listed

  -- What `fetchChanges` makes of the first answer of the Changes API.
  unfoldable pub on_listing : Result Changes → Go Puller Changes
  on_listing (ok changes) = set_streak (λ n. 0) >> pure changes
  on_listing (fail e) = if wants_reset e then reset_token e else report_failure e

  unfoldable pub fetch_changes : Bytes → Go Puller Changes
  fetch_changes token = perform (remote_list_changes token) >>= on_listing

  -- The loop over the changes with `lastErr`.
  unfoldable pub process_all : Option Error → List Change → Go Puller (Option Error)
  process_all last [] = pure last
  process_all last (ch ∷ chs) = do
    cancelled ← perform ctx_err
    check cancelled
    done ← attempt (process_change cfg ch)
    process_all (elim done [ ok _ ↦ last | fail e ↦ some e ]) chs

  unfoldable pub poll : Go Puller Unit
  poll = do
    token ← ensure_page_token
    changes ← fetch_changes token
    elim changes.items [
      | [] ↦ persist_token changes.next_page_token
      | ch ∷ chs ↦ do
        last ← process_all none (ch ∷ chs)
        persist_token changes.next_page_token
        check last
    ]
