-- ===== src/Remote/Doubles.antt =====
-- internal/rcloneclient/dryrunfs.go and flakyfs.go: a `RemoteFS` around another one.
pub mod Frozen
pub mod Injected
use home_drive.Base.{
  ℕ, Bool, true, false, not, ◌&&◌, Option, none, some, List, [], ◌∷◌, if◌then◌else◌,
}
use home_drive.Base.Int.{ℤ, is_positive}
use home_drive.Base.Text.{Bytes, codes, bytes_eq}
use home_drive.Syncer.Types.{Error, RemoteObject, Changes}
use home_drive.Syncer.Go.{Result, ok, fail}
use home_drive.Quota.{QuotaInfo}
use home_drive.Remote.Changes.{join}
use home_drive.Remote.Fs.{RemoteFs}
use home_drive.Remote.MemFs.{path_base}

-- The made-up object of an upload.
unfoldable pub made_up : Bytes → RemoteObject
made_up p = record { path = p; size = 0; mod_time = 0; md5 = []; remote_id = []; is_dir = false }

module _ {S : Type 0} where
  unfoldable pub dry_run_fs : RemoteFs S → RemoteFs S
  unfolding made_up
  dry_run_fs inner = record {
    copy_file = λ src dst s. (ok (made_up (join dst (path_base src))), s);
    delete_file = λ p s. (none, s);
    move_file = λ src dst s. (none, s);
    stat = inner.stat;
    list = inner.list;
    list_changes = inner.list_changes;
    get_start_page_token = inner.get_start_page_token;
    download_file = inner.download_file;
    quota = inner.quota;
  }

pub record FlakyAction : Type 0 where
  pub err : Option Error
  pub delay : ℤ
  pub timeout : Bool

-- `matches` is `none` for a nil `Match`.
pub record FlakyRule : Type 0 where
  pub method : Bytes
  pub matches : Option (Bytes → Bytes → Bool)
  pub action : FlakyAction

-- The context of a call: its `Err` once it is done, and whether it is done before a delay is over.
pub record Context : Type 0 where
  pub err : Error
  pub done_before : ℤ → Bool

unfoldable pub execute_action : Context → FlakyAction → Option Error
execute_action ctx a =
    if a.timeout
    then some ctx.err
    else if is_positive a.delay && ctx.done_before a.delay
    then some ctx.err
    else a.err

unfoldable pub match_passes : Option (Bytes → Bytes → Bool) → Bytes → Bytes → Bool
match_passes none method arg = true
match_passes (some f) method arg = f method arg

unfoldable pub rule_applies : FlakyRule → Bytes → Bytes → Bool
unfolding match_passes
rule_applies r method arg =
    if not (bytes_eq r.method (codes "*")) && not (bytes_eq r.method method)
    then false
    else match_passes r.matches method arg

module _ {S : Type 0} where
  -- An error of the rules ends a call before it reaches the inner one.
  abbrev pub injected : {A : Type 0} → Option Error → (S → Result A × S) → S → Result A × S
  injected none k s = k s
  injected (some e) k s = (fail e, s)

  abbrev pub injected_error : Option Error → (S → Option Error × S) → S → Option Error × S
  injected_error none k s = k s
  injected_error (some e) k s = (some e, s)

  abbrev pub injected_changes :
      Option Error → (S → Option (Result Changes × S)) → S → Option (Result Changes × S)
  injected_changes none k s = k s
  injected_changes (some e) k s = some (fail e, s)

module _ (ctx : Context) where
  unfoldable pub apply_rule : List FlakyRule → Bytes → Bytes → Option Error
  apply_rule [] method arg = none
  apply_rule (r ∷ rs) method arg =
      let later = apply_rule rs method arg in
      if rule_applies r method arg then execute_action ctx r.action else later

  module _ {S : Type 0} where
    unfoldable pub flaky_fs : List FlakyRule → RemoteFs S → RemoteFs S
    flaky_fs rules inner = record {
      copy_file =
          λ src dst. injected (apply_rule rules (codes "CopyFile") src) (inner.copy_file src dst);
      delete_file =
          λ p. injected_error (apply_rule rules (codes "DeleteFile") p) (inner.delete_file p);
      move_file = λ src dst.
          injected_error (apply_rule rules (codes "MoveFile") src) (inner.move_file src dst);
      stat = λ p. injected (apply_rule rules (codes "Stat") p) (inner.stat p);
      list = λ dir. injected (apply_rule rules (codes "List") dir) (inner.list dir);
      list_changes =
          λ t. injected_changes (apply_rule rules (codes "ListChanges") t) (inner.list_changes t);
      get_start_page_token =
          injected (apply_rule rules (codes "GetStartPageToken") []) inner.get_start_page_token;
      download_file = λ p q.
          injected_error (apply_rule rules (codes "DownloadFile") p) (inner.download_file p q);
      quota = injected (apply_rule rules (codes "Quota") []) inner.quota;
    }

-- One call of the interface, and what it returns.
pub data RemoteCall : Type 0 where
  copies moves downloads : Bytes → Bytes → RemoteCall
  deletes stats lists lists_changes : Bytes → RemoteCall
  asks_token asks_quota : RemoteCall

pub data Reply : Type 0 where
  object : Result RemoteObject → Reply
  error : Option Error → Reply
  objects : Result (List RemoteObject) → Reply
  changes : Result Changes → Reply
  token : Result Bytes → Reply
  quota_info : Result QuotaInfo → Reply

module _ {S : Type 0} where
  abbrev pub replied : {A : Type 0} → (A → Reply) → A × S → Option (Reply × S)
  replied f (a, s) = some (f a, s)

  abbrev pub answer : RemoteFs S → RemoteCall → S → Option (Reply × S)
  answer fs (copies src dst) s = replied object (fs.copy_file src dst s)
  answer fs (moves src dst) s = replied error (fs.move_file src dst s)
  answer fs (downloads p q) s = replied error (fs.download_file p q s)
  answer fs (deletes p) s = replied error (fs.delete_file p s)
  answer fs (stats p) s = replied object (fs.stat p s)
  answer fs (lists dir) s = replied objects (fs.list dir s)
  answer fs (lists_changes t) s = elim (fs.list_changes t s) [
    | none ↦ none
    | some r ↦ replied changes r
  ]
  answer fs asks_token s = replied token (fs.get_start_page_token s)
  answer fs asks_quota s = replied quota_info (fs.quota s)

  -- Calls one after the other; `none` is a panic.
  abbrev pub answers : RemoteFs S → List RemoteCall → S → Option (List Reply × S)
  answers fs [] s = some ([], s)
  answers fs (c ∷ cs) s = elim (answer fs c s) [
    | none ↦ none
    | some (r, t) ↦ elim (answers fs cs t) [ none ↦ none | some (rs, u) ↦ some (r ∷ rs, u) ]
  ]
