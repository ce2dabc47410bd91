-- ===== src/Remote/Doubles/Injected.antt =====
-- internal/rcloneclient/flakyfs.go: what the rules inject.
use home_drive.Base.{
  ◌≡◌, refl, sym, ap, ◌∙◌, true, false, Option, none, some, List, [], ◌∷◌, ◌++◌, All,
}
use home_drive.Base.Text.{Bytes, codes}
use home_drive.Syncer.Types.{Error, Changes}
use home_drive.Syncer.Go.{Result, fail}
use home_drive.Remote.Fs.{RemoteFs}
use home_drive.Remote.Doubles.{
  RemoteCall, Reply, copies, moves, downloads, deletes, stats, lists, lists_changes, asks_token,
  asks_quota, object, error, objects, changes, token, quota_info, answer, flaky_fs, Context,
  replied, injected, injected_error, injected_changes, FlakyRule, apply_rule, rule_applies,
  execute_action,
}

-- The method of a call and its first argument, as the rules see them.
abbrev pub method_of : RemoteCall → Bytes
method_of (copies _ _) = codes "CopyFile"
method_of (moves _ _) = codes "MoveFile"
method_of (downloads _ _) = codes "DownloadFile"
method_of (deletes _) = codes "DeleteFile"
method_of (stats _) = codes "Stat"
method_of (lists _) = codes "List"
method_of (lists_changes _) = codes "ListChanges"
method_of asks_token = codes "GetStartPageToken"
method_of asks_quota = codes "Quota"

abbrev pub argument_of : RemoteCall → Bytes
argument_of (copies p _) = p
argument_of (moves p _) = p
argument_of (downloads p _) = p
argument_of (deletes p) = p
argument_of (stats p) = p
argument_of (lists p) = p
argument_of (lists_changes t) = t
argument_of asks_token = []
argument_of asks_quota = []

-- The reply of a call that fails.
abbrev pub failed_reply : RemoteCall → Error → Reply
failed_reply (copies _ _) e = object (fail e)
failed_reply (moves _ _) e = error (some e)
failed_reply (downloads _ _) e = error (some e)
failed_reply (deletes _) e = error (some e)
failed_reply (stats _) e = object (fail e)
failed_reply (lists _) e = objects (fail e)
failed_reply (lists_changes _) e = changes (fail e)
failed_reply asks_token e = token (fail e)
failed_reply asks_quota e = quota_info (fail e)

module _ (ctx : Context) (method arg : Bytes) where
  -- Rules that do not apply are passed over up to the first one that does.
  passed_over :
      (before : List FlakyRule) (r : FlakyRule) (rest : List FlakyRule)
      → All (λ q. rule_applies q method arg ≡ false) before
      → rule_applies r method arg ≡ true
      → apply_rule ctx (before ++ (r ∷ rest)) method arg ≡ execute_action ctx r.action
  unfolding apply_rule
  passed_over [] r rest h e = rw e refl
  passed_over (q ∷ qs) r rest h e = rw h.0 (passed_over qs r rest h.1 e)

  none_apply :
      (rules : List FlakyRule)
      → All (λ q. rule_applies q method arg ≡ false) rules
      → apply_rule ctx rules method arg ≡ none
  unfolding apply_rule
  none_apply [] h = refl
  none_apply (q ∷ qs) h = rw h.0 (none_apply qs h.1)

module _ {S : Type 0} where
  -- What an injected error makes of a call.
  abbrev pub injection : RemoteCall → S → Option Error → Option (Reply × S) → Option (Reply × S)
  injection c s none usual = usual
  injection c s (some e) usual = some (failed_reply c e, s)

  result_lem :
      {A : Type 0} (c : RemoteCall) (f : Result A → Reply) (o : Option Error) (k : S → Result A × S)
      (s : S)
      → ((e : Error) → failed_reply c e ≡ f (fail e))
      → replied f (injected o k s) ≡ injection c s o (replied f (k s))
  result_lem c f none k s h = refl
  result_lem c f (some e) k s h = ap (λ r. some (r, s)) (sym (h e))

  changes_lem :
      (t : Bytes) (o : Option Error) (k : S → Option (Result Changes × S)) (s : S)
      → elim (injected_changes o k s) [ none ↦ none | some r ↦ replied changes r ]
        ≡ injection (lists_changes t) s o (elim (k s) [ none ↦ none | some r ↦ replied changes r ])
  changes_lem t none k s = refl
  changes_lem t (some e) k s = refl

  error_lem :
      (c : RemoteCall) (o : Option Error) (k : S → Option Error × S) (s : S)
      → ((e : Error) → failed_reply c e ≡ error (some e))
      → replied error (injected_error o k s) ≡ injection c s o (replied error (k s))
  error_lem c none k s h = refl
  error_lem c (some e) k s h = ap (λ r. some (r, s)) (sym (h e))

module _ {S : Type 0} (ctx : Context) (inner : RemoteFs S) where
  call_lem :
      (rules : List FlakyRule) (c : RemoteCall) (s : S)
      → answer (flaky_fs ctx rules inner) c s
        ≡ injection c s (apply_rule ctx rules (method_of c) (argument_of c)) (answer inner c s)
  unfolding flaky_fs
  call_lem rules (copies p q) s =
      result_lem (copies p q) object _ (inner.copy_file p q) s (λ e. refl)
  call_lem rules (moves p q) s = error_lem (moves p q) _ (inner.move_file p q) s (λ e. refl)
  call_lem rules (downloads p q) s =
      error_lem (downloads p q) _ (inner.download_file p q) s (λ e. refl)
  call_lem rules (deletes p) s = error_lem (deletes p) _ (inner.delete_file p) s (λ e. refl)
  call_lem rules (stats p) s = result_lem (stats p) object _ (inner.stat p) s (λ e. refl)
  call_lem rules (lists p) s = result_lem (lists p) objects _ (inner.list p) s (λ e. refl)
  call_lem rules (lists_changes t) s = changes_lem t _ (inner.list_changes t) s
  call_lem rules asks_token s =
      result_lem asks_token token _ inner.get_start_page_token s (λ e. refl)
  call_lem rules asks_quota s = result_lem asks_quota quota_info _ inner.quota s (λ e. refl)

  -- If no rule applies to a call, it is the call of the inner remote. Otherwise the first rule
  -- that applies decides: if its action is an error, this is the reply and the inner remote is as
  -- it was; if it is none, the call is again that of the inner remote.
  pub call-Injected :
      (before rest : List FlakyRule) (r : FlakyRule) (c : RemoteCall) (s : S)
      → All (λ q. rule_applies q (method_of c) (argument_of c) ≡ false) before
      → (answer (flaky_fs ctx before inner) c s ≡ answer inner c s)
        × (rule_applies r (method_of c) (argument_of c) ≡ true
            → answer (flaky_fs ctx (before ++ (r ∷ rest)) inner) c s
              ≡ injection c s (execute_action ctx r.action) (answer inner c s))
  call-Injected before rest r c s h = (
    call_lem before c s
        ∙ ap (λ o. injection c s o (answer inner c s))
            (none_apply ctx (method_of c) (argument_of c) before h),
    λ a.
        call_lem (before ++ (r ∷ rest)) c s
        ∙ ap (λ o. injection c s o (answer inner c s))
            (passed_over ctx (method_of c) (argument_of c) before r rest h a),
  )
