-- ===== src/Syncer/Bisync/Order.antt =====
-- The conflicts of internal/syncer/bisync_ops.go: who wins, and the order of the steps.
use home_drive.Base.{else-branch}
use home_drive.Base.{
  arith, Bool-cases, inl, inr, ◌≡◌, refl, Bool, true, false, Option, none, some, ltb, if◌then◌else◌,
}
use mathlib.Core.Path.{◌∙◌}
use home_drive.Base.Text.{Bytes}
use home_drive.OldSuffix.{Matcher, format, next_old_n}
use home_drive.Syncer.Types.{Error, RemoteObject, LocalFileInfo, Origin, local, remote}
use home_drive.Syncer.Go.{
  Call, Resp, Go, Result, ok, fail, lift, check, ◌>>=◌, bind, after, local_rename,
  local_mkdir_parent, remote_download, remote_move, remote_copy, remote_delete, local_remove,
  store_put, store_delete, store_view, clock,
}
use home_drive.Syncer.Safe.{Monitor}
use home_drive.Syncer.Safe.Reach.{Reaches, Reaches-call, Reaches-bind, Reaches-else, Reaches-check}
use home_drive.Syncer.Conflict.{determine_winner, newer_wins, remote_dir}
use home_drive.Syncer.Bisync.Defs.{BisyncConfig, Bisync}
use home_drive.Syncer.Bisync.Resolve.{
  mark_for_prune, resolve_local_wins, resolve_remote_wins, resolve_conflict,
}

chosen :
    {A : Type 0} (a b : Bool) (x y : A)
    → (if a then x else if b then y else x)
      ≡ elim (if a then local else if b then remote else local) [ local ↦ x | remote ↦ y ]
chosen true b x y = refl
chosen false true x y = refl
chosen false false x y = refl

-- Outside a dry run, bisync picks the side that the `newer_wins` policy of the puller picks,
-- equal times included.
pub resolve_conflict-determine_winner :
    (cfg : BisyncConfig) (l : LocalFileInfo) (r : RemoteObject)
    → cfg.dry_run ≡ false
    → resolve_conflict cfg l r ≡ elim (determine_winner l.mod_time r.mod_time newer_wins) [
      | local ↦ resolve_local_wins cfg l r
      | remote ↦ resolve_remote_wins cfg l r
    ]
unfolding resolve_conflict determine_winner
resolve_conflict-determine_winner cfg l r wet =
    else-branch _ _ wet ∙ chosen (ltb r.mod_time l.mod_time) (ltb l.mod_time r.mod_time) _ _

-- How far a resolution is: with the journal seen, the loser of a side at a new name, the winner
-- transferred, the entry of the path written, and that of the loser too.
pub data Stage : Type 0 where
  start : Stage
  seen : (Bytes → Bool) → Stage
  moved : Origin → Bytes → Stage
  transferred half : Bytes → Stage
  done : Stage

abbrev on_nil : Option Error → Stage → Stage → Stage
on_nil none s t = s
on_nil (some e) s t = t

abbrev on_value : {A : Type 0} → Result A → Stage → Stage → Stage
on_value (ok a) s t = s
on_value (fail e) s t = t

abbrev pub advance : Stage → (c : Call) → Resp c → Stage
advance start store_view r = seen r
advance (seen ex) (local_rename p q) r = on_nil r (moved local q) (seen ex)
advance (seen ex) (remote_move p q) r = on_nil r (moved remote q) (seen ex)
advance (moved local q) (remote_download p) r = on_nil r (transferred q) (moved local q)
advance (moved remote q) (remote_copy p d) r = on_value r (transferred q) (moved remote q)
advance (transferred q) (store_put e) r = on_nil r (half q) (transferred q)
advance (half q) (store_put e) r = on_nil r done (half q)
advance s _ _ = s

module _ (m : Matcher) (path : Bytes) (loser : Origin) where
  -- The name that `NextOldN` gives for a view of the journal.
  abbrev pub Named : (Bytes → Bool) → Bytes → Type 0
  Named ex q = q ≡ format m (next_old_n m path ex).0 (next_old_n m path ex).1

  abbrev pub Allowed : Stage → Call → Type 0
  Allowed (seen ex) (local_rename p q) = (loser ≡ local) × ((p ≡ path) × Named ex q)
  Allowed _ (local_rename p q) = ⊥
  Allowed (seen ex) (remote_move p q) = (loser ≡ remote) × ((p ≡ path) × Named ex q)
  Allowed _ (remote_move p q) = ⊥
  Allowed (moved local q) (remote_download p) = p ≡ path
  Allowed _ (remote_download p) = ⊥
  Allowed (moved remote q) (remote_copy p d) = (p ≡ path) × (d ≡ remote_dir path)
  Allowed _ (remote_copy p d) = ⊥
  Allowed (transferred q) (store_put e) = e.path ≡ path
  Allowed (half q) (store_put e) = e.path ≡ q
  Allowed _ (store_put e) = ⊥
  Allowed _ (remote_delete p) = ⊥
  Allowed _ (local_remove p) = ⊥
  Allowed _ (store_delete p) = ⊥
  Allowed start store_view = Unit
  Allowed _ store_view = ⊥
  Allowed _ _ = Unit

  abbrev pub protocol : Monitor Stage
  protocol = record { step = advance; allowed = Allowed }

-- The value of a transfer, or its error, which ends the resolution.
lifted :
    (mon : Monitor Stage) (s t : Stage) (a : Result RemoteObject)
    (k : RemoteObject → Go Bisync Unit)
    → ((obj : RemoteObject) → Reaches mon t done (k obj))
    → Reaches mon (on_value a t s) done (lift a >>= k)
unfolding ◌>>=◌ bind after
lifted mon s t (ok obj) k h = record { at = λ b. (h obj).at b }
lifted mon s t (fail e) k h = record { at = λ b. tt }

-- An error of a step ends the resolution.
checked :
    (mon : Monitor Stage) (s t : Stage) (o : Option Error) (k : Go Bisync Unit)
    → Reaches mon t done k
    → Reaches mon (on_nil o t s) done (check o >>= λ _. k)
unfolding ◌>>=◌ bind after
checked mon s t none k h = record { at = λ b. h.at b }
checked mon s t (some e) k h = record { at = λ b. tt }

mark-Order : (mon : Monitor Stage) (b : Bytes) → Reaches mon done done (mark_for_prune b)
unfolding mark_for_prune ◌>>=◌ bind after
mark-Order mon b = record { at = λ s. refl }

module _ (cfg : BisyncConfig) (l : LocalFileInfo) (r : RemoteObject) where
  local_wins-Order :
      Reaches (protocol cfg.matcher l.path remote) start done (resolve_local_wins cfg l r)
  unfolding resolve_local_wins
  local_wins-Order = Reaches-call _ start done store_view _ tt λ ex.
      Reaches-call _ (seen ex) done (remote_move _ _) _ (refl, (refl, refl))
        λ res. checked _ _ (moved remote _) res _ (
          Reaches-call _ (moved remote _) done (remote_copy _ _) _ (refl, refl)
            λ copied. lifted _ _ (transferred _) copied _ λ obj.
              Reaches-call _ (transferred _) done clock _ tt λ now.
                Reaches-call _ (transferred _) done (store_put _) _ refl λ first.
                  checked _ _ (half _) first _ (
                    Reaches-call _ (half _) done clock _ tt λ later.
                      Reaches-call _ (half _) done (store_put _) _ refl
                        λ second. checked _ _ done second _ (mark-Order _ _)))

  remote_wins-Order :
      Reaches (protocol cfg.matcher l.path local) start done (resolve_remote_wins cfg l r)
  unfolding resolve_remote_wins
  remote_wins-Order = Reaches-call _ start done store_view _ tt λ ex.
      Reaches-call _ (seen ex) done (local_rename _ _) _ (refl, (refl, refl))
        λ res. checked _ _ (moved local _) res _ (
          Reaches-call _ (moved local _) done (local_mkdir_parent _) _ tt λ made.
            Reaches-bind _ (moved local _) done (moved local _) (check made) _
              (Reaches-check _ _ made)
              λ _. Reaches-call _ (moved local _) done (remote_download _) _ refl λ got.
                checked _ _ (transferred _) got _ (
                  Reaches-call _ (transferred _) done clock _ tt λ now.
                    Reaches-call _ (transferred _) done (store_put _) _ refl λ first.
                      checked _ _ (half _) first _ (
                        Reaches-call _ (half _) done clock _ tt λ later.
                          Reaches-call _ (half _) done (store_put _) _ refl
                            λ second. checked _ _ done second _ (mark-Order _ _))))

  abbrev pub older : Origin
  older = if ltb l.mod_time r.mod_time then local else remote

  by_time : Reaches (protocol cfg.matcher l.path older) start done (
      if ltb r.mod_time l.mod_time
      then resolve_local_wins cfg l r
      else if ltb l.mod_time r.mod_time
      then resolve_remote_wins cfg l r
      else resolve_local_wins cfg l r)
  by_time = elim (Bool-cases (ltb l.mod_time r.mod_time)) [
    | inl e ↦ rw (e, not_before e) remote_wins-Order
    | inr e ↦ elim (Bool-cases (ltb r.mod_time l.mod_time)) [
      | inl f ↦ rw (e, f) local_wins-Order
      | inr f ↦ rw (e, f) local_wins-Order
    ]
  ]
    where
      not_before : ltb l.mod_time r.mod_time ≡ true → ltb r.mod_time l.mod_time ≡ false
      not_before e = ground (arith, e)

  -- Outside a dry run, bisync gives the copy of the side with the earlier time, the remote one if the
  -- times are equal, a new name, the one that NextOldN makes of what the journal knows then; only
  -- after that, and only once this succeeded, it transfers the path from the other side: it
  -- downloads it if the local copy was renamed, and uploads it to its directory if the remote one
  -- was. It deletes nothing. If the resolution returns no error, the renaming and the transfer were
  -- done, and then the entry of the path and after it that of the loser under its new name were put
  -- in the journal.
  pub resolve_conflict-Order :
      cfg.dry_run ≡ false
      → Reaches (protocol cfg.matcher l.path older) start done (resolve_conflict cfg l r)
  unfolding resolve_conflict
  resolve_conflict-Order wet = Reaches-else _ start done _ _ wet by_time
