-- ===== src/Syncer/Conflict/Protocol.antt =====
-- The calls that the resolution of a conflict may make, in their order.
use home_drive.Base.{◌≡◌, refl, sym, Option, none, some}
use mathlib.Core.Path.{subst}
use home_drive.Base.Text.{Bytes}
use home_drive.OldSuffix.{Matcher, format}
use home_drive.Syncer.Types.{Error, Origin, local, remote}
use home_drive.Syncer.Go.{Call, Resp, Proc, ret, panic, call, Result, ok, fail}
use home_drive.Syncer.Go.{
  local_rename, remote_download, remote_move, remote_copy, remote_delete, local_remove, store_put,
  store_delete, store_next_old_n,
}
use home_drive.Syncer.Safe.{Monitor, Safe, Every}
use home_drive.Syncer.Prune.Calls.{Permits}
use home_drive.Syncer.Conflict.{remote_dir}

-- How far a resolution is: nothing done, the name for the loser known, the loser of a side under
-- that name, its entry in the journal, the winner transferred.
pub data Phase : Type 0 where
  fresh transferred : Phase
  named : Bytes → Phase
  moved : Origin → Bytes → Phase
  recorded : Origin → Phase

abbrev pub on_nil : Option Error → Phase → Phase → Phase
on_nil none p q = p
on_nil (some e) p q = q

abbrev pub on_value : {A : Type 0} → Result A → (A → Phase) → Phase → Phase
on_value (ok a) f q = f a
on_value (fail e) f q = q

module _ (m : Matcher) where
  -- The number that the store gives names the loser.
  abbrev pub advance : Phase → (c : Call) → Resp c → Phase
  advance fresh (store_next_old_n p) r = on_value r (λ (b, n). named (format m b n)) fresh
  advance (named q) (local_rename a b) r = on_nil r (moved local q) (named q)
  advance (named q) (remote_move a b) r = on_nil r (moved remote q) (named q)
  advance (moved o q) (store_put e) r = on_nil r (recorded o) (moved o q)
  advance (recorded local) (remote_download p) r = on_nil r transferred (recorded local)
  advance (recorded remote) (remote_copy p d) r = on_value r (λ _. transferred) (recorded remote)
  advance s _ _ = s

  -- For a path: the copy of one side is moved from the path to the name, then recorded under that
  -- name as of that side; only then may the retention delete files, objects and entries, and only
  -- then is the path transferred from the other side.
  abbrev pub Allowed : Bytes → Phase → Call → Type 0
  Allowed path fresh (store_next_old_n p) = p ≡ path
  Allowed path _ (store_next_old_n p) = ⊥
  Allowed path (named q) (local_rename a b) = (a ≡ path) × (b ≡ q)
  Allowed path _ (local_rename a b) = ⊥
  Allowed path (named q) (remote_move a b) = (a ≡ path) × (b ≡ q)
  Allowed path _ (remote_move a b) = ⊥
  Allowed path (moved o q) (store_put e) = (e.path ≡ q) × (e.last_origin ≡ o)
  Allowed path _ (store_put e) = ⊥
  Allowed path (recorded local) (remote_download p) = p ≡ path
  Allowed path _ (remote_download p) = ⊥
  Allowed path (recorded remote) (remote_copy p d) = (p ≡ path) × (d ≡ remote_dir path)
  Allowed path _ (remote_copy p d) = ⊥
  Allowed path (recorded o) (remote_delete p) = Unit
  Allowed path _ (remote_delete p) = ⊥
  Allowed path (recorded o) (local_remove p) = Unit
  Allowed path _ (local_remove p) = ⊥
  Allowed path (recorded o) (store_delete p) = Unit
  Allowed path _ (store_delete p) = ⊥
  Allowed path _ _ = Unit

  abbrev pub order : Bytes → Monitor Phase
  order path = record { step = advance; allowed = Allowed path }

-- A call that returns a value says that the loser is in the journal and the winner transferred.
abbrev pub Kept : {S A : Type 0} → Phase → Result A × S → Type 0
Kept m (ok a, s) = m ≡ transferred
Kept m (fail e, s) = Unit

-- The calls of the retention.
abbrev pub Collects : Call → Type 0
Collects (store_next_old_n p) = ⊥
Collects (local_rename p q) = ⊥
Collects (remote_move p q) = ⊥
Collects (store_put e) = ⊥
Collects (remote_download p) = ⊥
Collects (remote_copy p d) = ⊥
Collects _ = Unit

pub retention-Permits : Permits Collects
retention-Permits = record {
  clock_call = tt;
  remove_call = λ p. tt;
  delete_call = λ p. tt;
  forget_call = λ p. tt;
  siblings_call = λ p. tt;
  publish_call = λ e. tt;
  audit_call = λ e. tt;
}

module _ (m : Matcher) (path : Bytes) where
  Collects-Allowed : (o : Origin) (c : Call) → Collects c → Allowed m path (recorded o) c
  Collects-Allowed o (store_next_old_n p) h = absurd h
  Collects-Allowed o (local_rename p q) h = absurd h
  Collects-Allowed o (remote_move p q) h = absurd h
  Collects-Allowed o (store_put e) h = absurd h
  Collects-Allowed o (remote_download p) h = absurd h
  Collects-Allowed o (remote_copy p d) h = absurd h
  Collects-Allowed o _ h = tt

  Collects-advance :
      (o : Origin) (c : Call) (r : Resp c) → Collects c → advance m (recorded o) c r ≡ recorded o
  Collects-advance local (remote_download p) r h = absurd h
  Collects-advance remote (remote_copy p d) r h = absurd h
  Collects-advance local _ r h = refl
  Collects-advance remote _ r h = refl

  pub recorded-Safe :
      {A : Type 0} (o : Origin) (p : Proc A)
      → Every Collects p
      → Safe (order m path) (λ x _. x ≡ recorded o) (recorded o) p
  recorded-Safe o (ret a) h = refl
  recorded-Safe o panic h = tt
  recorded-Safe {A} o (call c k) h = (
    Collects-Allowed o c h.0,
    λ r.
        subst (λ x. Safe (order m path) (λ y (_ : A). y ≡ recorded o) x (k r))
          (sym (Collects-advance o c r h.0)) (recorded-Safe o (k r) (h.1 r)),
  )
