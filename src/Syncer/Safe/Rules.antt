-- ===== src/Syncer/Safe/Rules.antt =====
-- Rules for a monitor that goes through stages.
use mathlib.Core.Path.{subst}
use home_drive.Base.{◌≡◌, refl, sym, Bool, true, false, if◌then◌else◌, Option, none, some}
use home_drive.Syncer.Types.{Error, Stat, FileInfo, found, missing, unreadable}
use home_drive.Syncer.Go.{
  Call, Resp, Go, Result, ok, fail, perform, pure, raise, check, tell, attempt, ◌>>=◌, bind, after,
  rescue,
}
use home_drive.Syncer.Safe.{Monitor, Safe, Safe-bind}

-- A program that returns a value leaves the monitor at `good`, and one that returns an error at
-- `bad`.
abbrev pub Leaves : {M A S : Type 0} → M → M → M → Result A × S → Type 0
Leaves bad good m (ok a, s) = m ≡ good
Leaves bad good m (fail e, s) = m ≡ bad

module _ {M S : Type 0} (mon : Monitor M) where
  pub record Moves {A : Type 0} (from bad good : M) (p : Go S A) : Type 0 where
    pub at : (s : S) → Safe mon (Leaves bad good) from (p s)

  module _ {A : Type 0} (from bad good : M) where
    pub Moves-call :
        (c : Call) (f : Resp c → Go S A)
        → mon.allowed from c
        → ((r : Resp c) → Moves (mon.step from c r) bad good (f r))
        → Moves from bad good (perform c >>= f)
    unfolding ◌>>=◌ bind after
    Moves-call c f h next = record { at = λ s. (h, λ r. (next r).at s) }

    -- A call that the monitor lets pass and stays at.
    pub Moves-ask :
        (c : Call) (f : Resp c → Go S A)
        → mon.allowed from c
        → ((r : Resp c) → mon.step from c r ≡ from)
        → ((r : Resp c) → Moves from bad good (f r))
        → Moves from bad good (perform c >>= f)
    unfolding ◌>>=◌ bind after
    Moves-ask c f h e next = record {
      at = λ s.
          (h, λ r. subst (λ m. Safe mon (Leaves bad good) m (f r s)) (sym (e r)) ((next r).at s));
    }

    pub Moves-attempt :
        {B : Type 0} (x y : M) (p : Go S B) (f : Result B → Go S A)
        → Moves from x y p
        → ((b : B) → Moves y bad good (f (ok b)))
        → ((e : Error) → Moves x bad good (f (fail e)))
        → Moves from bad good (attempt p >>= f)
    unfolding ◌>>=◌ attempt rescue after
    Moves-attempt {B} x y p f h on_ok on_fail = record {
      at = λ s.
          Safe-bind mon Rescued (Leaves bad good) (bind (p s) rescue) (after f) from
            (Safe-bind mon (Leaves x y) Rescued (p s) rescue from (h.at s) kept) resume;
    }
      where
        Rescued : M → Result (Result B) × S → Type 0
        Rescued m (ok (ok b), t) = m ≡ y
        Rescued m (ok (fail e), t) = m ≡ x
        Rescued m (fail e, t) = ⊥

        kept : (m : M) (a : Result B × S) → Leaves x y m a → Safe mon Rescued m (rescue a)
        kept m (ok b, t) e = e
        kept m (fail z, t) e = e

        resume :
            (m : M) (a : Result (Result B) × S)
            → Rescued m a
            → Safe mon (Leaves bad good) m (after f a)
        resume m (ok (ok b), t) e =
            subst (λ z. Safe mon (Leaves bad good) z (f (ok b) t)) (sym e) ((on_ok b).at t)
        resume m (ok (fail z), t) e =
            subst (λ v. Safe mon (Leaves bad good) v (f (fail z) t)) (sym e) ((on_fail z).at t)
        resume m (fail z, t) e = absurd e

    pub Moves-bind :
        {B : Type 0} (x : M) (p : Go S B) (f : B → Go S A)
        → Moves from bad x p
        → ((b : B) → Moves x bad good (f b))
        → Moves from bad good (p >>= f)
    unfolding ◌>>=◌ after
    Moves-bind {B} x p f h next = record {
      at = λ s. Safe-bind mon (Leaves bad x) (Leaves bad good) (p s) (after f) from (h.at s) resume;
    }
      where
        resume :
            (m : M) (a : Result B × S)
            → Leaves bad x m a
            → Safe mon (Leaves {A = A} {S = S} bad good) m (after f a)
        resume m (ok b, t) e =
            subst (λ z. Safe mon (Leaves bad good) z (f b t)) (sym e) ((next b).at t)
        resume m (fail z, t) e = e

    pub Moves-if :
        (b : Bool) (p q : Go S A)
        → Moves from bad good p
        → Moves from bad good q
        → Moves from bad good (if b then p else q)
    Moves-if true p q hp hq = hp
    Moves-if false p q hp hq = hq

    pub Moves-stat :
        (st : Stat) (f : FileInfo → Go S A) (g : Go S A) (h : Error → Go S A)
        → ((i : FileInfo) → Moves from bad good (f i))
        → Moves from bad good g
        → ((e : Error) → Moves from bad good (h e))
        → Moves from bad good (elim st [ found i ↦ f i | missing ↦ g | unreadable e ↦ h e ])
    Moves-stat (found i) f g h pf pg ph = pf i
    Moves-stat missing f g h pf pg ph = pg
    Moves-stat (unreadable e) f g h pf pg ph = ph e

  pub Moves-pure : {A : Type 0} (m bad : M) (a : A) → Moves m bad m (pure a)
  Moves-pure m bad a = record { at = λ s. refl }

  pub Moves-raise : {A : Type 0} (m good : M) (e : Error) → Moves {A = A} m m good (raise e)
  Moves-raise m good e = record { at = λ s. refl }

  pub Moves-check : (m : M) (o : Option Error) → Moves m m m (check o)
  Moves-check m none = record { at = λ s. refl }
  Moves-check m (some e) = record { at = λ s. refl }

  -- A call for its effect that the monitor lets pass on the way from `m` to `n`.
  pub Moves-tell :
      (m n bad : M) (c : Call)
      → mon.allowed m c
      → ((r : Resp c) → mon.step m c r ≡ n)
      → Moves m bad n (tell c)
  unfolding ◌>>=◌ bind after
  Moves-tell m n bad c h e = record { at = λ s. (h, e) }
