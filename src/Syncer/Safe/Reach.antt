-- ===== src/Syncer/Safe/Reach.antt =====
-- Rules for a monitor whose last stage matters only for a program that returns a value.
use mathlib.Core.Path.{subst}
use home_drive.Base.{◌≡◌, refl, sym, Bool, true, false, if◌then◌else◌, Option, none, some}
use home_drive.Syncer.Types.{Error}
use home_drive.Syncer.Go.{
  Call, Resp, Go, Result, ok, fail, perform, pure, raise, check, tell, ◌>>=◌, bind, after,
}
use home_drive.Syncer.Safe.{Monitor, Safe, Safe-bind}

abbrev pub Reached : {M A S : Type 0} → M → M → Result A × S → Type 0
Reached good m (ok a, s) = m ≡ good
Reached good m (fail e, s) = Unit

module _ {M S : Type 0} (mon : Monitor M) where
  pub record Reaches {A : Type 0} (from good : M) (p : Go S A) : Type 0 where
    pub at : (s : S) → Safe mon (Reached good) from (p s)

  module _ {A : Type 0} (from good : M) where
    pub Reaches-call :
        (c : Call) (f : Resp c → Go S A)
        → mon.allowed from c
        → ((r : Resp c) → Reaches (mon.step from c r) good (f r))
        → Reaches from good (perform c >>= f)
    unfolding ◌>>=◌ bind after
    Reaches-call c f h next = record { at = λ s. (h, λ r. (next r).at s) }

    pub Reaches-bind :
        {B : Type 0} (x : M) (p : Go S B) (f : B → Go S A)
        → Reaches from x p
        → ((b : B) → Reaches x good (f b))
        → Reaches from good (p >>= f)
    unfolding ◌>>=◌ after
    Reaches-bind {B} x p f h next = record {
      at = λ s. Safe-bind mon (Reached x) (Reached good) (p s) (after f) from (h.at s) resume;
    }
      where
        resume :
            (m : M) (a : Result B × S)
            → Reached x m a
            → Safe mon (Reached {A = A} {S = S} good) m (after f a)
        resume m (ok b, t) e =
            subst (λ z. Safe mon (Reached good) z (f b t)) (sym e) ((next b).at t)
        resume m (fail z, t) e = tt

    pub Reaches-if :
        (b : Bool) (p q : Go S A)
        → Reaches from good p
        → Reaches from good q
        → Reaches from good (if b then p else q)
    Reaches-if true p q hp hq = hp
    Reaches-if false p q hp hq = hq

    -- With the test known, only the branch that is taken counts.
    pub Reaches-else :
        {b : Bool} (p q : Go S A)
        → b ≡ false
        → Reaches from good q
        → Reaches from good (if b then p else q)
    Reaches-else p q e h = rw e h

    pub Reaches-raise : (e : Error) → Reaches {A = A} from good (raise e)
    Reaches-raise e = record { at = λ s. tt }

  pub Reaches-pure : {A : Type 0} (m : M) (a : A) → Reaches m m (pure a)
  Reaches-pure m a = record { at = λ s. refl }

  pub Reaches-check : (m : M) (o : Option Error) → Reaches m m (check o)
  Reaches-check m none = record { at = λ s. refl }
  Reaches-check m (some e) = record { at = λ s. tt }

  pub Reaches-tell :
      (m n : M) (c : Call)
      → mon.allowed m c
      → ((r : Resp c) → mon.step m c r ≡ n)
      → Reaches m n (tell c)
  unfolding ◌>>=◌ bind after
  Reaches-tell m n c h e = record { at = λ s. (h, e) }
