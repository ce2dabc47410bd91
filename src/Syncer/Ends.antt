-- ===== src/Syncer/Ends.antt =====
-- Programs that return without a panic whatever the answers, and what holds of their results.
use home_drive.Base.{◌≡◌, refl, Bool, true, false, if◌then◌else◌, Option, none, some}
use home_drive.Syncer.Types.{Error}
use home_drive.Syncer.Go.{
  Call, Resp, Proc, ret, panic, call, bind, Go, Result, ok, fail, ◌>>=◌, ◌>>◌,
}
use home_drive.Syncer.Go.{perform, pure, raise, check, lift, tell, after, run}

abbrev pub Ends : {A : Type 0} → (A → Type 0) → Proc A → Type 0
Ends Q (ret a) = Q a
Ends Q panic = ⊥
Ends Q (call c k) = (r : Resp c) → Ends Q (k r)

pub Ends-run :
    {A W : Type 0} (Q : A → Type 0) (p : Proc A) (env : W → (c : Call) → Resp c × W) (w : W)
    → Ends Q p
    → (a : A) × (w' : W) × (run env w p ≡ some (a, w')) × Q a
unfolding run
Ends-run Q (ret a) env w h = (a, w, refl, h)
Ends-run Q panic env w h = absurd h
Ends-run Q (call c k) env w h = Ends-run Q (k (env w c).0) env (env w c).1 (h (env w c).0)

Ends-bind_proc :
    {A B : Type 0} (R : A → Type 0) (Q : B → Type 0) (p : Proc A) (f : A → Proc B)
    → Ends R p
    → ((a : A) → R a → Ends Q (f a))
    → Ends Q (bind p f)
unfolding bind
Ends-bind_proc R Q (ret a) f h next = next a h
Ends-bind_proc R Q panic f h next = absurd h
Ends-bind_proc R Q (call c k) f h next = λ r. Ends-bind_proc R Q (k r) f (h r) next

-- The program returns, and leaves the state in memory as it was.
pub record Frame {S A : Type 0} (m : Go S A) : Type 0 where
  pub at : (s : S) → Ends (λ (_, t). t ≡ s) (m s)

pub Frame-then :
    {S A B : Type 0} (Q : Result B × S → Type 0) (m : Go S A) (f : A → Go S B) (s : S)
    → Frame m
    → ((a : A) → Ends Q (f a s))
    → ((e : Error) → Q (fail e, s))
    → Ends Q ((m >>= f) s)
unfolding ◌>>=◌ after
Frame-then Q m f s h next stop =
    Ends-bind_proc (λ (_, t). t ≡ s) Q (m s) (after f) (h.at s)
      λ (r, t) e. elim r as (λ x. Ends Q (after f (x, t))) [
        | ok a ↦ rw e (next a)
        | fail x ↦ rw e (stop x)
      ]

module _ {S : Type 0} where
  pub Frame-pure : {A : Type 0} (a : A) → Frame {S = S} (pure a)
  Frame-pure a = record { at = λ s. refl }

  pub Frame-raise : {A : Type 0} (e : Error) → Frame {S = S} {A = A} (raise e)
  Frame-raise e = record { at = λ s. refl }

  pub Frame-perform : (c : Call) → Frame {S = S} (perform c)
  Frame-perform c = record { at = λ s r. refl }

  pub Frame-check : (o : Option Error) → Frame {S = S} (check o)
  Frame-check none = record { at = λ s. refl }
  Frame-check (some e) = record { at = λ s. refl }

  pub Frame-lift : {A : Type 0} (r : Result A) → Frame {S = S} (lift r)
  Frame-lift (ok a) = record { at = λ s. refl }
  Frame-lift (fail e) = record { at = λ s. refl }

  pub Frame-if :
      {A : Type 0} (b : Bool) (m n : Go S A) → Frame m → Frame n → Frame (if b then m else n)
  Frame-if true m n h k = h
  Frame-if false m n h k = k

  pub Frame-bind :
      {A B : Type 0} (m : Go S A) (f : A → Go S B)
      → Frame m
      → ((a : A) → Frame (f a))
      → Frame (m >>= f)
  Frame-bind m f h next = record {
    at = λ s. Frame-then (λ (_, t). t ≡ s) m f s h (λ a. (next a).at s) (λ e. refl);
  }

  pub Frame-tell : (c : Call) → Frame {S = S} (tell c)
  Frame-tell c = Frame-bind (perform c) (λ _. pure tt) (Frame-perform c) (λ r. Frame-pure tt)

  pub Frame-call :
      {A : Type 0} (c : Call) (f : Resp c → Go S A)
      → ((r : Resp c) → Frame (f r))
      → Frame (perform c >>= f)
  Frame-call c f next = Frame-bind (perform c) f (Frame-perform c) next

  -- An optional call for its effect alone does not end a block.
  pub tell_if-then :
      {B : Type 0} (Q : Result B × S → Type 0) (b : Bool) (c : Call) (m : Go S B) (s : S)
      → Ends Q (m s)
      → Ends Q (((if b then tell c else pure tt) >> m) s)
  unfolding ◌>>=◌ bind after
  tell_if-then Q true c m s h = λ r. h
  tell_if-then Q false c m s h = h
