-- ===== src/Syncer/Safe.antt =====
-- What holds of every call of a program, whatever the answers.
pub mod Rules
pub mod Reach
use home_drive.Base.{◌≡◌, refl, Bool, true, false, if◌then◌else◌, Option, none, some}
use home_drive.Syncer.Types.{
  Removal, removed, absent, refused, Origin, local, remote, Error, Stat, FileInfo, found, missing,
  unreadable,
}
use home_drive.Syncer.Go.{
  Call, Resp, Proc, ret, panic, call, bind, Go, Result, ok, fail, ◌>>=◌, attempt,
}
use home_drive.Syncer.Go.{
  perform, pure, raise, crash, read_state, write_state, check, lift, deref, tell, after, rescue,
  scoped, forget,
}

-- A monitor sees each call and its answer; `allowed` says which calls it lets pass.
pub record Monitor (M : Type 0) : Type 1 where
  pub step : M → (c : Call) → Resp c → M
  pub allowed : M → Call → Type 0

-- Every call passes the monitor, and `Q` holds of its last state and the result.
abbrev pub Safe : {M A : Type 0} → Monitor M → (M → A → Type 0) → M → Proc A → Type 0
Safe mon Q m (ret a) = Q m a
Safe mon Q m panic = Unit
Safe mon Q m (call c k) = mon.allowed m c × ((r : Resp c) → Safe mon Q (mon.step m c r) (k r))

pub Safe-bind :
    {M A B : Type 0} (mon : Monitor M) (Q : M → A → Type 0) (R : M → B → Type 0) (p : Proc A)
    (f : A → Proc B) (m : M)
    → Safe mon Q m p
    → ((m' : M) (a : A) → Q m' a → Safe mon R m' (f a))
    → Safe mon R m (bind p f)
unfolding bind
Safe-bind mon Q R (ret a) f m h next = next m a h
Safe-bind mon Q R panic f m h next = tt
Safe-bind mon Q R (call c k) f m h next =
    (h.0, λ r. Safe-bind mon Q R (k r) f (mon.step m c r) (h.1 r) next)

-- Programs all of whose calls satisfy a predicate.
abbrev pub Every : (Call → Type 0) → {A : Type 0} → Proc A → Type 0
Every P (ret a) = Unit
Every P panic = Unit
Every P (call c k) = P c × ((r : Resp c) → Every P (k r))

Every-bind :
    (P : Call → Type 0) {A B : Type 0} (p : Proc A) (f : A → Proc B)
    → Every P p
    → ((a : A) → Every P (f a))
    → Every P (bind p f)
unfolding bind
Every-bind P (ret a) f h next = next a
Every-bind P panic f h next = tt
Every-bind P (call c k) f h next = (h.0, λ r. Every-bind P (k r) f (h.1 r) next)

pub record Only (P : Call → Type 0) {S A : Type 0} (m : Go S A) : Type 0 where
  pub at : (s : S) → Every P (m s)

module _ {P : Call → Type 0} where
  pub Only-pure : {S A : Type 0} (a : A) → Only P {S = S} (pure a)
  Only-pure a = record { at = λ s. tt }

  pub Only-raise : {S A : Type 0} (e : Error) → Only P {S = S} {A = A} (raise e)
  Only-raise e = record { at = λ s. tt }

  pub Only-crash : {S A : Type 0} → Only P {S = S} {A = A} crash
  Only-crash = record { at = λ s. tt }

  pub Only-read : {S : Type 0} → Only P {S = S} read_state
  Only-read = record { at = λ s. tt }

  pub Only-write : {S : Type 0} (t : S) → Only P (write_state t)
  Only-write t = record { at = λ s. tt }

  pub Only-perform : {S : Type 0} (c : Call) → P c → Only P {S = S} (perform c)
  Only-perform c h = record { at = λ s. (h, λ r. tt) }

  pub Only-check : {S : Type 0} (o : Option Error) → Only P {S = S} (check o)
  Only-check none = record { at = λ s. tt }
  Only-check (some e) = record { at = λ s. tt }

  pub Only-lift : {S A : Type 0} (r : Result A) → Only P {S = S} (lift r)
  Only-lift (ok a) = record { at = λ s. tt }
  Only-lift (fail e) = record { at = λ s. tt }

  pub Only-deref : {S A : Type 0} (o : Option A) → Only P {S = S} (deref o)
  Only-deref none = record { at = λ s. tt }
  Only-deref (some e) = record { at = λ s. tt }

  pub Only-bind :
      {S A B : Type 0} (m : Go S A) (f : A → Go S B)
      → Only P m
      → ((a : A) → Only P (f a))
      → Only P (m >>= f)
  unfolding ◌>>=◌ after
  Only-bind m f h next = record {
    at = λ s.
        Every-bind P (m s) (after f) (h.at s) λ (r, t). elim r as (λ x. Every P (after f (x, t))) [
          | ok a ↦ (next a).at t
          | fail e ↦ tt
        ];
  }

  pub Only-attempt : {S A : Type 0} (m : Go S A) → Only P m → Only P (attempt m)
  unfolding attempt rescue
  Only-attempt m h = record { at = λ s. Every-bind P (m s) rescue (h.at s) (λ _. tt) }

  pub Only-scoped : {S T A : Type 0} (t : T) (m : Go T A) → Only P m → Only P {S = S} (scoped t m)
  unfolding scoped forget
  Only-scoped t m h = record { at = λ s. Every-bind P (m t) (forget s) (h.at t) (λ _. tt) }

  -- With the test known in each branch.
  pub Only-split :
      {S A : Type 0} (b : Bool) (m n : Go S A)
      → (b ≡ true → Only P m)
      → (b ≡ false → Only P n)
      → Only P (if b then m else n)
  Only-split true m n h k = h refl
  Only-split false m n h k = k refl

  pub Only-if :
      {S A : Type 0} (b : Bool) (m n : Go S A) → Only P m → Only P n → Only P (if b then m else n)
  Only-if true m n h k = h
  Only-if false m n h k = k

  -- With the test known, only the branch that is taken counts.
  pub Only-then :
      {S A : Type 0} {b : Bool} (m n : Go S A) → b ≡ true → Only P m → Only P (if b then m else n)
  Only-then {b} m n e h = rw e h

module _ {P : Call → Type 0} where
  pub Only-call :
      {S B : Type 0} (c : Call) (f : Resp c → Go S B)
      → P c
      → ((r : Resp c) → Only P (f r))
      → Only P (perform c >>= f)
  Only-call c f h next = Only-bind (perform c) f (Only-perform c h) next

  pub Only-tell : {S : Type 0} (c : Call) → P c → Only P {S = S} (tell c)
  Only-tell c h = Only-call c (λ _. pure tt) h (λ r. Only-pure tt)

  -- The branches on an answer.
  pub Only-stat :
      {S A : Type 0} (st : Stat) (f : FileInfo → Go S A) (g : Go S A) (h : Error → Go S A)
      → ((i : FileInfo) → Only P (f i))
      → Only P g
      → ((e : Error) → Only P (h e))
      → Only P (elim st [ found i ↦ f i | missing ↦ g | unreadable e ↦ h e ])
  Only-stat (found i) f g h pf pg ph = pf i
  Only-stat missing f g h pf pg ph = pg
  Only-stat (unreadable e) f g h pf pg ph = ph e

  pub Only-result :
      {S A B : Type 0} (r : Result B) (f : B → Go S A) (h : Error → Go S A)
      → ((b : B) → Only P (f b))
      → ((e : Error) → Only P (h e))
      → Only P (elim r [ ok b ↦ f b | fail e ↦ h e ])
  Only-result (ok b) f h pf ph = pf b
  Only-result (fail e) f h pf ph = ph e

  pub Only-option :
      {S A B : Type 0} (o : Option B) (g : Go S A) (f : B → Go S A)
      → Only P g
      → ((b : B) → Only P (f b))
      → Only P (elim o [ none ↦ g | some b ↦ f b ])
  Only-option none g f pg pf = pg
  Only-option (some b) g f pg pf = pf b

  pub Only-removal :
      {S A : Type 0} (r : Removal) (f g : Go S A) (h : Error → Go S A)
      → Only P f
      → Only P g
      → ((e : Error) → Only P (h e))
      → Only P (elim r [ removed ↦ f | absent ↦ g | refused e ↦ h e ])
  Only-removal removed f g h pf pg ph = pf
  Only-removal absent f g h pf pg ph = pg
  Only-removal (refused e) f g h pf pg ph = ph e

  pub Only-origin :
      {S A : Type 0} (o : Origin) (f g : Go S A)
      → Only P f
      → Only P g
      → Only P (elim o [ local ↦ f | remote ↦ g ])
  Only-origin local f g pf pg = pf
  Only-origin remote f g pf pg = pg

pub ruleset only_rules = (
  Only-call, Only-tell, Only-stat, Only-result, Only-option, Only-pure, Only-raise, Only-crash,
  Only-read, Only-write, Only-check, Only-lift, Only-deref, Only-bind, Only-attempt, Only-if,
  Only-scoped, Only-perform,
)
