-- ===== src/Remote/Rclone/Watched.antt =====
-- What holds of every call of a task, whatever the answers.

use home_drive.Remote.Rclone.{Ask, Answer, Task, done, ask, and_then, deferred}

pub record Observer (M : Type 0) : Type 1 where
  pub step : M → (a : Ask) → Answer a → M
  pub allowed : M → Ask → Type 0

-- Every call is allowed, and `Q` holds of the last state and the result.
abbrev pub Passes : {M A : Type 0} → Observer M → (M → A → Type 0) → M → Task A → Type 0
Passes ob Q m (done r) = Q m r
Passes ob Q m (ask a k) = ob.allowed m a × ((x : Answer a) → Passes ob Q (ob.step m a x) (k x))

module _ {M : Type 0} (ob : Observer M) where
  pub Passes-and_then :
      {A B : Type 0} (Q : M → A → Type 0) (R : M → B → Type 0) (t : Task A) (f : A → Task B) (m : M)
      → Passes ob Q m t
      → ((n : M) (a : A) → Q n a → Passes ob R n (f a))
      → Passes ob R m (and_then t f)
  unfolding and_then
  Passes-and_then Q R (done a) f m h next = next m a h
  Passes-and_then Q R (ask a k) f m h next =
      (h.0, λ x. Passes-and_then Q R (k x) f (ob.step m a x) (h.1 x) next)

  pub Passes-deferred :
      {A : Type 0} (Q R : M → A → Type 0) (t : Task A) (c : Ask) (m : M)
      → Passes ob Q m t
      → ((n : M) (r : A) → Q n r → ob.allowed n c × ((x : Answer c) → R (ob.step n c x) r))
      → Passes ob R m (deferred t c)
  unfolding deferred
  Passes-deferred Q R (done r) c m h next = next m r h
  Passes-deferred Q R (ask a k) c m h next =
      (h.0, λ x. Passes-deferred Q R (k x) c (ob.step m a x) (h.1 x) next)
