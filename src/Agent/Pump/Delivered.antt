-- ===== src/Agent/Pump/Delivered.antt =====
-- cmd/homedrive/agent_run.go: which events of the watcher reach the push workers, and in which
-- order.
use mathlib.Core.Path.{subst}
use home_drive.Base.{◌≡◌, refl, Bool, Option, none, some, List, [], ◌∷◌, ◌++◌}
use home_drive.Base.Text.{Bytes}
use home_drive.Syncer.Push.{FileEvent, DirRename}
use home_drive.Control.Server.{ServerConfig}
use home_drive.Agent.{}
use home_drive.Agent.Control.{Outside}
use home_drive.Agent.Pump.{Input, watched, requested, event_taken, rename_taken, System, step, run}
use home_drive.Agent.Pump.Hands.{
  Hands, all_events, all_renames, events_of, renames_of, some-injective, then-Hands, unchanged,
  take_event-Hands, take_rename-Hands, sent-Hands, answered-Hands,
}

chain-inv :
    {A B : Type 0} (o : Option A) (f : A → Option B) {b : B}
    → elim o [ none ↦ none | some a ↦ f a ] ≡ some b
    → (a : A) × (o ≡ some a) × (f a ≡ some b)
chain-inv none f h = cc
chain-inv (some a) f h = (a, refl, h)

module _ {W : Type 0} (rel : Bytes → Bytes → Option Bytes) (o : Outside W)
    (cfg : ServerConfig) where
  -- The events and renames of the inputs, from a root and a pause.
  abbrev Sends : List Input → Bytes → Bool → Bool → System W → System W → Type 0
  Sends is root p q s u = Hands q (events_of rel root cfg is p) (renames_of rel root cfg is p) s u

  continued :
      (is : List Input) {p q : Bool} {es : List FileEvent} {ds : List DirRename} {s t u : System W}
      → Hands p es ds s t
      → Sends is t.agent.local_root t.agent.paused q t u
      → Hands q
          (es ++ events_of rel s.agent.local_root cfg is p)
          (ds ++ renames_of rel s.agent.local_root cfg is p)
          s
          u
  continued is {p} {q} {t} {u} h k = then-Hands h (
      subst (λ r. Sends is r p q t u) h.root
        (subst (λ b. Sends is t.agent.local_root b q t u) h.paused k))

  abbrev Runs : List Input → System W → System W → Type 0
  Runs is s u = (q : Bool) × Sends is s.agent.local_root s.agent.paused q s u

  step-Runs :
      (i : Input) (is : List Input) (s t u : System W)
      → step rel o cfg i s ≡ some t
      → Runs is t u
      → Runs (i ∷ is) s u
  unfolding step
  step-Runs (watched c now we) is s t u h (q, k) =
      (q, continued is (sent-Hands rel c now we s t h) k)
  step-Runs (requested r) is s t u h (q, k) = (q, continued is (answered-Hands o cfg r s t h) k)
  step-Runs event_taken is s t u h (q, k) =
      (q, continued is (take_event-Hands s t s.agent.push_events refl h) k)
  step-Runs rename_taken is s t u h (q, k) =
      (q, continued is (take_rename-Hands s t s.agent.push_renames refl h) k)

  run-Runs : (is : List Input) (s u : System W) → run rel o cfg is s ≡ some u → Runs is s u
  unfolding run
  run-Runs [] s u h = (
    s.agent.paused,
    subst (λ u. Sends [] s.agent.local_root s.agent.paused s.agent.paused s u) (some-injective h)
        (unchanged s),
  )
  run-Runs (i ∷ is) s u h =
      let (t, first, rest) = chain-inv (step rel o cfg i s) (run rel o cfg is) h in
      step-Runs i is s t u first (run-Runs is t u rest)

  -- In a run of the agent between its watcher, its control endpoint and its workers, what the
  -- workers have received followed by what waits for them is what there was of both before,
  -- followed by the events of the watcher in their order, each with its path relative to the root:
  -- but for those that come while the agent is paused, from an authorized POST to /pause up to one
  -- to /resume, and those whose send was ended by the shutdown. So it is for the renames.
  pub run-Delivered :
      (is : List Input) (s u : System W)
      → run rel o cfg is s ≡ some u
      → (all_events u ≡ all_events s ++ events_of rel s.agent.local_root cfg is s.agent.paused)
        × (all_renames u ≡ all_renames s ++ renames_of rel s.agent.local_root cfg is s.agent.paused)
  run-Delivered is s u h = let (q, k) = run-Runs is s u h in (k.events, k.renames)
