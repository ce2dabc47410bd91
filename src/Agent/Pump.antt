-- ===== src/Agent/Pump.antt =====
-- cmd/homedrive/agent_run.go: the pump between the watcher and the push workers, with the requests
-- to the control endpoint between its events. A run is a sequence of inputs in the order in which
-- they happen.
pub mod Hands
pub mod Delivered
use home_drive.Base.{Bool, Option, none, some, List, [], ◌∷◌, ◌++◌}
use home_drive.Base.Text.{Bytes}
use home_drive.Base.Time.{Time}
use home_drive.Watcher.Loop.{WatchEvent}
use home_drive.Syncer.Push.{FileEvent, DirRename}
use home_drive.Control.Metrics.{Metrics}
use home_drive.Control.Server.{ServerConfig, Request, Response, routes}
use home_drive.Agent.{Agent, dispatch_watch_event}
use home_drive.Agent.Control.{Outside, agent_deps}

-- An event of the watcher, whose send ends by `ctx.Done` or not, with the time of the send; a
-- request; or a worker that receives from one of the two channels.
pub data Input : Type 0 where
  watched : Bool → Time → WatchEvent → Input
  requested : Request → Input
  event_taken rename_taken : Input

-- The agent with the outside and the metrics of the endpoint, and what the workers have received.
pub record System (W : Type 0) : Type 0 where
  pub agent : Agent
  pub world : W
  pub metrics : Metrics
  pub events : List FileEvent
  pub renames : List DirRename

module _ {W : Type 0} where
  unfoldable pub sent : System W → Option Agent → Option (System W)
  sent s none = none
  sent s (some a) = some (record s { agent = a })

  unfoldable pub take_event : System W → List FileEvent → Option (System W)
  take_event s [] = none
  take_event s (e ∷ es) =
      some (record s { agent = record s.agent { push_events = es }; events = s.events ++ e ∷ [] })

  unfoldable pub take_rename : System W → List DirRename → Option (System W)
  take_rename s [] = none
  take_rename s (d ∷ ds) =
      some
        (record s { agent = record s.agent { push_renames = ds }; renames = s.renames ++ d ∷ [] })

module _ {W : Type 0} where
  unfoldable pub answered : System W → Response × Metrics × (Agent × W) → Option (System W)
  answered s (response, m, (a, w)) = some (record s { agent = a; world = w; metrics = m })

module _ {W : Type 0} (rel : Bytes → Bytes → Option Bytes) (o : Outside W)
    (cfg : ServerConfig) where
  -- `none` where the input cannot happen yet: a send without room, a receive without a value.
  unfoldable pub step : Input → System W → Option (System W)
  step (watched canceled now we) s = sent s (dispatch_watch_event rel canceled now we s.agent)
  step (requested r) s = answered s (routes (agent_deps o) cfg r s.metrics (s.agent, s.world))
  step event_taken s = take_event s s.agent.push_events
  step rename_taken s = take_rename s s.agent.push_renames

  unfoldable pub run : List Input → System W → Option (System W)
  run [] s = some s
  run (i ∷ is) s = elim (step i s) [ none ↦ none | some t ↦ run is t ]
