-- ===== src/Agent/Pump/Hands.antt =====
-- cmd/homedrive/agent_run.go: what one input hands on to the push workers.
use mathlib.Core.Path.{subst}
use home_drive.Base.{
  ◌≡◌, refl, sym, ap, ◌∙◌, arith, Bool, true, false, ◌&&◌, ◌||◌, Option, none, some, List, [], ◌∷◌,
  ◌++◌, append_assoc, append-nil, if◌then◌else◌,
}
use home_drive.Base.Text.{Bytes, codes, bytes_eq}
use home_drive.Base.Time.{Time}
use home_drive.Watcher.Loop.{WatchEvent, file_event, dir_renamed}
use home_drive.Syncer.Push.{FileEvent, DirRename}
use home_drive.Control.Server.{ServerConfig, Request, routes}
use home_drive.Control.Guarded.{is_authorized, effect, routes-effect}
use home_drive.Agent.{
  Agent, dispatch_watch_event, forward, dispatch_event, dispatch_rename, pushed_event,
  pushed_rename,
}
use home_drive.Agent.Control.{
  Outside, agent_deps, pause, resume, force_resync, reload, run_chain_repair, reloaded,
}
use home_drive.Agent.Pump.{
  Input, watched, requested, event_taken, rename_taken, System, sent, take_event, take_rename,
  answered,
}

-- Whether the agent is paused after a request.
abbrev pub paused_by : ServerConfig → Request → Bool → Bool
paused_by cfg r p =
    if is_authorized cfg r && bytes_eq r.method (codes "POST")
    then if bytes_eq r.path (codes "/pause")
      then true
      else if bytes_eq r.path (codes "/resume")
      then false
      else p
    else p

abbrev pub paused_after : ServerConfig → Input → Bool → Bool
paused_after cfg (watched c t we) p = p
paused_after cfg (requested r) p = paused_by cfg r p
paused_after cfg event_taken p = p
paused_after cfg rename_taken p = p

module _ (rel : Bytes → Bytes → Option Bytes) (root : Bytes) where
  abbrev pub event_of : WatchEvent → List FileEvent
  event_of (file_event e) = pushed_event rel root e ∷ []
  event_of (dir_renamed d) = []

  abbrev pub rename_of : WatchEvent → List DirRename
  rename_of (file_event e) = []
  rename_of (dir_renamed d) = pushed_rename rel root d ∷ []

  -- What the inputs are to hand on, with whether the agent is paused before them.
  abbrev pub events_of : ServerConfig → List Input → Bool → List FileEvent
  events_of cfg [] p = []
  events_of cfg (watched c t we ∷ is) p = (if p || c then [] else event_of we) ++ events_of cfg is p
  events_of cfg (requested r ∷ is) p = events_of cfg is (paused_by cfg r p)
  events_of cfg (event_taken ∷ is) p = events_of cfg is p
  events_of cfg (rename_taken ∷ is) p = events_of cfg is p

  abbrev pub renames_of : ServerConfig → List Input → Bool → List DirRename
  renames_of cfg [] p = []
  renames_of cfg (watched c t we ∷ is) p =
      (if p || c then [] else rename_of we) ++ renames_of cfg is p
  renames_of cfg (requested r ∷ is) p = renames_of cfg is (paused_by cfg r p)
  renames_of cfg (event_taken ∷ is) p = renames_of cfg is p
  renames_of cfg (rename_taken ∷ is) p = renames_of cfg is p

-- The events that the workers have received, and behind them those that wait for them.
abbrev pub all_events : {W : Type 0} → System W → List FileEvent
all_events s = s.events ++ s.agent.push_events

abbrev pub all_renames : {W : Type 0} → System W → List DirRename
all_renames s = s.renames ++ s.agent.push_renames

-- From one system to another, with what is handed on in between.
pub record Hands {W : Type 0} (p : Bool) (es : List FileEvent) (ds : List DirRename)
    (s t : System W) : Type 0 where
  pub events : all_events t ≡ all_events s ++ es
  pub renames : all_renames t ≡ all_renames s ++ ds
  pub paused : t.agent.paused ≡ p
  pub root : t.agent.local_root ≡ s.agent.local_root

pub some-injective : {A : Type 0} {x y : A} → some x ≡ some y → x ≡ y
some-injective e = cc

-- The head of the waiting list moves to the end of the received ones.
moved :
    {A : Type 0} (x : A) (xs ys all : List A)
    → all ≡ x ∷ ys
    → (xs ++ x ∷ []) ++ ys ≡ (xs ++ all) ++ []
moved x xs ys all e = rw (e, append-nil (xs ++ x ∷ ys)) (append_assoc xs (x ∷ []) ys)

module _ {W : Type 0} where
  pub unchanged : (s : System W) → Hands s.agent.paused [] [] s s
  unchanged s = record {
    events = sym (append-nil (all_events s));
    renames = sym (append-nil (all_renames s));
    paused = refl;
    root = refl;
  }

  pub take_event-Hands :
      (s t : System W) (es : List FileEvent)
      → s.agent.push_events ≡ es
      → take_event s es ≡ some t
      → Hands s.agent.paused [] [] s t
  unfolding take_event
  take_event-Hands s t [] e h = cc
  take_event-Hands s t (x ∷ es) e h =
      subst (λ t. Hands s.agent.paused [] [] s t) (some-injective h)
        (record {
          events = moved x s.events es s.agent.push_events e;
          renames = sym (append-nil (all_renames s));
          paused = refl;
          root = refl;
        })

  pub take_rename-Hands :
      (s t : System W) (ds : List DirRename)
      → s.agent.push_renames ≡ ds
      → take_rename s ds ≡ some t
      → Hands s.agent.paused [] [] s t
  unfolding take_rename
  take_rename-Hands s t [] e h = cc
  take_rename-Hands s t (x ∷ ds) e h =
      subst (λ t. Hands s.agent.paused [] [] s t) (some-injective h)
        (record {
          events = sym (append-nil (all_events s));
          renames = moved x s.renames ds s.agent.push_renames e;
          paused = refl;
          root = refl;
        })

  -- A dispatch, from what it makes of the agent.
  sent-inv :
      (s t : System W) (r : Option Agent)
      → sent s r ≡ some t
      → (a : Agent) × (r ≡ some a) × (t ≡ record s { agent = a })
  unfolding sent
  sent-inv s t none h = cc
  sent-inv s t (some a) h = (a, refl, sym (some-injective h))

abbrev Dispatched :
    (rel : Bytes → Bytes → Option Bytes) (c : Bool) (we : WatchEvent) (a b : Agent) → Type 0
Dispatched rel c we a b =
    (b.push_events ≡ a.push_events ++ (if a.paused || c then [] else event_of rel a.local_root we))
    × (b.push_renames
        ≡ a.push_renames ++ (if a.paused || c then [] else rename_of rel a.local_root we))
    × (b.paused ≡ a.paused)
    × (b.local_root ≡ a.local_root)

dispatched :
    (rel : Bytes → Bytes → Option Bytes) (c : Bool) (now : Time) (we : WatchEvent) (a b : Agent)
    → dispatch_watch_event rel c now we a ≡ some b
    → Dispatched rel c we a b
unfolding dispatch_watch_event forward dispatch_event dispatch_rename
dispatched rel c now (file_event e) a b h =
    ground (arith, append-nil a.push_events, append-nil a.push_renames)
dispatched rel c now (dir_renamed d) a b h =
    ground (arith, append-nil a.push_events, append-nil a.push_renames)

module _ {W : Type 0} where
  pub sent-Hands :
      (rel : Bytes → Bytes → Option Bytes) (c : Bool) (now : Time) (we : WatchEvent)
      (s t : System W)
      → sent s (dispatch_watch_event rel c now we s.agent) ≡ some t
      → Hands s.agent.paused
          (if s.agent.paused || c then [] else event_of rel s.agent.local_root we)
          (if s.agent.paused || c then [] else rename_of rel s.agent.local_root we)
          s
          t
  sent-Hands rel c now we s t h =
      let (b, made, same) = sent-inv s t (dispatch_watch_event rel c now we s.agent) h in
      let (es, ds, p, r) = dispatched rel c now we s.agent b made in
      subst
        (λ t.
          Hands s.agent.paused
            (if s.agent.paused || c then [] else event_of rel s.agent.local_root we)
            (if s.agent.paused || c then [] else rename_of rel s.agent.local_root we) s t)
        (sym same)
        (record {
          events = ap (λ z. s.events ++ z) es ∙ sym (append_assoc s.events _ _);
          renames = ap (λ z. s.renames ++ z) ds ∙ sym (append_assoc s.renames _ _);
          paused = p;
          root = r;
        })

-- What a request leaves of the agent.
abbrev Keeps : Agent → Agent → Type 0
Keeps a b =
    (b.push_events ≡ a.push_events)
    × (b.push_renames ≡ a.push_renames)
    × (b.local_root ≡ a.local_root)

module _ {W : Type 0} (o : Outside W) where
  effect-Keeps :
      (path dry : Bytes) (a : Agent) (w : W) → Keeps a (effect (agent_deps o) path dry (a, w)).0
  unfolding agent_deps pause resume force_resync reload run_chain_repair reloaded
  effect-Keeps path dry a w = ground arith

  effect-paused :
      (path dry : Bytes) (a : Agent) (w : W)
      → (effect (agent_deps o) path dry (a, w)).0.paused ≡ (
          if bytes_eq path (codes "/pause")
          then true
          else if bytes_eq path (codes "/resume")
          then false
          else a.paused)
  unfolding agent_deps pause resume force_resync reload run_chain_repair reloaded
  effect-paused path dry a w = ground arith

  request_lem :
      (b : Bool) (path dry : Bytes) (a : Agent) (w : W) (after : Agent × W)
      → after ≡ (if b then effect (agent_deps o) path dry (a, w) else (a, w))
      → Keeps a after.0
        × (after.0.paused ≡ (
            if b
            then if bytes_eq path (codes "/pause")
              then true
              else if bytes_eq path (codes "/resume")
              then false
              else a.paused
            else a.paused))
  request_lem true path dry a w after e =
      rw e (effect-Keeps path dry a w, effect-paused path dry a w)
  request_lem false path dry a w after e = rw e ((refl, refl, refl), refl)

  pub answered-Hands :
      (cfg : ServerConfig) (r : Request) (s t : System W)
      → answered s (routes (agent_deps o) cfg r s.metrics (s.agent, s.world)) ≡ some t
      → Hands (paused_by cfg r s.agent.paused) [] [] s t
  unfolding answered
  answered-Hands cfg r s t h =
      let out = routes (agent_deps o) cfg r s.metrics (s.agent, s.world) in
      let ((es, ds, root), p) =
        request_lem (is_authorized cfg r && bytes_eq r.method (codes "POST")) r.path r.dry_run
          s.agent s.world out.2 (routes-effect (agent_deps o) cfg r s.metrics (s.agent, s.world)) in
      subst (λ t. Hands (paused_by cfg r s.agent.paused) [] [] s t) (some-injective h)
        (record {
          events = ap (λ z. s.events ++ z) es ∙ sym (append-nil (all_events s));
          renames = ap (λ z. s.renames ++ z) ds ∙ sym (append-nil (all_renames s));
          paused = p;
          root = root;
        })

-- An input and then the rest.
pub then-Hands :
    {W : Type 0} {p q : Bool} {es es' : List FileEvent} {ds ds' : List DirRename} {s t u : System W}
    → Hands p es ds s t
    → Hands q es' ds' t u
    → Hands q (es ++ es') (ds ++ ds') s u
then-Hands {es} {es'} {ds} {ds'} {s} h k = record {
  events = k.events ∙ (ap (λ z. z ++ es') h.events ∙ append_assoc (all_events s) es es');
  renames = k.renames ∙ (ap (λ z. z ++ ds') h.renames ∙ append_assoc (all_renames s) ds ds');
  paused = k.paused;
  root = k.root ∙ h.root;
}
