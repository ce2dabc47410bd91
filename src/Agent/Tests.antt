-- ===== src/Agent/Tests.antt =====
-- Runs of the agent at concrete inputs.
use home_drive.Base.{◌^◌}
use home_drive.Base.{ℕ, ◌≡◌, refl, Bool, true, false, Option, none, some, List, [], ◌∷◌}
use home_drive.Base.Int.{pos}
use home_drive.Base.Text.{Bytes, codes, bytes_eq, has_prefix}
use home_drive.Base.Maps.{lookup, store}
use home_drive.OldSuffix.{new}
use home_drive.Syncer.Types.{create}
use home_drive.Syncer.Go.{ok, fail}
use home_drive.Syncer.Push.{FileEvent}
use home_drive.Watcher.Debouncer.{op_create}
use home_drive.Watcher.Loop.{WatchEvent, file_event}
use home_drive.Control.Metrics.{new_metrics, inc_counter, add_counter, value_of}
use home_drive.Control.Server.{
  ServerConfig, Net, acted, handle_pause, handle_resume, has_valid_bearer_token, method_only, mux,
  routes, with_auth, new_server, default_listen,
}
use home_drive.Config.{Config}
use home_drive.Config.Sample.{sample}
use home_drive.Agent.{
  channel_capacity, capacity_bits, rel_to_root, below_root, to_syncer_op, dispatch_watch_event,
  forward, dispatch_event, dispatch_rename,
}
use home_drive.Agent.Control.{Outside, agent_deps, pause, resume}
use home_drive.Agent.Pump.{
  Input, watched, requested, event_taken, System, run, step, sent, answered, take_event,
}
use home_drive.Agent.Pump.Hands.{all_events, all_renames}
use home_drive.Agent.Pump.Delivered.{run-Delivered}
use home_drive.Agent.Build.{
  Setup, new_agent, open_journal, with_flag, build_audit_log, init_rclone, build_publisher,
  build_agent, build_watcher, server_config, close_resources, failed,
}
use home_drive.Base.{◌+◌, if◌then◌else◌}
use home_drive.Control.Server.{Deps}
use home_drive.Control.Guarded.{effect}
use home_drive.Agent.Ctl.{ctl_target, ctl_run_action, ctl_run_conflict_repair, ctl-Performs}
use home_drive.Agent.Build.Released.{Released, new_agent-Released}

-- `filepath.Rel` for the root "/r".
abbrev rel_r : Bytes → Bytes → Option Bytes
rel_r root p = elim p [ a ∷ b ∷ c ∷ rest ↦ some rest | _ ↦ none ]

abbrev quiet : Outside ℕ
quiet = record {
  config_file = λ w. fail (record { wraps = [] });
  unmarshal = λ text. none;
  force_run = λ w. (none, w);
  run_chain_repair = λ dry w. (fail (record { wraps = [] }), w);
  quota = λ w. fail (record { wraps = [] });
  percent = λ used total. 0;
  count_error = λ w. none;
  has_remote = true;
  oauth_status = λ w. none;
  mqtt_connected = λ w. none;
  seconds_since = λ t w. 0;
  rfc3339 = λ t. [];
  error_text = λ e. [];
}

abbrev local_only : ServerConfig
local_only = record {
  listen_addr = codes "127.0.0.1:6090";
  enable_metrics = false;
  auth_token = [];
}

abbrev start : System ℕ
start = record {
  agent = record {
    local_root = codes "/r";
    version = [];
    capacity = 4;
    log_level = none;
    paused = false;
    reloaded_dry_run = false;
    start_time = 0;
    last_push = 0;
    last_pull = 0;
    push_events = [];
    push_renames = [];
  };
  world = 0;
  metrics = new_metrics;
  events = [];
  renames = [];
}

abbrev created : Bytes → WatchEvent
created p = file_event (record { path = p; op = op_create; at = 7 })

abbrev post : Bytes → Input
post path =
    requested (record { method = codes "POST"; path = path; authorization = []; dry_run = [] })

-- The second event comes while the agent is paused.
abbrev inputs : List Input
inputs =
    watched false 1 (created (codes "/r/a"))
    ∷ post (codes "/pause")
    ∷ watched false 2 (created (codes "/r/b"))
    ∷ event_taken
    ∷ post (codes "/resume")
    ∷ watched false 3 (created (codes "/r/c"))
    ∷ []

abbrev after : FileEvent
after = record { path = codes "c"; op = create }

abbrev first : FileEvent
first = record { path = codes "a"; op = create }

abbrev end : System ℕ
end = record {
  agent = record start.agent { last_push = 3; push_events = after ∷ [] };
  world = 0;
  metrics = record {
    counters =
        (codes "homedrive_http_requests_total_pause", 1)
        ∷ (codes "homedrive_http_requests_total_resume", 1)
        ∷ [];
    gauges = [];
  };
  events = first ∷ [];
  renames = [];
}

run-Delivered_example : (all_events end ≡ first ∷ after ∷ []) × (all_renames end ≡ [])
unfolding run step sent answered take_event routes with_auth mux method_only handle_pause
    handle_resume has_valid_bearer_token acted inc_counter add_counter value_of lookup store
    agent_deps pause resume dispatch_watch_event forward dispatch_event dispatch_rename rel_to_root
    below_root to_syncer_op bytes_eq has_prefix
run-Delivered_example = run-Delivered rel_r quiet local_only inputs start end refl

abbrev plain_net : Net
plain_net = record {
  split_host = λ addr. some (codes "localhost");
  equal_fold = bytes_eq;
  ip_loopback = λ host. none;
}

abbrev config : Config
config = sample (record { max_per_file = pos 3; max_age = pos 0; sweep_interval = pos 0 })

abbrev setup : Setup
setup = record {
  dry_run_flag = true;
  version = codes "1.0";
  log_level = none;
  loaded = some config;
  state_dir_made = true;
  local_root_made = true;
  journal_opens = true;
  audit_dir_made = true;
  audit_opens = true;
  rclone_ready = true;
  mqtt_connects = true;
  watcher_ready = true;
  channel_limit = 2 ^ 40;
  net = plain_net;
}

-- The MQTT client stays connected when the watcher cannot be made.
mqtt_left_open :
    new_agent (record setup { watcher_ready = false })
    ≡ failed (record { journal = false; audit_file = false; mqtt_client = true })
unfolding new_agent open_journal with_flag build_audit_log init_rclone build_publisher build_agent
    build_watcher close_resources new channel_capacity capacity_bits
mqtt_left_open = refl

new_agent-Released_example : Released plain_net setup.channel_limit config true (new_agent setup)
new_agent-Released_example = new_agent-Released setup config refl

-- A controlled number: a pause counts one, a repair sixteen, or two in a dry run.
abbrev counting : Deps ℕ
counting = record {
  pause = λ n. (none, n + 1);
  resume = λ n. (none, n);
  force_resync = λ n. (none, n);
  reload = λ n. (none, n);
  run_chain_repair = λ dry n. (fail (record { wraps = [] }), n + (if dry then 2 else 16));
  status = λ n. fail (record { wraps = [] });
  healthz = λ n. ok (record { healthy = true; components = [] });
}

abbrev with_token : Config
with_token = record config {
  http = record config.http { auth_token = codes "secret"; listen = codes "nas:6090" };
}

ctl-Performs_example :
    ((action : Bytes)
      → (routes counting
          (server_config with_token)
          (ctl_run_action action (ctl_target (some with_token)))
          new_metrics
          3).2
        ≡ effect counting (b'/' ∷ action) [] 3)
    × ((dry : Bool)
        → (routes counting
            (server_config with_token)
            (ctl_run_conflict_repair dry (ctl_target (some with_token)))
            new_metrics
            3).2
          ≡ 3 + (if dry then 2 else 16))
unfolding new_server default_listen server_config
ctl-Performs_example =
    ctl-Performs counting plain_net with_token (server_config with_token) new_metrics 3 refl
