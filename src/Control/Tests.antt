-- ===== src/Control/Tests.antt =====
-- Runs of the control endpoint at concrete inputs, over a counter of the operations.
use home_drive.Base.{ℕ, ◌+◌, ◌≡◌, refl, true, false, none, some, [], is_empty}
use home_drive.Base.Text.{Bytes, codes, bytes_eq, has_prefix}
use home_drive.Syncer.Go.{ok, fail}
use home_drive.Control.Metrics.{new_metrics}
use home_drive.Control.Server.{
  Deps, ServerConfig, Net, Request, new_server, default_listen, is_loopback_addr, host_of, routes,
  with_auth, has_valid_bearer_token, mux, method_only, handle_pause, acted,
}
use home_drive.Control.Guarded.{unauthorized, routes-Guarded, routes-effect}

-- A pause counts one, a resume two, and so on; a repair fails.
abbrev counting : Deps ℕ
counting = record {
  pause = λ n. (none, n + 1);
  resume = λ n. (none, n + 2);
  force_resync = λ n. (none, n + 4);
  reload = λ n. (none, n + 8);
  run_chain_repair = λ dry n. (fail (record { wraps = [] }), n + 16);
  status = λ n. fail (record { wraps = [] });
  healthz = λ n. ok (record { healthy = true; components = [] });
}

abbrev no_net : Net
no_net = record {
  split_host = λ addr. some addr;
  equal_fold = bytes_eq;
  ip_loopback = λ host. none;
}

abbrev open_config : ServerConfig
open_config = record {
  listen_addr = codes "nas";
  enable_metrics = true;
  auth_token = codes "secret";
}

abbrev pause_request : Bytes → Request
pause_request header = record {
  method = codes "POST";
  path = codes "/pause";
  authorization = header;
  dry_run = [];
}

pause_with_token :
    (routes counting open_config (pause_request (codes "Bearer secret")) new_metrics 5).0.code ≡ 200
unfolding routes with_auth has_valid_bearer_token mux method_only handle_pause acted bytes_eq
    has_prefix
pause_with_token = refl

no_token_no_server : new_server no_net (record open_config { auth_token = [] }) ≡ none
unfolding new_server default_listen is_loopback_addr host_of bytes_eq
no_token_no_server = refl

routes-Guarded_example :
    (is_empty (codes "secret") ≡ false)
    × (routes counting open_config (pause_request (codes "Bearer guess")) new_metrics 5
        ≡ (unauthorized, new_metrics, 5))
unfolding new_server default_listen is_loopback_addr host_of bytes_eq
routes-Guarded_example =
    routes-Guarded counting no_net open_config open_config (pause_request (codes "Bearer guess"))
      new_metrics 5 refl refl (λ e. cc)

routes-effect_example :
    (routes counting open_config (pause_request (codes "Bearer secret")) new_metrics 5).2 ≡ 6
unfolding bytes_eq
routes-effect_example =
    routes-effect counting open_config (pause_request (codes "Bearer secret")) new_metrics 5
