-- ===== src/Mqtt/Tests.antt =====
-- Runs of the MQTT client at concrete inputs.
use home_drive.Base.{ℕ, ◌≡◌, refl, true, false, List, [], ◌∷◌, All}
use home_drive.Base.Int.{pos}
use home_drive.Base.Text.{codes}
use home_drive.Mqtt.{Config, Client, new_client, with_defaults, topic, join_slash, on_connect, raw}
use home_drive.Mqtt.State.{Providers, Texts, publish_state}
use home_drive.Mqtt.Discovery.{entities}
use home_drive.Mqtt.Discovery.Announced.{AskedFor, entities-AskedFor}
use home_drive.Mqtt.Closed.{Input, publishes, closes, connects, disconnections, run, run-Consistent}

abbrev config : Config
config = record {
  broker = codes "tcp://nas:1883";
  client_id_prefix = [];
  base_topic = [];
  ha_discovery_prefix = [];
  qos = 0;
  keep_alive = pos 0;
  reconnect_max = pos 0;
  username = [];
  password = [];
}

abbrev client : Client
client = new_client config (codes "nas") (codes "me")

topic_of_push :
    topic client (codes "events" ∷ codes "push.success" ∷ [])
    ≡ codes "homedrive/nas/me/events/push.success"
unfolding topic join_slash new_client with_defaults
topic_of_push = refl

abbrev idle : Providers ℕ
idle = record {
  status = codes "running";
  last_push = 0;
  last_pull = 0;
  pending_uploads = pos 0;
  pending_downloads = pos 0;
  conflicts_24h = pos 0;
  bytes_uploaded_24h = pos 0;
  bytes_downloaded_24h = pos 0;
  quota_used_pct = 0;
}

abbrev plain : Texts ℕ
plain = record { rfc3339 = λ t. []; decimal = λ n. codes "0"; one_digit = λ x. codes "0.0" }

entities-AskedFor_example :
    All
      (λ e.
        AskedFor
          (topic client (e.state_topic ∷ []))
          (publish_state plain true idle (on_connect true client)).actions)
      entities
entities-AskedFor_example = entities-AskedFor plain true idle true client

abbrev inputs : List Input
inputs =
    connects true ∷ closes true ∷ publishes (codes "t") 1 false (raw []) true ∷ closes false ∷ []

run-Consistent_example :
    disconnections (run inputs (new_client config (codes "nas") (codes "me"))).actions ≡ 1
run-Consistent_example = run-Consistent config (codes "nas") (codes "me") inputs
