-- ===== src/Mqtt/Discovery.antt =====
-- internal/mqtt/discovery.go: the entities that are announced to Home Assistant.
pub mod Announced
use home_drive.Base.{
  ℕ, Bool, true, false, ◌||◌, Option, none, some, List, [], ◌∷◌, ◌++◌, is_empty, if◌then◌else◌,
}
use home_drive.Base.Int.{ℤ, pos, is_positive}
use home_drive.Base.Text.{Bytes, codes}
use home_drive.Mqtt.{Config, Client, or_text, join_slash, topic, publish, raw}

pub data HaComponent : Type 0 where
  sensor binary_sensor : HaComponent

abbrev component_text : HaComponent → Bytes
component_text sensor = codes "sensor"
component_text binary_sensor = codes "binary_sensor"

pub record EntityDef : Type 0 where
  pub key : Bytes
  pub name : Bytes
  pub component : HaComponent
  pub device_class : Bytes
  pub icon : Bytes
  pub unit : Bytes
  pub state_topic : Bytes
  pub value_tmpl : Bytes
  pub payload_on : Bytes
  pub payload_off : Bytes
  pub expire_after : ℤ

pub record DeviceBlock : Type 0 where
  pub identifiers : List Bytes
  pub name : Bytes
  pub sw_version : Bytes
  pub model : Bytes
  pub manufacturer : Bytes

pub record DiscoveryConfig : Type 0 where
  pub name : Bytes
  pub unique_id : Bytes
  pub state_topic : Bytes
  pub device : DeviceBlock
  pub device_class : Bytes
  pub icon : Bytes
  pub unit_of_measurement : Bytes
  pub value_template : Bytes
  pub payload_on : Bytes
  pub payload_off : Bytes
  pub expire_after : ℤ

abbrev pub entities : List EntityDef
entities =
    record {
      key = codes "status";
      name = codes "Status";
      component = sensor;
      device_class = [];
      icon = codes "mdi:sync";
      unit = [];
      state_topic = codes "status";
      value_tmpl = [];
      payload_on = [];
      payload_off = [];
      expire_after = pos 0;
    }
    ∷ record {
      key = codes "last_push";
      name = codes "Last Push";
      component = sensor;
      device_class = codes "timestamp";
      icon = codes "mdi:cloud-upload";
      unit = [];
      state_topic = codes "last_push";
      value_tmpl = [];
      payload_on = [];
      payload_off = [];
      expire_after = pos 0;
    }
    ∷ record {
      key = codes "last_pull";
      name = codes "Last Pull";
      component = sensor;
      device_class = codes "timestamp";
      icon = codes "mdi:cloud-download";
      unit = [];
      state_topic = codes "last_pull";
      value_tmpl = [];
      payload_on = [];
      payload_off = [];
      expire_after = pos 0;
    }
    ∷ record {
      key = codes "pending_up";
      name = codes "Pending Uploads";
      component = sensor;
      device_class = [];
      icon = codes "mdi:upload";
      unit = [];
      state_topic = codes "queue/pending_up";
      value_tmpl = [];
      payload_on = [];
      payload_off = [];
      expire_after = pos 0;
    }
    ∷ record {
      key = codes "pending_down";
      name = codes "Pending Downloads";
      component = sensor;
      device_class = [];
      icon = codes "mdi:download";
      unit = [];
      state_topic = codes "queue/pending_down";
      value_tmpl = [];
      payload_on = [];
      payload_off = [];
      expire_after = pos 0;
    }
    ∷ record {
      key = codes "conflicts_24h";
      name = codes "Conflicts (24h)";
      component = sensor;
      device_class = [];
      icon = codes "mdi:alert-circle";
      unit = [];
      state_topic = codes "conflicts_24h";
      value_tmpl = [];
      payload_on = [];
      payload_off = [];
      expire_after = pos 0;
    }
    ∷ record {
      key = codes "bytes_up_24h";
      name = codes "Bytes Uploaded (24h)";
      component = sensor;
      device_class = [];
      icon = codes "mdi:upload-network";
      unit = codes "B";
      state_topic = codes "bytes_up_24h";
      value_tmpl = [];
      payload_on = [];
      payload_off = [];
      expire_after = pos 0;
    }
    ∷ record {
      key = codes "bytes_down_24h";
      name = codes "Bytes Downloaded (24h)";
      component = sensor;
      device_class = [];
      icon = codes "mdi:download-network";
      unit = codes "B";
      state_topic = codes "bytes_down_24h";
      value_tmpl = [];
      payload_on = [];
      payload_off = [];
      expire_after = pos 0;
    }
    ∷ record {
      key = codes "quota_used_pct";
      name = codes "Drive Quota Used";
      component = sensor;
      device_class = codes "data_size";
      icon = codes "mdi:google-drive";
      unit = codes "%";
      state_topic = codes "quota_used_pct";
      value_tmpl = [];
      payload_on = [];
      payload_off = [];
      expire_after = pos 0;
    }
    ∷ record {
      key = codes "online";
      name = codes "Online";
      component = binary_sensor;
      device_class = codes "connectivity";
      icon = [];
      unit = [];
      state_topic = codes "online";
      value_tmpl = [];
      payload_on = codes "online";
      payload_off = codes "offline";
      expire_after = pos 0;
    }
    ∷ []

abbrev joined_by_underscore : Bytes → Bytes → Bytes
joined_by_underscore a b = a ++ (b'_' ∷ b)

unfoldable pub build_device_block : Bytes → Bytes → Bytes → DeviceBlock
build_device_block host user sw_version = record {
  identifiers = joined_by_underscore (codes "homedrive") (joined_by_underscore host user) ∷ [];
  name = codes "homedrive (" ++ (user ++ (b'@' ∷ (host ++ codes ")")));
  sw_version = sw_version;
  model = codes "homedrive";
  manufacturer = codes "asnowfix/home-automation";
}

unfoldable pub discovery_topic : Bytes → Bytes → Bytes → EntityDef → Bytes
discovery_topic prefix host user e = join_slash (
    prefix
    ∷ component_text e.component
    ∷ joined_by_underscore (codes "homedrive")
        (joined_by_underscore host (joined_by_underscore user e.key))
    ∷ codes "config"
    ∷ [])

abbrev first_identifier : List Bytes → Bytes
first_identifier [] = []
first_identifier (i ∷ is) = i

-- The value that is encoded; an identifier is there.
unfoldable pub build_discovery_payload : EntityDef → DeviceBlock → Bytes → DiscoveryConfig
build_discovery_payload e device state_topic = record {
  name = e.name;
  unique_id =
      joined_by_underscore (codes "homedrive")
        (joined_by_underscore (first_identifier device.identifiers) e.key);
  state_topic = state_topic;
  device = device;
  device_class = e.device_class;
  icon = e.icon;
  unit_of_measurement = e.unit;
  value_template = e.value_tmpl;
  payload_on = e.payload_on;
  payload_off = e.payload_off;
  expire_after = if is_positive e.expire_after then e.expire_after else pos 0;
}

-- What `json.Marshal` makes of a configuration, and whether the tokens complete.
module _ (marshal : DiscoveryConfig → Option Bytes) (token_good : Bool) where
  -- With whether there was an error.
  unfoldable pub publish_entity : Bytes → ℕ → DeviceBlock → EntityDef → Client → Bool × Client
  publish_entity prefix qos device e c =
      elim (marshal (build_discovery_payload e device (topic c (e.state_topic ∷ [])))) [
        | none ↦ (true, c)
        | some payload ↦
            let r =
              publish (discovery_topic prefix c.host c.user e) qos true (raw payload) token_good
                c in
            (if r.0 then false else true, r.1)
      ]

  unfoldable pub publish_entities :
      Bytes → ℕ → DeviceBlock → List EntityDef → Client → Bool × Client
  publish_entities prefix qos device [] c = (false, c)
  publish_entities prefix qos device (e ∷ es) c =
      let r = publish_entity prefix qos device e c in
      let rest = publish_entities prefix qos device es r.1 in (r.0 || rest.0, rest.1)

  -- `PublishDiscovery` for the host and the user of the client.
  unfoldable pub publish_discovery : Config → Bytes → Client → Bool × Client
  publish_discovery cfg sw_version c =
      publish_entities (or_text cfg.ha_discovery_prefix (codes "homeassistant")) cfg.qos
        (build_device_block c.host c.user sw_version) entities c
