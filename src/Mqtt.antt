-- ===== src/Mqtt.antt =====
-- internal/mqtt/mqtt.go: the client over paho, as the list of what it asks of paho. What a token
-- of paho reports later is an argument, and so is what encoding/json makes of a value.
pub mod State
pub mod Discovery
pub mod Closed
mod Tests
use home_drive.Base.{
  ℕ, ◌+◌, ◌*◌, ◌==◌, Bool, true, false, not, Option, none, some, List, [], ◌∷◌, ◌++◌, is_empty,
  if◌then◌else◌,
}
use home_drive.Base.Int.{ℤ, pos, is_zero}
use home_drive.Base.Text.{Bytes, codes}
use home_drive.Base.Time.{second, minute}

pub record Config : Type 0 where
  pub broker : Bytes
  pub client_id_prefix : Bytes
  pub base_topic : Bytes
  pub ha_discovery_prefix : Bytes
  pub qos : ℕ
  pub keep_alive : ℤ
  pub reconnect_max : ℤ
  pub username : Bytes
  pub password : Bytes

unfoldable pub or_text : Bytes → Bytes → Bytes
or_text s default = if is_empty s then default else s

unfoldable pub with_defaults : Config → Config
unfolding or_text
with_defaults c = record c {
  qos = if c.qos == 0 then 1 else c.qos;
  keep_alive = if is_zero c.keep_alive then pos (30 * second) else c.keep_alive;
  reconnect_max = if is_zero c.reconnect_max then pos (5 * minute) else c.reconnect_max;
  base_topic = or_text c.base_topic (codes "homedrive");
  client_id_prefix = or_text c.client_id_prefix (codes "homedrive");
}

-- `strings.Join(parts, "/")`
unfoldable pub join_slash : List Bytes → Bytes
join_slash [] = []
join_slash (p ∷ []) = p
join_slash (p ∷ q ∷ ps) = p ++ (b'/' ∷ join_slash (q ∷ ps))

pub record Message : Type 0 where
  pub topic : Bytes
  pub qos : ℕ
  pub retain : Bool
  pub payload : Bytes

pub data Action : Type 0 where
  published : Message → Action
  disconnected : Action

-- The configuration has its defaults.
pub record Client : Type 0 where
  pub cfg : Config
  pub host : Bytes
  pub user : Bytes
  pub errors : ℕ
  pub closed : Bool
  pub actions : List Action

-- A client after `New` has connected.
unfoldable pub new_client : Config → Bytes → Bytes → Client
new_client cfg host user = record {
  cfg = with_defaults cfg;
  host = host;
  user = user;
  errors = 0;
  closed = false;
  actions = [];
}

unfoldable pub client_id : Bytes → Bytes → Bytes → Bytes
client_id prefix host user = prefix ++ (b'_' ∷ (host ++ (b'_' ∷ user)))

unfoldable pub topic : Client → List Bytes → Bytes
topic c parts = join_slash (c.cfg.base_topic ∷ c.host ∷ c.user ∷ parts)

abbrev pub online_topic : Client → Bytes
online_topic c = topic c (codes "online" ∷ [])

abbrev pub online_message : Client → Bytes → Message
online_message c payload = record {
  topic = online_topic c;
  qos = c.cfg.qos;
  retain = true;
  payload = payload;
}

-- The will that `New` sets, for the broker to publish when the connection is lost.
unfoldable pub will : Client → Message
will c = online_message c (codes "offline")

abbrev pub act : Action → Client → Client
act a c = record c { actions = c.actions ++ a ∷ [] }

-- A payload: bytes or a string, or a value with what `json.Marshal` makes of it.
pub data Payload : Type 0 where
  raw : Bytes → Payload
  encoded : Option Bytes → Payload

unfoldable pub to_bytes : Payload → Option Bytes
to_bytes (raw s) = some s
to_bytes (encoded o) = o

-- Whether the token completed without an error in time.
unfoldable pub counted : Bool → Client → Client
counted good c = if good then c else record c { errors = c.errors + 1 }

-- With whether there was no error to return.
unfoldable pub publish : Bytes → ℕ → Bool → Payload → Bool → Client → Bool × Client
publish t qos retain payload token_good c = elim (to_bytes payload) [
  | none ↦ (false, record c { errors = c.errors + 1 })
  | some bytes ↦ (
    true,
    counted token_good
        (act (published (record { topic = t; qos = qos; retain = retain; payload = bytes })) c),
  )
]

unfoldable pub publish_json : Bytes → Option Bytes → Bool → Client → Bool × Client
publish_json t none token_good c = (false, record c { errors = c.errors + 1 })
publish_json t (some bytes) token_good c = publish t c.cfg.qos false (raw bytes) token_good c

-- Whether the connection is open is an argument.
unfoldable pub close : Bool → Client → Client
close open_now c =
    if c.closed
    then c
    else act disconnected (
        if open_now
        then act (published (online_message c (codes "offline"))) (record c { closed = true })
        else record c { closed = true })

unfoldable pub on_connect : Bool → Client → Client
on_connect token_in_time c =
    counted token_in_time (act (published (online_message c (codes "online"))) c)
