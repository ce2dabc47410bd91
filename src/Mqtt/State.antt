-- ===== src/Mqtt/State.antt =====
-- internal/mqtt/state.go and events.go: the states and the events that the client publishes. The
-- texts of times, numbers and floats are parameters.
use home_drive.Base.{Bool, true, false, Option, [], ◌∷◌, ◌==◌, is_empty, if◌then◌else◌}
use home_drive.Base.Text.{Bytes, codes}
use home_drive.Base.Time.{Time}
use home_drive.Base.Int.{ℤ}
use home_drive.Mqtt.{Client, topic, publish, publish_json, raw}

-- The answers of `StatusProvider` and `MetricsProvider`.
pub record Providers (F : Type 0) : Type 0 where
  pub status : Bytes
  pub last_push : Time
  pub last_pull : Time
  pub pending_uploads : ℤ
  pub pending_downloads : ℤ
  pub conflicts_24h : ℤ
  pub bytes_uploaded_24h : ℤ
  pub bytes_downloaded_24h : ℤ
  pub quota_used_pct : F

pub record Texts (F : Type 0) : Type 0 where
  pub rfc3339 : Time → Bytes
  pub decimal : ℤ → Bytes
  pub one_digit : F → Bytes

-- The error of a publish is only logged.
unfoldable pub publish_string : Bool → Bytes → Bytes → Client → Client
publish_string good subtopic value c =
    (publish (topic c (subtopic ∷ [])) 1 true (raw value) good c).1

module _ {F : Type 0} (texts : Texts F) (good : Bool) where
  unfoldable pub publish_timestamp : Bytes → Time → Client → Client
  publish_timestamp subtopic t c =
      publish_string good subtopic (if t == 0 then [] else texts.rfc3339 t) c

  unfoldable pub publish_int : Bytes → ℤ → Client → Client
  publish_int subtopic n c = publish_string good subtopic (texts.decimal n) c

  unfoldable pub publish_float : Bytes → F → Client → Client
  publish_float subtopic x c = publish_string good subtopic (texts.one_digit x) c

  unfoldable pub publish_state : Providers F → Client → Client
  publish_state p c =
      let c = publish_string good (codes "status") p.status c in
      let c = publish_timestamp (codes "last_push") p.last_push c in
      let c = publish_timestamp (codes "last_pull") p.last_pull c in
      let c = publish_int (codes "queue/pending_up") p.pending_uploads c in
      let c = publish_int (codes "queue/pending_down") p.pending_downloads c in
      let c = publish_int (codes "conflicts_24h") p.conflicts_24h c in
      let c = publish_int (codes "bytes_up_24h") p.bytes_uploaded_24h c in
      let c = publish_int (codes "bytes_down_24h") p.bytes_downloaded_24h c in
      publish_float (codes "quota_used_pct") p.quota_used_pct c

-- An event, with "" and zeros for what it has not.
pub record Event (F : Type 0) : Type 0 where
  pub timestamp : Bytes
  pub type : Bytes
  pub path : Bytes
  pub local_mtime : Bytes
  pub remote_mtime : Bytes
  pub resolution : Bytes
  pub kept_old_as : Bytes
  pub from : Bytes
  pub to : Bytes
  pub files_count : ℤ
  pub bytes : ℤ
  pub error : Bytes
  pub quota_pct : F

module _ {F : Type 0} (marshal : Event F → Option Bytes) (now : Bytes) (good : Bool) where
  -- With whether there was no error to return.
  unfoldable pub emit : Event F → Client → Bool × Client
  emit e c =
      let e' = if is_empty e.timestamp then record e { timestamp = now } else e in
      if is_empty e.type
      then (false, c)
      else publish_json (topic c (codes "events" ∷ e.type ∷ [])) (marshal e') good c
