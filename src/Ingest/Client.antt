-- ===== src/Ingest/Client.antt =====
-- The start of `run` of src/ingest.rs: the options of the MQTT client, and the router of the loop, from
-- the configuration. The client's name has the process id in it, a parameter.
use pv_matter.Common.{ℕ, Bool, true, List, ◌++◌, Option, none, some}
use pv_matter.Text.{Text, codes}
use pv_matter.Number.{to_string}
use pv_matter.Serde.{SerdeJson}
use pv_matter.Config.{Config}
use pv_matter.Ingest.{new_router, MqttEvent, Action, run_ingest}

pub record MqttOptions : Type 0 where
  pub client_id : Text
  pub host : Text
  pub port : ℕ
  -- In seconds.
  pub keep_alive : ℕ
  pub clean_start : Bool
  pub credentials : Option (Text × Text)

-- Both or none.
credentials_of : Option Text → Option Text → Option (Text × Text)
credentials_of none password = none
credentials_of (some user) none = none
credentials_of (some user) (some pass) = some (user, pass)

unfoldable pub mqtt_options : ℕ → Config → MqttOptions
unfolding credentials_of to_string
mqtt_options process_id cfg = record {
  client_id = codes "pv-matter-" ++ to_string process_id;
  host = cfg.mqtt_host;
  port = cfg.mqtt_port;
  keep_alive = 30;
  clean_start = true;
  credentials = credentials_of cfg.mqtt_username cfg.mqtt_password;
}

-- `run`: the client that it connects, and what its loop does over the events.
unfoldable pub run : SerdeJson → ℕ → Config → List MqttEvent → MqttOptions × List Action
unfolding mqtt_options
run serde process_id cfg events = (
  mqtt_options process_id cfg,
  run_ingest serde (new_router cfg.topic_prefix cfg.device_id) events,
)
