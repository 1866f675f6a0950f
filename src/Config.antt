-- ===== src/Config.antt =====
-- src/config.rs: the configuration from the environment. The variables and the home directory are
-- parameters, and so is rs-matter's `MATTER_PORT`. A path is its text, an error is its message.
pub mod Laws
use pv_matter.Common.{
  ℕ, Bool, true, false, not, List, [], ◌∷◌, ◌++◌, Option, none, some, Result, ok, err, get_or, ◌==◌,
  ◌||◌, if◌then◌else◌,
}
use pv_matter.Text.{Text, codes, is_empty, trim}
use pv_matter.Number.{u16_max, u64_max, parse_unsigned}

pub data ConfigError : Type 0 where
  host_required : ConfigError
  mqtt_port_invalid : ConfigError
  matter_port_invalid : ConfigError
  no_home : ConfigError
  timeout_invalid : ConfigError

pub record Config : Type 0 where
  pub mqtt_host : Text
  pub mqtt_port : ℕ
  pub matter_port : ℕ
  pub mqtt_username : Option Text
  pub mqtt_password : Option Text
  pub topic_prefix : Text
  pub device_id : Option Text
  pub storage_path : Text
  -- In seconds.
  pub bootstrap_timeout : ℕ

-- What the process finds around it: `std::env::var(name).ok()`, and `std::env::var_os("HOME")`.
pub record Surroundings : Type 0 where
  pub env_var : Text → Option Text
  pub home : Option Text
  pub matter_port : ℕ

-- The `?` of `from_env`: the rest runs on the value of a step that went well.
infixl 5 ◌>>=◌
abbrev pub ◌>>=◌ :
    {Value Next : Type 0}
    → Result Value ConfigError
    → (Value → Result Next ConfigError)
    → Result Next ConfigError
result >>= rest = elim result [ ok value ↦ rest value | err e ↦ err e ]

-- `.context(e)?` of an option or of a parse.
abbrev pub require : {A : Type 0} → Option A → ConfigError → Result A ConfigError
require none e = err e
require (some a) e = ok a

abbrev pub filter_blank : Option Text → Option Text
filter_blank none = none
filter_blank (some v) = if is_empty (trim v) then none else some v

unfoldable pub var : Surroundings → Text → Option Text
var sur name = filter_blank (sur.env_var name)

-- A number from a variable, or its default.
abbrev pub number_or : ℕ → Option Text → ℕ → ConfigError → Result ℕ ConfigError
number_or max none default e = ok default
number_or max (some p) default e = require (parse_unsigned max p) e

-- `PathBuf::join` of a relative path.
abbrev pub ends_with_slash : Text → Bool
ends_with_slash [] = false
ends_with_slash (c ∷ []) = c == b'/'
ends_with_slash (c ∷ d ∷ s) = ends_with_slash (d ∷ s)

abbrev pub join : Text → Text → Text
join path leaf = if is_empty path || ends_with_slash path then path ++ leaf else path ++ b'/' ∷ leaf

abbrev pub storage_or : Option Text → Option Text → Result Text ConfigError
storage_or (some p) home = ok p
storage_or none home = do h ← require home no_home; ok (join h (codes ".pv-matter"))

unfoldable pub from_env : Surroundings → Result Config ConfigError
from_env sur = do
  mqtt_host ← require (var sur (codes "PV_MQTT_HOST")) host_required
  mqtt_port ← number_or u16_max (var sur (codes "PV_MQTT_PORT")) 1_883 mqtt_port_invalid
  matter_port ←
      number_or u16_max (var sur (codes "PV_MATTER_PORT")) sur.matter_port matter_port_invalid
  storage_path ← storage_or (var sur (codes "PV_STORAGE_PATH")) sur.home
  bootstrap_timeout ← number_or u64_max (var sur (codes "PV_BOOTSTRAP_TIMEOUT")) 30 timeout_invalid
  ok (record {
    mqtt_host = mqtt_host;
    mqtt_port = mqtt_port;
    matter_port = matter_port;
    mqtt_username = var sur (codes "PV_MQTT_USERNAME");
    mqtt_password = var sur (codes "PV_MQTT_PASSWORD");
    topic_prefix = get_or (var sur (codes "PV_MQTT_TOPIC_PREFIX")) (codes "pv-inverter");
    device_id = var sur (codes "PV_DEVICE_ID");
    storage_path = storage_path;
    bootstrap_timeout = bootstrap_timeout;
  })
