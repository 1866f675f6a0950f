-- ===== src/Tests/Config.antt =====
-- Runs of the configuration, of the start and of the end of the program.
use pv_matter.Common.{
  ◌≡◌, ◌↔◌, ◌>>=◌, refl, true, false, List, [], ◌∷◌, Option, none, some, ok, err, arith,
  if◌then◌else◌,
}
use pv_matter.Text.{Text, codes, text_eq, trim, is_whitespace}
use pv_matter.Number.{u16_max, u64_max, parse_digits, parse_unsigned, digits_of, to_string}
use pv_matter.Config.{Config, mqtt_port_invalid, Surroundings, var, from_env}
use pv_matter.Config.Laws.{IsConfig, from_env-eq-ok_iff, IsFirstError, from_env-IsFirstError}
use pv_matter.Domain.{info, status}
use pv_matter.Domain.Status.{online}
use pv_matter.Main.{bootstrap, Wait, message, Event, received, shutdown_signal}
use pv_matter.Main.Start.Ok.{EndsByShutdown, ends_boot, main-eq-ok_iff}
use pv_matter.Main.Start.{running, panicked, basic_info, basic_info-serial, exited, main}
use pv_matter.Tests.Fixtures.{inverter}

number_printed : to_string 3_004_000_000 ≡ codes "3004000000"
unfolding to_string digits_of
number_printed = refl

-- A sign is read over, and one more than the largest port is refused.
port_read : parse_unsigned u16_max (codes "+65535") ≡ some 65_535
unfolding parse_unsigned parse_digits
port_read = refl

port_refused : parse_unsigned u16_max (codes "65536") ≡ none
unfolding parse_unsigned parse_digits
port_refused = refl

abbrev lookup : List (Text × Text) → Text → Option Text
lookup [] name = none
lookup ((n, v) ∷ vars) name = if text_eq n name then some v else lookup vars name

abbrev environment : List (Text × Text) → Surroundings
environment vars = record {
  env_var = lookup vars;
  home = some (codes "/home/pv");
  matter_port = 5_540;
}

abbrev pub plain : Surroundings
plain =
    environment ((codes "PV_MQTT_HOST", codes "broker") ∷ (codes "PV_MQTT_PORT", codes " ") ∷ [])

abbrev plain_config : Config
plain_config = record {
  mqtt_host = codes "broker";
  mqtt_port = 1_883;
  matter_port = 5_540;
  mqtt_username = none;
  mqtt_password = none;
  topic_prefix = codes "pv-inverter";
  device_id = none;
  storage_path = codes "/home/pv/.pv-matter";
  bootstrap_timeout = 30;
}

pub plain_read : from_env plain ≡ ok plain_config
unfolding from_env var text_eq trim is_whitespace
plain_read = refl

from_env-eq-ok_iff_example : (from_env plain ≡ ok plain_config) ↔ IsConfig plain plain_config
from_env-eq-ok_iff_example = from_env-eq-ok_iff plain plain_config

abbrev bad_port : Surroundings
bad_port =
    environment
      ((codes "PV_MQTT_HOST", codes "broker") ∷ (codes "PV_MQTT_PORT", codes "65536") ∷ [])

port_reported : from_env bad_port ≡ err mqtt_port_invalid
unfolding from_env var text_eq trim is_whitespace parse_unsigned parse_digits
port_reported = refl

from_env-IsFirstError_example : IsFirstError bad_port mqtt_port_invalid
from_env-IsFirstError_example = from_env-IsFirstError bad_port mqtt_port_invalid port_reported

basic_info-serial_example :
    parse_unsigned u64_max (basic_info 0xfff1 0x8001 (codes "0.1.0") (some inverter)).serial_no
    ≡ (some inverter >>= λ i. i.serial)
basic_info-serial_example =
    basic_info-serial 0xfff1 0x8001 (codes "0.1.0") (some inverter) (omega arith)

abbrev waits : List Wait
waits = message (info inverter) ∷ []

abbrev events : List Event
events = received (some (status online)) true ∷ received none true ∷ shutdown_signal ∷ []

main-eq-ok_iff_example : (main (λ n. true) plain true true waits events ≡ exited (ok tt)) ↔ (
    ((cfg : Config) × (from_env plain ≡ ok cfg) × (true ≡ true))
    × (true ≡ true)
    × (true ≡ true)
    × (ends_boot waits ≡ true)
    × EndsByShutdown events)
main-eq-ok_iff_example = main-eq-ok_iff (λ n. true) plain true true waits events

main_ends : main (λ n. true) plain true true waits events ≡ exited (ok tt)
main_ends = main-eq-ok_iff_example.1 (
  (plain_config, plain_read, refl),
  refl,
  refl,
  refl,
  record {
    before = received (some (status online)) true ∷ received none true ∷ [];
    after = [];
    split = refl;
    calm = (refl, (tt, tt));
  },
)

-- Without an identity and before the deadline `main` still waits.
main_waits : main (λ n. true) plain true true [] events ≡ running
unfolding main from_env var text_eq trim is_whitespace bootstrap
main_waits = refl

-- A timeout without an instant.
main_panics : main (λ n. false) plain true true waits events ≡ panicked
unfolding main from_env var text_eq trim is_whitespace
main_panics = refl
