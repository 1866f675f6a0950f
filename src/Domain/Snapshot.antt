-- ===== src/Domain/Snapshot.antt =====
-- `PvSnapshot` of src/domain.rs: how a pack and a status change the readings.
use pv_matter.Common.{
  ℕ, Bool, ◌||◌, ◌&&◌, List, [], ◌∷◌, Option, none, some, get_or, ◌>>=◌, if◌then◌else◌, ite,
}
use pv_matter.Int.{ℤ, pos, negsuc, ◌+ℤ◌, leb_ℤ, wrap_i64}
use pv_matter.Text.{Text, codes, text_eq}
use pv_matter.Senml.{Value, number, text, Record, Pack}
use pv_matter.Senml.Decimal.{scale_decimal}
use pv_matter.Domain.Status.{
  LinkStatus, LinkStatus-discrete, online, asleep, offline, SourceStatus, unspecified, active,
  standby, unavailable, DeviceStatus, GridRelay, parse_device_status, parse_grid_relay, device_vote,
  relay_vote, max_signal,
}

pub record PvSnapshot : Type 0 where
  pub link : LinkStatus
  pub voltage_mv : Option ℤ
  pub current_ma : Option ℤ
  pub power_mw : Option ℤ
  pub frequency_mhz : Option ℤ
  pub energy_total_mwh : Option ℤ
  pub energy_end_ts : Option ℤ
  pub temperature_centi_c : Option ℤ
  pub device_status : Option DeviceStatus
  pub grid_relay : Option GridRelay
  pub max_power_w : Option ℤ

abbrev pub default_snapshot : PvSnapshot
default_snapshot = record {
  link = LinkStatus.unknown;
  voltage_mv = none;
  current_ma = none;
  power_mw = none;
  frequency_mhz = none;
  energy_total_mwh = none;
  energy_end_ts = none;
  temperature_centi_c = none;
  device_status = none;
  grid_relay = none;
  max_power_w = none;
}

-- The names that `apply_pack` matches on, one constructor for each arm.
pub data RecordKind : Type 0 where
  total_power line_voltage line_current ac_frequency internal_temperature : RecordKind
  lifetime_energy health relay_state unmapped : RecordKind

unfoldable pub kind_of : Text → RecordKind
kind_of name =
    if text_eq name (codes "ac/total_power")
    then total_power
    else if text_eq name (codes "ac/l1/voltage")
    then line_voltage
    else if text_eq name (codes "ac/l1/current")
    then line_current
    else if text_eq name (codes "ac/frequency")
    then ac_frequency
    else if text_eq name (codes "device/temperature")
    then internal_temperature
    else if text_eq name (codes "energy/total")
    then lifetime_energy
    else if text_eq name (codes "device/status")
    then health
    else if text_eq name (codes "device/grid_relay")
    then relay_state
    else unmapped

is_milli_unit : Text → Bool
is_milli_unit u =
    text_eq u (codes "W")
    || text_eq u (codes "V")
    || text_eq u (codes "A")
    || text_eq u (codes "Hz")
    || text_eq u (codes "Wh")

unfoldable pub milli_shift : Option Text → Option ℕ
unfolding is_milli_unit
milli_shift none = none
milli_shift (some u) = if is_milli_unit u then some 3 else none

scale_value : Value → ℕ → Option ℤ
scale_value (number raw) shift = scale_decimal raw shift
scale_value (text _) shift = none

unfoldable pub scaled : Record → Option ℕ → Option ℤ
unfolding scale_value
scaled r shift = shift >>= λ s. scale_value r.value s

-- `i16::try_from(v).ok()`
abbrev pub to_i16 : ℤ → Option ℤ
to_i16 z = if leb_ℤ (negsuc 32767) z && leb_ℤ z (pos 32767) then some z else none

celsius_shift : Option Text → Option ℕ
celsius_shift none = none
celsius_shift (some u) = if text_eq u (codes "Cel") then some 2 else none

-- A number record in Matter's milli-units, and the temperature in hundredths of a degree.
unfoldable pub milli : Record → Option ℤ
unfolding scaled milli_shift
milli r = scaled r (milli_shift r.unit)

unfoldable pub centi_celsius : Record → Option ℤ
unfolding scaled celsius_shift
centi_celsius r = scaled r (celsius_shift r.unit) >>= to_i16

-- The variables of the loop of `apply_pack`: seven locals, and two fields of `self`.
pub record PackScan : Type 0 where
  pub voltage : Option ℤ
  pub current : Option ℤ
  pub power : Option ℤ
  pub frequency : Option ℤ
  pub temperature : Option ℤ
  pub device_status : Option DeviceStatus
  pub relay : Option GridRelay
  pub energy_total_mwh : Option ℤ
  pub energy_end_ts : Option ℤ

-- A text value replaces the enum read so far, a number leaves it.
unfoldable pub text_value : Value → Option Text
text_value (text s) = some s
text_value (number _) = none

set_energy : ℤ → Record → Option ℤ → PackScan → PackScan
set_energy base_time r none s = s
set_energy base_time r (some mwh) s = record s {
  energy_total_mwh = some mwh;
  energy_end_ts = some (wrap_i64 (base_time +ℤ r.time_offset));
}

set_health : Option Text → PackScan → PackScan
set_health none s = s
set_health (some vs) s = record s { device_status = parse_device_status vs }

set_relay : Option Text → PackScan → PackScan
set_relay none s = s
set_relay (some vs) s = record s { relay = parse_grid_relay vs }

-- The arms of the `match`.
unfoldable pub apply_kind : RecordKind → ℤ → Record → PackScan → PackScan
unfolding set_energy set_health set_relay
apply_kind total_power bt r s = record s { power = milli r }
apply_kind line_voltage bt r s = record s { voltage = milli r }
apply_kind line_current bt r s = record s { current = milli r }
apply_kind ac_frequency bt r s = record s { frequency = milli r }
apply_kind internal_temperature bt r s = record s { temperature = centi_celsius r }
apply_kind lifetime_energy bt r s = set_energy bt r (milli r) s
apply_kind health bt r s = set_health (text_value r.value) s
apply_kind relay_state bt r s = set_relay (text_value r.value) s
apply_kind unmapped bt r s = s

unfoldable pub apply_record : ℤ → Record → PackScan → PackScan
unfolding apply_kind
apply_record base_time r s = apply_kind (kind_of r.name) base_time r s

unfoldable pub apply_records : ℤ → List Record → PackScan → PackScan
apply_records base_time [] s = s
apply_records base_time (r ∷ records) s =
    apply_records base_time records (apply_record base_time r s)

unfoldable pub enforce_link_mask : PvSnapshot → PvSnapshot
enforce_link_mask s = ite (LinkStatus-discrete s.link online) s (record s {
  voltage_mv = none;
  current_ma = none;
  power_mw = none;
  frequency_mhz = none;
  temperature_centi_c = none;
  device_status = none;
  grid_relay = none;
})

abbrev pub empty_scan : PvSnapshot → PackScan
empty_scan s = record {
  voltage = none;
  current = none;
  power = none;
  frequency = none;
  temperature = none;
  device_status = none;
  relay = none;
  energy_total_mwh = s.energy_total_mwh;
  energy_end_ts = s.energy_end_ts;
}

-- The assignments behind the loop.
abbrev pub store_scan : PvSnapshot → PackScan → PvSnapshot
store_scan s scan = record s {
  voltage_mv = scan.voltage;
  current_ma = scan.current;
  power_mw = scan.power;
  frequency_mhz = scan.frequency;
  energy_total_mwh = scan.energy_total_mwh;
  energy_end_ts = scan.energy_end_ts;
  temperature_centi_c = scan.temperature;
  device_status = scan.device_status;
  grid_relay = scan.relay;
}

unfoldable pub apply_pack : PvSnapshot → Pack → PvSnapshot
apply_pack s p =
    enforce_link_mask (store_scan s (apply_records p.base_time p.records (empty_scan s)))

unfoldable pub set_status : PvSnapshot → LinkStatus → PvSnapshot
set_status s status = enforce_link_mask (record s { link = status })

-- The online branch of `source_status`.
unfoldable pub online_status : Option DeviceStatus → Option GridRelay → SourceStatus
unfolding max_signal device_vote relay_vote
online_status device relay =
    get_or (max_signal ((device >>= device_vote) ∷ (relay >>= relay_vote) ∷ [])) active

status_of_link : LinkStatus → PvSnapshot → SourceStatus
unfolding online_status
status_of_link LinkStatus.unknown s = unspecified
status_of_link offline s = unavailable
status_of_link asleep s = standby
status_of_link online s = online_status s.device_status s.grid_relay

unfoldable pub source_status : PvSnapshot → SourceStatus
unfolding status_of_link
source_status s = status_of_link s.link s
