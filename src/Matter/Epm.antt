-- ===== src/Matter/Epm.antt =====
-- src/matter/epm.rs: the power measurement, its sign convention and its accuracy envelopes.
pub mod Envelope
pub mod Rows
use pv_matter.Common.{
  map, true, ℕ, ◌+◌, ◌*◌, ◌/◌, ◌^◌, ◌≤◌, ◌<◌, ◌≡◌, refl, Option, none, some, map_opt, List, [], ◌∷◌,
  Result, arith,
}
use pv_matter.Int.{ℤ, pos, negsuc, neg, ◌*ℤ◌, ◌+ℤ◌, ◌-ℤ◌, ◌≤ℤ◌, wrap_i64, div_trunc, i64_max}
use pv_matter.Domain.Snapshot.{PvSnapshot}
use pv_matter.Matter.Measurement.{
  MeasurementType, active_power_type, voltage_type, active_current_type, frequency_type,
  MeasurementAccuracy,
}
use pv_matter.Matter.Tlv.{Builder, ArrayRead, read_array}

pub record AccuracyEntry : Type 0 where
  pub measurement_type : MeasurementType
  pub min : ℤ
  pub max : ℤ

abbrev pub mains_frequency_mhz : ℤ
mains_frequency_mhz = pos 50_000

abbrev pub nominal_mains_voltage_mv : ℤ
nominal_mains_voltage_mv = pos 230_000

abbrev pub voltage_tolerance_mv : ℤ
voltage_tolerance_mv = pos 45_000

-- 230 V - 45 V; it is a divisor, so it stands as a number too.
abbrev pub voltage_min : ℕ
voltage_min = 185_000

abbrev pub voltage_min_mv : ℤ
voltage_min_mv = nominal_mains_voltage_mv -ℤ voltage_tolerance_mv

abbrev pub voltage_max_mv : ℤ
voltage_max_mv = nominal_mains_voltage_mv +ℤ voltage_tolerance_mv

abbrev pub power_headroom_mw_per_w : ℕ
power_headroom_mw_per_w = 1_100

abbrev pub default_active_power_min_mw : ℤ
default_active_power_min_mw = neg (pos 30_000_000)

abbrev pub default_active_current_min_ma : ℤ
default_active_current_min_ma = neg (pos 30_000)

unfoldable pub active_power_current_min : Option ℤ → ℤ × ℤ
active_power_current_min none = (default_active_power_min_mw, default_active_current_min_ma)
active_power_current_min (some w) =
    let power_mw = wrap_i64 (w *ℤ pos power_headroom_mw_per_w) in
    let current_ma = div_trunc (wrap_i64 (power_mw *ℤ pos 1_000)) voltage_min in
    (wrap_i64 (neg power_mw), wrap_i64 (neg current_ma))

unfoldable pub accuracy_entries : Option ℤ → List AccuracyEntry
accuracy_entries max_power_w =
    let (power_min, current_min) = active_power_current_min max_power_w in
    record { measurement_type = active_power_type; min = power_min; max = pos 0 }
    ∷ record { measurement_type = voltage_type; min = voltage_min_mv; max = voltage_max_mv }
    ∷ record { measurement_type = active_current_type; min = current_min; max = pos 0 }
    ∷ record {
      measurement_type = frequency_type;
      min = mains_frequency_mhz -ℤ pos 5_000;
      max = mains_frequency_mhz +ℤ pos 5_000;
    }
    ∷ []

-- `PERCENT_MAX`, in hundredths of a percent.
abbrev pub percent_max : ℕ
percent_max = 100

-- The structure that `write_accuracy` writes for a row.
unfoldable pub write_accuracy : AccuracyEntry → MeasurementAccuracy
write_accuracy entry = record {
  measurement_type = entry.measurement_type;
  measured = true;
  min_measured_value = entry.min;
  max_measured_value = entry.max;
  accuracy_ranges =
      record {
        range_min = entry.min;
        range_max = entry.max;
        percent_max = some percent_max;
        percent_min = none;
        percent_typical = none;
        fixed_max = none;
        fixed_min = none;
        fixed_typical = none;
      }
      ∷ [];
}

-- The attribute reads; a null is `none`.
pub data PowerMode : Type 0 where
  ac : PowerMode

unfoldable pub power_mode : PvSnapshot → PowerMode
power_mode s = ac

-- The rows of the Accuracy attribute.
unfoldable pub accuracy_rows : PvSnapshot → List MeasurementAccuracy
accuracy_rows s = map write_accuracy (accuracy_entries s.max_power_w)

unfoldable pub accuracy :
    {P E : Type 0} → Builder MeasurementAccuracy P E → PvSnapshot → ArrayRead P → Result P E
accuracy b s = read_array b (accuracy_rows s)

unfoldable pub voltage : PvSnapshot → Option ℤ
voltage s = s.voltage_mv

-- Import-positive: production is reported as a negative number.
unfoldable pub active_current : PvSnapshot → Option ℤ
active_current s = map_opt (λ ma. wrap_i64 (neg ma)) s.current_ma

unfoldable pub active_power : PvSnapshot → Option ℤ
active_power s = map_opt (λ mw. wrap_i64 (neg mw)) s.power_mw

unfoldable pub frequency : PvSnapshot → Option ℤ
frequency s = s.frequency_mhz

unfoldable pub number_of_measurement_types : PvSnapshot → ℕ
number_of_measurement_types s = 4
