-- ===== src/Matter/Eem.antt =====
-- src/matter/eem.rs: the energy measurement. `MATTER_EPOCH_SECS` is a constant of rs-matter, so it is
-- a parameter.
use pv_matter.Common.{
  ℕ, ◌+◌, ◌^◌, ◌≤◌, ◌<◌, ◌≡◌, ◌↔◌, Option, none, some, leb, ltb, if◌then◌else◌, ◌>>=◌, arith, true,
  [], ◌∷◌,
}
use pv_matter.Int.{ℤ, pos, negsuc, ◌-ℤ◌, checked_i64, i64_max, IsI64}
use pv_matter.Matter.Measurement.{electrical_energy_type, MeasurementAccuracy}
use pv_matter.Domain.Snapshot.{PvSnapshot}

-- `i64::try_from(secs).ok()` of a `u64`, and `u32::try_from(z).ok()`.
abbrev i64_of_u64 : ℕ → Option ℤ
i64_of_u64 n = if leb n i64_max then some (pos n) else none

abbrev to_u32 : ℤ → Option ℕ
to_u32 (pos n) = if ltb n (2 ^ 32) then some n else none
to_u32 (negsuc n) = none

unfoldable pub to_epoch_s : ℕ → ℤ → Option ℕ
unfolding checked_i64
to_epoch_s matter_epoch_secs unix_s = do
  epoch ← i64_of_u64 matter_epoch_secs
  since ← checked_i64 (unix_s -ℤ epoch)
  to_u32 since

abbrev pub energy_min_mwh : ℤ
energy_min_mwh = pos 0

abbrev pub energy_max_mwh : ℤ
energy_max_mwh = pos 1_000_000_000_000

abbrev pub energy_accuracy_mwh : ℕ
energy_accuracy_mwh = 1_000_000

-- The Accuracy attribute of the cluster.
unfoldable pub accuracy : MeasurementAccuracy
accuracy = record {
  measurement_type = electrical_energy_type;
  measured = true;
  min_measured_value = energy_min_mwh;
  max_measured_value = energy_max_mwh;
  accuracy_ranges =
      record {
        range_min = energy_min_mwh;
        range_max = energy_max_mwh;
        percent_max = none;
        percent_min = none;
        percent_typical = none;
        fixed_max = some energy_accuracy_mwh;
        fixed_min = none;
        fixed_typical = none;
      }
      ∷ [];
}

-- The fields that `write_energy_measurement` writes, in the order of the builder.
pub record EnergyMeasurement : Type 0 where
  pub energy : ℤ
  pub start_timestamp : Option ℕ
  pub end_timestamp : Option ℕ
  pub start_systime : Option ℕ
  pub end_systime : Option ℕ
  pub apparent_energy : Option ℤ
  pub reactive_energy : Option ℤ

unfoldable pub write_energy_measurement : ℕ → ℤ → Option ℤ → EnergyMeasurement
write_energy_measurement matter_epoch_secs energy_mwh end_unix_s = record {
  energy = energy_mwh;
  start_timestamp = none;
  end_timestamp = end_unix_s >>= to_epoch_s matter_epoch_secs;
  start_systime = none;
  end_systime = none;
  apparent_energy = none;
  reactive_energy = none;
}

energy_of : ℕ → Option ℤ → Option ℤ → Option EnergyMeasurement
energy_of matter_epoch_secs none end_ts = none
energy_of matter_epoch_secs (some mwh) end_ts =
    some (write_energy_measurement matter_epoch_secs mwh end_ts)

-- `cumulative_energy_exported`; `none` is the null that it writes without a total.
unfoldable pub cumulative_energy_exported : ℕ → PvSnapshot → Option EnergyMeasurement
unfolding energy_of write_energy_measurement
cumulative_energy_exported matter_epoch_secs s =
    energy_of matter_epoch_secs s.energy_total_mwh s.energy_end_ts

-- For an epoch and a time that are `i64`s: the time is reported exactly if it lies in the 2 ^ 32 seconds from
-- the Matter epoch on, and then it is the number of seconds since that epoch.
pub to_epoch_s_iff :
    (matter_epoch_secs t : ℕ) (unix_s : ℤ)
    → matter_epoch_secs ≤ i64_max
    → IsI64 unix_s
    → (to_epoch_s matter_epoch_secs unix_s ≡ some t)
      ↔ ((unix_s ≡ pos (matter_epoch_secs + t)) × (t < 2 ^ 32))
unfolding to_epoch_s
to_epoch_s_iff epoch t (pos n) h k = (ground arith, ground arith)
to_epoch_s_iff epoch t (negsuc n) h k = (ground arith, ground arith)
