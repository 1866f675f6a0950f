-- ===== src/Tests/Source/Matter.antt =====
-- The tests of src/matter/eem.rs and src/matter/epm.rs.
use pv_matter.Common.{ℕ, ◌≡◌, refl, none, some, Option, List, [], ◌∷◌, length, ite}
use pv_matter.Int.{pos, negsuc, neg, ◌-ℤ◌, ◌+ℤ◌, i64_max, wrap_i64, div_trunc}
use pv_matter.Matter.Eem.{to_epoch_s}
use pv_matter.Matter.Measurement.{
  MeasurementType, MeasurementType-discrete, active_power_type, voltage_type, active_current_type,
}
use pv_matter.Matter.Epm.{
  AccuracyEntry, accuracy_entries, active_power_current_min, voltage_min_mv,
  default_active_power_min_mw, default_active_current_min_ma,
}

-- 2000-01-01 in unix seconds.
abbrev matter_epoch_secs : ℕ
matter_epoch_secs = 946_684_800

abbrev RebasesUnixSecondsOntoTheMatterEpoch : Type 0
RebasesUnixSecondsOntoTheMatterEpoch =
    (to_epoch_s matter_epoch_secs (pos matter_epoch_secs) ≡ some 0)
    × (to_epoch_s matter_epoch_secs (pos 1_751_624_990) ≡ some 804_940_190)

rebases_unix_seconds_onto_the_matter_epoch : RebasesUnixSecondsOntoTheMatterEpoch
unfolding to_epoch_s
rebases_unix_seconds_onto_the_matter_epoch = (refl, refl)

abbrev UnrepresentableInstantsAreDroppedNotWrapped : Type 0
UnrepresentableInstantsAreDroppedNotWrapped =
    (to_epoch_s matter_epoch_secs (pos matter_epoch_secs -ℤ pos 1) ≡ none)
    × (to_epoch_s matter_epoch_secs (pos 0) ≡ none)
    × (to_epoch_s matter_epoch_secs (pos matter_epoch_secs +ℤ pos 4_294_967_295 +ℤ pos 1) ≡ none)
    × (to_epoch_s matter_epoch_secs (negsuc i64_max) ≡ none)

unrepresentable_instants_are_dropped_not_wrapped : UnrepresentableInstantsAreDroppedNotWrapped
unfolding to_epoch_s
unrepresentable_instants_are_dropped_not_wrapped = (refl, refl, refl, refl)

abbrev find_entry : List AccuracyEntry → MeasurementType → Option AccuracyEntry
find_entry [] ty = none
find_entry (e ∷ entries) ty =
    ite (MeasurementType-discrete e.measurement_type ty) (some e) (find_entry entries ty)

-- `entry(&entries, ty)`, and what is asserted of it.
abbrev Entry : List AccuracyEntry → MeasurementType → (AccuracyEntry → Type 0) → Type 0
Entry entries ty P = (e : AccuracyEntry) × (find_entry entries ty ≡ some e) × P e

abbrev rated : List AccuracyEntry
rated = accuracy_entries (some (pos 5_000))

abbrev RatingSizesPowerAndCurrentBounds : Type 0
RatingSizesPowerAndCurrentBounds =
    Entry rated active_power_type (λ e. e.min ≡ neg (pos 5_500_000))
    × Entry rated active_current_type (λ e. e.min ≡ neg (pos 29_729))

rating_sizes_power_and_current_bounds : RatingSizesPowerAndCurrentBounds
unfolding MeasurementType-discrete accuracy_entries active_power_current_min wrap_i64 div_trunc
rating_sizes_power_and_current_bounds = ((_, refl, refl), (_, refl, refl))

abbrev VoltageBracketsMainsAndCurrentUsesTheLowEnd : Type 0
VoltageBracketsMainsAndCurrentUsesTheLowEnd = Entry rated voltage_type λ voltage.
    (voltage.min ≡ pos 185_000) × (voltage.max ≡ pos 275_000) × (voltage.min ≡ voltage_min_mv)

voltage_brackets_mains_and_current_uses_the_low_end : VoltageBracketsMainsAndCurrentUsesTheLowEnd
unfolding MeasurementType-discrete accuracy_entries active_power_current_min
voltage_brackets_mains_and_current_uses_the_low_end = (_, refl, (refl, refl, refl))

abbrev MissingRatingFallsBackToDefaults : Type 0
MissingRatingFallsBackToDefaults =
    Entry (accuracy_entries none) active_power_type (λ e. e.min ≡ default_active_power_min_mw)
    × Entry (accuracy_entries none) active_current_type (λ e. e.min ≡ default_active_current_min_ma)

missing_rating_falls_back_to_defaults : MissingRatingFallsBackToDefaults
unfolding MeasurementType-discrete accuracy_entries active_power_current_min
missing_rating_falls_back_to_defaults = ((_, refl, refl), (_, refl, refl))

abbrev EveryMeasurementTypeIsExportOrBracketed : Type 0
EveryMeasurementTypeIsExportOrBracketed =
    (length rated ≡ 4)
    × Entry rated active_power_type (λ e. e.max ≡ pos 0)
    × Entry rated active_current_type (λ e. e.max ≡ pos 0)

every_measurement_type_is_export_or_bracketed : EveryMeasurementTypeIsExportOrBracketed
unfolding MeasurementType-discrete accuracy_entries active_power_current_min
every_measurement_type_is_export_or_bracketed = (refl, (_, refl, refl), (_, refl, refl))
