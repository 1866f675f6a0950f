-- ===== src/Matter/Measurement.antt =====
-- The accuracy structures that src/matter/epm.rs and src/matter/eem.rs write, field by field in the order of
-- rs-matter's builders.
use mathlib.Core.Logic.{◌⊎◌}
use pv_matter.Common.{ℕ, Bool, List, [], ◌∷◌, Option, none, ◌≡◌, ◌≢◌, true}
use pv_matter.Int.{ℤ, ◌≤ℤ◌}

pub data MeasurementType : Type 0 where
  active_power_type voltage_type active_current_type frequency_type : MeasurementType
  electrical_energy_type : MeasurementType

unfoldable pub MeasurementType-discrete : Discrete MeasurementType
MeasurementType-discrete = hlevel

pub record AccuracyRange : Type 0 where
  pub range_min : ℤ
  pub range_max : ℤ
  pub percent_max : Option ℕ
  pub percent_min : Option ℕ
  pub percent_typical : Option ℕ
  pub fixed_max : Option ℕ
  pub fixed_min : Option ℕ
  pub fixed_typical : Option ℕ

pub record MeasurementAccuracy : Type 0 where
  pub measurement_type : MeasurementType
  pub measured : Bool
  pub min_measured_value : ℤ
  pub max_measured_value : ℤ
  pub accuracy_ranges : List AccuracyRange

-- A claim of a range: a relative bound or a fixed one, and not both.
abbrev pub IsClaim : AccuracyRange → Type 0
IsClaim r =
    ((r.percent_max ≢ none) × (r.fixed_max ≡ none))
    ⊎ ((r.percent_max ≡ none) × (r.fixed_max ≢ none))

-- The ranges lie side by side from `low` to `high`, each an interval with a claim.
abbrev pub Cover : List AccuracyRange → ℤ → ℤ → Type 0
Cover [] low high = ⊥
Cover (r ∷ []) low high = (r.range_min ≡ low) × ((r.range_max ≡ high) × ((low ≤ℤ high) × IsClaim r))
Cover (r ∷ s ∷ ranges) low high =
    (r.range_min ≡ low) × ((low ≤ℤ r.range_max) × (IsClaim r × Cover (s ∷ ranges) r.range_max high))

-- The value is measured, and the ranges cover exactly what can be measured.
pub record IsSound (a : MeasurementAccuracy) : Type 0 where
  pub measured : a.measured ≡ true
  pub covered : Cover a.accuracy_ranges a.min_measured_value a.max_measured_value
