-- ===== src/Matter/Epm/Rows.antt =====
-- The rows of the Accuracy attribute of the power measurement.
use pv_matter.Common.{
  ℕ, ◌+◌, ◌*◌, ◌^◌, ◌≤◌, ◌≡◌, ◌≢◌, refl, inl, List, [], ◌∷◌, Option, none, some, map, length, All,
  ite, arith,
}
use pv_matter.Int.{ℤ, pos, ◌≤ℤ◌}
use pv_matter.Domain.Snapshot.{PvSnapshot}
use pv_matter.Matter.Measurement.{
  MeasurementType, MeasurementType-discrete, electrical_energy_type, MeasurementAccuracy, IsSound,
}
use pv_matter.Matter.Epm.{
  AccuracyEntry, write_accuracy, accuracy_entries, accuracy_rows, number_of_measurement_types,
}
use pv_matter.Matter.Epm.Envelope.{accuracy_entries-AreIntervals}

abbrev pub rows_of : MeasurementType → List MeasurementAccuracy → ℕ
rows_of t [] = 0
rows_of t (a ∷ rows) = ite (MeasurementType-discrete a.measurement_type t) 1 0 + rows_of t rows

write_accuracy-IsSound : (e : AccuracyEntry) → e.min ≤ℤ e.max → IsSound (write_accuracy e)
unfolding write_accuracy
write_accuracy-IsSound e h = record {
  measured = refl;
  covered = (refl, (refl, (h, inl (λ q. cc, refl))));
}

All-IsSound :
    (es : List AccuracyEntry) → All (λ e. e.min ≤ℤ e.max) es → All IsSound (map write_accuracy es)
All-IsSound [] h = tt
All-IsSound (e ∷ es) h = (write_accuracy-IsSound e h.0, All-IsSound es h.1)

-- The rating is unknown, or a sum of `u32` ratings of at most 1900 lines.
abbrev pub IsRating : Option ℤ → Type 0
IsRating none = Unit
IsRating (some z) = (w : ℕ) × (z ≡ pos w) × (w ≤ 1_900 * 2 ^ 32)

entries-AreIntervals :
    (rating : Option ℤ)
    → IsRating rating
    → All (λ (e : AccuracyEntry). e.min ≤ℤ e.max) (accuracy_entries rating)
entries-AreIntervals none h = (accuracy_entries-AreIntervals 0 (omega arith)).1
entries-AreIntervals (some z) (w, e, h) = rw e (accuracy_entries-AreIntervals w h).0

rows-number : (s : PvSnapshot) → length (accuracy_rows s) ≡ number_of_measurement_types s
unfolding accuracy_rows accuracy_entries number_of_measurement_types
rows-number s = refl

rows-once :
    (s : PvSnapshot) (t : MeasurementType)
    → t ≢ electrical_energy_type
    → rows_of t (accuracy_rows s) ≡ 1
unfolding accuracy_rows accuracy_entries write_accuracy
rows-once s t h = ground arith

-- For a rating that is unknown or a sum of `u32` ratings of at most 1900 lines, the Accuracy attribute has as
-- many rows as `NumberOfMeasurementTypes` says, one for each of the four measured quantities, and each is a
-- measured interval that one range with one kind of claim covers.
pub accuracy_rows-IsSound :
    (s : PvSnapshot)
    → IsRating s.max_power_w
    → (length (accuracy_rows s) ≡ number_of_measurement_types s)
      × ((t : MeasurementType) → t ≢ electrical_energy_type → rows_of t (accuracy_rows s) ≡ 1)
      × All IsSound (accuracy_rows s)
accuracy_rows-IsSound s h = (
  rows-number s,
  rows-once s,
  unfold accuracy_rows in
      All-IsSound (accuracy_entries s.max_power_w) (entries-AreIntervals s.max_power_w h),
)
