-- ===== src/Matter/Bridge/Changes.antt =====
-- What one iteration of the bridge reports, by what moved in the snapshot.
use mathlib.Core.Logic.{if_pos, if_neg}
use mathlib.Core.Path.{ap}
use pv_matter.Common.{
  ℕ, ◌+◌, ◌≡◌, ◌≢◌, refl, Bool, true, false, List, [], ◌∷◌, ◌++◌, Option, none, some, ite, arith,
}
use pv_matter.Int.{ℤ}
use pv_matter.Domain.Status.{SourceStatus, SourceStatus-discrete}
use pv_matter.Domain.Snapshot.{PvSnapshot, source_status}
use pv_matter.Matter.Epm.{active_power_current_min}
use pv_matter.Matter.Eem.{EnergyMeasurement, cumulative_energy_exported}
use pv_matter.Matter.Bridge.{
  Attribute, voltage, active_current, active_power, frequency, status, measured_value,
  Attribute-discrete, Effect, sleep, notify, cumulative_energy_measured, log_accuracy_mins,
  report_changes, reading-discrete, moved, moved_status, one_if, energy_effects,
}

-- What the bridge compares for an attribute: one field, of the energy the total without its time, or the
-- status.
pub data Watched : Type 0 where
  reading : Option ℤ → Watched
  condition : SourceStatus → Watched

pub Watched-discrete : Discrete Watched
Watched-discrete = hlevel (reading-discrete, SourceStatus-discrete)

abbrev pub watched : Attribute → PvSnapshot → Watched
watched voltage s = reading s.voltage_mv
watched active_current s = reading s.current_ma
watched active_power s = reading s.power_mw
watched frequency s = reading s.frequency_mhz
watched Attribute.cumulative_energy_exported s = reading s.energy_total_mwh
watched status s = condition (source_status s)
watched measured_value s = reading s.temperature_centi_c

abbrev pub is_same : Attribute → Attribute → ℕ
is_same a b = ite (Attribute-discrete a b) 1 0

-- How often an attribute is notified, and the events, in a list of effects.
unfoldable pub times_notified : Attribute → List Effect → ℕ
times_notified a [] = 0
times_notified a (notify b ∷ effects) = is_same a b + times_notified a effects
times_notified a (_ ∷ effects) = times_notified a effects

unfoldable pub events : List Effect → List EnergyMeasurement
events [] = []
events (cumulative_energy_measured e ∷ effects) = e ∷ events effects
events (_ ∷ effects) = events effects

pub times_notified-append :
    (a : Attribute) (xs ys : List Effect)
    → times_notified a (xs ++ ys) ≡ times_notified a xs + times_notified a ys
unfolding times_notified
times_notified-append a [] ys = omega arith
times_notified-append a (sleep n ∷ xs) ys = times_notified-append a xs ys
times_notified-append a (notify b ∷ xs) ys = ground (arith, times_notified-append a xs ys)
times_notified-append a (cumulative_energy_measured e ∷ xs) ys = times_notified-append a xs ys
times_notified-append a (log_accuracy_mins m ∷ xs) ys = times_notified-append a xs ys

events-append : (xs ys : List Effect) → events (xs ++ ys) ≡ events xs ++ events ys
unfolding events
events-append [] ys = refl
events-append (sleep n ∷ xs) ys = events-append xs ys
events-append (notify b ∷ xs) ys = events-append xs ys
events-append (cumulative_energy_measured e ∷ xs) ys = ap (λ es. e ∷ es) (events-append xs ys)
events-append (log_accuracy_mins m ∷ xs) ys = events-append xs ys

events-notify :
    (a : Attribute) (b : Bool) (xs : List Effect) → events (one_if b (notify a) ++ xs) ≡ events xs
unfolding events
events-notify a true xs = refl
events-notify a false xs = refl

once_if : Bool → ℕ → ℕ
once_if true n = n
once_if false n = 0

times_notified-one_if :
    (a c : Attribute) (b : Bool) → times_notified a (one_if b (notify c)) ≡ once_if b (is_same a c)
unfolding times_notified once_if
times_notified-one_if a c true = ground arith
times_notified-one_if a c false = refl

times_notified-energy :
    (epoch : ℕ) (a : Attribute) (b : Bool) (next : PvSnapshot)
    → times_notified a (energy_effects epoch b next)
      ≡ once_if b (is_same a Attribute.cumulative_energy_exported)
unfolding times_notified once_if
times_notified-energy epoch a false next = refl
times_notified-energy epoch a true next = ground arith

times_notified-log :
    (a : Attribute) (b : Bool) (m : ℤ × ℤ) → times_notified a (one_if b (log_accuracy_mins m)) ≡ 0
unfolding times_notified
times_notified-log a true m = refl
times_notified-log a false m = refl

once_if-moved :
    (x y : Option ℤ) → once_if (moved x y) 1 ≡ ite (Watched-discrete (reading x) (reading y)) 0 1
unfolding once_if
once_if-moved x y = ground arith

condition_moved :
    (next prev : PvSnapshot)
    → once_if (moved_status next prev) 1
      ≡ ite (Watched-discrete (condition (source_status next)) (condition (source_status prev))) 0 1
unfolding once_if
condition_moved next prev = ground arith

-- The comparisons, added up at one attribute.
sum_at :
    (a : Attribute) (prev next : PvSnapshot)
    → once_if (moved next.voltage_mv prev.voltage_mv) (is_same a voltage)
        + (once_if (moved next.current_ma prev.current_ma) (is_same a active_current)
            + (once_if (moved next.power_mw prev.power_mw) (is_same a active_power)
                + (once_if (moved next.frequency_mhz prev.frequency_mhz) (is_same a frequency)
                    + (once_if
                          (moved next.energy_total_mwh prev.energy_total_mwh)
                          (is_same a Attribute.cumulative_energy_exported)
                        + (once_if (moved_status next prev) (is_same a status)
                            + (once_if
                                  (moved next.temperature_centi_c prev.temperature_centi_c)
                                  (is_same a measured_value)
                                + 0))))))
      ≡ ite (Watched-discrete (watched a next) (watched a prev)) 0 1
unfolding once_if
sum_at voltage prev next = ground (arith, once_if-moved next.voltage_mv prev.voltage_mv)
sum_at active_current prev next = ground (arith, once_if-moved next.current_ma prev.current_ma)
sum_at active_power prev next = ground (arith, once_if-moved next.power_mw prev.power_mw)
sum_at frequency prev next = ground (arith, once_if-moved next.frequency_mhz prev.frequency_mhz)
sum_at Attribute.cumulative_energy_exported prev next =
    ground (arith, once_if-moved next.energy_total_mwh prev.energy_total_mwh)
sum_at status prev next = ground (arith, condition_moved next prev)
sum_at measured_value prev next =
    ground (arith, once_if-moved next.temperature_centi_c prev.temperature_centi_c)

-- An iteration over a changed snapshot notifies an attribute once if what the bridge compares for it moved, and
-- not at all if it did not.
pub times_notified-report_changes :
    (epoch : ℕ) (a : Attribute) (prev next : PvSnapshot)
    → times_notified a (report_changes epoch prev next)
      ≡ ite (Watched-discrete (watched a next) (watched a prev)) 0 1
unfolding report_changes
times_notified-report_changes epoch a prev next =
    simp (times_notified-append, times_notified-one_if, times_notified-energy, times_notified-log)
      (sum_at a prev next)

abbrev pub to_list : {A : Type 0} → Option A → List A
to_list none = []
to_list (some a) = a ∷ []

-- The events of an iteration over a changed snapshot: one if the energy total moved and is known, whose
-- payload is what a read of `CumulativeEnergyExported` then returns; none if it did not move.
pub events-report_changes :
    (epoch : ℕ) (prev next : PvSnapshot)
    → events (report_changes epoch prev next)
      ≡ ite
          (reading-discrete next.energy_total_mwh prev.energy_total_mwh)
          []
          (to_list (cumulative_energy_exported epoch next))
unfolding report_changes events cumulative_energy_exported
events-report_changes epoch prev next = simp (events-notify, events-append) (ground arith)

moved_same : (x : Option ℤ) → moved x x ≡ false
moved_same x = if_pos (reading-discrete x x) refl false true

source_status_same :
    (s : PvSnapshot) (w : Option ℤ) → source_status (record s { max_power_w = w }) ≡ source_status s
unfolding source_status
source_status_same s w = ground arith

moved_status_same :
    (s : PvSnapshot) (w : Option ℤ) → moved_status (record s { max_power_w = w }) s ≡ false
moved_status_same s w = if_pos (SourceStatus-discrete _ _) (source_status_same s w) false true

-- If the nameplate rating alone moves, the bridge only logs the new accuracy minimums: it notifies no
-- attribute and emits no event, although a read of the Accuracy attribute follows the rating.
pub report_changes_of_rating :
    (epoch : ℕ) (s : PvSnapshot) (w : Option ℤ)
    → w ≢ s.max_power_w
    → report_changes epoch s (record s { max_power_w = w })
      ≡ log_accuracy_mins (active_power_current_min w) ∷ []
unfolding report_changes
report_changes_of_rating epoch s w h =
    simp (moved_same, moved_status_same)
      (ap (λ b. one_if b (log_accuracy_mins (active_power_current_min w)))
        (if_neg (reading-discrete w s.max_power_w) h false true))

source_status_unread :
    (s : PvSnapshot) (w t : Option ℤ)
    → source_status (record s { max_power_w = w; energy_end_ts = t }) ≡ source_status s
unfolding source_status
source_status_unread s w t = ground arith

moved_status_unread :
    (s : PvSnapshot) (w t : Option ℤ)
    → moved_status (record s { max_power_w = w; energy_end_ts = t }) s ≡ false
moved_status_unread s w t =
    if_pos (SourceStatus-discrete _ _) (source_status_unread s w t) false true

-- If only the nameplate rating and the time of the energy total move, the bridge notifies no attribute and
-- emits no event; it logs the new accuracy minimums if the rating did.
pub report_changes_unread :
    (epoch : ℕ) (s : PvSnapshot) (w t : Option ℤ)
    → report_changes epoch s (record s { max_power_w = w; energy_end_ts = t })
      ≡ one_if (moved w s.max_power_w) (log_accuracy_mins (active_power_current_min w))
unfolding report_changes
report_changes_unread epoch s w t = simp (moved_same, moved_status_unread)
