-- ===== src/Matter/Bridge.antt =====
-- src/matter/bridge.rs: the loop that takes snapshots from the channel, coalesces them, waits out
-- the report floor, and notifies what changed. The channel, the timer and the clock are inputs: a
-- `Wake` says what `recv` and `try_recv` returned and when, in nanoseconds.
pub mod Changes
pub mod Sleeps
pub mod Run
pub mod Snoc
pub mod Subscriber
use pv_matter.Common.{
  ℕ, ◌+◌, ◌-◌, ◌^◌, Bool, true, false, not, List, [], ◌∷◌, ◌++◌, Option, none, some, ltb,
  if◌then◌else◌, ite,
}
use native.Mathlib.Decide.{ℕ_discrete}
use pv_matter.Int.{ℤ, ℤ-discrete}
use pv_matter.Domain.Status.{LinkStatus-discrete, SourceStatus-discrete, DeviceStatus, GridRelay}
use pv_matter.Domain.Snapshot.{PvSnapshot, source_status}
use pv_matter.Matter.Epm.{active_power_current_min}
use pv_matter.Matter.Eem.{EnergyMeasurement, write_energy_measurement}

-- The attributes that the bridge notifies. Each stands for the endpoint, cluster and attribute of
-- its `notify_attr_changed` call.
pub data Attribute : Type 0 where
  voltage active_current active_power frequency : Attribute
  cumulative_energy_exported status measured_value : Attribute

pub Attribute-discrete : Discrete Attribute
Attribute-discrete = hlevel

-- What one iteration does, in its order. The event carries its `energyExported` field.
pub data Effect : Type 0 where
  sleep : ℕ → Effect
  notify : Attribute → Effect
  cumulative_energy_measured : EnergyMeasurement → Effect
  log_accuracy_mins : ℤ × ℤ → Effect

unfoldable pub reading-discrete : Discrete (Option ℤ)
reading-discrete = hlevel ℤ-discrete

unfoldable pub DeviceStatus-discrete : Discrete DeviceStatus
DeviceStatus-discrete = hlevel

unfoldable pub GridRelay-discrete : Discrete GridRelay
GridRelay-discrete = hlevel

unfoldable pub PvSnapshot-discrete : Discrete PvSnapshot
PvSnapshot-discrete =
    hlevel (ℤ-discrete, LinkStatus-discrete, DeviceStatus-discrete, GridRelay-discrete)

abbrev pub one_if : Bool → Effect → List Effect
one_if true e = e ∷ []
one_if false e = []

-- `next.x != prev.x`
abbrev pub moved : Option ℤ → Option ℤ → Bool
moved a b = ite (reading-discrete a b) false true

abbrev pub moved_status : PvSnapshot → PvSnapshot → Bool
moved_status next prev =
    ite (SourceStatus-discrete (source_status next) (source_status prev)) false true

abbrev pub min_report_spacing : ℕ
min_report_spacing = 1_000_000_000

-- The variables of the loop, and the shared snapshot that the handlers read.
pub record Bridge : Type 0 where
  pub shared : PvSnapshot
  pub prev : PvSnapshot
  pub last_report : Option ℕ

-- What one iteration takes from outside: the received snapshot and when it came, the snapshots that
-- are queued when the wait is over, and the two readings of the clock behind the wait.
pub record Wake : Type 0 where
  pub first : PvSnapshot
  pub received_at : ℕ
  pub queued : List PvSnapshot
  pub notified_at : ℕ
  pub reported_at : ℕ

-- `while let Ok(newer) = updates.try_recv() { next = newer; }`
unfoldable pub newest : PvSnapshot → List PvSnapshot → PvSnapshot
newest next [] = next
newest next (newer ∷ queued) = newest newer queued

-- How long the iteration sleeps; `elapsed` is 0 if the clock stands before the last report.
unfoldable pub floor_wait : Option ℕ → ℕ → ℕ
floor_wait none now = 0
floor_wait (some last) now = min_report_spacing - (now - last)

abbrev pub sleep_effects : ℕ → List Effect
sleep_effects wait = one_if (ltb 0 wait) (sleep wait)

unfoldable pub same_snapshot : PvSnapshot → PvSnapshot → Bool
same_snapshot a b = ite (PvSnapshot-discrete a b) true false

unfoldable pub start_bridge : PvSnapshot → Bridge
start_bridge initial = record { shared = initial; prev = initial; last_report = none }

module _ (matter_epoch_secs : ℕ) where
  abbrev pub emit_energy : Option ℤ → Option ℤ → List Effect
  emit_energy none end_ts = []
  emit_energy (some mwh) end_ts =
      cumulative_energy_measured (write_energy_measurement matter_epoch_secs mwh end_ts) ∷ []

  abbrev pub energy_effects : Bool → PvSnapshot → List Effect
  energy_effects false next = []
  energy_effects true next =
      notify cumulative_energy_exported ∷ emit_energy next.energy_total_mwh next.energy_end_ts

  -- The comparisons of one iteration.
  unfoldable pub report_changes : PvSnapshot → PvSnapshot → List Effect
  report_changes prev next =
      one_if (moved next.voltage_mv prev.voltage_mv) (notify voltage)
      ++ (one_if (moved next.current_ma prev.current_ma) (notify active_current)
          ++ (one_if (moved next.power_mw prev.power_mw) (notify active_power)
              ++ (one_if (moved next.frequency_mhz prev.frequency_mhz) (notify frequency)
                  ++ (energy_effects (moved next.energy_total_mwh prev.energy_total_mwh) next
                      ++ (one_if (moved_status next prev) (notify status)
                          ++ (one_if (moved next.temperature_centi_c prev.temperature_centi_c)
                                (notify measured_value)
                              ++ one_if (moved next.max_power_w prev.max_power_w) (
                                  log_accuracy_mins
                                    (active_power_current_min next.max_power_w))))))))

  unfoldable pub settle : Bool → Bridge → PvSnapshot → ℕ → Bridge × List Effect
  settle true b next reported_at = (b, [])
  settle false b next reported_at = (
    record { shared = next; prev = next; last_report = some reported_at },
    report_changes b.prev next,
  )

  -- One iteration of the loop of `run_bridge`.
  unfoldable pub iterate : Bridge → Wake → Bridge × List Effect
  iterate b w =
      let next = newest w.first w.queued in
      let (b', effects) = settle (same_snapshot next b.prev) b next w.reported_at in
      (b', sleep_effects (floor_wait b.last_report w.received_at) ++ effects)

  unfoldable pub iterate_all : Bridge → List Wake → Bridge × List Effect
  iterate_all b [] = (b, [])
  iterate_all b (w ∷ wakes) =
      let (b', effects) = iterate b w in
      let (b'', later) = iterate_all b' wakes in (b'', effects ++ later)

  -- `run_bridge` over the wakes until the channel closes.
  unfoldable pub run_bridge : PvSnapshot → List Wake → Bridge × List Effect
  run_bridge initial wakes =
      let (b, effects) = iterate_all (start_bridge initial) wakes in
      (b, log_accuracy_mins (active_power_current_min initial.max_power_w) ∷ effects)
