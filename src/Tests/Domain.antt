-- ===== src/Tests/Domain.antt =====
-- Runs of the fold over the messages.
use pv_matter.Common.{arith, ◌≡◌, ◌↔◌, ◌≤◌, refl, ◌⊎◌, List, [], ◌∷◌, ◌++◌, none, some}
use pv_matter.Domain.{DomainMsg, info, pack, status, default_state, apply, apply_all}
use pv_matter.Domain.Status.{
  LinkStatus, LinkStatus-discrete, online, asleep, SourceStatus, active, warning, opened, rank,
}
use pv_matter.Domain.Snapshot.{PvSnapshot, apply_pack, set_status, enforce_link_mask, source_status}
use pv_matter.Domain.Readings.{IsReadFrom}
use pv_matter.Domain.Severity.{Votes, source_status-IsMax}
use pv_matter.Domain.Trace.{trace_of, last_info, trace_of-eq_iff}
use pv_matter.Domain.Order.{measurements}
use pv_matter.Domain.History.{
  Remembers, apply_all-Remembers, IsBlank, live_readings, readings-IsBlank,
}
use pv_matter.Tests.Fixtures.{inverter, day_pack, producing}

abbrev sunrise : List DomainMsg
sunrise = info inverter ∷ status online ∷ []

abbrev day : List DomainMsg
day = info inverter ∷ status online ∷ pack day_pack ∷ []

abbrev night : List DomainMsg
night = info inverter ∷ status online ∷ pack day_pack ∷ status asleep ∷ []

online_at_sunrise : (apply_all default_state sunrise).snapshot.link ≡ online
unfolding apply_all apply set_status enforce_link_mask LinkStatus-discrete
online_at_sunrise = refl

asleep_at_night : (apply_all default_state night).snapshot.link ≡ asleep
unfolding apply_all apply set_status enforce_link_mask apply_pack LinkStatus-discrete
asleep_at_night = refl

apply_all-Remembers_example : Remembers night default_state (apply_all default_state night)
apply_all-Remembers_example = apply_all-Remembers default_state night

live_readings_example :
    IsReadFrom day_pack
      (apply_all default_state (sunrise ++ pack day_pack ∷ info inverter ∷ [])).snapshot
live_readings_example =
    live_readings sunrise (info inverter ∷ []) day_pack online_at_sunrise (tt, tt)

abbrev alarmed : PvSnapshot
alarmed = record producing { device_status = some warning; grid_relay = some opened }

source_status-IsMax_example :
    ((v : SourceStatus) → Votes alarmed v → rank v ≤ rank (source_status alarmed))
    × (rank active ≤ rank (source_status alarmed))
    × (Votes alarmed (source_status alarmed) ⊎ (source_status alarmed ≡ active))
source_status-IsMax_example = source_status-IsMax alarmed refl

-- The identity comes last.
abbrev late : List DomainMsg
late = status online ∷ pack day_pack ∷ info inverter ∷ []

trace_of-eq_iff_example :
    ((trace_of day ≡ trace_of late)
      ↔ ((last_info none day ≡ last_info none late) × (measurements day ≡ measurements late)))
    × (trace_of day ≡ trace_of late → apply_all default_state day ≡ apply_all default_state late)
trace_of-eq_iff_example = trace_of-eq_iff default_state day late

-- The retained messages of an inverter that is online, in the order of the subscriptions.
abbrev replayed : List DomainMsg
replayed = info inverter ∷ pack day_pack ∷ []

unknown_at_start : (apply_all default_state replayed).snapshot.link ≡ LinkStatus.unknown
unfolding apply_all apply apply_pack enforce_link_mask LinkStatus-discrete
unknown_at_start = refl

readings-IsBlank_example :
    IsBlank (apply_all default_state (replayed ++ status online ∷ [])).snapshot
readings-IsBlank_example =
    readings-IsBlank replayed (status online ∷ []) (λ e. ground (arith, unknown_at_start, e))
      (tt, tt)
