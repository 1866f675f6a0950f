-- ===== src/Tests/Matter.antt =====
-- Runs of the attribute reads and of the bridge.
use pv_matter.Common.{ℕ, ◌≡◌, refl, [], ◌∷◌, map_opt}
use pv_matter.Int.{neg}
use pv_matter.Domain.{pack, status, default_state, apply_all}
use pv_matter.Domain.Status.{online}
use pv_matter.Domain.Snapshot.{PvSnapshot}
use pv_matter.Matter.Epm.{active_power, active_current}
use pv_matter.Matter.Epm.Envelope.{sign_flip_exact}
use pv_matter.Matter.Bridge.{Attribute, Bridge, start_bridge, iterate, run_bridge}
use pv_matter.Matter.Bridge.Changes.{times_notified}
use pv_matter.Matter.Bridge.Run.{changes, coalesced, run_bridge-changes}
use pv_matter.Matter.Node.{
  ClusterId-discrete, descriptor, power_source, system, Endpoint, dm_handler,
}
use pv_matter.Matter.Node.Agreement.{served}
use pv_matter.Tests.Fixtures.{day_pack, awake, producing, first_wake, two_wakes}

-- The seconds from the Unix epoch to that of Matter, 2000-01-01.
abbrev epoch : ℕ
epoch = 946_684_800

abbrev day : PvSnapshot
day = (apply_all default_state (status online ∷ pack day_pack ∷ [])).snapshot

sign_flip_exact_example :
    (active_power day ≡ map_opt neg day.power_mw)
    × (active_current day ≡ map_opt neg day.current_ma)
sign_flip_exact_example = sign_flip_exact (status online ∷ pack day_pack ∷ [])

run_bridge-changes_example :
    times_notified Attribute.active_power (run_bridge epoch awake two_wakes).1
    ≡ changes Attribute.active_power awake (coalesced two_wakes)
run_bridge-changes_example = run_bridge-changes epoch Attribute.active_power awake two_wakes

abbrev after_first : Bridge
after_first = (iterate epoch (start_bridge producing) first_wake).0

abbrev root_endpoint : Endpoint
root_endpoint = record {
  id = 0;
  device_type = record { dtype = 22; drev = 3 };
  clusters = descriptor ∷ system 31 ∷ [];
}

power_source_served : served 2 power_source dm_handler ≡ 1
unfolding served dm_handler ClusterId-discrete
power_source_served = refl
