-- ===== src/Domain/Severity.antt =====
-- `source_status`: the most severe of the signals that vote.
use pv_matter.Common.{◌≤◌, ◌≡◌, ◌↔◌, ◌⊎◌, none, some, arith, ◌>>=◌}
use pv_matter.Domain.Status.{
  LinkStatus, online, asleep, offline, SourceStatus, unspecified, active, standby, unavailable,
  DeviceStatus, ok, warning, fault, off, GridRelay, opened, device_vote, relay_vote, rank,
}
use pv_matter.Domain.Snapshot.{PvSnapshot, source_status}

-- A signal that votes while the link is online.
abbrev pub Votes : PvSnapshot → SourceStatus → Type 0
Votes s v = ((s.device_status >>= device_vote) ≡ some v) ⊎ ((s.grid_relay >>= relay_vote) ≡ some v)

-- While online the status is the least severe one that is at least `Active` and as severe as every
-- vote: an upper bound of the votes and of `Active`, and itself a vote or `Active`.
pub source_status-IsMax :
    (s : PvSnapshot)
    → s.link ≡ online
    → ((v : SourceStatus) → Votes s v → rank v ≤ rank (source_status s))
      × (rank active ≤ rank (source_status s))
      × (Votes s (source_status s) ⊎ (source_status s ≡ active))
unfolding source_status
source_status-IsMax s h = (λ v p. ground arith, ground arith, ground arith)

-- When each status other than `Active` is reported, by the link and the two signals.
abbrev pub StatusTable : PvSnapshot → Type 0
StatusTable s =
    ((source_status s ≡ unspecified) ↔ (s.link ≡ LinkStatus.unknown))
    × ((source_status s ≡ unavailable) ↔ (
        (s.link ≡ offline)
        ⊎ ((s.link ≡ online)
            × ((s.device_status ≡ some fault)
                ⊎ (s.device_status ≡ some off)
                ⊎ (s.grid_relay ≡ some GridRelay.fault)))))
    × ((source_status s ≡ standby) ↔ (
        (s.link ≡ asleep)
        ⊎ ((s.link ≡ online)
            × ((s.device_status ≡ none)
                ⊎ (s.device_status ≡ some ok)
                ⊎ (s.device_status ≡ some warning)
                ⊎ (s.device_status ≡ some DeviceStatus.unknown))
            × ((s.grid_relay ≡ some opened) ⊎ (s.grid_relay ≡ some GridRelay.unknown)))))

-- `Unspecified` is reported exactly for an unknown link; `Unavailable` exactly if the link is offline,
-- or online with a fault or an off of the device or a fault of the relay; `Standby` exactly if the link is
-- asleep, or online with an open or unknown relay and no such fault or off.
pub source_status-StatusTable : (s : PvSnapshot) → StatusTable s
unfolding source_status
source_status-StatusTable s = (ground arith, ground arith, ground arith)
