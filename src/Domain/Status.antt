-- ===== src/Domain/Status.antt =====
-- The enums of src/domain.rs: their parsers, and the votes on the source status.
use pv_matter.Common.{ℕ, List, [], ◌∷◌, Option, none, some, leb, if◌then◌else◌}
use pv_matter.Text.{Text, codes, text_eq, trim}

pub data LinkStatus : Type 0 where
  unknown online asleep offline : LinkStatus

unfoldable pub LinkStatus-discrete : Discrete LinkStatus
LinkStatus-discrete = hlevel

pub data SourceStatus : Type 0 where
  unspecified active standby unavailable : SourceStatus

unfoldable pub SourceStatus-discrete : Discrete SourceStatus
SourceStatus-discrete = hlevel

pub data DeviceStatus : Type 0 where
  ok warning fault off unknown : DeviceStatus

pub data GridRelay : Type 0 where
  closed opened fault unknown : GridRelay

-- `LinkStatus::parse` behind the `trim`.
parse_trimmed : Text → Option LinkStatus
parse_trimmed s =
    if text_eq s (codes "online")
    then some online
    else if text_eq s (codes "asleep")
    then some asleep
    else if text_eq s (codes "offline")
    then some offline
    else none

unfoldable pub parse_link_status : Text → Option LinkStatus
unfolding parse_trimmed
parse_link_status payload = parse_trimmed (trim payload)

unfoldable pub parse_device_status : Text → Option DeviceStatus
parse_device_status vs =
    if text_eq vs (codes "ok")
    then some ok
    else if text_eq vs (codes "warning")
    then some warning
    else if text_eq vs (codes "fault")
    then some DeviceStatus.fault
    else if text_eq vs (codes "off")
    then some off
    else if text_eq vs (codes "unknown")
    then some DeviceStatus.unknown
    else none

unfoldable pub parse_grid_relay : Text → Option GridRelay
parse_grid_relay vs =
    if text_eq vs (codes "closed")
    then some closed
    else if text_eq vs (codes "open")
    then some opened
    else if text_eq vs (codes "fault")
    then some GridRelay.fault
    else if text_eq vs (codes "unknown")
    then some GridRelay.unknown
    else none

-- `DeviceStatus::source_vote`
unfoldable pub device_vote : DeviceStatus → Option SourceStatus
device_vote ok = some active
device_vote warning = some active
device_vote DeviceStatus.fault = some unavailable
device_vote off = some unavailable
device_vote DeviceStatus.unknown = none

-- `GridRelay::source_vote`
unfoldable pub relay_vote : GridRelay → Option SourceStatus
relay_vote closed = some active
relay_vote opened = some standby
relay_vote GridRelay.unknown = some standby
relay_vote GridRelay.fault = some unavailable

-- The derived `Ord`: the order of the declaration.
abbrev pub rank : SourceStatus → ℕ
rank unspecified = 0
rank active = 1
rank standby = 2
rank unavailable = 3

-- `Iterator::max` over the signals that are there.
abbrev pub max_status : SourceStatus → SourceStatus → SourceStatus
max_status a b = if leb (rank a) (rank b) then b else a

unfoldable pub max_signal : List (Option SourceStatus) → Option SourceStatus
max_signal [] = none
max_signal (none ∷ signals) = max_signal signals
max_signal (some a ∷ signals) =
    some (elim (max_signal signals) [ none ↦ a | some b ↦ max_status a b ])
