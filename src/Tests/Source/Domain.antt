-- ===== src/Tests/Source/Domain.antt =====
-- The tests of src/domain.rs.
use pv_matter.Common.{◌≡◌, refl, none, some}
use pv_matter.Int.{pos, wrap_i64}
use pv_matter.Text.{codes, text_eq, split_once, trim, is_whitespace}
use pv_matter.Senml.{parse_pack}
use pv_matter.Senml.Decimal.{scale_decimal}
use pv_matter.Domain.Status.{
  LinkStatus-discrete, online, asleep, offline, unspecified, active, standby, unavailable,
  DeviceStatus, GridRelay, parse_link_status, parse_device_status, parse_grid_relay, device_vote,
  relay_vote, max_signal,
}
use pv_matter.Domain.Info.{parse_info, info_of_raw, sum_watts}
use pv_matter.Domain.Snapshot.{
  PvSnapshot, default_snapshot, apply_pack, set_status, source_status, online_status,
  enforce_link_mask, apply_records, apply_record, milli, centi_celsius, kind_of, milli_shift,
  scaled, text_value,
}
use pv_matter.Domain.{default_state, info, status, apply}
use pv_matter.Tests.Source.Payloads.{
  decoder, contract_pack, sparse_pack, odd_values, odd_units, sun_monkey_info, three_lines_info,
  one_line_info, Unwraps,
}

-- `online_with_pack()`, and what is asserted of it.
abbrev OnlineWithPack : (PvSnapshot → Type 0) → Type 0
OnlineWithPack P =
    Unwraps (parse_pack decoder contract_pack)
      λ pack. P (apply_pack (set_status default_snapshot online) pack)

abbrev MapsContractPackIntoMatterUnits : Type 0
MapsContractPackIntoMatterUnits = OnlineWithPack λ snap.
    (snap.power_mw ≡ some (pos 2_450_000))
    × (snap.voltage_mv ≡ some (pos 236_400))
    × (snap.current_ma ≡ some (pos 10_370))
    × (snap.frequency_mhz ≡ some (pos 49_980))
    × (snap.energy_total_mwh ≡ some (pos 41_784_321_000))
    × (snap.energy_end_ts ≡ some (pos 1_751_624_990))
    × (snap.temperature_centi_c ≡ some (pos 4_130))
    × (snap.device_status ≡ some DeviceStatus.ok)
    × (snap.grid_relay ≡ some GridRelay.closed)

maps_contract_pack_into_matter_units : MapsContractPackIntoMatterUnits
unfolding wrap_i64 parse_pack apply_pack set_status source_status online_status enforce_link_mask
    apply_records apply_record milli centi_celsius kind_of milli_shift scaled scale_decimal
    text_value parse_device_status parse_grid_relay device_vote relay_vote max_signal
    LinkStatus-discrete text_eq split_once trim is_whitespace
maps_contract_pack_into_matter_units =
    (_, refl, (refl, refl, refl, refl, refl, refl, refl, refl, refl))

abbrev AbsentInstantaneousReadingsBecomeNoneButEnergyIsRetained : Type 0
AbsentInstantaneousReadingsBecomeNoneButEnergyIsRetained = OnlineWithPack λ before.
    Unwraps (parse_pack decoder sparse_pack) λ sparse.
      let snap = apply_pack before sparse in
      (snap.power_mw ≡ some (pos 900_000))
      × (snap.voltage_mv ≡ none)
      × (snap.frequency_mhz ≡ none)
      × (snap.temperature_centi_c ≡ none)
      × (snap.energy_total_mwh ≡ some (pos 41_784_321_000))
      × (snap.energy_end_ts ≡ some (pos 1_751_624_990))

absent_instantaneous_readings_become_none_but_energy_is_retained :
    AbsentInstantaneousReadingsBecomeNoneButEnergyIsRetained
unfolding wrap_i64 parse_pack apply_pack set_status source_status online_status enforce_link_mask
    apply_records apply_record milli centi_celsius kind_of milli_shift scaled scale_decimal
    text_value parse_device_status parse_grid_relay device_vote relay_vote max_signal
    LinkStatus-discrete text_eq split_once trim is_whitespace
absent_instantaneous_readings_become_none_but_energy_is_retained =
    (_, refl, (_, refl, (refl, refl, refl, refl, refl, refl)))

abbrev AsleepBlanksInstantaneousButKeepsEnergy : Type 0
AsleepBlanksInstantaneousButKeepsEnergy = OnlineWithPack λ before.
    let snap = set_status before asleep in
    (snap.power_mw ≡ none)
    × (snap.voltage_mv ≡ none)
    × (snap.current_ma ≡ none)
    × (snap.frequency_mhz ≡ none)
    × (snap.temperature_centi_c ≡ none)
    × (snap.energy_total_mwh ≡ some (pos 41_784_321_000))
    × (source_status snap ≡ standby)

asleep_blanks_instantaneous_but_keeps_energy : AsleepBlanksInstantaneousButKeepsEnergy
unfolding wrap_i64 parse_pack apply_pack set_status source_status online_status enforce_link_mask
    apply_records apply_record milli centi_celsius kind_of milli_shift scaled scale_decimal
    text_value parse_device_status parse_grid_relay device_vote relay_vote max_signal
    LinkStatus-discrete text_eq split_once trim is_whitespace
asleep_blanks_instantaneous_but_keeps_energy = (_, refl, (refl, refl, refl, refl, refl, refl, refl))

abbrev RetainedPackReplayWhileAsleepStaysMasked : Type 0
RetainedPackReplayWhileAsleepStaysMasked = Unwraps (parse_pack decoder contract_pack) λ pack.
    let snap = apply_pack (set_status default_snapshot asleep) pack in
    (snap.power_mw ≡ none) × (snap.energy_total_mwh ≡ some (pos 41_784_321_000))

retained_pack_replay_while_asleep_stays_masked : RetainedPackReplayWhileAsleepStaysMasked
unfolding wrap_i64 parse_pack apply_pack set_status source_status online_status enforce_link_mask
    apply_records apply_record milli centi_celsius kind_of milli_shift scaled scale_decimal
    text_value parse_device_status parse_grid_relay device_vote relay_vote max_signal
    LinkStatus-discrete text_eq split_once trim is_whitespace
retained_pack_replay_while_asleep_stays_masked = (_, refl, (refl, refl))

abbrev SourceStatusTable : Type 0
SourceStatusTable =
    let up = set_status default_snapshot online in
    let open_relay = record up { grid_relay = some GridRelay.opened } in
    (source_status default_snapshot ≡ unspecified)
    × (source_status up ≡ active)
    × (source_status open_relay ≡ standby)
    × (source_status (set_status open_relay offline) ≡ unavailable)

source_status_table : SourceStatusTable
unfolding wrap_i64 parse_pack apply_pack set_status source_status online_status enforce_link_mask
    apply_records apply_record milli centi_celsius kind_of milli_shift scaled scale_decimal
    text_value parse_device_status parse_grid_relay device_vote relay_vote max_signal
    LinkStatus-discrete text_eq split_once trim is_whitespace
source_status_table = (refl, refl, refl, refl)

abbrev GridRelayMapsByStateWhileOnline : Type 0
GridRelayMapsByStateWhileOnline =
    let up = set_status default_snapshot online in
    (source_status (record up { grid_relay = some GridRelay.closed }) ≡ active)
    × (source_status (record up { grid_relay = some GridRelay.opened }) ≡ standby)
    × (source_status (record up { grid_relay = some GridRelay.unknown }) ≡ standby)
    × (source_status (record up { grid_relay = some GridRelay.fault }) ≡ unavailable)

grid_relay_maps_by_state_while_online : GridRelayMapsByStateWhileOnline
unfolding wrap_i64 parse_pack apply_pack set_status source_status online_status enforce_link_mask
    apply_records apply_record milli centi_celsius kind_of milli_shift scaled scale_decimal
    text_value parse_device_status parse_grid_relay device_vote relay_vote max_signal
    LinkStatus-discrete text_eq split_once trim is_whitespace
grid_relay_maps_by_state_while_online = (refl, refl, refl, refl)

abbrev DeviceStatusMapsByHealthWhileOnline : Type 0
DeviceStatusMapsByHealthWhileOnline =
    let up = set_status default_snapshot online in
    (source_status (record up { device_status = some DeviceStatus.ok }) ≡ active)
    × (source_status (record up { device_status = some DeviceStatus.warning }) ≡ active)
    × (source_status (record up { device_status = some DeviceStatus.unknown }) ≡ active)
    × (source_status (record up { device_status = some DeviceStatus.off }) ≡ unavailable)
    × (source_status (record up { device_status = some DeviceStatus.fault }) ≡ unavailable)

device_status_maps_by_health_while_online : DeviceStatusMapsByHealthWhileOnline
unfolding wrap_i64 parse_pack apply_pack set_status source_status online_status enforce_link_mask
    apply_records apply_record milli centi_celsius kind_of milli_shift scaled scale_decimal
    text_value parse_device_status parse_grid_relay device_vote relay_vote max_signal
    LinkStatus-discrete text_eq split_once trim is_whitespace
device_status_maps_by_health_while_online = (refl, refl, refl, refl, refl)

abbrev OnlineSignalsCombineBySeverity : Type 0
OnlineSignalsCombineBySeverity =
    let up = set_status default_snapshot online in
    (source_status
        (record up { device_status = some DeviceStatus.ok; grid_relay = some GridRelay.opened })
      ≡ standby)
    × (source_status (record up {
      device_status = some DeviceStatus.fault;
      grid_relay = some GridRelay.closed;
    })
        ≡ unavailable)

online_signals_combine_by_severity : OnlineSignalsCombineBySeverity
unfolding wrap_i64 parse_pack apply_pack set_status source_status online_status enforce_link_mask
    apply_records apply_record milli centi_celsius kind_of milli_shift scaled scale_decimal
    text_value parse_device_status parse_grid_relay device_vote relay_vote max_signal
    LinkStatus-discrete text_eq split_once trim is_whitespace
online_signals_combine_by_severity = (refl, refl)

abbrev DeviceStatusParsesContractValuesOnly : Type 0
DeviceStatusParsesContractValuesOnly = Unwraps (parse_pack decoder odd_values) λ odd.
    let snap = apply_pack (set_status default_snapshot online) odd in
    (snap.device_status ≡ none) × (snap.grid_relay ≡ none) × (source_status snap ≡ active)

device_status_parses_contract_values_only : DeviceStatusParsesContractValuesOnly
unfolding wrap_i64 parse_pack apply_pack set_status source_status online_status enforce_link_mask
    apply_records apply_record milli centi_celsius kind_of milli_shift scaled scale_decimal
    text_value parse_device_status parse_grid_relay device_vote relay_vote max_signal
    LinkStatus-discrete text_eq split_once trim is_whitespace
device_status_parses_contract_values_only = (_, refl, (refl, refl, refl))

abbrev UnexpectedUnitsAreSkippedNotMisscaled : Type 0
UnexpectedUnitsAreSkippedNotMisscaled = Unwraps (parse_pack decoder odd_units) λ odd.
    let snap = apply_pack (set_status default_snapshot online) odd in
    (snap.voltage_mv ≡ none) × (snap.power_mw ≡ some (pos 100_000))

unexpected_units_are_skipped_not_misscaled : UnexpectedUnitsAreSkippedNotMisscaled
unfolding wrap_i64 parse_pack apply_pack set_status source_status online_status enforce_link_mask
    apply_records apply_record milli centi_celsius kind_of milli_shift scaled scale_decimal
    text_value parse_device_status parse_grid_relay device_vote relay_vote max_signal
    LinkStatus-discrete text_eq split_once trim is_whitespace
unexpected_units_are_skipped_not_misscaled = (_, refl, (refl, refl))

abbrev ParsesInfoDocument : Type 0
ParsesInfoDocument = Unwraps (parse_info decoder sun_monkey_info) λ document.
    (document.serial ≡ some 2_130_012_345)
    × (document.name ≡ some (codes "SunMonkey"))
    × (document.device_model ≡ some (codes "SB5000TL-21"))
    × (document.lines ≡ some 1)
    × (document.strings ≡ some 2)
    × (document.max_power_w ≡ some (pos 5_000))

parses_info_document : ParsesInfoDocument
unfolding wrap_i64 parse_info info_of_raw sum_watts
parses_info_document = (_, refl, (refl, refl, refl, refl, refl, refl))

abbrev InfoNameplateRatingSumsPerLineRatings : Type 0
InfoNameplateRatingSumsPerLineRatings =
    Unwraps (parse_info decoder three_lines_info)
      λ document. (document.max_power_w ≡ some (pos 15_000))

info_nameplate_rating_sums_per_line_ratings : InfoNameplateRatingSumsPerLineRatings
unfolding wrap_i64 parse_info info_of_raw sum_watts
info_nameplate_rating_sums_per_line_ratings = (_, refl, refl)

abbrev InfoNameplateRatingReachesTheSnapshot : Type 0
InfoNameplateRatingReachesTheSnapshot = Unwraps (parse_info decoder one_line_info) λ document.
    let state = apply default_state (info document) in
    (state.snapshot.max_power_w ≡ some (pos 5_000))
    × ((apply state (status offline)).snapshot.max_power_w ≡ some (pos 5_000))

info_nameplate_rating_reaches_the_snapshot : InfoNameplateRatingReachesTheSnapshot
unfolding wrap_i64 parse_info info_of_raw sum_watts apply set_status enforce_link_mask
    LinkStatus-discrete
info_nameplate_rating_reaches_the_snapshot = (_, refl, (refl, refl))

abbrev StatusParsesContractValuesOnly : Type 0
StatusParsesContractValuesOnly =
    (parse_link_status (codes "online") ≡ some online)
    × (parse_link_status (codes "asleep\n") ≡ some asleep)
    × (parse_link_status (codes "offline") ≡ some offline)
    × (parse_link_status (codes "bogus") ≡ none)

status_parses_contract_values_only : StatusParsesContractValuesOnly
unfolding parse_link_status text_eq trim is_whitespace
status_parses_contract_values_only = (refl, refl, refl, refl)
