-- ===== src/Tests/Source/Ingest.antt =====
-- The tests of src/ingest.rs.
use pv_matter.Common.{◌≡◌, refl, none, some}
use pv_matter.Text.{codes, strip_prefix, split_once, contains, text_eq, trim, is_whitespace}
use pv_matter.Text.Utf8.{from_utf8_lossy}
use pv_matter.Int.{wrap_i64}
use pv_matter.Senml.{Pack, parse_pack}
use pv_matter.Senml.Decimal.{scale_decimal}
use pv_matter.Domain.{info, pack, status}
use pv_matter.Domain.Status.{online, asleep, parse_link_status}
use pv_matter.Domain.Info.{InverterInfo, parse_info}
use pv_matter.Ingest.{Router, new_router, address, decode_leaf, route}
use pv_matter.Tests.Source.Payloads.{decoder, small_info, small_pack}

-- `router()`
abbrev router : Router
router = new_router (codes "pv-inverter") none

abbrev RoutesStatusAndLocksOntoFirstDevice : Type 0
RoutesStatusAndLocksOntoFirstDevice =
    let first =
      route decoder router (codes "pv-inverter/sma-sb5000tl-2130012345/status") (codes "online") in
    let other =
      route decoder first.router (codes "pv-inverter/sma-other-1/status") (codes "online") in
    let again =
      route decoder other.router (codes "pv-inverter/sma-sb5000tl-2130012345/status")
        (codes "asleep") in
    (first.message ≡ some (status online))
    × (other.message ≡ none)
    × (again.message ≡ some (status asleep))

routes_status_and_locks_onto_first_device : RoutesStatusAndLocksOntoFirstDevice
unfolding from_utf8_lossy route address strip_prefix new_router split_once contains decode_leaf
    text_eq parse_link_status trim is_whitespace
routes_status_and_locks_onto_first_device = (refl, refl, refl)

abbrev PinnedDeviceNeverLocksElsewhere : Type 0
PinnedDeviceNeverLocksElsewhere =
    let pinned = new_router (codes "pv-inverter") (some (codes "sma-x-9")) in
    let other = route decoder pinned (codes "pv-inverter/sma-other-1/status") (codes "online") in
    let own = route decoder other.router (codes "pv-inverter/sma-x-9/status") (codes "online") in
    (other.message ≡ none) × (own.message ≡ some (status online))

pinned_device_never_locks_elsewhere : PinnedDeviceNeverLocksElsewhere
unfolding from_utf8_lossy route address strip_prefix new_router split_once contains decode_leaf
    text_eq parse_link_status trim is_whitespace
pinned_device_never_locks_elsewhere = (refl, refl)

abbrev ForeignPrefixesAndShapesAreIgnored : Type 0
ForeignPrefixesAndShapesAreIgnored =
    let foreign = route decoder router (codes "other/sma-x-9/status") (codes "online") in
    let short = route decoder foreign.router (codes "pv-inverter/status") (codes "online") in
    let long =
      route decoder short.router (codes "pv-inverter/sma-x-9/status/extra") (codes "online") in
    let unknown = route decoder long.router (codes "pv-inverter/sma-x-9/unknown") (codes "x") in
    (foreign.message ≡ none)
    × (short.message ≡ none)
    × (long.message ≡ none)
    × (unknown.message ≡ none)

foreign_prefixes_and_shapes_are_ignored : ForeignPrefixesAndShapesAreIgnored
unfolding from_utf8_lossy route address strip_prefix new_router split_once contains decode_leaf
    text_eq parse_link_status trim is_whitespace
foreign_prefixes_and_shapes_are_ignored = (refl, refl, refl, refl)

abbrev RoutesInfoAndPackPayloads : Type 0
RoutesInfoAndPackPayloads =
    let informed = route decoder router (codes "pv-inverter/sma-x-9/info") small_info in
    let packed =
      route decoder informed.router (codes "pv-inverter/sma-x-9/instantaneous") small_pack in
    let corrupt = route decoder packed.router (codes "pv-inverter/sma-x-9/info") (codes "{") in
    let no_json =
      route decoder corrupt.router (codes "pv-inverter/sma-x-9/instantaneous") (codes "nope") in
    ((i : InverterInfo) × (informed.message ≡ some (info i)) × (i.serial ≡ some 42))
    × ((p : Pack) × (packed.message ≡ some (pack p)))
    × (corrupt.message ≡ none)
    × (no_json.message ≡ none)

routes_info_and_pack_payloads : RoutesInfoAndPackPayloads
unfolding from_utf8_lossy route address strip_prefix new_router split_once contains decode_leaf
    text_eq parse_link_status trim is_whitespace parse_info parse_pack scale_decimal wrap_i64
routes_info_and_pack_payloads = ((_, refl, refl), (_, refl), refl, refl)
