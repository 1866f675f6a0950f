-- ===== src/Tests/Ingest.antt =====
-- Runs of the topic router and of the event loop.
use pv_matter.Common.{◌≡◌, ◌↔◌, refl, [], ◌∷◌, none, some, arith}
use pv_matter.Text.{Text, codes, strip_prefix, split_once, contains, text_eq, trim, is_whitespace}
use pv_matter.Senml.{parse_pack}
use pv_matter.Senml.Decimal.{scale_decimal}
use pv_matter.Domain.{pack}
use pv_matter.Ingest.{Router, new_router, address, decode_leaf, route}
use pv_matter.Ingest.Address.{IsTopic}
use pv_matter.Ingest.Origin.{IsFrom, route-eq-some_iff}
use pv_matter.Ingest.Lock.{Publishes, IsFromOneDevice, one_device}
use pv_matter.Tests.Fixtures.{serde, day_pack}

abbrev prefix : Text
prefix = codes "pv"

abbrev topic : Text
topic = codes "pv/a/instantaneous"

abbrev free : Router
free = new_router prefix none

topic-IsTopic : IsTopic prefix topic (codes "a") (codes "instantaneous")
topic-IsTopic = record {
  spelled = refl;
  named = refl;
  device_level = omega arith;
  leaf_level = omega arith;
}

pack_routed : (route serde free topic (1 ∷ [])).message ≡ some (pack day_pack)
unfolding route address strip_prefix new_router split_once contains decode_leaf text_eq parse_pack
    scale_decimal trim is_whitespace
pack_routed = refl

route-eq-some_iff_example :
    ((route serde free topic (1 ∷ [])).message ≡ some (pack day_pack))
    ↔ IsFrom serde free topic (1 ∷ []) (pack day_pack) (route serde free topic (1 ∷ [])).router
route-eq-some_iff_example = route-eq-some_iff serde free topic (1 ∷ []) (pack day_pack)

abbrev held : Router
held = new_router prefix (some (codes "b"))

abbrev two_devices : Publishes
two_devices =
    (topic, 1 ∷ [])
    ∷ (codes "pv/b/info", 1 ∷ 2 ∷ 3 ∷ [])
    ∷ (codes "pv/a/status", codes "online")
    ∷ (codes "pv/b/status", codes "online")
    ∷ []

one_device_example : IsFromOneDevice serde prefix none two_devices
one_device_example = one_device serde prefix none two_devices
