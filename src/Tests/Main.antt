-- ===== src/Tests/Main.antt =====
-- A run of the whole program: an identity, a status and a pack.
use pv_matter.Common.{◌≡◌, ◌≢◌, refl, List, [], ◌∷◌, none, some, true}
use pv_matter.Text.{codes, strip_prefix, split_once, contains, text_eq, trim, is_whitespace}
use pv_matter.Text.Utf8.{from_utf8_lossy}
use pv_matter.Int.{wrap_i64}
use pv_matter.Senml.{parse_pack}
use pv_matter.Senml.Decimal.{scale_decimal}
use pv_matter.Domain.Info.{parse_info}
use pv_matter.Domain.Status.{online, parse_link_status}
use pv_matter.Domain.{info, pack, status, default_state, apply, apply_all}
use pv_matter.Ingest.{
  Router, new_router, address, decode_leaf, route, MqttEvent, conn_ack, publish, failed, turn,
  run_ingest,
}
use pv_matter.Ingest.Loop.{sent}
use pv_matter.Matter.Bridge.{Wake, newest, run_bridge}
use pv_matter.Main.{Wait, message, bootstrap, Event, received, shutdown_signal, steady}
use pv_matter.Main.Pipeline.{messages, arrivals, bootstrap-steady-run_bridge}
use pv_matter.Tests.Fixtures.{serde, day_pack, inverter}

abbrev fresh : Router
fresh = new_router (codes "pv") none

abbrev morning : List MqttEvent
morning =
    conn_ack
    ∷ publish (codes "pv/a/info") (1 ∷ 2 ∷ 3 ∷ []) true
    ∷ failed
    ∷ publish (codes "pv/a/status") (codes "online") true
    ∷ publish (codes "pv/b/status") (codes "offline") true
    ∷ publish (codes "pv/a/instantaneous") (1 ∷ []) true
    ∷ []

abbrev waits : List Wait
waits = message (info inverter) ∷ message (status online) ∷ message (pack day_pack) ∷ []

abbrev events : List Event
events =
    received (some (status online)) true
    ∷ received none true
    ∷ received (some (pack day_pack)) true
    ∷ shutdown_signal
    ∷ []

abbrev wakes : List Wake
wakes =
    record {
      first = (apply_all default_state (info inverter ∷ status online ∷ [])).snapshot;
      received_at = 1;
      queued =
          (apply_all default_state (info inverter ∷ status online ∷ pack day_pack ∷ [])).snapshot
          ∷ [];
      notified_at = 1;
      reported_at = 2;
    }
    ∷ []

waits_delivered : messages waits ≡ sent (run_ingest serde fresh morning)
unfolding run_ingest turn route address strip_prefix new_router split_once contains decode_leaf
    text_eq parse_pack parse_info scale_decimal trim is_whitespace from_utf8_lossy parse_link_status
    wrap_i64
waits_delivered = refl

events_taken : arrivals events ≡ messages (bootstrap default_state waits).rest
unfolding bootstrap apply
events_taken = refl

not_failed : (steady (bootstrap default_state waits).state events).fatal ≢ some true
unfolding bootstrap apply steady
not_failed e = cc

snapshots_taken :
    pv_matter.Matter.Bridge.Run.received wakes
    ≡ (steady (bootstrap default_state waits).state events).sent
unfolding bootstrap apply apply_all steady
snapshots_taken = refl

bootstrap-steady-run_bridge_example :
    (run_bridge 946_684_800 (bootstrap default_state waits).state.snapshot wakes).0.shared
    ≡ (apply_all default_state (messages waits)).snapshot
bootstrap-steady-run_bridge_example =
    bootstrap-steady-run_bridge 946_684_800 waits events wakes events_taken not_failed
      snapshots_taken
