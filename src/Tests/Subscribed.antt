-- ===== src/Tests/Subscribed.antt =====
-- A subscriber that comes while a status is on its way.
use pv_matter.Common.{◌≡◌, refl, [], none}
use pv_matter.Domain.{default_state, apply_all}
use pv_matter.Ingest.{new_router}
use pv_matter.System.{System, initial, internal, receive, floor_over, report}
use pv_matter.System.Messages.{routed}
use pv_matter.System.Subscribed.{Watches, subscribe, watch, Watches-IsQuiet}
use pv_matter.Matter.Bridge.{Attribute}
use pv_matter.Matter.Bridge.Subscriber.{Reading, read_attribute, untimed}
use pv_matter.System.Progress.{IsQuiet}
use pv_matter.Tests.Fixtures.{serde}
use pv_matter.Tests.System.{epoch, prefix, held_up}

abbrev Watching : Type 0
Watching = (s : System) × (cache : Attribute → Reading) × Watches serde epoch prefix none s cache

-- The subscriber comes while the status is on its way.
abbrev subscribed : Watching
unfolding initial
subscribed = (_, _, subscribe held_up.1 refl)

abbrev watched : Watching
unfolding initial
watched = (
  _,
  _,
  watch
      (watch (watch subscribed.2 (internal (receive _ _ [] refl refl refl)))
        (internal (floor_over _ _ refl)))
      (internal (report _ _ 7 refl refl)),
)

watched-IsQuiet : IsQuiet watched.0
unfolding initial
watched-IsQuiet = record {
  sending = refl;
  inbox = refl;
  phase = refl;
  forwarding = refl;
  updates = refl;
  holding = refl;
}

Watches-IsQuiet_example :
    untimed (watched.1 Attribute.status)
    ≡ untimed (
        read_attribute epoch
          (apply_all default_state
            (routed serde (new_router prefix none) watched.0.published)).snapshot
          Attribute.status)
Watches-IsQuiet_example = Watches-IsQuiet watched.2 watched-IsQuiet Attribute.status
