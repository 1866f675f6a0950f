-- ===== src/Ingest.antt =====
-- src/ingest.rs: the topic router with its device lock, and the loop over the events of the client.
-- The payload decoders of serde_json are a parameter; of the log lines, only the warning about a
-- second device is kept, since the router has a flag for it.
pub mod Address
pub mod Origin
pub mod Lock
pub mod Loop
pub mod Client
pub mod Subscribed
use pv_matter.Common.{
  ℕ, Bool, true, false, not, ◌||◌, List, [], ◌∷◌, ◌++◌, Option, none, some, Result, ok, err, ◌>>=◌,
  if◌then◌else◌,
}
use pv_matter.Text.{Text, codes, text_eq, is_empty, contains, strip_prefix, split_once}
use pv_matter.Text.Utf8.{from_utf8_lossy}
use pv_matter.Serde.{SerdeJson}
use pv_matter.Senml.{parse_pack}
use pv_matter.Domain.{DomainMsg, info, pack, status}
use pv_matter.Domain.Info.{parse_info}
use pv_matter.Domain.Status.{LinkStatus, parse_link_status}

pub record Router : Type 0 where
  pub prefix : Text
  pub device_id : Option Text
  pub warned_other_device : Bool

unfoldable pub new_router : Text → Option Text → Router
new_router prefix pinned_device = record {
  prefix = prefix;
  device_id = pinned_device;
  warned_other_device = false;
}

-- What `route` leaves: the router, the message, and whether it warned of a second device.
pub record Routed : Type 0 where
  pub router : Router
  pub message : Option DomainMsg
  pub warns : Bool

abbrev slash : Text
slash = codes "/"

abbrev pub check_levels : Text × Text → Option (Text × Text)
check_levels (device, leaf) =
    if is_empty device || contains b'/' leaf then none else some (device, leaf)

-- The device and the leaf of a topic.
unfoldable pub address : Text → Text → Option (Text × Text)
address prefix topic = do
  behind ← strip_prefix topic prefix
  rest ← strip_prefix behind slash
  levels ← split_once b'/' rest
  check_levels levels

abbrev ok_to : {A E : Type 0} → (A → DomainMsg) → Result A E → Option DomainMsg
ok_to f (ok a) = some (f a)
ok_to f (err e) = none

abbrev status_msg : Option LinkStatus → Option DomainMsg
status_msg none = none
status_msg (some l) = some (status l)

-- What `poll` returns; `alive` says whether the receiver of the channel is still there.
pub data MqttEvent : Type 0 where
  conn_ack : MqttEvent
  publish : (topic payload : List ℕ) (alive : Bool) → MqttEvent
  other : MqttEvent
  failed : MqttEvent

-- What the loop does: a subscription, a message into the channel, the delay after an error.
pub data Action : Type 0 where
  subscribe : Text → Action
  send : DomainMsg → Action
  wait_reconnect : Action

unfoldable pub topic_filter : Text → Text → Text
topic_filter prefix leaf = prefix ++ (codes "/+/" ++ leaf)

abbrev pub subscriptions : Text → List Action
subscriptions prefix =
    subscribe (topic_filter prefix (codes "info"))
    ∷ subscribe (topic_filter prefix (codes "instantaneous"))
    ∷ subscribe (topic_filter prefix (codes "status"))
    ∷ []

pub record Turn : Type 0 where
  pub router : Router
  pub actions : List Action
  pub stop : Bool

deliver : Option DomainMsg → Bool → Router → Turn
deliver none alive r = record { router = r; actions = []; stop = false }
deliver (some m) alive r = record { router = r; actions = send m ∷ []; stop = not alive }

module _ (serde : SerdeJson) where
  -- The `match leaf` at the end of `route`.
  unfoldable pub decode_leaf : Text → List ℕ → Option DomainMsg
  decode_leaf leaf payload =
      if text_eq leaf (codes "info")
      then ok_to info (parse_info serde payload)
      else if text_eq leaf (codes "instantaneous")
      then ok_to pack (parse_pack serde payload)
      else if text_eq leaf (codes "status")
      then status_msg (parse_link_status (from_utf8_lossy payload))
      else none

  -- The part of `route` behind the address, by the device that the router is locked onto.
  route_device : Option Text → Router → Text → Text → List ℕ → Routed
  route_device none r device leaf payload = record {
    router = record r { device_id = some device };
    message = decode_leaf leaf payload;
    warns = false;
  }
  route_device (some locked) r device leaf payload =
      if text_eq locked device
      then record { router = r; message = decode_leaf leaf payload; warns = false }
      else record {
        router = record r { warned_other_device = true };
        message = none;
        warns = not r.warned_other_device;
      }

  route_address : Option (Text × Text) → Router → List ℕ → Routed
  route_address none r payload = record { router = r; message = none; warns = false }
  route_address (some (device, leaf)) r payload = route_device r.device_id r device leaf payload

  unfoldable pub route : Router → Text → List ℕ → Routed
  unfolding route_device route_address
  route r topic payload = route_address (address r.prefix topic) r payload

  -- One turn of the loop of `run`.
  unfoldable pub turn : Router → MqttEvent → Turn
  unfolding deliver
  turn r conn_ack = record { router = r; actions = subscriptions r.prefix; stop = false }
  turn r (publish topic payload alive) =
      let routed = route r (from_utf8_lossy topic) payload in
      deliver routed.message alive routed.router
  turn r other = record { router = r; actions = []; stop = false }
  turn r failed = record { router = r; actions = wait_reconnect ∷ []; stop = false }

  unfoldable pub run_ingest : Router → List MqttEvent → List Action
  run_ingest r [] = []
  run_ingest r (e ∷ events) =
      let t = turn r e in
      let rest = run_ingest t.router events in t.actions ++ (if t.stop then [] else rest)
