-- ===== src/System.antt =====
-- The running program as a whole: src/ingest.rs, src/main.rs and src/matter/bridge.rs joined by the two
-- bounded channels of src/main.rs. Each task stands at one of its awaits, and a `Step` is what one of them
-- does from there to its next await; any order of the steps is a run. The channels stay open, so the ends of
-- the loops are not here; Lifecycle has them. `published` and `taken` only record the past, and no step reads
-- them.
pub mod Messages
pub mod Shown
pub mod Truth
pub mod Progress
pub mod Settled
pub mod Bounded
pub mod Redelivered
pub mod Traces
pub mod Onward
pub mod Monotone
pub mod Sequential
pub mod Tasks
pub mod Subscribed
use pv_matter.Common.{ℕ, ◌+◌, ◌<◌, ◌≡◌, List, [], ◌∷◌, ◌++◌, Option, none, some, length}
use pv_matter.Text.{Text}
use pv_matter.Text.Utf8.{from_utf8_lossy}
use pv_matter.Serde.{SerdeJson}
use pv_matter.Domain.{DomainMsg, State, default_state, apply}
use pv_matter.Domain.Snapshot.{PvSnapshot, default_snapshot}
use pv_matter.Ingest.{Router, new_router, route}
use pv_matter.Ingest.Lock.{Publishes}
use pv_matter.Matter.Bridge.{Bridge, start_bridge, same_snapshot, settle}

abbrev pub msg_channel_capacity : ℕ
msg_channel_capacity = 64

-- The bound of the channel of the updates.
abbrev pub updates_capacity : ℕ
updates_capacity = 16

-- Whether the main task is in the bootstrap loop or in the steady loop.
pub data Phase : Type 0 where
  booting steady : Phase

-- Where the bridge stands: at `recv`, at the timer of the report floor, or at the draining `try_recv`.
pub data Holding : Type 0 where
  idle : Holding
  waiting : PvSnapshot → Holding
  draining : PvSnapshot → Holding

-- `sending` is the message that the ingest task holds at `tx.send(msg).await`, and `forwarding` the
-- snapshot that the main task holds at `updates_tx.send(…).await`. The head of a channel is its oldest.
pub record System : Type 0 where
  pub router : Router
  pub sending : Option DomainMsg
  pub inbox : List DomainMsg
  pub phase : Phase
  pub state : State
  pub forwarding : Option PvSnapshot
  pub updates : List PvSnapshot
  pub holding : Holding
  pub bridge : Bridge
  pub published : Publishes
  pub taken : List DomainMsg

-- The program at its start; the bridge is started by `boot`.
unfoldable pub initial : Text → Option Text → System
initial prefix pinned_device = record {
  router = new_router prefix pinned_device;
  sending = none;
  inbox = [];
  phase = booting;
  state = default_state;
  forwarding = none;
  updates = [];
  holding = idle;
  bridge = start_bridge default_snapshot;
  published = [];
  taken = [];
}

-- What a publish leaves that comes in while the ingest task polls.
abbrev pub polled : SerdeJson → System → List ℕ → List ℕ → System
polled serde s topic payload = record s {
  router = (route serde s.router (from_utf8_lossy topic) payload).router;
  sending = (route serde s.router (from_utf8_lossy topic) payload).message;
  published = s.published ++ (from_utf8_lossy topic, payload) ∷ [];
}

module _ (serde : SerdeJson) (matter_epoch_secs : ℕ) where
  -- The steps that need nothing from outside but the passing of time.
  pub data Internal : System → System → Type 0 where
    -- The message enters its channel as soon as there is room.
    send :
        (s : System) (m : DomainMsg)
        → s.sending ≡ some m
        → length s.inbox < msg_channel_capacity
        → Internal s (record s { sending = none; inbox = s.inbox ++ m ∷ [] })
    -- A turn of the bootstrap loop.
    boot_take :
        (s : System) (m : DomainMsg) (inbox : List DomainMsg)
        → s.phase ≡ booting
        → s.state.info ≡ none
        → s.inbox ≡ m ∷ inbox
        → Internal s
            (record s { inbox = inbox; state = apply s.state m; taken = s.taken ++ m ∷ [] })
    -- The end of the bootstrap, by the identity or by the deadline, and the start of the bridge.
    boot :
        (s : System)
        → s.phase ≡ booting
        → Internal s (record s { phase = steady; bridge = start_bridge s.state.snapshot })
    -- A turn of the steady loop, up to the send.
    take :
        (s : System) (m : DomainMsg) (inbox : List DomainMsg)
        → s.phase ≡ steady
        → s.forwarding ≡ none
        → s.inbox ≡ m ∷ inbox
        → Internal s (record s {
          inbox = inbox;
          state = apply s.state m;
          taken = s.taken ++ m ∷ [];
          forwarding = some (apply s.state m).snapshot;
        })
    -- The snapshot enters its channel as soon as there is room.
    forward :
        (s : System) (u : PvSnapshot)
        → s.forwarding ≡ some u
        → length s.updates < updates_capacity
        → Internal s (record s { forwarding = none; updates = s.updates ++ u ∷ [] })
    -- The bridge receives, waits out the floor, drains the channel, and settles.
    receive :
        (s : System) (u : PvSnapshot) (updates : List PvSnapshot)
        → s.phase ≡ steady
        → s.holding ≡ idle
        → s.updates ≡ u ∷ updates
        → Internal s (record s { holding = waiting u; updates = updates })
    floor_over :
        (s : System) (u : PvSnapshot)
        → s.holding ≡ waiting u
        → Internal s (record s { holding = draining u })
    drain :
        (s : System) (u newer : PvSnapshot) (updates : List PvSnapshot)
        → s.holding ≡ draining u
        → s.updates ≡ newer ∷ updates
        → Internal s (record s { holding = draining newer; updates = updates })
    report :
        (s : System) (u : PvSnapshot) (reported_at : ℕ)
        → s.holding ≡ draining u
        → s.updates ≡ []
        → Internal s (record s {
          holding = idle;
          bridge =
              (settle matter_epoch_secs (same_snapshot u s.bridge.prev) s.bridge u reported_at).0;
        })

  -- A step of the program: a publish comes in while the ingest task polls, or an internal step.
  pub data Step : System → System → Type 0 where
    poll :
        (s : System) (topic payload : List ℕ)
        → s.sending ≡ none
        → Step s (polled serde s topic payload)
    internal : {s t : System} → Internal s t → Step s t

  -- The states that a run from the start comes to.
  pub data Reach (prefix : Text) (pinned_device : Option Text) : System → Type 0 where
    start : Reach prefix pinned_device (initial prefix pinned_device)
    next : {s t : System} → Reach prefix pinned_device s → Step s t → Reach prefix pinned_device t

  -- A run of internal steps.
  pub data Settles (s : System) : System → Type 0 where
    here : Settles s s
    then_step : {t u : System} → Settles s t → Internal t u → Settles s u
