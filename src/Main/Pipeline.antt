-- ===== src/Main/Pipeline.antt =====
-- The whole way of the messages: from the bootstrap over the steady loop to what the handlers read.
use mathlib.Core.Path.{ap}
use pv_matter.Common.{
  ℕ, ◌≡◌, ◌≢◌, refl, ◌∙◌, true, false, List, [], ◌∷◌, Option, none, some, map, All,
}
use pv_matter.Domain.{DomainMsg, State, default_state, apply, apply_all}
use pv_matter.Domain.Info.{InverterInfo}
use pv_matter.Serde.{SerdeJson}
use pv_matter.Ingest.{Router, MqttEvent, run_ingest}
use pv_matter.Ingest.Lock.{routed_messages}
use pv_matter.Ingest.Loop.{IsAlive, sent, published, sent-run_ingest}
use pv_matter.Matter.Bridge.{Wake, newest, run_bridge}
use pv_matter.Matter.Bridge.Run.{run_bridge-newest}
use pv_matter.Main.{
  Wait, message, closed, timed_out, Booted, while_none, bootstrap, Event, shutdown_signal,
  matter_exited, ingest_ended, received, steady,
}

-- The messages among the waits.
abbrev pub messages : List Wait → List DomainMsg
messages [] = []
messages (message m ∷ waits) = m ∷ messages waits
messages (_ ∷ waits) = messages waits

-- The messages that the steady loop takes before it is left.
abbrev pub arrivals : List Event → List DomainMsg
arrivals [] = []
arrivals (received none alive ∷ events) = arrivals events
arrivals (received (some m) true ∷ events) = m ∷ arrivals events
arrivals (received (some m) false ∷ events) = m ∷ []
arrivals (_ ∷ events) = []

either_way :
    (P : Booted → Type 0) (o : Option InverterInfo) {again left : Booted}
    → P again
    → P left
    → P (while_none o again left)
either_way P none p q = p
either_way P (some i) p q = q

-- The fold of what is still to come, from a state of the bootstrap on.
abbrev resumed : Booted → State
resumed b = apply_all b.state (messages b.rest)

-- The bootstrap loses no message: what it folded and what is still to come are all the messages.
pub bootstrap-apply_all :
    (s : State) (waits : List Wait)
    → apply_all (bootstrap s waits).state (messages (bootstrap s waits).rest)
      ≡ apply_all s (messages waits)
unfolding bootstrap apply_all
bootstrap-apply_all s [] = refl
bootstrap-apply_all s (message m ∷ waits) =
    either_way (λ b. resumed b ≡ apply_all (apply s m) (messages waits)) s.info
      (bootstrap-apply_all (apply s m) waits) refl
bootstrap-apply_all s (closed ∷ waits) =
    either_way (λ b. resumed b ≡ apply_all s (messages waits)) s.info refl refl
bootstrap-apply_all s (timed_out ∷ waits) =
    either_way (λ b. resumed b ≡ apply_all s (messages waits)) s.info refl refl

-- The steady loop folds the messages that it takes, in their order.
pub steady-state :
    (s : State) (events : List Event) → (steady s events).state ≡ apply_all s (arrivals events)
unfolding steady apply_all
steady-state s [] = refl
steady-state s (shutdown_signal ∷ events) = refl
steady-state s (matter_exited ∷ events) = refl
steady-state s (ingest_ended ∷ events) = refl
steady-state s (received none alive ∷ events) = steady-state s events
steady-state s (received (some m) true ∷ events) = steady-state (apply s m) events
steady-state s (received (some m) false ∷ events) = refl

-- Unless it ends as fatal, the last snapshot that the steady loop sends is that of its state, and without
-- any the state still has the snapshot that it started with.
pub newest-steady :
    (s : State) (events : List Event)
    → (steady s events).fatal ≢ some true
    → newest s.snapshot (steady s events).sent ≡ (steady s events).state.snapshot
unfolding steady newest
newest-steady s [] h = refl
newest-steady s (shutdown_signal ∷ events) h = refl
newest-steady s (matter_exited ∷ events) h = refl
newest-steady s (ingest_ended ∷ events) h = refl
newest-steady s (received none alive ∷ events) h = newest-steady s events h
newest-steady s (received (some m) true ∷ events) h = newest-steady (apply s m) events h
newest-steady s (received (some m) false ∷ events) h = absurd (h refl)

-- If the steady loop takes the messages that the bootstrap left, does not fail, and the bridge has
-- taken all snapshots that it sent, then the handlers read the fold of all messages from the start on.
pub bootstrap-steady-run_bridge :
    (epoch : ℕ) (waits : List Wait) (events : List Event) (wakes : List Wake)
    → arrivals events ≡ messages (bootstrap default_state waits).rest
    → (steady (bootstrap default_state waits).state events).fatal ≢ some true
    → pv_matter.Matter.Bridge.Run.received wakes
      ≡ (steady (bootstrap default_state waits).state events).sent
    → (run_bridge epoch (bootstrap default_state waits).state.snapshot wakes).0.shared
      ≡ (apply_all default_state (messages waits)).snapshot
bootstrap-steady-run_bridge epoch waits events wakes took calm handed =
    let s = (bootstrap default_state waits).state in
    run_bridge-newest epoch s.snapshot wakes
    ∙ ap (newest s.snapshot) handed
    ∙ newest-steady s events calm
    ∙ ap (λ (t : State). t.snapshot)
        (steady-state s events ∙ ap (apply_all s) took ∙ bootstrap-apply_all default_state waits)

-- From the client to the handlers: if the receiver of the messages is there, every message sent is
-- taken by the bootstrap or the steady loop, that loop does not fail, and the bridge has taken all
-- snapshots, then the handlers read the fold of exactly the routed messages of all publishes.
pub run_ingest-run_bridge :
    (serde : SerdeJson) (r : Router) (mqtt : List MqttEvent) (epoch : ℕ) (waits : List Wait)
    (events : List Event) (wakes : List Wake)
    → All IsAlive mqtt
    → messages waits ≡ sent (run_ingest serde r mqtt)
    → arrivals events ≡ messages (bootstrap default_state waits).rest
    → (steady (bootstrap default_state waits).state events).fatal ≢ some true
    → pv_matter.Matter.Bridge.Run.received wakes
      ≡ (steady (bootstrap default_state waits).state events).sent
    → (run_bridge epoch (bootstrap default_state waits).state.snapshot wakes).0.shared
      ≡ (apply_all default_state
          (map (λ e. e.1) (routed_messages serde r (published mqtt)))).snapshot
run_ingest-run_bridge serde r mqtt epoch waits events wakes alive delivered took calm handed =
    bootstrap-steady-run_bridge epoch waits events wakes took calm handed
    ∙ ap (λ msgs. (apply_all default_state msgs).snapshot)
        (delivered ∙ sent-run_ingest serde r mqtt alive)
