-- ===== src/Ingest/Loop.antt =====
-- What the event loop of the ingest task does over a run of events.
use pv_matter.Common.{ℕ, ◌≡◌, refl, true, List, [], ◌∷◌, ◌++◌, arith, All, map}
use pv_matter.Text.{Text}
use pv_matter.Text.Utf8.{from_utf8_lossy}
use pv_matter.Serde.{SerdeJson}
use pv_matter.Domain.{DomainMsg}
use pv_matter.Ingest.{
  Router, route, MqttEvent, conn_ack, publish, other, failed, Action, subscribe, send,
  wait_reconnect, turn, run_ingest,
}
use pv_matter.Ingest.Lock.{routed_messages}

-- The messages among the actions.
abbrev pub sent : List Action → List DomainMsg
sent [] = []
sent (send m ∷ actions) = m ∷ sent actions
sent (_ ∷ actions) = sent actions

abbrev pub published : List MqttEvent → List (Text × List ℕ)
published [] = []
published (publish topic payload alive ∷ events) =
    (from_utf8_lossy topic, payload) ∷ published events
published (_ ∷ events) = published events

abbrev pub IsAlive : MqttEvent → Type 0
IsAlive (publish topic payload alive) = alive ≡ true
IsAlive _ = Unit

sent-append : (xs ys : List Action) → sent (xs ++ ys) ≡ sent xs ++ sent ys
sent-append [] ys = refl
sent-append (subscribe f ∷ xs) ys = sent-append xs ys
sent-append (send m ∷ xs) ys = rw (sent-append xs ys)
sent-append (wait_reconnect ∷ xs) ys = sent-append xs ys

module _ (serde : SerdeJson) where
  -- While the receiver is there, the messages that enter the channel are exactly the routed ones, in
  -- the order of the publishes; connections, errors and other events in between lose none.
  pub sent-run_ingest :
      (r : Router) (events : List MqttEvent)
      → All IsAlive events
      → sent (run_ingest serde r events)
        ≡ map (λ e. e.1) (routed_messages serde r (published events))
  unfolding run_ingest routed_messages turn
  sent-run_ingest r [] h = refl
  sent-run_ingest r (conn_ack ∷ events) h = sent-run_ingest r events h.1
  sent-run_ingest r (publish topic payload alive ∷ events) h =
      let r' = (route serde r (from_utf8_lossy topic) payload).router in
      ground (arith, h.0, sent-run_ingest r' events h.1)
  sent-run_ingest r (other ∷ events) h = sent-run_ingest r events h.1
  sent-run_ingest r (failed ∷ events) h = sent-run_ingest r events h.1
