-- ===== src/System/Tasks.antt =====
-- Every run of the whole program against runs of the functions of its single tasks: `run` of src/ingest.rs,
-- the loops of src/main.rs, and `run_bridge` of src/matter/bridge.rs.
use mathlib.Core.Path.{ap, sym}
use pv_matter.Common.{
  ℕ, ◌≡◌, ◌∙◌, refl, true, List, [], ◌∷◌, ◌++◌, Option, none, some, ◌⊎◌, inl, inr, map, append-nil,
  All, All-append,
}
use pv_matter.Text.{Text}
use pv_matter.Text.Utf8.{from_utf8_lossy}
use pv_matter.Serde.{SerdeJson}
use pv_matter.Domain.{DomainMsg, default_state, apply}
use pv_matter.Ingest.{
  Router, new_router, route, MqttEvent, publish, conn_ack, other, failed, run_ingest,
}
use pv_matter.Ingest.Lock.{Publishes, routed_messages, with_topic}
use pv_matter.Ingest.Loop.{IsAlive, published, sent, sent-run_ingest}
use pv_matter.Main.{standing, bootstrap}
use pv_matter.Main.Resume.{bootstrap_message}
use pv_matter.Matter.Bridge.{newest}
use pv_matter.System.Messages.{to_list, routed, Reach-IsConserved}
use pv_matter.System.Settled.{published-Internal}
use pv_matter.System.Shown.{Reach-IsShown, IsShown}
use pv_matter.System.Sequential.{
  IsBooting, IsRunning, boot-IsRunning, take-IsRunning, moved-IsRunning, drain-IsRunning,
  report-IsRunning,
}
use pv_matter.System.{
  waiting, draining, System, initial, Internal, send, boot_take, boot, take, forward, receive,
  floor_over, drain, report, Step, poll, internal, Reach, start, next,
}

module _ {serde : SerdeJson} {matter_epoch_secs : ℕ} where
  Internal-IsBooting :
      {s t : System}
      → Internal serde matter_epoch_secs s t
      → IsShown s
      → IsBooting s
      → IsBooting t ⊎ IsRunning matter_epoch_secs t
  Internal-IsBooting (send s m e room) shown b = inl (record { phase = b.phase; booted = b.booted })
  Internal-IsBooting (boot_take s m inbox p i e) shown b = inl (record {
    phase = p;
    booted =
        bootstrap_message default_state s.taken m (ap (λ r. r.state.info) b.booted ∙ i)
        ∙ ap (λ r. standing (apply r.state m)) b.booted;
  })
  Internal-IsBooting (boot s p) shown b = inr (boot-IsRunning matter_epoch_secs s shown b)
  Internal-IsBooting (take s m inbox p f e) shown b = let q = b.phase in absurd cc
  Internal-IsBooting (forward s u e room) shown b =
      let (i, n, f) = shown.before b.phase in absurd cc
  Internal-IsBooting (receive s u updates p i e) shown b = let q = b.phase in absurd cc
  Internal-IsBooting (floor_over s u e) shown b = let (i, n, f) = shown.before b.phase in absurd cc
  Internal-IsBooting (drain s u newer updates i e) shown b =
      let (j, n, f) = shown.before b.phase in absurd cc
  Internal-IsBooting (report s u at i e) shown b = let (j, n, f) = shown.before b.phase in absurd cc

  Internal-IsRunning :
      {s t : System}
      → Internal serde matter_epoch_secs s t
      → IsRunning matter_epoch_secs s
      → IsRunning matter_epoch_secs t
  unfolding newest
  Internal-IsRunning (send s m e room) r = record {
    waits = r.waits;
    events = r.events;
    wakes = r.wakes;
    in_hand = r.in_hand;
    phase = r.phase;
    taken = r.taken;
    over = r.over;
    none_left = r.none_left;
    calm = r.calm;
    folded = r.folded;
    sent = r.sent;
    last = r.last;
    holds = r.holds;
    bridge = r.bridge;
  }
  Internal-IsRunning (boot_take s m inbox p i e) r = let q = r.phase in absurd cc
  Internal-IsRunning (boot s p) r = let q = r.phase in absurd cc
  Internal-IsRunning (take s m inbox p f e) r = take-IsRunning matter_epoch_secs s m inbox f r
  Internal-IsRunning (forward s u e room) r = record {
    waits = r.waits;
    events = r.events;
    wakes = r.wakes;
    in_hand = r.in_hand;
    phase = r.phase;
    taken = r.taken;
    over = r.over;
    none_left = r.none_left;
    calm = r.calm;
    folded = r.folded;
    sent = rw append-nil (rw e at r.sent);
    last = tt;
    holds = r.holds;
    bridge = r.bridge;
  }
  Internal-IsRunning (receive s u updates p i e) r =
      let empty : r.in_hand ≡ [] = rw i at r.holds in
      moved-IsRunning matter_epoch_secs s (waiting u) (u ∷ []) updates r
        (ap (λ us. us ++ s.updates) empty ∙ e) refl
  Internal-IsRunning (floor_over s u e) r =
      let hand : r.in_hand ≡ u ∷ [] = rw e at r.holds in
      moved-IsRunning matter_epoch_secs s (draining u) r.in_hand s.updates r refl
        (u, [], hand, refl)
  Internal-IsRunning (drain s u newer updates i e) r =
      drain-IsRunning matter_epoch_secs s u newer updates i e r
  Internal-IsRunning (report s u at i e) r = report-IsRunning matter_epoch_secs s u at i r

  Step-tasks :
      {s t : System}
      → Step serde matter_epoch_secs s t
      → IsShown s
      → IsBooting s ⊎ IsRunning matter_epoch_secs s
      → IsBooting t ⊎ IsRunning matter_epoch_secs t
  Step-tasks (poll s topic payload e) shown (inl b) =
      inl (record { phase = b.phase; booted = b.booted })
  Step-tasks (poll s topic payload e) shown (inr r) = inr (record {
    waits = r.waits;
    events = r.events;
    wakes = r.wakes;
    in_hand = r.in_hand;
    phase = r.phase;
    taken = r.taken;
    over = r.over;
    none_left = r.none_left;
    calm = r.calm;
    folded = r.folded;
    sent = r.sent;
    last = r.last;
    holds = r.holds;
    bridge = r.bridge;
  })
  Step-tasks (internal i) shown (inl b) = Internal-IsBooting i shown b
  Step-tasks (internal i) shown (inr r) = inr (Internal-IsRunning i r)

map-with_topic :
    (topic : Text) (o : Option DomainMsg) (later : List (Text × DomainMsg))
    → map (λ e. e.1) (with_topic topic o ++ later) ≡ to_list o ++ map (λ e. e.1) later
map-with_topic topic none later = refl
map-with_topic topic (some m) later = refl

published-append :
    (mqtt later : List MqttEvent) → published (mqtt ++ later) ≡ published mqtt ++ published later
published-append [] later = refl
published-append (conn_ack ∷ mqtt) later = published-append mqtt later
published-append (publish topic payload alive ∷ mqtt) later =
    ap (λ ps. (from_utf8_lossy topic, payload) ∷ ps) (published-append mqtt later)
published-append (other ∷ mqtt) later = published-append mqtt later
published-append (failed ∷ mqtt) later = published-append mqtt later

-- Events of the client with these publishes.
Events : Publishes → Type 0
Events publishes = (mqtt : List MqttEvent) × All IsAlive mqtt × (published mqtt ≡ publishes)

module _ (serde : SerdeJson) where
  map-routed_messages :
      (r : Router) (publishes : Publishes)
      → map (λ e. e.1) (routed_messages serde r publishes) ≡ routed serde r publishes
  unfolding routed_messages routed
  map-routed_messages r [] = refl
  map-routed_messages r ((topic, payload) ∷ publishes) =
      let routing = route serde r topic payload in
      map-with_topic topic routing.message (routed_messages serde routing.router publishes)
      ∙ ap (λ ms. to_list routing.message ++ ms) (map-routed_messages routing.router publishes)

  -- What the loop of the ingest task was given and did, up to the message that it may still hold.
  pub record IsIngested (prefix : Text) (pinned_device : Option Text) (s : System) : Type 0 where
    pub mqtt : List MqttEvent
    pub alive : All IsAlive mqtt
    pub published : published mqtt ≡ s.published
    pub sent :
        sent (run_ingest serde (new_router prefix pinned_device) mqtt)
        ≡ s.taken ++ (s.inbox ++ to_list s.sending)

module _ {serde : SerdeJson} {matter_epoch_secs : ℕ} {prefix : Text}
    {pinned_device : Option Text} where
  Reach-Events :
      {s : System} → Reach serde matter_epoch_secs prefix pinned_device s → Events s.published
  unfolding Events initial
  Reach-Events start = ([], tt, refl)
  Reach-Events (next r (poll s topic payload e)) =
      let (mqtt, alive, past) = Reach-Events r in
      (
        mqtt ++ publish topic payload true ∷ [],
        All-append IsAlive mqtt _ alive (refl, tt),
        published-append mqtt _ ∙ ap (λ ps. ps ++ (from_utf8_lossy topic, payload) ∷ []) past,
      )
  Reach-Events (next r (internal i)) =
      let (mqtt, alive, past) = Reach-Events r in (mqtt, alive, past ∙ sym (published-Internal i))

  Reach-IsIngested :
      {s : System}
      → Reach serde matter_epoch_secs prefix pinned_device s
      → IsIngested serde prefix pinned_device s
  unfolding Events
  Reach-IsIngested {s} r =
      let (mqtt, alive, past) = Reach-Events r in
      let router = new_router prefix pinned_device in
      record {
        mqtt = mqtt;
        alive = alive;
        published = past;
        sent =
            sent-run_ingest serde router mqtt alive
            ∙ map-routed_messages serde router (published mqtt)
            ∙ ap (λ ps. routed serde router ps) past
            ∙ sym ((Reach-IsConserved serde prefix pinned_device matter_epoch_secs r).accounted);
      }

  pub Reach-main :
      {s : System}
      → Reach serde matter_epoch_secs prefix pinned_device s
      → IsBooting s ⊎ IsRunning matter_epoch_secs s
  unfolding initial bootstrap
  Reach-main start = inl (record { phase = refl; booted = refl })
  Reach-main (next r st) = Step-tasks st (Reach-IsShown r) (Reach-main r)

  -- However the steps of the tasks interleave, the program is where the functions of the single tasks come to
  -- by themselves, on some inputs that agree at the channels. The loop of the ingest task, given the publishes
  -- of the past, sent the messages that are taken, in the channel and about to enter it. The bootstrap took
  -- all messages and is in the state of the main task; or it ended with none left, the steady loop is in that
  -- state and has not failed, the bridge after its finished turns is the bridge of the program, and the
  -- snapshots that the steady loop sent are those of these turns, of the present turn, of the channel and the
  -- one about to enter it.
  pub Reach-tasks :
      {s : System}
      → Reach serde matter_epoch_secs prefix pinned_device s
      → IsIngested serde prefix pinned_device s × (IsBooting s ⊎ IsRunning matter_epoch_secs s)
  Reach-tasks r = (Reach-IsIngested r, Reach-main r)
