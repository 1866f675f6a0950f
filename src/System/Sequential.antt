-- ===== src/System/Sequential.antt =====
-- The functions of the single tasks, of src/main.rs and src/matter/bridge.rs, against the steps of the whole
-- program.
use mathlib.Core.Path.{ap, sym}
use pv_matter.Common.{
  ℕ, ◌≡◌, ◌∙◌, refl, true, List, [], ◌∷◌, ◌++◌, Option, none, some, map, append_assoc, append-nil,
}
use pv_matter.Domain.{DomainMsg, default_state, apply}
use pv_matter.Domain.Snapshot.{PvSnapshot}
use pv_matter.Main.{Wait, message, timed_out, standing, bootstrap, Event, received}
use pv_matter.Main
use pv_matter.Main.Pipeline.{messages, arrivals}
use pv_matter.Main.Resume.{
  bootstrap_timed_out, bootstrap_timed_out-over, messages_timed_out, steady-append, arrivals-append,
}
use pv_matter.Matter.Bridge.{
  Wake, newest, start_bridge, iterate, iterate_all, run_bridge, settle, same_snapshot,
}
use pv_matter.Matter.Bridge.Run
use pv_matter.Matter.Bridge.Run.{newest-append}
use pv_matter.Matter.Bridge.Snoc.{received-snoc, run_bridge-snoc}
use pv_matter.System.Messages.{to_list}
use pv_matter.System.Shown.{IsShown}
use pv_matter.System.{booting, steady, Holding, idle, waiting, draining, System}

-- The snapshots that the bridge took since its `recv`, of which it holds the newest.
abbrev pub Holds : Holding → List PvSnapshot → Type 0
Holds idle in_hand = in_hand ≡ []
Holds (waiting u) in_hand = in_hand ≡ u ∷ []
Holds (draining u) in_hand =
    (first : PvSnapshot) × (queued : List PvSnapshot) × (in_hand ≡ first ∷ queued)
    × (newest first queued ≡ u)

-- What the steady loop forwards is of the message that it took last.
abbrev pub IsOfLast : Option PvSnapshot → List Event → Type 0
IsOfLast none events = Unit
IsOfLast (some u) events =
    (earlier : List Event) × (m : DomainMsg) × (events ≡ earlier ++ received (some m) true ∷ [])

-- In the bootstrap: the loop took all messages and waits for one more.
pub record IsBooting (s : System) : Type 0 where
  pub phase : s.phase ≡ booting
  pub booted : bootstrap default_state (map message s.taken) ≡ standing s.state

-- Behind the bootstrap, by what the loops of the main task and of the bridge took. `in_hand` is what the
-- bridge received in the turn that it is in.
pub record IsRunning (matter_epoch_secs : ℕ) (s : System) : Type 0 where
  pub waits : List Wait
  pub events : List Event
  pub wakes : List Wake
  pub in_hand : List PvSnapshot
  pub phase : s.phase ≡ steady
  pub taken : s.taken ≡ messages waits ++ arrivals events
  pub over : (bootstrap default_state waits).over ≡ true
  pub none_left : messages (bootstrap default_state waits).rest ≡ []
  pub calm : (Main.steady (bootstrap default_state waits).state events).fatal ≡ none
  pub folded : (Main.steady (bootstrap default_state waits).state events).state ≡ s.state
  pub sent :
      (Main.steady (bootstrap default_state waits).state events).sent
      ≡ Run.received wakes ++ (in_hand ++ (s.updates ++ to_list s.forwarding))
  pub last : IsOfLast s.forwarding events
  pub holds : Holds s.holding in_hand
  pub bridge :
      (run_bridge matter_epoch_secs (bootstrap default_state waits).state.snapshot wakes).0
      ≡ s.bridge

snoc_last {ℓ} :
    {A : Type ℓ} (xs ys zs : List A) (a : A)
    → (xs ++ (ys ++ (zs ++ []))) ++ a ∷ [] ≡ xs ++ (ys ++ (zs ++ a ∷ []))
snoc_last xs ys zs a = rw (append-nil, append_assoc, append_assoc) refl

pub boot-IsRunning :
    (epoch : ℕ) (s : System)
    → IsShown s
    → IsBooting s
    → IsRunning epoch (record s { phase = steady; bridge = start_bridge s.state.snapshot })
unfolding Main.steady run_bridge iterate_all
boot-IsRunning epoch s shown b =
    let (idle_, empty, unsent) = shown.before b.phase in
    let over = bootstrap_timed_out default_state s.taken in
    let at : (bootstrap default_state (map message s.taken ++ timed_out ∷ [])).state ≡ s.state =
      ap (λ p. p.0) over ∙ ap (λ r. r.state) b.booted in
    record {
      waits = map message s.taken ++ timed_out ∷ [];
      events = [];
      wakes = [];
      in_hand = [];
      phase = refl;
      taken = sym (append-nil _ ∙ messages_timed_out s.taken);
      over = bootstrap_timed_out-over default_state s.taken;
      none_left = ap (λ p. p.1) over ∙ ap (λ r. messages r.rest) b.booted;
      calm = refl;
      folded = at;
      sent = rw (empty, unsent) refl;
      last = rw unsent tt;
      holds = rw idle_ refl;
      bridge = ap (λ t. start_bridge t.snapshot) at;
    }

pub take-IsRunning :
    (epoch : ℕ) (s : System) (m : DomainMsg) (inbox : List DomainMsg)
    → s.forwarding ≡ none
    → IsRunning epoch s
    → IsRunning epoch (record s {
      inbox = inbox;
      state = apply s.state m;
      taken = s.taken ++ m ∷ [];
      forwarding = some (apply s.state m).snapshot;
    })
unfolding Main.steady
take-IsRunning epoch s m inbox f r =
    let seed = (bootstrap default_state r.waits).state in
    let turn = received (some m) true ∷ [] in
    let on = steady-append seed r.events turn r.calm in
    record {
      waits = r.waits;
      events = r.events ++ turn;
      wakes = r.wakes;
      in_hand = r.in_hand;
      phase = r.phase;
      taken =
          ap (λ ms. ms ++ m ∷ []) r.taken
          ∙ append_assoc (messages r.waits) _ _
          ∙ ap (λ ms. messages r.waits ++ ms) (sym (arrivals-append seed r.events turn r.calm));
      over = r.over;
      none_left = r.none_left;
      calm = ap (λ t. t.fatal) on;
      folded = ap (λ t. t.state) on ∙ ap (λ t. apply t m) r.folded;
      sent =
          ap (λ t. t.sent) on
          ∙ ap (λ t. (Main.steady seed r.events).sent ++ (apply t m).snapshot ∷ []) r.folded
          ∙ ap (λ us. us ++ (apply s.state m).snapshot ∷ []) (rw f at r.sent)
          ∙ snoc_last (Run.received r.wakes) r.in_hand s.updates (apply s.state m).snapshot;
      last = (r.events, m, refl);
      holds = r.holds;
      bridge = r.bridge;
    }

pub report-IsRunning :
    (epoch : ℕ) (s : System) (u : PvSnapshot) (reported_at : ℕ)
    → s.holding ≡ draining u
    → IsRunning epoch s
    → IsRunning epoch (record s {
      holding = idle;
      bridge = (settle epoch (same_snapshot u s.bridge.prev) s.bridge u reported_at).0;
    })
report-IsRunning epoch s u reported_at i r =
    let (first, queued, hand, last) = rw i at r.holds in
    let seed = (bootstrap default_state r.waits).state in
    let wake : Wake = record {
      first = first;
      received_at = 0;
      queued = queued;
      notified_at = 0;
      reported_at = reported_at;
    } in
    let rest = s.updates ++ to_list s.forwarding in
    record {
      waits = r.waits;
      events = r.events;
      wakes = r.wakes ++ wake ∷ [];
      in_hand = [];
      phase = r.phase;
      taken = r.taken;
      over = r.over;
      none_left = r.none_left;
      calm = r.calm;
      folded = r.folded;
      sent =
          r.sent
          ∙ ap (λ us. Run.received r.wakes ++ (us ++ rest)) hand
          ∙ sym (append_assoc (Run.received r.wakes) (first ∷ queued) rest)
          ∙ ap (λ us. us ++ rest) (sym (received-snoc r.wakes wake));
      last = r.last;
      holds = refl;
      bridge =
          run_bridge-snoc epoch seed.snapshot r.wakes wake
          ∙ ap (λ b. (iterate epoch b wake).0) r.bridge
          ∙ (unfold iterate in
              ap
                (λ next.
                  (settle epoch (same_snapshot next s.bridge.prev) s.bridge next reported_at).0)
                last);
    }

-- The bridge takes a snapshot of the channel.
pub moved-IsRunning :
    (epoch : ℕ) (s : System) (holding : Holding) (in_hand updates : List PvSnapshot)
    → (r : IsRunning epoch s) → r.in_hand ++ s.updates ≡ in_hand ++ updates
    → Holds holding in_hand
    → IsRunning epoch (record s { holding = holding; updates = updates })
moved-IsRunning epoch s holding in_hand updates r e h = record {
  waits = r.waits;
  events = r.events;
  wakes = r.wakes;
  in_hand = in_hand;
  phase = r.phase;
  taken = r.taken;
  over = r.over;
  none_left = r.none_left;
  calm = r.calm;
  folded = r.folded;
  sent =
      r.sent
      ∙ ap (λ us. Run.received r.wakes ++ us)
          (sym (append_assoc r.in_hand s.updates (to_list s.forwarding))
            ∙ ap (λ us. us ++ to_list s.forwarding) e
            ∙ append_assoc in_hand updates (to_list s.forwarding));
  last = r.last;
  holds = h;
  bridge = r.bridge;
}

pub drain-IsRunning :
    (epoch : ℕ) (s : System) (u newer : PvSnapshot) (updates : List PvSnapshot)
    → s.holding ≡ draining u
    → s.updates ≡ newer ∷ updates
    → IsRunning epoch s
    → IsRunning epoch (record s { holding = draining newer; updates = updates })
unfolding newest
drain-IsRunning epoch s u newer updates i e r =
    let (first, queued, hand, last) = rw i at r.holds in
    moved-IsRunning epoch s (draining newer) (first ∷ (queued ++ newer ∷ [])) updates r
      (ap (λ us. us ++ s.updates) hand
        ∙ ap (λ us. first ∷ (queued ++ us)) e
        ∙ ap (λ us. first ∷ us) (sym (append_assoc queued (newer ∷ []) updates)))
      (first, queued ++ newer ∷ [], refl, newest-append first queued (newer ∷ []))
