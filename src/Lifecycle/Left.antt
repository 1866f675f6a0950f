-- ===== src/Lifecycle/Left.antt =====
-- How the main task of src/main.rs leaves its loops, against the function of these loops.
use mathlib.Core.Path.{ap, sym}
use pv_matter.Common.{
  ℕ, ◌≡◌, ◌≢◌, ◌∙◌, refl, Bool, true, false, List, [], ◌∷◌, ◌++◌, Option, none, some, ◌⊎◌, inl, inr,
  map, append-nil, All,
}
use pv_matter.Domain.{DomainMsg, State, default_state, apply}
use pv_matter.Domain.Snapshot.{PvSnapshot}
use pv_matter.Main.{
  Wait, message, bootstrap, Event, shutdown_signal, matter_exited, ingest_ended, received, steady,
}
use pv_matter.Main.Pipeline.{messages, arrivals}
use pv_matter.Main.Resume.{messages-map, steady-append, arrivals-append}
use pv_matter.System.{booting}
use pv_matter.System.Sequential.{IsBooting, IsRunning, IsOfLast}
use pv_matter.Main.Start.Ok.{IsCalm}
use pv_matter.Lifecycle.{
  Lifecycle, Stage, looping, leave, AtSelect, Departure, by_signal, by_matter, by_ingest,
  by_updates,
}

-- What the steady loop leaves `fatal` at, by the stage.
abbrev pub fatal_at : Stage → Bool → Option Bool
fatal_at looping fatal = none
fatal_at _ fatal = some fatal

-- The event with which a departure ends the loop.
abbrev pub IsDeparture : Departure → Event → Type 0
IsDeparture by_signal e = e ≡ shutdown_signal
IsDeparture by_matter e = e ≡ matter_exited
IsDeparture by_ingest e = e ≡ ingest_ended
IsDeparture by_updates e = (m : DomainMsg) × (e ≡ received (some m) false)

-- The loop got no event that ends it; or, behind a departure, that of the departure and no other, as the last.
abbrev pub EndsBy : Option Departure → List Event → Type 0
EndsBy none events = All IsCalm events
EndsBy (some d) events =
    (before : List Event) × (e : Event) × (events ≡ before ++ e ∷ [])
    × All IsCalm before
    × IsDeparture d e

steady-IsCalm :
    (s : State) (events : List Event) → (steady s events).fatal ≡ none → All IsCalm events
unfolding steady
steady-IsCalm s [] h = tt
steady-IsCalm s (shutdown_signal ∷ events) h = absurd cc
steady-IsCalm s (matter_exited ∷ events) h = absurd cc
steady-IsCalm s (ingest_ended ∷ events) h = absurd cc
steady-IsCalm s (received none alive ∷ events) h = (tt, steady-IsCalm s events h)
steady-IsCalm s (received (some m) true ∷ events) h = (refl, steady-IsCalm (apply s m) events h)
steady-IsCalm s (received (some m) false ∷ events) h = absurd cc

-- The inputs on which the loops of `main` come to where the main task is.
pub record HasRun (p : Lifecycle) : Type 0 where
  pub waits : List Wait
  pub events : List Event
  pub taken : p.system.taken ≡ messages waits ++ arrivals events
  pub folded : (steady (bootstrap default_state waits).state events).state ≡ p.system.state
  pub fatal : (steady (bootstrap default_state waits).state events).fatal ≡ fatal_at p.stage p.fatal
  pub over : ((bootstrap default_state waits).over ≡ true) ⊎ ((p.stage ≡ looping) × (events ≡ []))
  pub ended : EndsBy p.departure events

pub looping-HasRun :
    (epoch : ℕ) (p : Lifecycle)
    → p.stage ≡ looping
    → p.departure ≡ none
    → IsBooting p.system ⊎ IsRunning epoch p.system
    → HasRun p
unfolding steady
looping-HasRun epoch p l d (inl b) = record {
  waits = map message p.system.taken;
  events = [];
  taken = sym (append-nil _ ∙ messages-map p.system.taken);
  folded = ap (λ r. r.state) b.booted;
  fatal = rw l refl;
  over = inr (l, refl);
  ended = rw d tt;
}
looping-HasRun epoch p l d (inr r) = record {
  waits = r.waits;
  events = r.events;
  taken = r.taken;
  folded = r.folded;
  fatal = rw l r.calm;
  over = inl r.over;
  ended = rw d (steady-IsCalm (bootstrap default_state r.waits).state r.events r.calm);
}

-- An event without a message that ends the loop.
abbrev IsEnd : Event → Bool → Type 0
IsEnd shutdown_signal fatal = fatal ≡ false
IsEnd matter_exited fatal = fatal ≡ true
IsEnd ingest_ended fatal = fatal ≡ true
IsEnd (received msg alive) fatal = ⊥

steady-end :
    (s : State) (e : Event) (fatal : Bool)
    → IsEnd e fatal
    → ((steady s (e ∷ [])).fatal ≡ some fatal)
      × ((steady s (e ∷ [])).state ≡ s)
      × (arrivals (e ∷ []) ≡ [])
unfolding steady
steady-end s shutdown_signal fatal h = (rw h refl, refl, refl)
steady-end s matter_exited fatal h = (rw h refl, refl, refl)
steady-end s ingest_ended fatal h = (rw h refl, refl, refl)
steady-end s (received msg alive) fatal h = absurd h

-- The loop is left at its `select!`.
pub leave-HasRun :
    (epoch : ℕ) (p : Lifecycle) (d : Departure) (e : Event) (fatal : Bool)
    → IsDeparture d e
    → IsEnd e fatal
    → AtSelect p
    → IsBooting p.system ⊎ IsRunning epoch p.system
    → HasRun (leave d fatal p)
leave-HasRun epoch p d e fatal c h s (inl b) = let q = s.phase in let z = b.phase in absurd cc
leave-HasRun epoch p d e fatal c h s (inr r) =
    let seed = (bootstrap default_state r.waits).state in
    let on = steady-append seed r.events (e ∷ []) r.calm in
    let (ends, same, nothing) = steady-end (steady seed r.events).state e fatal h in
    record {
      waits = r.waits;
      events = r.events ++ e ∷ [];
      taken =
          r.taken
          ∙ ap (λ ms. messages r.waits ++ ms)
              (sym (
                arrivals-append seed r.events (e ∷ []) r.calm
                ∙ ap (λ ms. arrivals r.events ++ ms) nothing
                ∙ append-nil _));
      folded = ap (λ t. t.state) on ∙ same ∙ r.folded;
      fatal = ap (λ t. t.fatal) on ∙ ends;
      over = inl r.over;
      ended = (r.events, e, refl, steady-IsCalm seed r.events r.calm, c);
    }

steady-calm :
    (s : State) (events later : List Event)
    → (steady s (events ++ later)).fatal ≡ none
    → (steady s events).fatal ≡ none
unfolding steady
steady-calm s [] later h = refl
steady-calm s (shutdown_signal ∷ events) later h = absurd cc
steady-calm s (matter_exited ∷ events) later h = absurd cc
steady-calm s (ingest_ended ∷ events) later h = absurd cc
steady-calm s (received none alive ∷ events) later h = steady-calm s events later h
steady-calm s (received (some m) true ∷ events) later h = steady-calm (apply s m) events later h
steady-calm s (received (some m) false ∷ events) later h = absurd cc

-- The last message of a calm run, taken where the receiver of the updates is gone.
record EndsClosed (s : State) (events : List Event) : Type 0 where
  events' : List Event
  arrived : arrivals events ≡ arrivals events'
  folded : (steady s events').state ≡ (steady s events).state
  fatal : (steady s events').fatal ≡ some true
  ended : EndsBy (some by_updates) events'

ends_closed :
    (s : State) (earlier : List Event) (m : DomainMsg)
    → (steady s (earlier ++ received (some m) true ∷ [])).fatal ≡ none
    → EndsClosed s (earlier ++ received (some m) true ∷ [])
unfolding steady
ends_closed s earlier m h =
    let calm = steady-calm s earlier (received (some m) true ∷ []) h in
    let sent = steady-append s earlier (received (some m) true ∷ []) calm in
    let unsent = steady-append s earlier (received (some m) false ∷ []) calm in
    record {
      events' = earlier ++ received (some m) false ∷ [];
      arrived =
          arrivals-append s earlier (received (some m) true ∷ []) calm
          ∙ sym (arrivals-append s earlier (received (some m) false ∷ []) calm);
      folded = ap (λ t. t.state) unsent ∙ sym (ap (λ t. t.state) sent);
      fatal = ap (λ t. t.fatal) unsent;
      ended = (earlier, received (some m) false, refl, steady-IsCalm s earlier calm, (m, refl));
    }

IsOfLast-EndsClosed :
    (s : State) (o : Option PvSnapshot) (events : List Event)
    → o ≢ none
    → IsOfLast o events
    → (steady s events).fatal ≡ none
    → EndsClosed s events
IsOfLast-EndsClosed s none events n h calm = absurd (n refl)
IsOfLast-EndsClosed s (some u) events n (earlier, m, e) calm =
    rw e (ends_closed s earlier m (rw e at calm))

-- The send of the snapshot fails, as the receiver is gone.
pub closed-HasRun :
    (epoch : ℕ) (p : Lifecycle)
    → p.system.forwarding ≢ none
    → IsBooting p.system ⊎ IsRunning epoch p.system
    → (p.system.phase ≡ booting → p.system.forwarding ≡ none)
    → HasRun (leave by_updates true p)
closed-HasRun epoch p n (inl b) unsent = absurd (n (unsent b.phase))
closed-HasRun epoch p n (inr r) unsent =
    let c =
      IsOfLast-EndsClosed (bootstrap default_state r.waits).state p.system.forwarding r.events n
        r.last r.calm in
    record {
      waits = r.waits;
      events = c.events';
      taken = r.taken ∙ ap (λ ms. messages r.waits ++ ms) c.arrived;
      folded = c.folded ∙ r.folded;
      fatal = c.fatal;
      over = inl r.over;
      ended = c.ended;
    }
