-- ===== src/Main/Resume.antt =====
-- The loops of `main` over inputs that come in two parts.
use mathlib.Core.Path.{ap, sym}
use pv_matter.Common.{◌≡◌, ◌∙◌, refl, true, false, List, [], ◌∷◌, ◌++◌, Option, none, some, map}
use pv_matter.Domain.{DomainMsg, State, apply}
use pv_matter.Domain.Info.{InverterInfo}
use pv_matter.Main.Pipeline.{messages, arrivals}
use pv_matter.Main.{
  message, timed_out, Booted, standing, while_none, bootstrap, Event, shutdown_signal,
  matter_exited, ingest_ended, received, Steady, steady,
}

on_with_it :
    (o : Option InverterInfo) (m : DomainMsg) (again again' left left' : Booted)
    → left.state.info ≡ o
    → (while_none o again left).state.info ≡ none
    → (again.state.info ≡ none → again' ≡ standing (apply again.state m))
    → while_none o again' left' ≡ standing (apply (while_none o again left).state m)
on_with_it none m again again' left left' e h go = go h
on_with_it (some i) m again again' left left' e h go = absurd (cc)

either_ap {ℓ} :
    {A : Type ℓ} (f : Booted → A) (o : Option InverterInfo) (again again' left left' : Booted)
    → f again' ≡ f again
    → f left' ≡ f left
    → f (while_none o again' left') ≡ f (while_none o again left)
either_ap f none again again' left left' e d = e
either_ap f (some i) again again' left left' e d = d

-- While there is no identity, the bootstrap folds one more message.
pub bootstrap_message :
    (s : State) (ms : List DomainMsg) (m : DomainMsg)
    → (bootstrap s (map message ms)).state.info ≡ none
    → bootstrap s (map message (ms ++ m ∷ []))
      ≡ standing (apply (bootstrap s (map message ms)).state m)
unfolding bootstrap
bootstrap_message s [] m h =
    ap
      (λ o.
        while_none o (standing (apply s m))
          (record { state = s; rest = message m ∷ []; over = true }))
      h
bootstrap_message s (n ∷ ms) m h =
    on_with_it s.info m (bootstrap (apply s n) (map message ms))
      (bootstrap (apply s n) (map message (ms ++ m ∷ [])))
      (record { state = s; rest = message n ∷ map message ms; over = true })
      (record { state = s; rest = message n ∷ map message (ms ++ m ∷ []); over = true }) refl h
      (bootstrap_message (apply s n) ms m)

pub messages_timed_out : (ms : List DomainMsg) → messages (map message ms ++ timed_out ∷ []) ≡ ms
messages_timed_out [] = refl
messages_timed_out (m ∷ ms) = ap (λ r. m ∷ r) (messages_timed_out ms)

pub messages-map : (ms : List DomainMsg) → messages (map message ms) ≡ ms
messages-map [] = refl
messages-map (m ∷ ms) = ap (λ r. m ∷ r) (messages-map ms)

-- Where a bootstrap has come to: its state, and the messages that it has not taken.
abbrev pub left_at : Booted → State × List DomainMsg
left_at b = (b.state, messages b.rest)

ended_or_not :
    (o : Option InverterInfo) (s : State)
    → left_at (
        while_none o
          (record { state = s; rest = []; over = true })
          (record { state = s; rest = timed_out ∷ []; over = true }))
      ≡ (s, [])
ended_or_not none s = refl
ended_or_not (some i) s = refl

-- The deadline ends the bootstrap where it is.
pub bootstrap_timed_out :
    (s : State) (ms : List DomainMsg)
    → left_at (bootstrap s (map message ms ++ timed_out ∷ []))
      ≡ left_at (bootstrap s (map message ms))
unfolding bootstrap
bootstrap_timed_out s [] = ended_or_not s.info s
bootstrap_timed_out s (n ∷ ms) =
    either_ap left_at s.info (bootstrap (apply s n) (map message ms))
      (bootstrap (apply s n) (map message ms ++ timed_out ∷ []))
      (record { state = s; rest = message n ∷ map message ms; over = true })
      (record { state = s; rest = message n ∷ (map message ms ++ timed_out ∷ []); over = true })
      (bootstrap_timed_out (apply s n) ms)
      (ap (λ r. (s, n ∷ r)) (messages_timed_out ms ∙ sym (messages-map ms)))

timed_out_over :
    (o : Option InverterInfo) (again left : Booted)
    → again.over ≡ true
    → left.over ≡ true
    → (while_none o again left).over ≡ true
timed_out_over none again left e d = e
timed_out_over (some i) again left e d = d

-- The bootstrap is over at the deadline at the latest.
pub bootstrap_timed_out-over :
    (s : State) (ms : List DomainMsg) → (bootstrap s (map message ms ++ timed_out ∷ [])).over ≡ true
unfolding bootstrap
bootstrap_timed_out-over s [] =
    timed_out_over s.info (record { state = s; rest = []; over = true })
      (record { state = s; rest = timed_out ∷ []; over = true }) refl refl
bootstrap_timed_out-over s (n ∷ ms) =
    timed_out_over s.info (bootstrap (apply s n) (map message ms ++ timed_out ∷ []))
      (record { state = s; rest = message n ∷ (map message ms ++ timed_out ∷ []); over = true })
      (bootstrap_timed_out-over (apply s n) ms) refl

-- A loop that has not ended goes on from its state.
abbrev pub resumed : Steady → Steady → Steady
resumed before after = record {
  state = after.state;
  sent = before.sent ++ after.sent;
  fatal = after.fatal;
}

pub steady-append :
    (s : State) (events later : List Event)
    → (steady s events).fatal ≡ none
    → steady s (events ++ later) ≡ resumed (steady s events) (steady (steady s events).state later)
unfolding steady
steady-append s [] later h = refl
steady-append s (shutdown_signal ∷ events) later h = absurd (cc)
steady-append s (matter_exited ∷ events) later h = absurd (cc)
steady-append s (ingest_ended ∷ events) later h = absurd (cc)
steady-append s (received none alive ∷ events) later h = steady-append s events later h
steady-append s (received (some m) true ∷ events) later h =
    ap (λ (t : Steady). record t { sent = (apply s m).snapshot ∷ t.sent })
      (steady-append (apply s m) events later h)
steady-append s (received (some m) false ∷ events) later h = absurd (cc)

pub arrivals-append :
    (s : State) (events later : List Event)
    → (steady s events).fatal ≡ none
    → arrivals (events ++ later) ≡ arrivals events ++ arrivals later
unfolding steady
arrivals-append s [] later h = refl
arrivals-append s (shutdown_signal ∷ events) later h = absurd (cc)
arrivals-append s (matter_exited ∷ events) later h = absurd (cc)
arrivals-append s (ingest_ended ∷ events) later h = absurd (cc)
arrivals-append s (received none alive ∷ events) later h = arrivals-append s events later h
arrivals-append s (received (some m) true ∷ events) later h =
    ap (λ ms. m ∷ ms) (arrivals-append (apply s m) events later h)
arrivals-append s (received (some m) false ∷ events) later h = absurd (cc)
