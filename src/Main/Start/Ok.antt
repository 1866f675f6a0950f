-- ===== src/Main/Start/Ok.antt =====
-- When `main` of src/main.rs returns without an error.
use mathlib.Core.Path.{ap}
use pv_matter.Common.{
  ℕ, ◌≡◌, ◌∙◌, arith, ◌↔◌, refl, sym, Bool, true, false, List, [], ◌∷◌, ◌++◌, Option, none, some,
  Result, ok, err, All,
}
use pv_matter.Domain.{State, default_state, apply, info, pack, status}
use pv_matter.Domain.Info.{InverterInfo}
use pv_matter.Config.{Config, ConfigError, Surroundings, from_env}
use pv_matter.Main.{
  Wait, message, closed, timed_out, Booted, while_none, bootstrap, Event, shutdown_signal,
  matter_exited, ingest_ended, received, steady,
}
use pv_matter.Main.Start.{
  exited, exit_of, main, configured_main, stored_main, timed_main, booted_main, spawned_main,
}

-- Events that do not leave the steady loop.
abbrev pub IsCalm : Event → Type 0
IsCalm (received none alive) = Unit
IsCalm (received (some m) alive) = alive ≡ true
IsCalm _ = ⊥

-- The first event that is not calm is the shutdown signal.
pub record EndsByShutdown (events : List Event) : Type 0 where
  pub before : List Event
  pub after : List Event
  pub split : events ≡ before ++ shutdown_signal ∷ after
  pub calm : All IsCalm before

fatal_sound :
    (s : State) (events : List Event) → (steady s events).fatal ≡ some false → EndsByShutdown events
unfolding steady
fatal_sound s [] h = absurd (cc)
fatal_sound s (shutdown_signal ∷ events) h = record {
  before = [];
  after = events;
  split = refl;
  calm = tt;
}
fatal_sound s (matter_exited ∷ events) h = absurd (cc)
fatal_sound s (ingest_ended ∷ events) h = absurd (cc)
fatal_sound s (received none alive ∷ events) h =
    let e = fatal_sound s events h in
    record {
      before = received none alive ∷ e.before;
      after = e.after;
      split = ap (λ es. received none alive ∷ es) e.split;
      calm = (tt, e.calm);
    }
fatal_sound s (received (some m) true ∷ events) h =
    let e = fatal_sound (apply s m) events h in
    record {
      before = received (some m) true ∷ e.before;
      after = e.after;
      split = ap (λ es. received (some m) true ∷ es) e.split;
      calm = (refl, e.calm);
    }
fatal_sound s (received (some m) false ∷ events) h = absurd (cc)

fatal_complete :
    (s : State) (before after : List Event)
    → All IsCalm before
    → (steady s (before ++ shutdown_signal ∷ after)).fatal ≡ some false
unfolding steady
fatal_complete s [] after h = refl
fatal_complete s (shutdown_signal ∷ before) after h = absurd h.0
fatal_complete s (matter_exited ∷ before) after h = absurd h.0
fatal_complete s (ingest_ended ∷ before) after h = absurd h.0
fatal_complete s (received none alive ∷ before) after h = fatal_complete s before after h.1
fatal_complete s (received (some m) true ∷ before) after h =
    fatal_complete (apply s m) before after h.1
fatal_complete s (received (some m) false ∷ before) after h = absurd (cc)

exit_of-eq-ok : (o : Option Bool) → (exit_of o ≡ exited (ok tt)) ↔ (o ≡ some false)
unfolding exit_of
exit_of-eq-ok none = (λ h. absurd (cc), λ h. absurd (cc))
exit_of-eq-ok (some false) = (λ h. refl, λ h. refl)
exit_of-eq-ok (some true) = (λ h. absurd (cc), λ h. absurd (cc))

booted-eq-ok :
    (over : Bool) (s : State) (spawned : Bool) (events : List Event)
    → (booted_main over s spawned events ≡ exited (ok tt))
      ↔ ((spawned ≡ true) × (over ≡ true) × EndsByShutdown events)
unfolding booted_main spawned_main
booted-eq-ok false s spawned events = (λ h. absurd (cc), λ h. absurd (cc))
booted-eq-ok true s false events = (λ h. absurd (cc), λ h. absurd (cc))
booted-eq-ok true s true events = (
  λ h. (refl, refl, fatal_sound s events ((exit_of-eq-ok _).0 h)),
  λ h. (exit_of-eq-ok _).1 (rw (h.2.split) (fatal_complete s h.2.before h.2.after h.2.calm)),
)

stored-eq-ok :
    (created fits spawned : Bool) (waits : List Wait) (events : List Event)
    → (stored_main created fits spawned waits events ≡ exited (ok tt)) ↔ (
        (fits ≡ true)
        × (created ≡ true)
        × (spawned ≡ true)
        × ((bootstrap default_state waits).over ≡ true)
        × EndsByShutdown events)
unfolding stored_main timed_main
stored-eq-ok false fits spawned waits events = (λ h. absurd (cc), λ h. absurd (cc))
stored-eq-ok true false spawned waits events = (λ h. absurd (cc), λ h. absurd (cc))
stored-eq-ok true true spawned waits events =
    let b = bootstrap default_state waits in
    let e = booted-eq-ok b.over b.state spawned events in
    (λ h. let (s, o, d) = e.0 h in (refl, refl, s, o, d), λ h. e.1 (h.2, h.3, h.4))

-- Some wait ends the bootstrap: an identity, the end of the channel, or the deadline.
abbrev pub ends_boot : List Wait → Bool
ends_boot [] = false
ends_boot (message (info i) ∷ waits) = true
ends_boot (message m ∷ waits) = ends_boot waits
ends_boot (_ ∷ waits) = true

bootstrap-informed :
    (s : State) (i : InverterInfo) (waits : List Wait)
    → s.info ≡ some i
    → (bootstrap s waits).over ≡ true
unfolding bootstrap
bootstrap-informed s i [] h = rw h refl
bootstrap-informed s i (message m ∷ waits) h = ground (arith, h)
bootstrap-informed s i (closed ∷ waits) h = ground (arith, h)
bootstrap-informed s i (timed_out ∷ waits) h = ground (arith, h)

none_goes_on :
    (o : Option InverterInfo) (again left : Booted)
    → o ≡ none
    → (while_none o again left).over ≡ again.over
none_goes_on none again left h = refl
none_goes_on (some i) again left h = absurd (cc)

bootstrap-over :
    (s : State) (waits : List Wait) → s.info ≡ none → (bootstrap s waits).over ≡ ends_boot waits
unfolding bootstrap apply
bootstrap-over s [] h = rw h refl
bootstrap-over s (message (info i) ∷ waits) h =
    none_goes_on s.info (bootstrap (apply s (info i)) waits) _ h
    ∙ bootstrap-informed (apply s (info i)) i waits refl
bootstrap-over s (message (pack p) ∷ waits) h =
    none_goes_on s.info (bootstrap (apply s (pack p)) waits) _ h
    ∙ bootstrap-over (apply s (pack p)) waits h
bootstrap-over s (message (status l) ∷ waits) h =
    none_goes_on s.info (bootstrap (apply s (status l)) waits) _ h
    ∙ bootstrap-over (apply s (status l)) waits h
bootstrap-over s (closed ∷ waits) h = ground (arith, h)
bootstrap-over s (timed_out ∷ waits) h = ground (arith, h)

-- Whether the instant of the bootstrap timeout is there.
abbrev fits_of : (ℕ → Bool) → Result Config ConfigError → Bool
fits_of has_instant (ok cfg) = has_instant cfg.bootstrap_timeout
fits_of has_instant (err e) = false

configured-eq-ok :
    (has_instant : ℕ → Bool) (r : Result Config ConfigError) (created spawned : Bool)
    (waits : List Wait) (events : List Event)
    → (configured_main has_instant r created spawned waits events ≡ exited (ok tt)) ↔ (
        ((cfg : Config) × (r ≡ ok cfg) × (has_instant cfg.bootstrap_timeout ≡ true))
        × (created ≡ true)
        × (spawned ≡ true)
        × (ends_boot waits ≡ true)
        × EndsByShutdown events)
unfolding configured_main
configured-eq-ok has_instant (err e) created spawned waits events =
    (λ h. absurd (cc), λ h. absurd (cc))
configured-eq-ok has_instant (ok cfg) created spawned waits events =
    let e = stored-eq-ok created (has_instant cfg.bootstrap_timeout) spawned waits events in
    let o = bootstrap-over default_state waits refl in
    (
      λ h. let (f, c, s, b, d) = e.0 h in ((cfg, refl, f), c, s, sym o ∙ b, d),
      λ h.
          let ((c', q, f), c, s, b, d) = h in
          e.1 (ap (λ r. fits_of has_instant r) q ∙ f, c, s, o ∙ b, d),
    )

pub main-eq-ok_iff :
    (has_instant : ℕ → Bool) (sur : Surroundings) (created spawned : Bool) (waits : List Wait)
    (events : List Event)
    → (main has_instant sur created spawned waits events ≡ exited (ok tt)) ↔ (
        ((cfg : Config) × (from_env sur ≡ ok cfg) × (has_instant cfg.bootstrap_timeout ≡ true))
        × (created ≡ true)
        × (spawned ≡ true)
        × (ends_boot waits ≡ true)
        × EndsByShutdown events)
unfolding main
main-eq-ok_iff has_instant sur created spawned waits events =
    configured-eq-ok has_instant (from_env sur) created spawned waits events
