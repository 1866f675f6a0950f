-- ===== src/Lifecycle/Sequential.antt =====
-- `main` of src/main.rs as one function of its inputs, against the stages of the whole program with its ends.
use mathlib.Core.Path.{ap, sym, subst}
use pv_matter.Common.{
  ℕ, ◌≡◌, ◌≢◌, ◌∙◌, refl, Bool, true, false, List, ◌++◌, Option, none, some, ok, ◌⊎◌, inl, inr,
}
use pv_matter.Text.{Text}
use pv_matter.Serde.{SerdeJson}
use pv_matter.Config.{Config, Surroundings, from_env}
use pv_matter.Domain.{default_state}
use pv_matter.Main.{Wait, bootstrap, Event, shutdown_signal, matter_exited, ingest_ended, steady}
use pv_matter.Main.Pipeline.{messages, arrivals}
use pv_matter.Main.Start.{main, main-exit_of, main-running, running, exit_of}
use pv_matter.System.Shown.{Reach-IsShown}
use pv_matter.System.Tasks.{Reach-main}
use pv_matter.Lifecycle.{
  Lifecycle, Stage, looping, stopping, joining, dropping, by_signal, by_matter, by_ingest, returned,
  begin, exit_at, exit, signal_comes, Works, works, shutdown_requested, matter_gone, ingest_gone,
  updates_closed, tell, matter_stops, joins, drops, Step, work, publish, signal, nothing_received,
  matter_fails, ingest_fails, Lives, start, next,
}
use pv_matter.Lifecycle.Away.{IsAway, Step-IsAway}
use pv_matter.Lifecycle.Left.{EndsBy, HasRun, fatal_at, looping-HasRun, leave-HasRun, closed-HasRun}
use pv_matter.Lifecycle.Refines.{Lives-Reach}

fatal_at-left : (stage : Stage) (fatal : Bool) → stage ≢ looping → fatal_at stage fatal ≡ some fatal
fatal_at-left looping fatal n = absurd (n refl)
fatal_at-left stopping fatal n = refl
fatal_at-left joining fatal n = refl
fatal_at-left dropping fatal n = refl
fatal_at-left returned fatal n = refl

away-HasRun : (p q : Lifecycle) → IsAway p q → p.stage ≢ looping → HasRun p → HasRun q
away-HasRun p q away n h = record {
  waits = h.waits;
  events = h.events;
  taken = away.taken ∙ h.taken;
  folded = h.folded ∙ sym away.state;
  fatal =
      h.fatal
      ∙ fatal_at-left p.stage p.fatal n
      ∙ ap some (sym away.fatal)
      ∙ sym (fatal_at-left q.stage q.fatal away.stage);
  over = elim h.over [ inl o ↦ inl o | inr (l, e) ↦ absurd (n l) ];
  ended = subst (λ d. EndsBy d h.events) (sym away.departure) h.ended;
}

-- In the loops, or behind them.
HasLeft : Lifecycle → Type 0
HasLeft p = ((p.stage ≡ looping) × (p.departure ≡ none)) ⊎ ((p.stage ≢ looping) × HasRun p)

module _ {serde : SerdeJson} {matter_epoch_secs : ℕ} {prefix : Text}
    {pinned_device : Option Text} where
  Works-HasLeft :
      {p q : Lifecycle}
      → Works serde matter_epoch_secs p q
      → Lives serde matter_epoch_secs prefix pinned_device p
      → p.stage ≡ looping
      → p.departure ≡ none
      → HasLeft q
  unfolding HasLeft
  Works-HasLeft (works p i c) l h n = inl (h, n)
  Works-HasLeft (shutdown_requested p s e) l h k = inr (
    λ n. cc,
    leave-HasRun matter_epoch_secs p by_signal shutdown_signal false refl refl s
        (Reach-main (Lives-Reach l)),
  )
  Works-HasLeft (matter_gone p s d) l h k = inr (
    λ n. cc,
    leave-HasRun matter_epoch_secs p by_matter matter_exited true refl refl s
        (Reach-main (Lives-Reach l)),
  )
  Works-HasLeft (ingest_gone p s d) l h k = inr (
    λ n. cc,
    leave-HasRun matter_epoch_secs p by_ingest ingest_ended true refl refl s
        (Reach-main (Lives-Reach l)),
  )
  Works-HasLeft (updates_closed p u a f d) l h k =
      let r = Lives-Reach l in
      inr (
        λ n. cc,
        closed-HasRun matter_epoch_secs p (λ n. cc) (Reach-main r)
            (λ b. let (i, e, unsent) = (Reach-IsShown r).before b in unsent),
      )
  Works-HasLeft (tell p s) l h k = absurd cc
  Works-HasLeft (matter_stops p u t a) l h n = inl (h, n)
  Works-HasLeft (joins p o s c) l h k = absurd cc
  Works-HasLeft (drops p s j) l h k = absurd cc

  Step-HasLeft :
      {p q : Lifecycle}
      → Step serde matter_epoch_secs p q
      → Lives serde matter_epoch_secs prefix pinned_device p
      → HasLeft p
      → HasLeft q
  unfolding HasLeft signal_comes
  Step-HasLeft {p} {q} st l (inr (n, h)) =
      let away = Step-IsAway st n in inr (away.stage, away-HasRun p q away n h)
  Step-HasLeft (work w) l (inl (h, k)) = Works-HasLeft w l h k
  Step-HasLeft (publish p topic payload u a e) l (inl h) = inl h
  Step-HasLeft (signal p u e) l (inl h) = inl h
  Step-HasLeft (nothing_received p s d e) l (inl h) = inl h
  Step-HasLeft (matter_fails p u e a) l (inl h) = inl h
  Step-HasLeft (ingest_fails p u a) l (inl h) = inl h

  Lives-HasLeft : {p : Lifecycle} → Lives serde matter_epoch_secs prefix pinned_device p → HasLeft p
  unfolding HasLeft begin
  Lives-HasLeft start = inl (refl, refl)
  Lives-HasLeft (next l st) = Step-HasLeft st l (Lives-HasLeft l)

  Lives-HasRun : {p : Lifecycle} → Lives serde matter_epoch_secs prefix pinned_device p → HasRun p
  unfolding HasLeft
  Lives-HasRun {p} l = elim (Lives-HasLeft l) [
    | inl (h, d) ↦ looping-HasRun matter_epoch_secs p h d (Reach-main (Lives-Reach l))
    | inr (n, h) ↦ h
  ]

exit_of-fatal_at :
    (stage : Stage) (fatal : Bool)
    → (stage ≡ looping) ⊎ (stage ≡ returned)
    → exit_of (fatal_at stage fatal) ≡ exit_at stage fatal
unfolding exit_of exit_at
exit_of-fatal_at looping fatal h = refl
exit_of-fatal_at stopping fatal (inl h) = absurd cc
exit_of-fatal_at stopping fatal (inr h) = absurd cc
exit_of-fatal_at joining fatal (inl h) = absurd cc
exit_of-fatal_at joining fatal (inr h) = absurd cc
exit_of-fatal_at dropping fatal (inl h) = absurd cc
exit_of-fatal_at dropping fatal (inr h) = absurd cc
exit_of-fatal_at returned fatal h = refl

looping-running : (stage : Stage) (fatal : Bool) → stage ≡ looping → exit_at stage fatal ≡ running
unfolding exit_at
looping-running stage fatal h = rw h refl

-- However the tasks interleave, signals come and tasks end: where the main task is in its loops or has
-- returned, the program has the state and the exit to which `main` comes as one function, on some waits and
-- events whose messages are those taken. No event ends the loop while it runs, and behind it exactly the
-- last one does, which is the one of the branch that was taken: the signal, the end of the Matter thread,
-- the end of the ingest task, or the message whose snapshot finds no receiver. The configuration is read,
-- its timeout has an instant, the storage directory is there and the thread starts.
pub Lives-main :
    {serde : SerdeJson} {matter_epoch_secs : ℕ} {prefix : Text} {pinned_device : Option Text}
    (has_instant : ℕ → Bool) (sur : Surroundings) {cfg : Config} {p : Lifecycle}
    → Lives serde matter_epoch_secs prefix pinned_device p
    → from_env sur ≡ ok cfg
    → has_instant cfg.bootstrap_timeout ≡ true
    → (p.stage ≡ looping) ⊎ (p.stage ≡ returned)
    → (waits : List Wait) × (events : List Event) × (p.system.taken
        ≡ messages waits ++ arrivals events)
      × EndsBy p.departure events
      × ((steady (bootstrap default_state waits).state events).state ≡ p.system.state)
      × (main has_instant sur true true waits events ≡ exit p)
unfolding exit
Lives-main has_instant sur {p = p} l read fits h =
    let r = Lives-HasRun l in
    (
      r.waits,
      r.events,
      r.taken,
      r.ended,
      r.folded,
      elim r.over [
        | inl over ↦
            main-exit_of has_instant sur r.waits r.events read fits over
            ∙ ap exit_of r.fatal
            ∙ exit_of-fatal_at p.stage p.fatal h
        | inr (stage, e) ↦
            ap (λ events. main has_instant sur true true r.waits events) e
            ∙ main-running has_instant sur r.waits read fits
            ∙ sym (looping-running p.stage p.fatal stage)
      ],
    )
