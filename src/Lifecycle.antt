-- ===== src/Lifecycle.antt =====
-- The running program with its ends: System, and what src/main.rs does when a task ends or a signal comes.
-- The listener of a signal lives as long as the `select!` that polls it: tokio's `ctrl_c` and `signal` complete
-- for the signals that come after their first poll. Before the first `select!` a signal ends the process, so it
-- is not a step here. `signals` and `faults` only record the past, and no step reads them.
pub mod Refines
pub mod Exits
pub mod Joined
pub mod Ends
pub mod Returns
pub mod Signals
pub mod Heard
pub mod Away
pub mod Left
pub mod Sequential
use pv_matter.Common.{ℕ, ◌+◌, ◌≡◌, ◌⊎◌, Bool, true, false, List, [], Option, none, some}
use pv_matter.Text.{Text}
use pv_matter.Serde.{SerdeJson}
use pv_matter.Domain.Snapshot.{PvSnapshot}
use pv_matter.Main.Start.{Exit, running, exit_of}
use pv_matter.System.{
  Phase, steady, System, initial, polled, Internal, send, boot_take, boot, take, forward, receive,
  floor_over, drain, report,
}

-- Where the main task stands: in its loops, at the send of the shutdown, at the join of the Matter thread,
-- behind the body of `main` where `#[tokio::main]` drops the runtime, or behind the return of `main`.
pub data Stage : Type 0 where
  looping stopping joining dropping returned : Stage

-- What ended the loop: a branch of the `select!`, or the failed send of an update.
pub data Departure : Type 0 where
  by_signal by_matter by_ingest by_updates : Departure

-- What `join_matter_thread` may find: the thread has returned, or panicked, the join could not be done, or the
-- five seconds are over.
pub data JoinOutcome : Type 0 where
  stopped panicked not_joined elapsed : JoinOutcome

-- `heard` says whether the listener of the current `select!` has seen a signal, `told` whether the shutdown is
-- in its channel, and `join_outcome` what is logged of the join. `departure` only records what ended the loop.
pub record Lifecycle : Type 0 where
  pub system : System
  pub stage : Stage
  pub fatal : Bool
  pub ingest_alive : Bool
  pub matter_alive : Bool
  pub heard : Bool
  pub told : Bool
  pub join_outcome : Option JoinOutcome
  pub departure : Option Departure
  pub signals : ℕ
  pub faults : ℕ

unfoldable pub begin : Text → Option Text → Lifecycle
begin prefix pinned_device = record {
  system = initial prefix pinned_device;
  stage = looping;
  fatal = false;
  ingest_alive = true;
  matter_alive = true;
  heard = false;
  told = false;
  join_outcome = none;
  departure = none;
  signals = 0;
  faults = 0;
}

-- What `main` returned, by its stage and `fatal`.
unfoldable pub exit_at : Stage → Bool → Exit
unfolding exit_of
exit_at returned fatal = exit_of (some fatal)
exit_at _ fatal = running

unfoldable pub exit : Lifecycle → Exit
unfolding exit_at
exit p = exit_at p.stage p.fatal

-- What makes an internal step: the ingest task, the main task alone, the main task with the receiver of the
-- updates, or the bridge.
pub data Actor : Type 0 where
  ingest main handing_over bridge : Actor

abbrev pub IsUp : Stage → Type 0
IsUp returned = ⊥
IsUp _ = Unit

-- Behind the body of `main` the ingest task is aborted.
abbrev pub HasTasks : Stage → Type 0
HasTasks dropping = ⊥
HasTasks returned = ⊥
HasTasks _ = Unit

abbrev pub CanAct : Lifecycle → Actor → Type 0
CanAct p ingest = HasTasks p.stage × (p.ingest_alive ≡ true)
CanAct p main = p.stage ≡ looping
CanAct p handing_over = (p.stage ≡ looping) × (p.matter_alive ≡ true)
CanAct p bridge = IsUp p.stage × (p.matter_alive ≡ true)

-- The main task is at its `select!`.
pub record AtSelect (p : Lifecycle) : Type 0 where
  pub in_loop : p.stage ≡ looping
  pub phase : p.system.phase ≡ steady
  pub not_sending : p.system.forwarding ≡ none

-- A listener is there at the `select!` only; elsewhere a signal goes unheard.
abbrev pub hears : Stage → Option PvSnapshot → Bool → Bool
hears looping none heard = true
hears _ _ heard = heard

unfoldable pub signal_comes : Lifecycle → Lifecycle
signal_comes p = record p {
  heard = hears p.stage p.system.forwarding p.heard;
  signals = p.signals + 1;
}

-- The body of `main` goes on behind every outcome, with another log line.
abbrev pub join_matter_thread : JoinOutcome → Lifecycle → Lifecycle
join_matter_thread outcome p = record p { stage = dropping; join_outcome = some outcome }

abbrev pub CanJoin : Lifecycle → JoinOutcome → Type 0
CanJoin p stopped = p.matter_alive ≡ false
CanJoin p panicked = p.matter_alive ≡ false
CanJoin p not_joined = Unit
CanJoin p elapsed = Unit

-- The drop of the runtime waits for the closure of `spawn_blocking`, which waits for the Matter thread,
-- also if the five seconds are over; unless that closure has ended without the thread.
abbrev pub IsJoined : Lifecycle → Type 0
IsJoined p = (p.matter_alive ≡ false) ⊎ (p.join_outcome ≡ some not_joined)

-- The loop is left.
abbrev pub leave : Departure → Bool → Lifecycle → Lifecycle
leave departure fatal p = record p { stage = stopping; fatal = fatal; departure = some departure }

module _ (serde : SerdeJson) (matter_epoch_secs : ℕ) where
  abbrev pub actor : {s t : System} → Internal serde matter_epoch_secs s t → Actor
  actor (send s m e room) = ingest
  actor (boot_take s m inbox b i e) = main
  actor (boot s b) = main
  actor (take s m inbox b f e) = main
  actor (forward s u e room) = handing_over
  actor (receive s u updates b h e) = bridge
  actor (floor_over s u e) = bridge
  actor (drain s u newer updates h e) = bridge
  actor (report s u at h e) = bridge

  -- The branch of a message drops the other futures of the `select!`, the listener among them.
  abbrev pub keeps : {s t : System} → Internal serde matter_epoch_secs s t → Bool → Bool
  keeps (take s m inbox b f e) heard = false
  keeps _ heard = heard

  -- The steps that need neither a publish, nor a signal, nor a fault.
  pub data Works : Lifecycle → Lifecycle → Type 0 where
    works :
        (p : Lifecycle) {t : System} (i : Internal serde matter_epoch_secs p.system t)
        → CanAct p (actor i)
        → Works p (record p { system = t; heard = keeps i p.heard })
    -- The three other branches of the `select!`, and the failed send of the fourth.
    shutdown_requested :
        (p : Lifecycle) → AtSelect p → p.heard ≡ true → Works p (leave by_signal false p)
    matter_gone :
        (p : Lifecycle) → AtSelect p → p.matter_alive ≡ false → Works p (leave by_matter true p)
    ingest_gone :
        (p : Lifecycle) → AtSelect p → p.ingest_alive ≡ false → Works p (leave by_ingest true p)
    updates_closed :
        (p : Lifecycle) (u : PvSnapshot)
        → p.stage ≡ looping
        → p.system.forwarding ≡ some u
        → p.matter_alive ≡ false
        → Works p (leave by_updates true p)
    -- The channel of the shutdown has room for the one message that is sent.
    tell :
        (p : Lifecycle) → p.stage ≡ stopping → Works p (record p { stage = joining; told = true })
    -- The Matter thread takes the shutdown and returns.
    matter_stops :
        (p : Lifecycle)
        → IsUp p.stage
        → p.told ≡ true
        → p.matter_alive ≡ true
        → Works p (record p { matter_alive = false })
    -- `ingest_task.abort()`, which follows, has nothing to wait for.
    joins :
        (p : Lifecycle) (outcome : JoinOutcome)
        → p.stage ≡ joining
        → CanJoin p outcome
        → Works p (join_matter_thread outcome p)
    -- The runtime is dropped, and `main` returns.
    drops :
        (p : Lifecycle) → p.stage ≡ dropping → IsJoined p → Works p (record p { stage = returned })

  pub data Step : Lifecycle → Lifecycle → Type 0 where
    work : {p q : Lifecycle} → Works p q → Step p q
    publish :
        (p : Lifecycle) (topic payload : List ℕ)
        → HasTasks p.stage
        → p.ingest_alive ≡ true
        → p.system.sending ≡ none
        → Step p (record p { system = polled serde p.system topic payload })
    signal : (p : Lifecycle) → IsUp p.stage → p.system.phase ≡ steady → Step p (signal_comes p)
    -- The ingest task has ended and its channel is empty: `recv` returns none, and the loop goes on. The
    -- `select!` may take this branch any number of times before that of the task, which is ready too, so it
    -- is no work.
    nothing_received :
        (p : Lifecycle)
        → AtSelect p
        → p.ingest_alive ≡ false
        → p.system.inbox ≡ []
        → Step p (record p { heard = false })
    -- A task ends by itself: an error of rs-matter, or a panic.
    matter_fails :
        (p : Lifecycle)
        → IsUp p.stage
        → p.system.phase ≡ steady
        → p.matter_alive ≡ true
        → Step p (record p { matter_alive = false; faults = p.faults + 1 })
    ingest_fails :
        (p : Lifecycle)
        → HasTasks p.stage
        → p.ingest_alive ≡ true
        → Step p (record p { ingest_alive = false; faults = p.faults + 1 })

  -- The states of a run from the start.
  pub data Lives (prefix : Text) (pinned_device : Option Text) : Lifecycle → Type 0 where
    start : Lives prefix pinned_device (begin prefix pinned_device)
    next :
        {p q : Lifecycle} → Lives prefix pinned_device p → Step p q → Lives prefix pinned_device q

  -- A run of works, and of turns of the `select!` that get no message: such a turn is one of
  -- `nothing_received`.
  pub data Runs (p : Lifecycle) : Lifecycle → Type 0 where
    here : Runs p p
    then_work : {q r : Lifecycle} → Runs p q → Works q r → Runs p r
    then_idle :
        {q : Lifecycle}
        → Runs p q
        → AtSelect q
        → q.ingest_alive ≡ false
        → q.system.inbox ≡ []
        → Runs p (record q { heard = false })
