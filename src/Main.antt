-- ===== src/Main.antt =====
-- src/main.rs: the fold of the messages until the identity arrives, and the steady loop. What the
-- channels, the deadline and the signals give is a list of events. The log lines are left out.
pub mod Pipeline
pub mod Start
pub mod Resume
use pv_matter.Common.{ℕ, Bool, true, false, List, [], ◌∷◌, Option, none, some, if◌then◌else◌}
use pv_matter.Domain.{DomainMsg, State, apply}
use pv_matter.Domain.Info.{InverterInfo}
use pv_matter.Domain.Snapshot.{PvSnapshot}

-- What `timeout_at(deadline, msg_rx.recv())` gives.
pub data Wait : Type 0 where
  message : DomainMsg → Wait
  closed : Wait
  timed_out : Wait

-- The state of the bootstrap loop, the waits that are still to come, and whether the loop is over; else it
-- still waits for the next one.
pub record Booted : Type 0 where
  pub state : State
  pub rest : List Wait
  pub over : Bool

abbrev pub has_info : Option InverterInfo → Bool
has_info none = false
has_info (some i) = true

-- All waits are taken.
abbrev pub standing : State → Booted
standing s = record { state = s; rest = []; over = has_info s.info }

-- The condition of the loop: on with it while there is no identity.
abbrev pub while_none : Option InverterInfo → Booted → Booted → Booted
while_none none again left = again
while_none (some i) again left = left

-- The `while state.info.is_none()` loop.
unfoldable pub bootstrap : State → List Wait → Booted
bootstrap s [] = standing s
bootstrap s (message m ∷ waits) =
    while_none s.info (bootstrap (apply s m) waits)
      (record { state = s; rest = message m ∷ waits; over = true })
bootstrap s (closed ∷ waits) =
    while_none s.info (record { state = s; rest = waits; over = true })
      (record { state = s; rest = closed ∷ waits; over = true })
bootstrap s (timed_out ∷ waits) =
    while_none s.info (record { state = s; rest = waits; over = true })
      (record { state = s; rest = timed_out ∷ waits; over = true })

-- The branch of `select!` that is taken; `alive` says whether the channel of the updates is open.
pub data Event : Type 0 where
  shutdown_signal : Event
  matter_exited : Event
  ingest_ended : Event
  received : (msg : Option DomainMsg) (alive : Bool) → Event

-- The state, the snapshots that entered the channel, and `fatal` once the loop was left.
pub record Steady : Type 0 where
  pub state : State
  pub sent : List PvSnapshot
  pub fatal : Option Bool

stopped : State → Bool → Steady
stopped s fatal = record { state = s; sent = []; fatal = some fatal }

forward : Bool → State → Steady → Steady
unfolding stopped
forward true s later = record later { sent = s.snapshot ∷ later.sent }
forward false s later = stopped s true

-- The steady loop.
unfoldable pub steady : State → List Event → Steady
unfolding stopped forward
steady s [] = record { state = s; sent = []; fatal = none }
steady s (shutdown_signal ∷ events) = stopped s false
steady s (matter_exited ∷ events) = stopped s true
steady s (ingest_ended ∷ events) = stopped s true
steady s (received none alive ∷ events) = steady s events
steady s (received (some m) alive ∷ events) = forward alive (apply s m) (steady (apply s m) events)
