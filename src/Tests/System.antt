-- ===== src/Tests/System.antt =====
-- A run of the whole program: an identity in the bootstrap, and a status in the steady loop.
use pv_matter.Common.{◌≤◌, ℕ, ◌≡◌, ◌⊎◌, refl, [], ◌∷◌, none, some, arith}
use pv_matter.Text.{Text, codes, strip_prefix, split_once, contains, text_eq, trim, is_whitespace}
use pv_matter.Text.Utf8.{from_utf8_lossy}
use pv_matter.Int.{wrap_i64}
use pv_matter.Domain.{info, status, default_state, apply_all}
use pv_matter.Domain.Info.{parse_info}
use pv_matter.Domain.Status.{online, parse_link_status}
use pv_matter.Ingest.{Router, new_router, address, decode_leaf, route}
use pv_matter.System.{
  System, Internal, initial, Reach, start, next, poll, internal, send, boot_take, boot, take,
  forward, receive, floor_over, report, Settles, here, then_step,
}
use pv_matter.System.Messages.{routed, IsConserved, Reach-IsConserved}
use pv_matter.System.Sequential.{IsBooting, IsRunning}
use pv_matter.System.Tasks.{IsIngested, Reach-tasks}
use pv_matter.System.Monotone.{Comes, by_step, NeverBack, Comes-NeverBack}
use pv_matter.System.Truth.{ReadsTruth, Reach-ReadsTruth}
use pv_matter.System.Progress.{run_length, IsQuiet}
use pv_matter.Domain.Redelivery.{Redelivers, done, delivered, redelivered}
use pv_matter.System.Redelivered.{IsQuiet-Redelivers}
use pv_matter.System.Bounded.{Settles-reads_within}
use pv_matter.System.Settled.{Reach-Settles, Reach_settles}
use pv_matter.Tests.Fixtures.{serde, inverter}

abbrev pub epoch : ℕ
epoch = 946_684_800

abbrev pub prefix : Text
prefix = codes "pv"

abbrev pub first_router : Router
first_router =
    (route serde (new_router prefix none) (from_utf8_lossy (codes "pv/a/info"))
      (1 ∷ 2 ∷ 3 ∷ [])).router

pub info_routed :
    (route serde
      (new_router prefix none)
      (from_utf8_lossy (codes "pv/a/info"))
      (1 ∷ 2 ∷ 3 ∷ [])).message
    ≡ some (info inverter)
unfolding route address strip_prefix new_router split_once contains decode_leaf text_eq parse_info
    from_utf8_lossy wrap_i64
info_routed = refl

pub status_routed :
    (route serde first_router (from_utf8_lossy (codes "pv/a/status")) (codes "online")).message
    ≡ some (status online)
unfolding route address strip_prefix new_router split_once contains decode_leaf text_eq parse_info
    from_utf8_lossy parse_link_status trim is_whitespace
status_routed = refl

abbrev inform : (s : System) × Reach serde epoch prefix none s
unfolding initial
inform = (_, next start (poll _ (codes "pv/a/info") (1 ∷ 2 ∷ 3 ∷ []) refl))

abbrev booted : (s : System) × Reach serde epoch prefix none s
unfolding initial
booted = (
  _,
  next
      (next (next inform.1 (internal (send _ (info inverter) info_routed (omega arith))))
        (internal (boot_take _ (info inverter) [] refl refl refl)))
      (internal (boot _ refl)),
)

-- The status is on its way to the bridge.
abbrev pub held_up : (s : System) × Reach serde epoch prefix none s
unfolding initial
held_up = (
  _,
  next
      (next
        (next (next booted.1 (poll _ (codes "pv/a/status") (codes "online") refl))
          (internal (send _ (status online) status_routed (omega arith))))
        (internal (take _ (status online) [] refl refl refl)))
      (internal (forward _ _ refl (omega arith))),
)

abbrev pub held : System
held = held_up.0

-- The bridge takes the snapshot, waits and settles; then nothing is on its way.
abbrev pub settled : (t : System) × Settles serde epoch held t
unfolding initial
settled = (
  _,
  then_step (then_step (then_step here (receive _ _ [] refl refl refl)) (floor_over _ _ refl))
      (report _ _ 7 refl refl),
)

pub settled-IsQuiet : IsQuiet settled.0
unfolding initial
settled-IsQuiet = record {
  sending = refl;
  inbox = refl;
  phase = refl;
  forwarding = refl;
  updates = refl;
  holding = refl;
}

Reach_settles_example :
    (t : System) × Settles serde epoch held t
    × IsQuiet t
    × (t.bridge.shared
        ≡ (apply_all default_state (routed serde (new_router prefix none) held.published)).snapshot)
Reach_settles_example = Reach_settles held_up.1

Settles-reads_within_example :
    (run_length settled.1 ≤ 464)
    × (((u : System) → ¬ (Internal serde epoch settled.0 u))
        → settled.0.bridge.shared
          ≡ (apply_all default_state
              (routed serde (new_router prefix none) held.published)).snapshot)
Settles-reads_within_example = Settles-reads_within held_up.1 settled.1

Reach-ReadsTruth_example : ReadsTruth serde prefix none held
Reach-ReadsTruth_example = Reach-ReadsTruth held_up.1

Reach-IsConserved_example : IsConserved serde prefix none epoch held
Reach-IsConserved_example = Reach-IsConserved serde prefix none epoch held_up.1

status_routed_again :
    (route serde
      (route serde first_router (from_utf8_lossy (codes "pv/a/status")) (codes "online")).router
      (from_utf8_lossy (codes "pv/a/status"))
      (codes "online")).message
    ≡ some (status online)
unfolding route address strip_prefix new_router split_once contains decode_leaf text_eq parse_info
    from_utf8_lossy parse_link_status trim is_whitespace
status_routed_again = refl

settled-Comes : Comes serde epoch held settled.0
unfolding initial
settled-Comes =
    by_step
      (by_step (by_step Comes.here (internal (receive _ _ [] refl refl refl)))
        (internal (floor_over _ _ refl)))
      (internal (report _ _ 7 refl refl))

Comes-NeverBack_example : NeverBack held settled.0
Comes-NeverBack_example = Comes-NeverBack held_up.1 settled-Comes

pub settled_reach : Reach serde epoch prefix none settled.0
settled_reach = Reach-Settles held_up.1 settled.1

-- The status comes again.
abbrev repeated : (s : System) × Reach serde epoch prefix none s
unfolding initial
repeated = (
  _,
  next
      (next (next settled_reach (poll _ (codes "pv/a/status") (codes "online") refl))
        (internal (send _ (status online) status_routed_again (omega arith))))
      (internal (take _ (status online) [] refl refl refl)),
)

abbrev repeated_settled : (t : System) × Settles serde epoch repeated.0 t
unfolding initial
repeated_settled = (
  _,
  then_step
      (then_step
        (then_step (then_step here (forward _ _ refl (omega arith)))
          (receive _ _ [] refl refl refl))
        (floor_over _ _ refl))
      (report _ _ 9 refl refl),
)

repeated_settled-IsQuiet : IsQuiet repeated_settled.0
unfolding initial
repeated_settled-IsQuiet = record {
  sending = refl;
  inbox = refl;
  phase = refl;
  forwarding = refl;
  updates = refl;
  holding = refl;
}

status_redelivered : Redelivers settled.0.published repeated_settled.0.published
unfolding initial
status_redelivered = delivered _ (redelivered _ (delivered _ done))

IsQuiet-Redelivers_example : repeated_settled.0.bridge.shared ≡ settled.0.bridge.shared
IsQuiet-Redelivers_example =
    IsQuiet-Redelivers settled_reach (Reach-Settles repeated.1 repeated_settled.1) settled-IsQuiet
      repeated_settled-IsQuiet status_redelivered

Reach-tasks_example : IsIngested serde prefix none held × (IsBooting held ⊎ IsRunning epoch held)
Reach-tasks_example = Reach-tasks held_up.1
