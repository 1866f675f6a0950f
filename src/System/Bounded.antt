-- ===== src/System/Bounded.antt =====
-- How many steps the program can take at most when no more publishes come.
use pv_matter.Common.{ℕ, ◌+◌, ◌*◌, ◌≤◌, ◌≡◌, Option, none, some, arith}
use pv_matter.Text.{Text}
use pv_matter.Serde.{SerdeJson}
use pv_matter.Domain.{default_state, apply_all}
use pv_matter.Ingest.{new_router}
use pv_matter.System.Messages.{routed, IsBounded, Reach-IsBounded}
use pv_matter.System.Progress.{
  phase_weight, holding_weight, option_weight, steps_left, run_length, run_length-le,
}
use pv_matter.System.Settled.{Settles-reads}
use pv_matter.System.{
  Phase, booting, steady, Holding, idle, waiting, draining, System, Internal, Reach, Settles,
  msg_channel_capacity, updates_capacity,
}

-- The weight of the phase, of what is held, and of two full channels.
abbrev pub most_steps : ℕ
most_steps = 1 + 7 + 6 * msg_channel_capacity + 5 + 4 * updates_capacity + 3

phase_weight-le : (p : Phase) → phase_weight p ≤ 1
unfolding phase_weight
phase_weight-le booting = omega arith
phase_weight-le steady = omega arith

holding_weight-le : (h : Holding) → holding_weight h ≤ 3
unfolding holding_weight
holding_weight-le idle = omega arith
holding_weight-le (waiting u) = omega arith
holding_weight-le (draining u) = omega arith

option_weight-le {ℓ} : {A : Type ℓ} (n : ℕ) (o : Option A) → option_weight n o ≤ n
option_weight-le n none = omega arith
option_weight-le n (some a) = omega arith

steps_left-le : (s : System) → IsBounded s → steps_left s ≤ most_steps
unfolding steps_left
steps_left-le s b = omega (
  arith,
  phase_weight-le s.phase,
  option_weight-le 7 s.sending,
  b.inbox,
  option_weight-le 5 s.forwarding,
  b.updates,
  holding_weight-le s.holding,
)

module _ {serde : SerdeJson} {matter_epoch_secs : ℕ} where
  -- However the tasks are scheduled, when no more publishes come the program takes at most 464 steps from
  -- any reachable state on, and where it can take none, the handlers read the fold of the routed messages
  -- of all publishes.
  pub Settles-reads_within :
      {prefix : Text} {pinned_device : Option Text} {s t : System}
      → Reach serde matter_epoch_secs prefix pinned_device s
      → (r : Settles serde matter_epoch_secs s t)
      → (run_length r ≤ 464)
        × (((u : System) → ¬ (Internal serde matter_epoch_secs t u))
            → t.bridge.shared
              ≡ (apply_all default_state
                  (routed serde (new_router prefix pinned_device) s.published)).snapshot)
  Settles-reads_within {s} {t} reach r = (
    omega (arith, run_length-le r, steps_left-le s (Reach-IsBounded reach)),
    Settles-reads reach r,
  )
