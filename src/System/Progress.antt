-- ===== src/System/Progress.antt =====
-- How far the program can go when no more publishes come, by a measure of what is on its way.
use mathlib.Core.Path.{ap}
use pv_matter.Common.{
  ℕ, zero, suc, ◌+◌, ◌*◌, ◌<◌, ◌≤◌, ◌≡◌, refl, List, [], ◌∷◌, Option, none, some, arith, length,
  length-append, ◌⊎◌, inl, inr, Option-cases,
}
use pv_matter.Serde.{SerdeJson}
use pv_matter.Domain.Snapshot.{PvSnapshot}
use pv_matter.System.{
  Phase, booting, steady, Holding, idle, waiting, draining, System, Internal, send, boot_take, boot,
  take, forward, receive, floor_over, drain, report, Settles, here, then_step,
}

unfoldable pub phase_weight : Phase → ℕ
phase_weight booting = 1
phase_weight steady = 0

unfoldable pub holding_weight : Holding → ℕ
holding_weight idle = 0
holding_weight (waiting u) = 3
holding_weight (draining u) = 2

abbrev pub option_weight {ℓ} : {A : Type ℓ} → ℕ → Option A → ℕ
option_weight n none = 0
option_weight n (some a) = n

-- How many internal steps are left at most.
unfoldable pub steps_left : System → ℕ
unfolding phase_weight holding_weight
steps_left s =
    phase_weight s.phase
    + option_weight 7 s.sending
    + 6 * length s.inbox
    + option_weight 5 s.forwarding
    + 4 * length s.updates
    + holding_weight s.holding

-- Nothing is on its way.
pub record IsQuiet (s : System) : Type 0 where
  pub sending : s.sending ≡ none
  pub inbox : s.inbox ≡ []
  pub phase : s.phase ≡ steady
  pub forwarding : s.forwarding ≡ none
  pub updates : s.updates ≡ []
  pub holding : s.holding ≡ idle

pub List-cases {ℓ} :
    {A : Type ℓ} (xs : List A) → (xs ≡ []) ⊎ ((a : A) × (ys : List A) × (xs ≡ a ∷ ys))
List-cases [] = inl refl
List-cases (x ∷ xs) = inr (x, xs, refl)

pub Holding-cases :
    (h : Holding)
    → (h ≡ idle) ⊎ ((u : PvSnapshot) × (h ≡ waiting u)) ⊎ ((u : PvSnapshot) × (h ≡ draining u))
Holding-cases idle = inl refl
Holding-cases (waiting u) = inr (inl (u, refl))
Holding-cases (draining u) = inr (inr (u, refl))

pub Phase-cases : (p : Phase) → (p ≡ booting) ⊎ (p ≡ steady)
Phase-cases booting = inl refl
Phase-cases steady = inr refl

module _ {serde : SerdeJson} {matter_epoch_secs : ℕ} where
  pub Internal-lt :
      {s t : System} → Internal serde matter_epoch_secs s t → steps_left t < steps_left s
  unfolding steps_left
  Internal-lt (send s m e room) = ground (arith, length-append s.inbox (m ∷ []))
  Internal-lt (boot_take s m inbox b i e) = ground (arith, ap length e)
  Internal-lt (boot s b) = ground arith
  Internal-lt (take s m inbox b f e) = ground (arith, ap length e)
  Internal-lt (forward s u e room) = ground (arith, length-append s.updates (u ∷ []))
  Internal-lt (receive s u updates b h e) = ground (arith, ap length e)
  Internal-lt (floor_over s u e) = ground arith
  Internal-lt (drain s u newer updates h e) = ground (arith, ap length e)
  Internal-lt (report s u at h e) = ground arith

  -- The steps of a run.
  pub run_length : {s t : System} → Settles serde matter_epoch_secs s t → ℕ
  run_length here = 0
  run_length (then_step r st) = run_length r + 1

  -- A run of internal steps is no longer than `steps_left` of its start: it cannot go on for ever.
  pub run_length-le :
      {s t : System} (r : Settles serde matter_epoch_secs s t)
      → run_length r + steps_left t ≤ steps_left s
  unfolding run_length
  run_length-le here = omega arith
  run_length-le (then_step r st) = omega (arith, run_length-le r, Internal-lt st)

  -- A state that is not quiet has a step: the tasks do not wait for one another for ever.
  pub progress : (s : System) → IsQuiet s ⊎ ((t : System) × Internal serde matter_epoch_secs s t)
  progress s = elim (Phase-cases s.phase) [
    | inl b ↦ inr (_, boot s b)
    | inr p ↦ elim (Holding-cases s.holding) [
      | inr (inl (u, w)) ↦ inr (_, floor_over s u w)
      | inr (inr (u, d)) ↦ elim (List-cases s.updates) [
        | inl none_left ↦ inr (_, report s u 0 d none_left)
        | inr (newer, updates, more) ↦ inr (_, drain s u newer updates d more)
      ]
      | inl i ↦ elim (List-cases s.updates) [
        | inr (u, updates, more) ↦ inr (_, receive s u updates p i more)
        | inl none_left ↦ elim (Option-cases s.forwarding) [
          | inr (u, f) ↦ inr (_, forward s u f (rw none_left (omega arith)))
          | inl free ↦ elim (List-cases s.inbox) [
            | inr (m, inbox, more) ↦ inr (_, take s m inbox p free more)
            | inl empty ↦ elim (Option-cases s.sending) [
              | inr (m, e) ↦ inr (_, send s m e (rw empty (omega arith)))
              | inl done ↦ inl (record {
                sending = done;
                inbox = empty;
                phase = p;
                forwarding = free;
                updates = none_left;
                holding = i;
              })
            ]
          ]
        ]
      ]
    ]
  ]

  -- A quiet state has no internal step.
  pub IsQuiet-stops : {s t : System} → IsQuiet s → ¬ (Internal serde matter_epoch_secs s t)
  IsQuiet-stops q (send s m e room) = let h = q.sending in cc
  IsQuiet-stops q (boot_take s m inbox b i e) = let h = q.phase in cc
  IsQuiet-stops q (boot s b) = let h = q.phase in cc
  IsQuiet-stops q (take s m inbox p f e) = let h = q.inbox in cc
  IsQuiet-stops q (forward s u e room) = let h = q.forwarding in cc
  IsQuiet-stops q (receive s u updates p h e) = let k = q.updates in cc
  IsQuiet-stops q (floor_over s u e) = let h = q.holding in cc
  IsQuiet-stops q (drain s u newer updates h e) = let k = q.updates in cc
  IsQuiet-stops q (report s u at h e) = let k = q.holding in cc

  step_first :
      {s t u : System}
      → Internal serde matter_epoch_secs s t
      → Settles serde matter_epoch_secs t u
      → Settles serde matter_epoch_secs s u
  step_first st here = then_step here st
  step_first st (then_step r last) = then_step (step_first st r) last

  pub settle_within :
      (n : ℕ) (s : System)
      → steps_left s < n
      → (t : System) × Settles serde matter_epoch_secs s t × IsQuiet t
  settle_within zero s h = absurd (omega arith)
  settle_within (suc n) s h = elim (progress s) [
    | inl quiet ↦ (s, here, quiet)
    | inr (t, st) ↦
        let (u, r, quiet) = settle_within n t (omega (arith, Internal-lt st)) in
        (u, step_first st r, quiet)
  ]
