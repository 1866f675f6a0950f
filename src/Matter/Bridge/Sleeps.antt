-- ===== src/Matter/Bridge/Sleeps.antt =====
-- How long the loop of src/matter/bridge.rs sleeps, by the effects of an iteration.
use pv_matter.Common.{ℕ, ◌+◌, ◌≡◌, refl, Bool, true, false, List, [], ◌∷◌, ◌++◌, arith}
use pv_matter.Int.{ℤ}
use pv_matter.Domain.Snapshot.{PvSnapshot}
use pv_matter.Matter.Bridge.{
  Attribute, Effect, sleep, notify, cumulative_energy_measured, log_accuracy_mins, Bridge, Wake,
  newest, floor_wait, same_snapshot, settle, iterate, sleep_effects, one_if, energy_effects,
  report_changes,
}

-- How long some effects sleep.
unfoldable pub slept : List Effect → ℕ
slept [] = 0
slept (sleep n ∷ effects) = n + slept effects
slept (notify a ∷ effects) = slept effects
slept (cumulative_energy_measured e ∷ effects) = slept effects
slept (log_accuracy_mins m ∷ effects) = slept effects

slept-append : (xs ys : List Effect) → slept (xs ++ ys) ≡ slept xs + slept ys
unfolding slept
slept-append [] ys = omega arith
slept-append (sleep n ∷ xs) ys = omega (arith, slept-append xs ys)
slept-append (notify a ∷ xs) ys = slept-append xs ys
slept-append (cumulative_energy_measured e ∷ xs) ys = slept-append xs ys
slept-append (log_accuracy_mins m ∷ xs) ys = slept-append xs ys

slept-sleep_effects : (wait : ℕ) → slept (sleep_effects wait) ≡ wait
unfolding slept
slept-sleep_effects wait = ground arith

slept-notify : (b : Bool) (a : Attribute) → slept (one_if b (notify a)) ≡ 0
unfolding slept
slept-notify true a = refl
slept-notify false a = refl

slept-log : (b : Bool) (m : ℤ × ℤ) → slept (one_if b (log_accuracy_mins m)) ≡ 0
unfolding slept
slept-log true m = refl
slept-log false m = refl

slept-energy_effects :
    (epoch : ℕ) (b : Bool) (next : PvSnapshot) → slept (energy_effects epoch b next) ≡ 0
unfolding slept
slept-energy_effects epoch false next = refl
slept-energy_effects epoch true next = ground arith

slept-report_changes :
    (epoch : ℕ) (prev next : PvSnapshot) → slept (report_changes epoch prev next) ≡ 0
unfolding report_changes
slept-report_changes epoch prev next =
    simp (slept-append, slept-notify, slept-energy_effects, slept-log) (omega arith)

slept-settle :
    (epoch : ℕ) (same : Bool) (b : Bridge) (next : PvSnapshot) (at : ℕ)
    → slept (settle epoch same b next at).1 ≡ 0
unfolding settle
slept-settle epoch true b next at = unfold slept in refl
slept-settle epoch false b next at = slept-report_changes epoch b.prev next

-- An iteration sleeps out the report floor, and no longer.
pub slept-iterate :
    (epoch : ℕ) (b : Bridge) (w : Wake)
    → slept (iterate epoch b w).1 ≡ floor_wait b.last_report w.received_at
unfolding iterate
slept-iterate epoch b w =
    let next = newest w.first w.queued in
    let wait = floor_wait b.last_report w.received_at in
    let same = same_snapshot next b.prev in
    omega (
      arith,
      slept-sleep_effects wait,
      slept-settle epoch same b next w.reported_at,
      slept-append (sleep_effects wait) (settle epoch same b next w.reported_at).1,
    )
