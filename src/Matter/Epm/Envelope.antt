-- ===== src/Matter/Epm/Envelope.antt =====
-- The accuracy envelopes against the nameplate rating, and the sign convention.
use pv_matter.Common.{
  ℕ, ◌*◌, ◌/◌, ◌^◌, ◌≤◌, ◌≡◌, refl, Option, none, some, map_opt, List, arith, All,
}
use pv_matter.Int.{
  ℤ, pos, negsuc, neg, ◌*ℤ◌, ◌≤ℤ◌, wrap_i64, wrap_i64_of_IsI64, div_trunc, i64_max, IsI64,
}
use pv_matter.Domain.{DomainMsg, default_state, apply_all}
use pv_matter.Domain.Range.{IsMirrored, IfSome, apply_all-IsInRange}
use pv_matter.Matter.Epm.{
  AccuracyEntry, active_power_current_min, accuracy_entries, active_current, active_power,
  voltage_min,
}

mul_pos : (a b : ℕ) → pos a *ℤ pos b ≡ pos (a * b)
mul_pos a b = ground arith

div_trunc_pos : (n d : ℕ) → div_trunc (pos n) d ≡ pos (n / d)
unfolding div_trunc
div_trunc_pos n d = refl

neg-IsI64 : (n : ℕ) → n ≤ i64_max → IsI64 (neg (pos n))
neg-IsI64 n h = ground arith

-- For a rating that is a sum of `u32` ratings of at most 1900 lines, the bounds are the exact ones: no
-- product overflows, and the current bound is the power bound over 185 V, rounded down.
pub active_power_current_min_exact :
    (w : ℕ)
    → w ≤ 1_900 * 2 ^ 32
    → active_power_current_min (some (pos w))
      ≡ (neg (pos (w * 1_100)), neg (pos (w * 1_100 * 1_000 / voltage_min)))
unfolding active_power_current_min
active_power_current_min_exact w h =
    rw
      (
        mul_pos w 1_100,
        wrap_i64_of_IsI64 (pos (w * 1_100)) (omega arith),
        mul_pos (w * 1_100) 1_000,
        wrap_i64_of_IsI64 (pos (w * 1_100 * 1_000)) (omega arith),
        wrap_i64_of_IsI64 (neg (pos (w * 1_100))) (neg-IsI64 (w * 1_100) (omega arith)),
        div_trunc_pos (w * 1_100 * 1_000) voltage_min,
      )
      (rw (
        wrap_i64_of_IsI64 (neg (pos (w * 1_100 * 1_000 / voltage_min)))
          (neg-IsI64 (w * 1_100 * 1_000 / voltage_min) (omega arith))))

neg_le : (m n : ℕ) → m ≤ n → neg (pos n) ≤ℤ neg (pos m)
neg_le m n h = ground arith

current-le :
    (w power_mw current_ma voltage_mv : ℕ)
    → power_mw ≤ w * 1_100
    → voltage_min ≤ voltage_mv
    → current_ma * voltage_mv ≤ power_mw * 1_000
    → current_ma ≤ w * 1_100 * 1_000 / voltage_min
current-le w p i v hp hv hi = omega (arith, product)
  where
    product : i * voltage_min ≤ i * v
    product = grind arith

-- For a rating that is a sum of `u32` ratings of at most 1900 lines: production of up to 110 % of it, at
-- 185 V or more, is reported above the lower bounds of
-- ActivePower and ActiveCurrent.
pub active_power_current_min_bounds :
    (w power_mw current_ma voltage_mv : ℕ)
    → w ≤ 1_900 * 2 ^ 32
    → power_mw ≤ w * 1_100
    → voltage_min ≤ voltage_mv
    → current_ma * voltage_mv ≤ power_mw * 1_000
    → ((active_power_current_min (some (pos w))).0 ≤ℤ neg (pos power_mw))
      × ((active_power_current_min (some (pos w))).1 ≤ℤ neg (pos current_ma))
active_power_current_min_bounds w p i v h hp hv hi =
    rw (active_power_current_min_exact w h)
      (neg_le p (w * 1_100) hp, neg_le i _ (current-le w p i v hp hv hi))

-- Every row of the accuracy list is an interval, for a rating that is a sum of `u32` ratings of at most
-- 1900 lines and without a rating.
pub accuracy_entries-AreIntervals :
    (w : ℕ)
    → w ≤ 1_900 * 2 ^ 32
    → All (λ (e : AccuracyEntry). e.min ≤ℤ e.max) (accuracy_entries (some (pos w)))
      × All (λ (e : AccuracyEntry). e.min ≤ℤ e.max) (accuracy_entries none)
unfolding accuracy_entries
accuracy_entries-AreIntervals w h =
    let (power, current) =
      active_power_current_min_bounds w 0 0 voltage_min h (omega arith) (omega arith)
        (omega arith) in
    (
      (power, (omega arith, (current, (omega arith, tt)))),
      unfold active_power_current_min in omega arith,
    )

wrap_neg : (o : Option ℤ) → IfSome IsMirrored o → map_opt (λ z. wrap_i64 (neg z)) o ≡ map_opt neg o
wrap_neg none h = refl
wrap_neg (some z) h = rw (wrap_i64_of_IsI64 (neg z) (mirror z h))
  where
    mirror : (z : ℤ) → IsMirrored z → IsI64 (neg z)
    mirror (pos n) h = ground arith
    mirror (negsuc n) h = ground arith

-- Whatever was received, the reads are the exact negation of the published values: the sign flip
-- never wraps around.
pub sign_flip_exact :
    (msgs : List DomainMsg)
    → let s = (apply_all default_state msgs).snapshot in
      (active_power s ≡ map_opt neg s.power_mw) × (active_current s ≡ map_opt neg s.current_ma)
unfolding active_power active_current
sign_flip_exact msgs =
    let range = apply_all-IsInRange msgs in (wrap_neg _ range.power, wrap_neg _ range.current)
