-- ===== src/Senml/Decimal/Rounding.antt =====
-- The rounding of `scale_decimal` against an independent description: the nearest integer.
use native.Mathlib.Nat.{pow-suc}
use pv_matter.Common.{
  ℕ, zero, suc, ◌+◌, ◌-◌, ◌*◌, ◌≤◌, ◌<◌, ◌^◌, ◌≡◌, refl, inl, inr, [], ◌∷◌, arith, leb, All, length,
  Bool-cases,
}
use pv_matter.Text.{Text}
use pv_matter.Senml.Decimal.Digits.{value, surplus, carry, rounded}

abbrev pub IsDigit : ℕ → Type 0
IsDigit c = (b'0' ≤ c) × (c ≤ b'9')

abbrev pub AllDigits : Text → Type 0
AllDigits s = All IsDigit s

-- `m` is n * 10 ^ exp / 10 ^ k, the half rounded up.
pub record IsNearest (m n k exp : ℕ) : Type 0 where
  pub not_above : 2 * (m * 10 ^ k) ≤ 2 * (n * 10 ^ exp) + 10 ^ k
  pub not_below : 2 * (n * 10 ^ exp) < 2 * (m * 10 ^ k) + 10 ^ k

mul_mono : (a b p : ℕ) → a ≤ b → a * p ≤ b * p
mul_mono a b p h = grind arith

-- One digit `d` behind `m`, at the place of weight `p`.
digit_bounds :
    (m d p v : ℕ)
    → d ≤ 9
    → (m * 10 + d) * p ≤ v
    → v < (m * 10 + d + 1) * p
    → (m * (p * 10) ≤ v) × (v < (m + 1) * (p * 10))
digit_bounds m d p v h low high = omega (arith, mul_mono d 9 p h)

-- A digit from 5 on rounds up, and a smaller one down.
round_up :
    (m d p v : ℕ)
    → 5 ≤ d
    → d ≤ 9
    → (m * 10 + d) * p ≤ v
    → v < (m * 10 + d + 1) * p
    → (2 * ((m + 1) * (p * 10)) ≤ 2 * v + p * 10) × (2 * v < 2 * ((m + 1) * (p * 10)) + p * 10)
round_up m d p v h k low high = omega (arith, mul_mono 5 d p h, mul_mono d 9 p k)

round_down :
    (m d p v : ℕ)
    → d ≤ 4
    → (m * 10 + d) * p ≤ v
    → v < (m * 10 + d + 1) * p
    → (2 * (m * (p * 10)) ≤ 2 * v + p * 10) × (2 * v < 2 * (m * (p * 10)) + p * 10)
round_down m d p v h low high = omega (arith, mul_mono d 4 p h)

value_bounds :
    (n : ℕ) (s : Text)
    → AllDigits s
    → (n * 10 ^ length s ≤ value n s) × (value n s < (n + 1) * 10 ^ length s)
value_bounds n [] h = (omega arith, omega arith)
value_bounds n (c ∷ s) h =
    let m = n * 10 + (c - b'0') in
    let (low, high) = value_bounds m s h.1 in
    rw pow-suc (digit_bounds n (c - b'0') (10 ^ length s) _ (omega arith) low high)

carry-surplus-nil : (exp : ℕ) → carry (surplus exp []) ≡ 0
carry-surplus-nil zero = refl
carry-surplus-nil (suc exp) = carry-surplus-nil exp

rounded_zero-IsNearest :
    (m : ℕ) (frac : Text)
    → AllDigits frac
    → IsNearest (rounded m frac 0) (value m frac) (length frac) 0
rounded_zero-IsNearest m [] h = omega arith
rounded_zero-IsNearest m (c ∷ s) h =
    let d = c - b'0' in
    let (low, high) = value_bounds (m * 10 + d) s h.1 in
    elim (Bool-cases (leb b'5' c)) [
      | inl up ↦
          let (above, below) =
            round_up m d (10 ^ length s) _ (ground arith) (omega arith) low high in
          record {
            not_above = rw up (rw pow-suc (omega (arith, above)));
            not_below = rw up (rw pow-suc (omega (arith, below)));
          }
      | inr down ↦
          let (above, below) = round_down m d (10 ^ length s) _ (ground arith) low high in
          record {
            not_above = rw down (rw pow-suc (omega (arith, above)));
            not_below = rw down (rw pow-suc (omega (arith, below)));
          }
    ]

pub rounded-IsNearest :
    (exp m : ℕ) (frac : Text)
    → AllDigits frac
    → IsNearest (rounded m frac exp) (value m frac) (length frac) exp
rounded-IsNearest zero m frac h = rounded_zero-IsNearest m frac h
rounded-IsNearest (suc exp) m [] h =
    let near = rounded-IsNearest exp (m * 10 + (b'0' - b'0')) [] h in
    record {
      not_above = simp pow-suc (omega (arith, near.not_above));
      not_below = simp pow-suc (omega (arith, near.not_below));
    }
rounded-IsNearest (suc exp) m (c ∷ frac) h =
    let near = rounded-IsNearest exp (m * 10 + (c - b'0')) frac h.1 in
    record {
      not_above = simp pow-suc (omega (arith, near.not_above));
      not_below = simp pow-suc (omega (arith, near.not_below));
    }

le_of_IsNearest : (m m' n k exp : ℕ) → IsNearest m n k exp → IsNearest m' n k exp → m ≤ m'
le_of_IsNearest m m' n k exp h h' = ground (arith, mul_mono (suc m') m (10 ^ k))

-- There is one nearest integer.
pub IsNearest-unique : (m m' n k exp : ℕ) → IsNearest m n k exp → IsNearest m' n k exp → m ≡ m'
IsNearest-unique m m' n k exp h h' =
    omega (arith, le_of_IsNearest m m' n k exp h h', le_of_IsNearest m' m n k exp h' h)
