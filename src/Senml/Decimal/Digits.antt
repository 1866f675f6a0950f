-- ===== src/Senml/Decimal/Digits.antt =====
-- The digits that `scale_decimal` pushes spell the value of the literal, as long as it fits an `i64`.
use pv_matter.Common.{
  ℕ, zero, suc, ◌+◌, ◌-◌, ◌*◌, ◌≤◌, ◌≡◌, refl, [], ◌∷◌, ◌++◌, some, arith, leb, if◌then◌else◌,
  >>=-eq-some,
}
use pv_matter.Int.{i64_max}
use pv_matter.Text.{Text}
use pv_matter.Senml.Decimal.{push, push_all, push_fraction, round_surplus, scale_magnitude}

-- The number that digits spell behind `n`, with no bound.
abbrev pub value : ℕ → Text → ℕ
value n [] = n
value n (c ∷ s) = value (n * 10 + (c - b'0')) s

-- The first `exp` digits, filled up with zeros; and the digits behind them.
abbrev pub pad : ℕ → Text → Text
pad zero frac = []
pad (suc exp) [] = b'0' ∷ pad exp []
pad (suc exp) (c ∷ frac) = c ∷ pad exp frac

abbrev pub surplus : ℕ → Text → Text
surplus zero frac = frac
surplus (suc exp) [] = surplus exp []
surplus (suc exp) (c ∷ frac) = surplus exp frac

-- One more, if the first surplus digit is at least 5.
abbrev pub carry : Text → ℕ
carry [] = 0
carry (c ∷ s) = if leb b'5' c then 1 else 0

-- The rounded magnitude, with no bound.
abbrev pub rounded : ℕ → Text → ℕ → ℕ
rounded whole frac exp = value whole (pad exp frac) + carry (surplus exp frac)

pub value-append : (n : ℕ) (s t : Text) → value n (s ++ t) ≡ value (value n s) t
value-append n [] t = refl
value-append n (c ∷ s) t = value-append (n * 10 + (c - b'0')) s t

pub le-value : (n : ℕ) (s : Text) → n ≤ value n s
le-value n [] = omega arith
le-value n (c ∷ s) = omega (arith, le-value (n * 10 + (c - b'0')) s)

push_sound : (m b r : ℕ) → push m b ≡ some r → (r ≡ m * 10 + (b - b'0')) × (r ≤ i64_max)
unfolding push
push_sound m b r h = ground arith

push_complete : (m b : ℕ) → m * 10 + (b - b'0') ≤ i64_max → push m b ≡ some (m * 10 + (b - b'0'))
unfolding push
push_complete m b h = ground arith

push_all_sound :
    (s : Text) (m r : ℕ) → m ≤ i64_max → push_all s m ≡ some r → (r ≡ value m s) × (r ≤ i64_max)
unfolding push_all
push_all_sound [] m r h e = ground arith
push_all_sound (c ∷ s) m r h e =
    let (grown, pushed, rest) = >>=-eq-some (push m c) _ e in
    let (same, fits) = push_sound m c grown pushed in
    rw same at (push_all_sound s grown r fits rest)

push_all_complete : (s : Text) (m : ℕ) → value m s ≤ i64_max → push_all s m ≡ some (value m s)
unfolding push_all
push_all_complete [] m h = refl
push_all_complete (c ∷ s) m h =
    rw (push_complete m c (omega (arith, le-value (m * 10 + (c - b'0')) s)))
      (push_all_complete s _ h)

push_fraction_sound :
    (exp : ℕ) (frac : Text) (m r : ℕ) (rest : Text)
    → m ≤ i64_max
    → push_fraction exp frac m ≡ some (r, rest)
    → (r ≡ value m (pad exp frac)) × (rest ≡ surplus exp frac) × (r ≤ i64_max)
unfolding push_fraction
push_fraction_sound zero frac m r rest h e = ground arith
push_fraction_sound (suc exp) [] m r rest h e =
    let (grown, pushed, more) = >>=-eq-some (push m b'0') _ e in
    let (same, fits) = push_sound m b'0' grown pushed in
    rw same at (push_fraction_sound exp [] grown r rest fits more)
push_fraction_sound (suc exp) (c ∷ frac) m r rest h e =
    let (grown, pushed, more) = >>=-eq-some (push m c) _ e in
    let (same, fits) = push_sound m c grown pushed in
    rw same at (push_fraction_sound exp frac grown r rest fits more)

push_fraction_complete :
    (exp : ℕ) (frac : Text) (m : ℕ)
    → value m (pad exp frac) ≤ i64_max
    → push_fraction exp frac m ≡ some (value m (pad exp frac), surplus exp frac)
unfolding push_fraction
push_fraction_complete zero frac m h = refl
push_fraction_complete (suc exp) [] m h =
    rw (push_complete m b'0' (omega (arith, le-value (m * 10 + (b'0' - b'0')) (pad exp []))))
      (push_fraction_complete exp [] _ h)
push_fraction_complete (suc exp) (c ∷ frac) m h =
    rw (push_complete m c (omega (arith, le-value (m * 10 + (c - b'0')) (pad exp frac))))
      (push_fraction_complete exp frac _ h)

round_surplus_sound :
    (s : Text) (m r : ℕ)
    → m ≤ i64_max
    → round_surplus s m ≡ some r
    → (r ≡ m + carry s) × (r ≤ i64_max)
unfolding round_surplus
round_surplus_sound [] m r h e = ground arith
round_surplus_sound (c ∷ s) m r h e = ground arith

round_surplus_complete :
    (s : Text) (m : ℕ) → m + carry s ≤ i64_max → round_surplus s m ≡ some (m + carry s)
unfolding round_surplus
round_surplus_complete [] m h = ground arith
round_surplus_complete (c ∷ s) m h = ground arith

pub scale_magnitude_sound :
    (int_part frac_part : Text) (exp r : ℕ)
    → scale_magnitude int_part frac_part exp ≡ some r
    → (r ≡ rounded (value 0 int_part) frac_part exp) × (r ≤ i64_max)
unfolding scale_magnitude
scale_magnitude_sound int_part frac_part exp r e =
    let (whole, pushed, e') = >>=-eq-some (push_all int_part 0) _ e in
    let (same, fits) = push_all_sound int_part 0 whole (omega arith) pushed in
    let ((m, rest), pushed', e'') = >>=-eq-some (push_fraction exp frac_part whole) _ e' in
    let (same', same'', fits') = push_fraction_sound exp frac_part whole m rest fits pushed' in
    let (last, fits'') = round_surplus_sound rest m r fits' e'' in (cc, fits'')

pub scale_magnitude_complete :
    (int_part frac_part : Text) (exp : ℕ)
    → rounded (value 0 int_part) frac_part exp ≤ i64_max
    → scale_magnitude int_part frac_part exp ≡ some (rounded (value 0 int_part) frac_part exp)
unfolding scale_magnitude
scale_magnitude_complete int_part frac_part exp h =
    let whole = value 0 int_part in
    rw
      (
        push_all_complete int_part 0 (omega (arith, le-value whole (pad exp frac_part))),
        push_fraction_complete exp frac_part whole (omega arith),
      )
      (round_surplus_complete (surplus exp frac_part) _ h)
