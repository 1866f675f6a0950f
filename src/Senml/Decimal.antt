-- ===== src/Senml/Decimal.antt =====
-- `scale_decimal` of src/senml.rs. After the test that all bytes are digits, the bytes of a part are
-- its code points; the `i64` magnitude is never negative, so its checked operations are on ℕ.
pub mod Digits
pub mod Rounding
pub mod Literal
pub mod Grammar
use pv_matter.Common.{
  ℕ, zero, suc, ◌+◌, ◌-◌, ◌*◌, Bool, true, false, not, ◌&&◌, ◌||◌, List, [], ◌∷◌, Option, none,
  some, get_or, ◌>>=◌, leb, ◌==◌, if◌then◌else◌, ◌≡◌, refl,
}
use pv_matter.Int.{ℤ, pos, negsuc, neg, i64_max}
use pv_matter.Text.{Text, codes, is_empty, trim, split_once}

-- A checked `i64` result that is not negative.
abbrev pub checked : ℕ → Option ℕ
checked n = if leb n i64_max then some n else none

-- The closure `push`: the magnitude and one digit.
unfoldable pub push : ℕ → ℕ → Option ℕ
push magnitude digit = do tenfold ← checked (magnitude * 10); checked (tenfold + (digit - b'0'))

unfoldable pub push_all : Text → ℕ → Option ℕ
push_all [] magnitude = some magnitude
push_all (b ∷ s) magnitude = do grown ← push magnitude b; push_all s grown

-- The loop `for _ in 0..exp`: the magnitude, and what is left of the fraction digits.
unfoldable pub push_fraction : ℕ → Text → ℕ → Option (ℕ × Text)
push_fraction zero frac magnitude = some (magnitude, frac)
push_fraction (suc exp) [] magnitude = do grown ← push magnitude b'0'; push_fraction exp [] grown
push_fraction (suc exp) (b ∷ frac) magnitude = do
  grown ← push magnitude b
  push_fraction exp frac grown

unfoldable pub round_surplus : Text → ℕ → Option ℕ
round_surplus [] magnitude = some magnitude
round_surplus (next ∷ _) magnitude =
    if leb b'5' next then checked (magnitude + 1) else some magnitude

unfoldable pub scale_magnitude : Text → Text → ℕ → Option ℕ
scale_magnitude int_part frac_part exp = do
  whole ← push_all int_part 0
  (magnitude, surplus) ← push_fraction exp frac_part whole
  round_surplus surplus magnitude

abbrev pub is_digit : ℕ → Bool
is_digit b = leb b'0' b && leb b b'9'

unfoldable pub all_digits : Text → Bool
all_digits [] = true
all_digits (b ∷ s) = is_digit b && all_digits s

-- `(negative, digits)`
unfoldable pub split_sign : Text → Bool × Text
split_sign [] = (false, [])
split_sign (c ∷ s) =
    if c == b'-' then (true, s) else if c == b'+' then (false, s) else (false, c ∷ s)

unfoldable pub split_point : Text → Text × Text
split_point digits = get_or (split_once b'.' digits) (digits, [])

abbrev pub signed : Bool → ℕ → ℤ
signed negative magnitude = if negative then neg (pos magnitude) else pos magnitude

unfoldable pub scale_parts : Bool → Text → Text → ℕ → Option ℤ
scale_parts negative int_part frac_part exp =
    if is_empty int_part && is_empty frac_part
    then none
    else if not (all_digits int_part) || not (all_digits frac_part)
    then none
    else (scale_magnitude int_part frac_part exp >>= λ m. some (signed negative m))

unfoldable pub scale_decimal : Text → ℕ → Option ℤ
unfolding scale_parts scale_magnitude round_surplus push_fraction push_all push all_digits
    split_sign split_point
scale_decimal raw exp =
    let (negative, digits) = split_sign (trim raw) in
    let (int_part, frac_part) = split_point digits in scale_parts negative int_part frac_part exp

-- The last line of `scale_decimal`, with the parts as arguments.
pub scale_decimal_parts :
    (raw : Text) (exp : ℕ)
    → let (negative, digits) = split_sign (trim raw) in
      let (int_part, frac_part) = split_point digits in
      scale_decimal raw exp ≡ scale_parts negative int_part frac_part exp
unfolding scale_decimal
scale_decimal_parts raw exp = refl
