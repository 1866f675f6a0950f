-- ===== src/Senml/Decimal/Grammar.antt =====
-- Which literals `scale_decimal` accepts, and the value that it returns for them.
use pv_matter.Common.{
  ℕ, ◌≤◌, ◌≡◌, refl, ◌++◌, Option, some, arith, length, append_assoc, sym, ap, ◌∙◌, ◌↔◌,
}
use pv_matter.Int.{ℤ, pos, neg, ◌≤ℤ◌, i64_max}
use pv_matter.Text.{Text, trim}
use pv_matter.Text.Trim.{trim_split}
use pv_matter.Senml.Decimal.{split_sign, split_point, signed, scale_decimal, scale_decimal_parts}
use pv_matter.Senml.Decimal.Digits.{value, rounded}
use pv_matter.Senml.Decimal.Rounding.{IsNearest, IsNearest-unique}
use pv_matter.Senml.Decimal.Literal.{
  Sign, is_minus, sign_text, fraction_digits, IsLiteral, split_sign_sound, split_point_sound,
  scale_parts_sound, scale_parts_complete, split_sign_complete, split_point_complete,
  trim-IsLiteral, rounded_literal-IsNearest,
}

-- Every literal in the grammar is scaled to the nearest integer, the half away from zero, as long
-- as that fits an `i64`.
scale_decimal_complete :
    {raw : Text} {sign : Sign} {whole : Text} {frac : Option Text} (exp m : ℕ)
    → IsLiteral raw sign whole frac
    → IsNearest m (value 0 (whole ++ fraction_digits frac)) (length (fraction_digits frac)) exp
    → m ≤ i64_max
    → scale_decimal raw exp ≡ some (signed (is_minus sign) m)
scale_decimal_complete {raw} {sign} {whole} {frac} exp m lit near fits =
    let digits = fraction_digits frac in
    let same : rounded (value 0 whole) digits exp ≡ m =
      IsNearest-unique _ m _ _ exp (rounded_literal-IsNearest whole digits exp lit.frac_digits)
        near in
    rw
      (
        scale_decimal_parts raw exp,
        trim-IsLiteral lit,
        split_sign_complete sign whole frac lit.whole_digits,
        split_point_complete whole frac lit.whole_digits,
        ← same,
      )
      (scale_parts_complete (is_minus sign) whole digits exp lit.whole_digits lit.frac_digits
        lit.not_empty (rw same fits))

-- `raw` is a literal, and `z` is the nearest integer to its value times 10 ^ exp, the half away from
-- zero, of a magnitude that fits.
abbrev pub IsScaled : Text → ℕ → ℤ → Type 0
IsScaled raw exp z =
    (sign : Sign) × (whole : Text) × (frac : Option Text) × (m : ℕ) × IsLiteral raw sign whole frac
    × IsNearest m (value 0 (whole ++ fraction_digits frac)) (length (fraction_digits frac)) exp
    × (m ≤ i64_max)
    × (z ≡ signed (is_minus sign) m)

-- If `scale_decimal` returns an integer, the text is a literal, and the integer is the nearest one to
-- its value times 10 ^ exp, the half away from zero.
scale_decimal_sound :
    (raw : Text) (exp : ℕ) {z : ℤ} → scale_decimal raw exp ≡ some z → IsScaled raw exp z
scale_decimal_sound raw exp {z} e =
    let (a, b, ha, hb, whole_text) = trim_split raw in
    let digits = (split_sign (trim raw)).1 in
    let (sign, signs, trimmed) = split_sign_sound (trim raw) refl in
    let (frac, fracs, pointed) = split_point_sound digits in
    let whole = (split_point digits).0 in
    let (hw, hf, ne, value_z, fits) =
      scale_parts_sound _ whole _ exp z (rw (scale_decimal_parts raw exp) at e) in
    (
      sign,
      whole,
      frac,
      rounded (value 0 whole) (fraction_digits frac) exp,
      record {
        before = a;
        after = b;
        before_space = ha;
        after_space = hb;
        spelled =
            whole_text
            ∙ ap (λ t. a ++ t ++ b)
                (trimmed
                  ∙ ap (λ t. sign_text sign ++ t) pointed
                  ∙ sym (append_assoc (sign_text sign) whole _));
        whole_digits = hw;
        frac_digits = rw fracs hf;
        not_empty = rw fracs ne;
      },
      rounded_literal-IsNearest whole (fraction_digits frac) exp (rw fracs hf),
      rw fracs fits,
      rw fracs (rw (← signs) value_z),
    )

-- The result has the sign's mirror image in an `i64` too: it is never -2 ^ 63.
pub scale_decimal_bounded :
    (raw : Text) (exp : ℕ) {z : ℤ}
    → scale_decimal raw exp ≡ some z
    → (neg (pos i64_max) ≤ℤ z) × (z ≤ℤ pos i64_max)
scale_decimal_bounded raw exp e =
    let (sign, whole, frac, m, lit, near, fits, same) = scale_decimal_sound raw exp e in
    rw same (ground arith)

-- `scale_decimal` returns an integer exactly if the text is a literal of the grammar, the integer is the
-- nearest one to its value times 10 ^ exp, the half away from zero, and its magnitude fits an `i64`.
pub scale_decimal-eq-some_iff :
    (raw : Text) (exp : ℕ) (z : ℤ) → (scale_decimal raw exp ≡ some z) ↔ IsScaled raw exp z
scale_decimal-eq-some_iff raw exp z = (
  scale_decimal_sound raw exp,
  λ (sign, whole, frac, m, lit, near, fits, same).
      scale_decimal_complete exp m lit near fits ∙ ap some (sym same),
)
