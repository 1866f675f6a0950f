-- ===== src/Senml/Decimal/Literal.antt =====
-- The literals of `scale_decimal`, and how its steps take one apart.
use pv_matter.Common.{
  ℕ, ◌≤◌, ◌≡◌, refl, inl, inr, Bool, true, false, ◌&&◌, [], ◌∷◌, ◌++◌, Option, none, some, get_or,
  arith, All-append, length, Bool-cases, Option-cases, >>=-eq-some, ◌==◌, append-nil,
}
use pv_matter.Int.{ℤ, i64_max}
use pv_matter.Text.{Text, is_empty, is_whitespace, trim, split_once, Lacks}
use pv_matter.Text.Laws.{split_once-append, split_once_of_Lacks, split_once_sound}
use pv_matter.Text.Trim.{AllSpace, NoSpace, trim_of_NoSpace}
use pv_matter.Senml.Decimal.{
  scale_magnitude, all_digits, split_sign, split_point, signed, scale_parts,
}
use pv_matter.Senml.Decimal.Digits.{
  value, rounded, scale_magnitude_sound, scale_magnitude_complete, value-append,
}
use pv_matter.Senml.Decimal.Rounding.{AllDigits, IsNearest, rounded-IsNearest}

pub data Sign : Type 0 where
  bare plus minus : Sign

abbrev pub is_minus : Sign → Bool
is_minus bare = false
is_minus plus = false
is_minus minus = true

abbrev pub sign_text : Sign → Text
sign_text bare = []
sign_text plus = b'+' ∷ []
sign_text minus = b'-' ∷ []

-- The fraction with its point, if there is one.
abbrev pub fraction_text : Option Text → Text
fraction_text none = []
fraction_text (some frac) = b'.' ∷ frac

abbrev pub fraction_digits : Option Text → Text
fraction_digits frac = get_or frac []

-- `[+-] digits [. digits]`, with white space around it.
pub record IsLiteral (raw : Text) (sign : Sign) (whole : Text) (frac : Option Text) : Type 0 where
  pub before : Text
  pub after : Text
  pub before_space : AllSpace before
  pub after_space : AllSpace after
  pub spelled : raw ≡ before ++ (sign_text sign ++ whole ++ fraction_text frac) ++ after
  pub whole_digits : AllDigits whole
  pub frac_digits : AllDigits (fraction_digits frac)
  pub not_empty : (is_empty whole && is_empty (fraction_digits frac)) ≡ false

none≢some {ℓ} : {A : Type ℓ} {a : A} → none ≡ some a → ⊥
none≢some e = cc

all_digits_sound : (s : Text) → all_digits s ≡ true → AllDigits s
unfolding all_digits
all_digits_sound [] h = tt
all_digits_sound (c ∷ s) h = ground (arith, all_digits_sound s)

all_digits_complete : (s : Text) → AllDigits s → all_digits s ≡ true
unfolding all_digits
all_digits_complete [] h = refl
all_digits_complete (c ∷ s) h = ground (arith, all_digits_complete s h.1)

pub split_sign_sound :
    (s : Text) {negative : Bool} {digits : Text}
    → split_sign s ≡ (negative, digits)
    → (sign : Sign) × (negative ≡ is_minus sign) × (s ≡ sign_text sign ++ digits)
unfolding split_sign
split_sign_sound [] e = (bare, ground arith, ground arith)
split_sign_sound (c ∷ s) e = elim (Bool-cases (c == b'-')) [
  | inl is ↦ (minus, ground arith, ground arith)
  | inr not_minus ↦ elim (Bool-cases (c == b'+')) [
    | inl is ↦ (plus, ground arith, ground arith)
    | inr not_plus ↦ (bare, ground arith, ground arith)
  ]
]

pub split_point_sound :
    (s : Text)
    → (frac : Option Text) × (fraction_digits frac ≡ (split_point s).1)
      × (s ≡ (split_point s).0 ++ fraction_text frac)
unfolding split_point
split_point_sound s = elim (Option-cases (split_once b'.' s)) [
  | inl missed ↦ (none, rw missed, rw (missed, append-nil))
  | inr ((a, b), found) ↦ (some b, rw found, rw found ((split_once_sound b'.' s a b found).0))
]

pub scale_parts_sound :
    (negative : Bool) (whole frac : Text) (exp : ℕ) (z : ℤ)
    → scale_parts negative whole frac exp ≡ some z
    → AllDigits whole
      × AllDigits frac
      × ((is_empty whole && is_empty frac) ≡ false)
      × (z ≡ signed negative (rounded (value 0 whole) frac exp))
      × (rounded (value 0 whole) frac exp ≤ i64_max)
unfolding scale_parts
scale_parts_sound negative whole frac exp z e =
    elim (Bool-cases (is_empty whole && is_empty frac)) [
      | inl blank ↦ absurd (none≢some (rw blank at e))
      | inr ne ↦ elim (Bool-cases (all_digits whole)) [
        | inr bad ↦ absurd (none≢some (rw (ne, bad) at e))
        | inl good ↦ elim (Bool-cases (all_digits frac)) [
          | inr bad ↦ absurd (none≢some (rw (ne, good, bad) at e))
          | inl fine ↦
              let (m, scaled, result) =
                >>=-eq-some (scale_magnitude whole frac exp) _ (rw (ne, good, fine) at e) in
              let (exact, fits) = scale_magnitude_sound whole frac exp m scaled in
              (
                all_digits_sound whole good,
                all_digits_sound frac fine,
                ne,
                cc (exact),
                rw exact at fits,
              )
        ]
      ]
    ]

pub scale_parts_complete :
    (negative : Bool) (whole frac : Text) (exp : ℕ)
    → AllDigits whole
    → AllDigits frac
    → (is_empty whole && is_empty frac) ≡ false
    → rounded (value 0 whole) frac exp ≤ i64_max
    → scale_parts negative whole frac exp
      ≡ some (signed negative (rounded (value 0 whole) frac exp))
unfolding scale_parts
scale_parts_complete negative whole frac exp hw hf ne fits = ground (
  arith,
  all_digits_complete whole hw,
  all_digits_complete frac hf,
  scale_magnitude_complete whole frac exp fits,
)

digits-NoSpace : (s : Text) → AllDigits s → NoSpace s
unfolding is_whitespace
digits-NoSpace [] h = tt
digits-NoSpace (c ∷ s) h = (ground arith, digits-NoSpace s h.1)

digits-Lacks : (s : Text) → AllDigits s → Lacks b'.' s
digits-Lacks [] h = tt
digits-Lacks (c ∷ s) h = (ground arith, digits-Lacks s h.1)

fraction-NoSpace :
    (frac : Option Text) → AllDigits (fraction_digits frac) → NoSpace (fraction_text frac)
unfolding is_whitespace
fraction-NoSpace none h = tt
fraction-NoSpace (some frac) h = (refl, digits-NoSpace frac h)

sign-NoSpace : (sign : Sign) → NoSpace (sign_text sign)
unfolding is_whitespace
sign-NoSpace bare = tt
sign-NoSpace plus = (refl, tt)
sign-NoSpace minus = (refl, tt)

split_sign_bare :
    (whole : Text) (frac : Option Text)
    → AllDigits whole
    → split_sign (whole ++ fraction_text frac) ≡ (false, whole ++ fraction_text frac)
unfolding split_sign
split_sign_bare [] none h = refl
split_sign_bare [] (some frac) h = refl
split_sign_bare (c ∷ whole) frac h = ground arith

pub split_sign_complete :
    (sign : Sign) (whole : Text) (frac : Option Text)
    → AllDigits whole
    → split_sign (sign_text sign ++ whole ++ fraction_text frac)
      ≡ (is_minus sign, whole ++ fraction_text frac)
split_sign_complete bare whole frac h = split_sign_bare whole frac h
split_sign_complete plus whole frac h = unfold split_sign in refl
split_sign_complete minus whole frac h = unfold split_sign in refl

pub split_point_complete :
    (whole : Text) (frac : Option Text)
    → AllDigits whole
    → split_point (whole ++ fraction_text frac) ≡ (whole, fraction_digits frac)
unfolding split_point
split_point_complete whole none h =
    rw (append-nil, split_once_of_Lacks b'.' whole (digits-Lacks whole h))
split_point_complete whole (some frac) h =
    rw (split_once-append b'.' whole frac (digits-Lacks whole h))

pub trim-IsLiteral :
    {raw : Text} {sign : Sign} {whole : Text} {frac : Option Text}
    → IsLiteral raw sign whole frac
    → trim raw ≡ sign_text sign ++ whole ++ fraction_text frac
trim-IsLiteral {sign} {whole} {frac} lit = rw lit.spelled (
    trim_of_NoSpace lit.before _ lit.after lit.before_space lit.after_space (
      All-append _ _ _
        (All-append _ _ _ (sign-NoSpace sign) (digits-NoSpace whole lit.whole_digits))
        (fraction-NoSpace frac lit.frac_digits)))

pub rounded_literal-IsNearest :
    (whole frac : Text) (exp : ℕ)
    → AllDigits frac
    → IsNearest (rounded (value 0 whole) frac exp) (value 0 (whole ++ frac)) (length frac) exp
rounded_literal-IsNearest whole frac exp h =
    rw value-append (rounded-IsNearest exp (value 0 whole) frac h)
