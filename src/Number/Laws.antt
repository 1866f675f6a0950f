-- ===== src/Number/Laws.antt =====
-- Which texts parse as an unsigned integer, and that a printed number parses back.
use pv_matter.Common.{
  ℕ, zero, suc, ◌+◌, ◌-◌, ◌*◌, ◌/◌, ◌%◌, ◌≤◌, ◌<◌, ◌≡◌, ◌↔◌, ◌∙◌, refl, ap, false, [], ◌∷◌, ◌++◌,
  some, ltb, >>=-eq-some, arith, All-append, Bool-cases, inl, inr, ◌⊎◌,
}
use pv_matter.Text.{Text, is_empty}
use pv_matter.Senml.Decimal.Digits.{value, value-append, le-value}
use pv_matter.Senml.Decimal.Rounding.{IsDigit, AllDigits}
use pv_matter.Number.{push_digit, parse_digits, strip_plus, parse_unsigned, digits_of, to_string}

-- The text is `digits`, with or without a `+`, and they spell `n`.
pub record IsNumeral (s : Text) (n : ℕ) : Type 0 where
  pub digits : Text
  pub spelled : (s ≡ digits) ⊎ (s ≡ b'+' ∷ digits)
  pub not_empty : is_empty digits ≡ false
  pub all_digits : AllDigits digits
  pub worth : value 0 digits ≡ n

parse_digits_sound :
    (max n : ℕ) (s : Text) {m : ℕ}
    → parse_digits max n s ≡ some m
    → n ≤ max
    → AllDigits s × (value n s ≡ m) × (m ≤ max)
unfolding parse_digits
parse_digits_sound max n [] e h = ground arith
parse_digits_sound max n (c ∷ s) e h =
    let (grown, pushed, rest) = >>=-eq-some (push_digit max n c) _ e in
    let digit : IsDigit c = ground arith in
    let same : grown ≡ n * 10 + (c - b'0') = ground arith in
    let (ds, worth, fits) = parse_digits_sound max grown s rest (ground arith) in
    ((digit, ds), rw same at worth, fits)

parse_digits_complete :
    (max n : ℕ) (s : Text) → AllDigits s → value n s ≤ max → parse_digits max n s ≡ some (value n s)
unfolding parse_digits
parse_digits_complete max n [] h k = refl
parse_digits_complete max n (c ∷ s) h k = ground (
  arith,
  h.0,
  le-value (n * 10 + (c - b'0')) s,
  parse_digits_complete max (n * 10 + (c - b'0')) s h.1 k,
)

strip_plus-AllDigits : (s : Text) → AllDigits s → strip_plus s ≡ s
strip_plus-AllDigits [] h = refl
strip_plus-AllDigits (c ∷ s) h = ground (arith, h.0)

strip_plus_cases : (s : Text) → (s ≡ strip_plus s) ⊎ (s ≡ b'+' ∷ strip_plus s)
strip_plus_cases [] = inl refl
strip_plus_cases (c ∷ s) = ground arith

parse_unsigned_sound :
    (max : ℕ) (s : Text) (n : ℕ) → parse_unsigned max s ≡ some n → IsNumeral s n × (n ≤ max)
unfolding parse_unsigned
parse_unsigned_sound max s n e =
    let digits = strip_plus s in
    let ne : is_empty digits ≡ false = ground arith in
    let (ds, worth, fits) = parse_digits_sound max 0 digits (rw ne at e) (omega arith) in
    (
      record {
        digits = digits;
        spelled = strip_plus_cases s;
        not_empty = ne;
        all_digits = ds;
        worth = worth;
      },
      fits,
    )

strip_plus_spelled :
    (s digits : Text)
    → (s ≡ digits) ⊎ (s ≡ b'+' ∷ digits)
    → AllDigits digits
    → strip_plus s ≡ digits
strip_plus_spelled s digits (inl e) h = rw e (strip_plus-AllDigits digits h)
strip_plus_spelled s digits (inr e) h = rw e refl

parse_unsigned_complete :
    (max : ℕ) (s : Text) (n : ℕ) → IsNumeral s n → n ≤ max → parse_unsigned max s ≡ some n
unfolding parse_unsigned
parse_unsigned_complete max s n i fits =
    rw (strip_plus_spelled s i.digits i.spelled i.all_digits, i.not_empty)
      (parse_digits_complete max 0 i.digits i.all_digits (omega (arith, i.worth)) ∙ ap some i.worth)

-- A text parses as `n` exactly if it spells `n` in digits, with at most a `+` in front, and `n` fits.
pub parse_unsigned_iff :
    (max : ℕ) (s : Text) (n : ℕ) → (parse_unsigned max s ≡ some n) ↔ (IsNumeral s n × (n ≤ max))
parse_unsigned_iff max s n =
    (parse_unsigned_sound max s n, λ h. parse_unsigned_complete max s n h.0 h.1)

is_empty-append : (s : Text) (c : ℕ) → is_empty (s ++ c ∷ []) ≡ false
is_empty-append [] c = refl
is_empty-append (d ∷ s) c = refl

digits_of-AllDigits : (fuel n : ℕ) → AllDigits (digits_of fuel n)
unfolding digits_of
digits_of-AllDigits zero n = tt
digits_of-AllDigits (suc fuel) n = elim (Bool-cases (ltb n 10)) [
  | inl small ↦ rw small (ground arith, tt)
  | inr large ↦ rw large (
      All-append IsDigit (digits_of fuel (n / 10)) _ (digits_of-AllDigits fuel (n / 10))
        (omega arith, tt))
]

digits_of_not_empty : (fuel n : ℕ) → is_empty (digits_of (suc fuel) n) ≡ false
unfolding digits_of
digits_of_not_empty fuel n = elim (Bool-cases (ltb n 10)) [
  | inl small ↦ rw small refl
  | inr large ↦ rw large (is_empty-append (digits_of fuel (n / 10)) _)
]

value-digits_of : (fuel n : ℕ) → n < fuel → value 0 (digits_of fuel n) ≡ n
unfolding digits_of
value-digits_of zero n h = absurd (omega arith)
value-digits_of (suc fuel) n h = elim (Bool-cases (ltb n 10)) [
  | inl small ↦ rw small (omega arith)
  | inr large ↦ rw large (
      value-append 0 (digits_of fuel (n / 10)) ((b'0' + n % 10) ∷ [])
      ∙ rw (value-digits_of fuel (n / 10) (ground arith)) (omega arith))
]

-- A number that fits is parsed back from its digits.
pub parse_unsigned-to_string : (max n : ℕ) → n ≤ max → parse_unsigned max (to_string n) ≡ some n
unfolding to_string
parse_unsigned-to_string max n h =
    parse_unsigned_complete max (to_string n) n
      (record {
        digits = to_string n;
        spelled = inl refl;
        not_empty = digits_of_not_empty n n;
        all_digits = digits_of-AllDigits (suc n) n;
        worth = value-digits_of (suc n) n (omega arith);
      })
      h
