-- ===== src/Number.antt =====
-- The two conversions of Rust's unsigned integers that src/config.rs and src/main.rs call: `str::parse`
-- into a type with the greatest value `max`, and `to_string`.
pub mod Laws
use pv_matter.Common.{
  ℕ, zero, suc, ◌+◌, ◌-◌, ◌*◌, ◌/◌, ◌%◌, ◌^◌, Bool, List, [], ◌∷◌, ◌++◌, Option, none, some, ltb,
  leb, ◌==◌, if◌then◌else◌, ◌>>=◌,
}
use pv_matter.Text.{Text, is_empty}
use pv_matter.Senml.Decimal.{is_digit}

abbrev pub u16_max : ℕ
u16_max = 65_535

abbrev pub u64_max : ℕ
u64_max = 2 ^ 64 - 1

-- One more digit, with the checked operations of the type.
abbrev pub push_digit : ℕ → ℕ → ℕ → Option ℕ
push_digit max n c =
    let grown = n * 10 + (c - b'0') in
    if is_digit c then (if leb grown max then some grown else none) else none

unfoldable pub parse_digits : ℕ → ℕ → Text → Option ℕ
parse_digits max n [] = some n
parse_digits max n (c ∷ s) = push_digit max n c >>= λ grown. parse_digits max grown s

-- One `+` in front is allowed, a `-` is not.
abbrev pub strip_plus : Text → Text
strip_plus [] = []
strip_plus (c ∷ s) = if c == b'+' then s else c ∷ s

unfoldable pub parse_unsigned : ℕ → Text → Option ℕ
unfolding parse_digits
parse_unsigned max s =
    let digits = strip_plus s in if is_empty digits then none else parse_digits max 0 digits

-- The decimal digits, the last one by the last recursive call; the fuel is greater than the number.
unfoldable pub digits_of : ℕ → ℕ → Text
digits_of zero n = []
digits_of (suc fuel) n =
    let above = digits_of fuel (n / 10) in
    if ltb n 10 then (b'0' + n) ∷ [] else above ++ (b'0' + n % 10) ∷ []

unfoldable pub to_string : ℕ → Text
unfolding digits_of
to_string n = digits_of (suc n) n
