-- ===== src/Int.antt =====
-- Signed integers over the native numbers and the fixed-width types of the source: i64, i16, u32.
-- The overflow behaviour is that of the release profile: `+`, `-`, `*` wrap around.
use pv_matter.Common.{
  ℕ, suc, ◌+◌, ◌-◌, ◌*◌, ◌/◌, ◌%◌, ◌^◌, ◌≤◌, ◌≡◌, Bool, Option, none, some, arith, ltb, leb,
  if◌then◌else◌, ◌&&◌, ℕ_discrete,
}

-- `negsuc n` is -(n + 1).
pub data ℤ : Type 0 where
  pos : ℕ → ℤ
  negsuc : ℕ → ℤ

abbrev pub pos_part : ℤ → ℕ
pos_part (pos n) = n
pos_part (negsuc n) = 0

abbrev pub neg_part : ℤ → ℕ
neg_part (pos n) = 0
neg_part (negsuc n) = suc n

-- a - b, as an integer.
abbrev pub sub_ℕ : ℕ → ℕ → ℤ
sub_ℕ a b = if leb b a then pos (a - b) else negsuc (b - a - 1)

infixl 65 ◌+ℤ◌ ◌-ℤ◌
infixl 70 ◌*ℤ◌
infix 50 ◌≤ℤ◌
abbrev pub ◌+ℤ◌ : ℤ → ℤ → ℤ
a +ℤ b = sub_ℕ (pos_part a + pos_part b) (neg_part a + neg_part b)

abbrev pub ◌-ℤ◌ : ℤ → ℤ → ℤ
a -ℤ b = sub_ℕ (pos_part a + neg_part b) (neg_part a + pos_part b)

abbrev pub ◌*ℤ◌ : ℤ → ℤ → ℤ
a *ℤ b =
    sub_ℕ (pos_part a * pos_part b + neg_part a * neg_part b)
      (pos_part a * neg_part b + neg_part a * pos_part b)

abbrev pub neg : ℤ → ℤ
neg a = sub_ℕ (neg_part a) (pos_part a)

abbrev pub ◌≤ℤ◌ : ℤ → ℤ → Type 0
a ≤ℤ b = pos_part a + neg_part b ≤ pos_part b + neg_part a

abbrev pub leb_ℤ : ℤ → ℤ → Bool
leb_ℤ a b = leb (pos_part a + neg_part b) (pos_part b + neg_part a)

unfoldable pub ℤ-discrete : Discrete ℤ
ℤ-discrete = hlevel ℕ_discrete

-- 2 ^ 63 and the bounds of `i64`.
abbrev pub i64_half : ℕ
i64_half = 2 ^ 63

abbrev pub i64_max : ℕ
i64_max = 2 ^ 63 - 1

abbrev pub IsI64 : ℤ → Type 0
IsI64 z = (negsuc i64_max ≤ℤ z) × (z ≤ℤ pos i64_max)

abbrev pub in_i64 : ℤ → Bool
in_i64 z = leb_ℤ (negsuc i64_max) z && leb_ℤ z (pos i64_max)

-- The two's complement bits of an integer, and the integer that 64 bits stand for.
abbrev to_bits : ℤ → ℕ
to_bits (pos n) = n % 2 ^ 64
to_bits (negsuc n) = 2 ^ 64 - 1 - n % 2 ^ 64

abbrev of_bits : ℕ → ℤ
of_bits b = if ltb b i64_half then pos b else negsuc (2 ^ 64 - 1 - b)

-- What an `i64` operation of the release build leaves of its exact result.
unfoldable pub wrap_i64 : ℤ → ℤ
wrap_i64 z = of_bits (to_bits z)

-- `checked_sub` and the like: the exact result, or `None` where it does not fit.
unfoldable pub checked_i64 : ℤ → Option ℤ
checked_i64 z = if in_i64 z then some z else none

-- `/` of Rust rounds towards zero.
unfoldable pub div_trunc : ℤ → ℕ → ℤ
div_trunc (pos n) d = pos (n / d)
div_trunc (negsuc n) d = neg (pos (suc n / d))

pub wrap_i64_of_IsI64 : (z : ℤ) → IsI64 z → wrap_i64 z ≡ z
unfolding wrap_i64
wrap_i64_of_IsI64 (pos n) h = ground arith
wrap_i64_of_IsI64 (negsuc n) h = ground arith

pub wrap_i64-IsI64 : (z : ℤ) → IsI64 (wrap_i64 z)
unfolding wrap_i64
wrap_i64-IsI64 (pos n) = ground arith
wrap_i64-IsI64 (negsuc n) = ground arith
