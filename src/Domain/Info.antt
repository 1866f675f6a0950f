-- ===== src/Domain/Info.antt =====
-- `InverterInfo` of src/domain.rs and its parser. The log line on an unknown schema is left out.
use pv_matter.Common.{
  ℕ, ◌*◌, ◌+◌, ◌^◌, ◌≤◌, ◌<◌, List, [], ◌∷◌, Option, some, Result, ok, err, map_opt, ◌≡◌, arith,
  All, length,
}
use pv_matter.Int.{ℤ, pos, ◌+ℤ◌, wrap_i64, wrap_i64_of_IsI64, i64_max}
use pv_matter.Text.{Text}
use pv_matter.Serde.{SerdeJson, RawInfo}

pub record InverterInfo : Type 0 where
  pub serial : Option ℕ
  pub name : Option Text
  pub device_model : Option Text
  pub lines : Option ℕ
  pub strings : Option ℕ
  pub max_power_w : Option ℤ

-- `per_line.values().map(|&w| i64::from(w)).sum()`
unfoldable pub sum_watts : ℤ → List (Text × ℕ) → ℤ
sum_watts acc [] = acc
sum_watts acc ((_, w) ∷ per_line) = sum_watts (wrap_i64 (acc +ℤ pos w)) per_line

unfoldable pub info_of_raw : RawInfo → InverterInfo
info_of_raw raw = record {
  serial = raw.serial;
  name = raw.name;
  device_model = raw.device_model;
  lines = raw.lines;
  strings = raw.strings;
  max_power_w = map_opt (sum_watts (pos 0)) raw.max_power_watts;
}

module _ (serde : SerdeJson) where
  open serde use {Error, info_from_slice}

  unfoldable pub parse_info : List ℕ → Result InverterInfo Error
  unfolding info_of_raw sum_watts
  parse_info payload = elim (info_from_slice payload) [
    | ok raw ↦ ok (info_of_raw raw)
    | err e ↦ err e
  ]

-- The exact sum of the ratings.
abbrev pub total_watts : List (Text × ℕ) → ℕ
total_watts [] = 0
total_watts ((_, w) ∷ per_line) = w + total_watts per_line

abbrev pub AreU32 : List (Text × ℕ) → Type 0
AreU32 per_line = All (λ (e : Text × ℕ). e.1 < 2 ^ 32) per_line

pos_add : (a b : ℕ) → pos a +ℤ pos b ≡ pos (a + b)
pos_add a b = ground arith

sum_watts_exact :
    (acc : ℕ) (per_line : List (Text × ℕ))
    → acc + total_watts per_line ≤ i64_max
    → sum_watts (pos acc) per_line ≡ pos (acc + total_watts per_line)
unfolding sum_watts
sum_watts_exact acc [] h = ground arith
sum_watts_exact acc ((k, w) ∷ per_line) h =
    rw
      (
        wrap_i64_of_IsI64 (pos acc +ℤ pos w) (ground arith),
        pos_add acc w,
        sum_watts_exact (acc + w) per_line (omega arith),
      )
      (ground arith)

total_watts-le :
    (per_line : List (Text × ℕ)) → AreU32 per_line → total_watts per_line ≤ 2 ^ 32 * length per_line
total_watts-le [] h = omega arith
total_watts-le ((k, w) ∷ per_line) h = omega (arith, total_watts-le per_line h.1)

-- The nameplate rating is the exact sum of the ratings of the lines: with fewer than 2 ^ 31 lines of
-- type `u32` the `i64` sum does not wrap.
pub info_of_raw-max_power_w :
    (raw : RawInfo) (per_line : List (Text × ℕ))
    → raw.max_power_watts ≡ some per_line
    → AreU32 per_line
    → length per_line < 2 ^ 31
    → (info_of_raw raw).max_power_w ≡ some (pos (total_watts per_line))
unfolding info_of_raw
info_of_raw-max_power_w raw per_line e h k =
    rw (e, sum_watts_exact 0 per_line (omega (arith, total_watts-le per_line h))) (ground arith)
