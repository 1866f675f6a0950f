-- ===== src/Tests/Source/Senml.antt =====
-- The tests of src/senml.rs.
use pv_matter.Common.{◌≡◌, refl, none, some, err, length, List, Option, ℕ, zero, suc, [], ◌∷◌}
use pv_matter.Int.{pos, negsuc}
use pv_matter.Text.{codes, split_once, trim, is_whitespace}
use pv_matter.Senml.{Record, number, text, missing_header, parse_pack}
use pv_matter.Senml.Decimal.{scale_decimal}
use pv_matter.Tests.Source.Payloads.{decoder, example_pack, headerless, Unwraps}

abbrev ScalesContractExamplesExactly : Type 0
ScalesContractExamplesExactly =
    (scale_decimal (codes "2450") 3 ≡ some (pos 2_450_000))
    × (scale_decimal (codes "236.40") 3 ≡ some (pos 236_400))
    × (scale_decimal (codes "10.370") 3 ≡ some (pos 10_370))
    × (scale_decimal (codes "49.98") 3 ≡ some (pos 49_980))
    × (scale_decimal (codes "41784321") 3 ≡ some (pos 41_784_321_000))
    × (scale_decimal (codes "41.30") 2 ≡ some (pos 4_130))

scales_contract_examples_exactly : ScalesContractExamplesExactly
unfolding scale_decimal split_once trim is_whitespace
scales_contract_examples_exactly = (refl, refl, refl, refl, refl, refl)

abbrev ScalesSignsZeroShiftAndRounding : Type 0
ScalesSignsZeroShiftAndRounding =
    (scale_decimal (codes "-3.5") 3 ≡ some (negsuc 3_499))
    × (scale_decimal (codes "1751625000") 0 ≡ some (pos 1_751_625_000))
    × (scale_decimal (codes "1.2345") 3 ≡ some (pos 1_235))
    × (scale_decimal (codes "-1.2345") 3 ≡ some (negsuc 1_234))
    × (scale_decimal (codes "1.2344") 3 ≡ some (pos 1_234))

scales_signs_zero_shift_and_rounding : ScalesSignsZeroShiftAndRounding
unfolding scale_decimal split_once trim is_whitespace
scales_signs_zero_shift_and_rounding = (refl, refl, refl, refl, refl)

abbrev RejectsNonDecimalForms : Type 0
RejectsNonDecimalForms =
    (scale_decimal (codes "1e3") 3 ≡ none)
    × (scale_decimal (codes "") 3 ≡ none)
    × (scale_decimal (codes ".") 3 ≡ none)
    × (scale_decimal (codes "abc") 3 ≡ none)
    × (scale_decimal (codes "99999999999999999999") 3 ≡ none)

rejects_non_decimal_forms : RejectsNonDecimalForms
unfolding scale_decimal split_once trim is_whitespace
rejects_non_decimal_forms = (refl, refl, refl, refl, refl)

abbrev record_at : List Record → ℕ → Option Record
record_at [] n = none
record_at (r ∷ records) zero = some r
record_at (r ∷ records) (suc n) = record_at records n

-- `&pack.records[n]`, and what is asserted of it.
abbrev Indexes : List Record → ℕ → (Record → Type 0) → Type 0
Indexes records n P = (r : Record) × (record_at records n ≡ some r) × P r

abbrev ParsesTheContractExamplePack : Type 0
ParsesTheContractExamplePack = Unwraps (parse_pack decoder example_pack) λ pack.
    (pack.base_time ≡ pos 1_751_625_000)
    × (length pack.records ≡ 6)
    × Indexes pack.records 0 (λ power.
      (power.name ≡ codes "ac/total_power")
      × (power.unit ≡ some (codes "W"))
      × (power.value ≡ number (codes "2450")))
    × Indexes pack.records 1
        (λ voltage. (voltage.unit ≡ some (codes "V")) × (voltage.value ≡ number (codes "236.40")))
    × Indexes pack.records 2 (λ dc. dc.time_offset ≡ negsuc 9)
    × Indexes pack.records 5 (λ relay. relay.value ≡ text (codes "closed"))

parses_the_contract_example_pack : ParsesTheContractExamplePack
unfolding parse_pack trim is_whitespace scale_decimal split_once
parses_the_contract_example_pack = (
  _,
  refl,
  (
    refl,
    refl,
    (_, refl, (refl, refl, refl)),
    (_, refl, (refl, refl)),
    (_, refl, refl),
    (_, refl, refl),
  ),
)

abbrev PackWithoutHeaderIsAnError : Type 0
PackWithoutHeaderIsAnError = parse_pack decoder headerless ≡ err missing_header

pack_without_header_is_an_error : PackWithoutHeaderIsAnError
unfolding parse_pack
pack_without_header_is_an_error = refl
