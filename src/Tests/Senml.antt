-- ===== src/Tests/Senml.antt =====
-- Runs of the SenML parser.
use pv_matter.Common.{◌≡◌, refl, ◌↔◌, [], ◌∷◌, none, some, ok, arith}
use pv_matter.Int.{pos, negsuc}
use pv_matter.Text.{codes, split_once, trim, is_whitespace}
use pv_matter.Senml.{parse_pack}
use pv_matter.Senml.Decimal.{scale_decimal}
use pv_matter.Senml.Decimal.Literal.{minus, IsLiteral}
use pv_matter.Senml.Decimal.Grammar.{IsScaled, scale_decimal-eq-some_iff}
use pv_matter.Senml.Reference.{last_base_time, resolve, parse_pack-eq-ok_iff}
use pv_matter.Tests.Fixtures.{serde, raw_pack, day_pack}

-- The cases of the source's unit test.
scale_whole : scale_decimal (codes "2180") 3 ≡ some (pos 2_180_000)
unfolding scale_decimal split_once trim is_whitespace
scale_whole = refl

scale_up : scale_decimal (codes "7.7785") 3 ≡ some (pos 7_779)
unfolding scale_decimal split_once trim is_whitespace
scale_up = refl

scale_down : scale_decimal (codes "7.7784") 3 ≡ some (pos 7_778)
unfolding scale_decimal split_once trim is_whitespace
scale_down = refl

scale_away : scale_decimal (codes "-1.0005") 3 ≡ some (negsuc 1_000)
unfolding scale_decimal split_once trim is_whitespace
scale_away = refl

scale_exponent : scale_decimal (codes "1e3") 3 ≡ none
unfolding scale_decimal split_once trim is_whitespace
scale_exponent = refl

minus-IsLiteral : IsLiteral (codes " -1.2345") minus (codes "1") (some (codes "2345"))
unfolding is_whitespace
minus-IsLiteral = record {
  before = codes " ";
  after = [];
  before_space = (refl, tt);
  after_space = tt;
  spelled = refl;
  whole_digits = omega arith;
  frac_digits = omega arith;
  not_empty = refl;
}

scale_decimal-eq-some_iff_example :
    (scale_decimal (codes " -1.2345") 3 ≡ some (negsuc 1_234))
    ↔ IsScaled (codes " -1.2345") 3 (negsuc 1_234)
scale_decimal-eq-some_iff_example = scale_decimal-eq-some_iff (codes " -1.2345") 3 (negsuc 1_234)

parse_pack-eq-ok_iff_example : (parse_pack serde (1 ∷ []) ≡ ok day_pack) ↔ (
    (last_base_time serde raw_pack ≡ some day_pack.base_time)
    × (day_pack.records ≡ resolve serde [] raw_pack))
parse_pack-eq-ok_iff_example = parse_pack-eq-ok_iff serde (1 ∷ []) raw_pack refl day_pack

day_pack_parsed : parse_pack serde (1 ∷ []) ≡ ok day_pack
unfolding parse_pack scale_decimal split_once trim is_whitespace
day_pack_parsed = refl
