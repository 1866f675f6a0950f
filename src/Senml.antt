-- ===== src/Senml.antt =====
-- src/senml.rs: the records of a SenML pack and `parse_pack`. `scale_decimal` is in Senml/Decimal.
pub mod Decimal
pub mod Reference
use pv_matter.Common.{
  ℕ, Bool, true, false, ◌||◌, List, [], ◌∷◌, ◌++◌, Option, none, some, Result, ok, err, or_else,
  get_or, is_some, map_opt, ◌>>=◌, if◌then◌else◌,
}
use pv_matter.Int.{ℤ, pos}
use pv_matter.Text.{Text, codes}
use pv_matter.Serde.{SerdeJson, RawRecord}
use Decimal.{scale_decimal}

pub data Value : Type 0 where
  number : Text → Value
  text : Text → Value

pub record Record : Type 0 where
  pub name : Text
  pub unit : Option Text
  pub time_offset : ℤ
  pub value : Value

pub record Pack : Type 0 where
  pub base_time : ℤ
  pub records : List Record

pub data PackError (JsonError : Type 0) : Type 0 where
  json : JsonError → PackError JsonError
  missing_header : PackError JsonError

-- The message of an error, behind that of serde_json.
unfoldable pub display : {JsonError : Type 0} → (JsonError → Text) → PackError JsonError → Text
display message (json e) = codes "senml pack is not valid JSON: " ++ message e
display message missing_header = codes "senml pack has no base-time header record"

-- The mutable variables of the loop of `parse_pack`.
pub record Scan : Type 0 where
  pub base_time : Option ℤ
  pub base_unit : Option Text
  pub records : List Record

module _ (serde : SerdeJson) where
  open serde use {Number, Error, as_str, records_from_slice}

  -- `scale_decimal(x.as_str(), 0).unwrap_or(0)`
  unfoldable pub seconds : Number → ℤ
  seconds x = get_or (scale_decimal (as_str x) 0) (pos 0)

  -- The base fields of one element.
  unfoldable pub base_fields : RawRecord Number → Scan → Scan
  base_fields rec st =
      if is_some rec.bn || is_some rec.bt || is_some rec.bu
      then record st {
        base_time = or_else (map_opt seconds rec.bt) st.base_time;
        base_unit = or_else rec.bu st.base_unit;
      }
      else st

  -- `v` wins over `vs`; without either the element is skipped.
  unfoldable pub value_of : Option Number → Option Text → Option Value
  value_of (some v) vs = some (number (as_str v))
  value_of none (some vs) = some (text vs)
  value_of none none = none

  unfoldable pub make_record : RawRecord Number → Option Text → Text → Value → Record
  make_record rec base_unit name value = record {
    name = name;
    unit = or_else rec.u base_unit;
    time_offset = get_or (rec.t >>= λ t. scale_decimal (as_str t) 0) (pos 0);
    value = value;
  }

  -- The part of a round behind the base fields, given the name and the value.
  unfoldable pub add_value : RawRecord Number → Option Text → Option Value → Scan → Scan
  add_value rec none value st = st
  add_value rec (some name) none st = st
  add_value rec (some name) (some value) st = record st {
    records = st.records ++ make_record rec st.base_unit name value ∷ [];
  }

  unfoldable pub add_record : RawRecord Number → Scan → Scan
  unfolding add_value
  add_record rec st = add_value rec rec.n (value_of rec.v rec.vs) st

  -- One round of the loop.
  unfoldable pub scan_record : RawRecord Number → Scan → Scan
  scan_record rec st = add_record rec (base_fields rec st)

  unfoldable pub scan_records : List (RawRecord Number) → Scan → Scan
  scan_records [] st = st
  scan_records (rec ∷ raw) st = scan_records raw (scan_record rec st)

  unfoldable pub finish : Option ℤ → List Record → Result Pack (PackError Error)
  finish (some base_time) records = ok (record { base_time = base_time; records = records })
  finish none records = err missing_header

  parse_decoded : Result (List (RawRecord Number)) Error → Result Pack (PackError Error)
  unfolding finish scan_records scan_record add_record base_fields seconds value_of make_record
  parse_decoded (err e) = err (json e)
  parse_decoded (ok raw) =
      let st = scan_records raw (record { base_time = none; base_unit = none; records = [] }) in
      finish st.base_time st.records

  unfoldable pub parse_pack : List ℕ → Result Pack (PackError Error)
  unfolding parse_decoded
  parse_pack payload = parse_decoded (records_from_slice payload)
