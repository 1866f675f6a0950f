-- ===== src/Serde.antt =====
-- What the program takes from serde_json: JSON numbers that keep their raw text, and the decoding
-- of a payload into the two derived structures. A third-party crate, so all of it is a parameter.
use pv_matter.Common.{ℕ, List, Option, Result}
use pv_matter.Text.{Text}

-- One raw element of a SenML array (`RawRecord` in src/senml.rs).
pub record RawRecord (Number : Type 0) : Type 0 where
  pub bn : Option Text
  pub bt : Option Number
  pub bu : Option Text
  pub n : Option Text
  pub u : Option Text
  pub t : Option Number
  pub v : Option Number
  pub vs : Option Text

-- The `info` document (`Raw` in `InverterInfo::parse`); a `u32` or `u64` is a number, and the
-- `BTreeMap` of the ratings is its list of entries in the order of the keys.
pub record RawInfo : Type 0 where
  pub schema : Option ℕ
  pub serial : Option ℕ
  pub name : Option Text
  pub device_model : Option Text
  pub lines : Option ℕ
  pub strings : Option ℕ
  pub max_power_watts : Option (List (Text × ℕ))

pub record SerdeJson : Type 1 where
  pub Number : Type 0
  pub Error : Type 0
  pub as_str : Number → Text
  pub records_from_slice : List ℕ → Result (List (RawRecord Number)) Error
  pub info_from_slice : List ℕ → Result RawInfo Error
