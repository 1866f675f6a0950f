-- ===== src/Tests/Source/Payloads.antt =====
-- The JSON texts of the tests of src/senml.rs, src/domain.rs and src/ingest.rs, as serde_json decodes them.
use pv_matter.Common.{ℕ, List, [], ◌∷◌, none, some, Result, ok, err, ◌≡◌, ◌==◌, if◌then◌else◌}
use pv_matter.Text.{Text, codes}
use pv_matter.Serde.{RawRecord, RawInfo, SerdeJson}
use pv_matter.Tests.Fixtures.{element}

abbrev contract_pack_elements : List (RawRecord Text)
contract_pack_elements =
    record element {
      bn = some (codes "urn:dev:ser:2130012345:");
      bt = some (codes "1751625000");
      bu = some (codes "W");
    }
    ∷ record element { n = some (codes "ac/total_power"); v = some (codes "2450") }
    ∷ record element { n = some (codes "ac/l1/power"); v = some (codes "2450") }
    ∷ record element {
      n = some (codes "ac/l1/voltage");
      u = some (codes "V");
      v = some (codes "236.40");
    }
    ∷ record element {
      n = some (codes "ac/l1/current");
      u = some (codes "A");
      v = some (codes "10.370");
    }
    ∷ record element {
      n = some (codes "ac/frequency");
      u = some (codes "Hz");
      v = some (codes "49.98");
    }
    ∷ record element {
      n = some (codes "dc/s1/power");
      t = some (codes "-10");
      v = some (codes "1310");
    }
    ∷ record element {
      n = some (codes "energy/total");
      u = some (codes "Wh");
      v = some (codes "41784321");
      t = some (codes "-10");
    }
    ∷ record element {
      n = some (codes "energy/today");
      u = some (codes "Wh");
      v = some (codes "10432");
    }
    ∷ record element {
      n = some (codes "device/temperature");
      u = some (codes "Cel");
      v = some (codes "41.30");
    }
    ∷ record element { n = some (codes "device/status"); vs = some (codes "ok") }
    ∷ record element { n = some (codes "device/grid_relay"); vs = some (codes "closed") }
    ∷ []

abbrev sparse_pack_elements : List (RawRecord Text)
sparse_pack_elements =
    record element {
      bn = some (codes "urn:dev:ser:2130012345:");
      bt = some (codes "1751625300");
      bu = some (codes "W");
    }
    ∷ record element { n = some (codes "ac/total_power"); v = some (codes "900") }
    ∷ []

abbrev odd_values_elements : List (RawRecord Text)
odd_values_elements =
    record element {
      bn = some (codes "urn:dev:ser:1:");
      bt = some (codes "1");
      bu = some (codes "W");
    }
    ∷ record element { n = some (codes "device/status"); vs = some (codes "12345") }
    ∷ record element { n = some (codes "device/grid_relay"); vs = some (codes "12345") }
    ∷ []

abbrev odd_units_elements : List (RawRecord Text)
odd_units_elements =
    record element {
      bn = some (codes "urn:dev:ser:1:");
      bt = some (codes "1");
      bu = some (codes "W");
    }
    ∷ record element {
      n = some (codes "ac/l1/voltage");
      u = some (codes "kV");
      v = some (codes "0.23");
    }
    ∷ record element { n = some (codes "ac/total_power"); v = some (codes "100") }
    ∷ []

abbrev example_pack_elements : List (RawRecord Text)
example_pack_elements =
    record element {
      bn = some (codes "urn:dev:ser:2130012345:");
      bt = some (codes "1751625000");
      bu = some (codes "W");
    }
    ∷ record element { n = some (codes "ac/total_power"); v = some (codes "2450") }
    ∷ record element {
      n = some (codes "ac/l1/voltage");
      u = some (codes "V");
      v = some (codes "236.40");
    }
    ∷ record element {
      n = some (codes "dc/s1/power");
      t = some (codes "-10");
      v = some (codes "1310");
    }
    ∷ record element {
      n = some (codes "energy/total");
      u = some (codes "Wh");
      v = some (codes "41784321");
    }
    ∷ record element { n = some (codes "device/status"); vs = some (codes "ok") }
    ∷ record element { n = some (codes "device/grid_relay"); vs = some (codes "closed") }
    ∷ []

abbrev headerless_elements : List (RawRecord Text)
headerless_elements =
    record element { n = some (codes "ac/total_power"); v = some (codes "1") } ∷ []

abbrev small_pack_elements : List (RawRecord Text)
small_pack_elements =
    record element {
      bn = some (codes "urn:dev:ser:42:");
      bt = some (codes "1");
      bu = some (codes "W");
    }
    ∷ record element { n = some (codes "ac/total_power"); v = some (codes "10") }
    ∷ []

abbrev no_info : RawInfo
no_info = record {
  schema = none;
  serial = none;
  name = none;
  device_model = none;
  lines = none;
  strings = none;
  max_power_watts = none;
}

abbrev sun_monkey_document : RawInfo
sun_monkey_document = record {
  schema = some 1;
  serial = some 2_130_012_345;
  name = some (codes "SunMonkey");
  device_model = some (codes "SB5000TL-21");
  lines = some 1;
  strings = some 2;
  max_power_watts = some ((codes "l1", 5_000) ∷ []);
}

abbrev three_lines_document : RawInfo
three_lines_document = record no_info {
  max_power_watts = some ((codes "l1", 5_000) ∷ (codes "l2", 5_000) ∷ (codes "l3", 5_000) ∷ []);
}

abbrev one_line_document : RawInfo
one_line_document = record no_info { max_power_watts = some ((codes "l1", 5_000) ∷ []) }

abbrev small_document : RawInfo
small_document = record no_info {
  schema = some 1;
  serial = some 42;
  lines = some 1;
  strings = some 2;
}

abbrev pub contract_pack : List ℕ
contract_pack = 0 ∷ []

abbrev pub sparse_pack : List ℕ
sparse_pack = 1 ∷ []

abbrev pub odd_values : List ℕ
odd_values = 2 ∷ []

abbrev pub odd_units : List ℕ
odd_units = 3 ∷ []

abbrev pub example_pack : List ℕ
example_pack = 4 ∷ []

abbrev pub headerless : List ℕ
headerless = 5 ∷ []

abbrev pub small_pack : List ℕ
small_pack = 6 ∷ []

abbrev pub sun_monkey_info : List ℕ
sun_monkey_info = 20 ∷ []

abbrev pub three_lines_info : List ℕ
three_lines_info = 21 ∷ []

abbrev pub one_line_info : List ℕ
one_line_info = 22 ∷ []

abbrev pub small_info : List ℕ
small_info = 23 ∷ []

abbrev records_of_number : ℕ → Result (List (RawRecord Text)) (Unit {0})
records_of_number n =
    if n == 0
    then ok contract_pack_elements
    else if n == 1
    then ok sparse_pack_elements
    else if n == 2
    then ok odd_values_elements
    else if n == 3
    then ok odd_units_elements
    else if n == 4
    then ok example_pack_elements
    else if n == 5
    then ok headerless_elements
    else if n == 6
    then ok small_pack_elements
    else err tt

abbrev records_of : List ℕ → Result (List (RawRecord Text)) (Unit {0})
records_of (n ∷ []) = records_of_number n
records_of _ = err tt

abbrev info_of_number : ℕ → Result RawInfo (Unit {0})
info_of_number n =
    if n == 20
    then ok sun_monkey_document
    else if n == 21
    then ok three_lines_document
    else if n == 22
    then ok one_line_document
    else if n == 23
    then ok small_document
    else err tt

abbrev info_of : List ℕ → Result RawInfo (Unit {0})
info_of (n ∷ []) = info_of_number n
info_of _ = err tt

abbrev pub decoder : SerdeJson
decoder = record {
  Number = Text;
  Error = Unit;
  as_str = λ t. t;
  records_from_slice = records_of;
  info_from_slice = info_of;
}

-- `unwrap()`, and what is asserted of the value.
abbrev pub Unwraps : {A E : Type 0} → Result A E → (A → Type 0) → Type 0
Unwraps {A} r P = (a : A) × (r ≡ ok a) × P a
