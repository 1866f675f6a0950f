-- ===== src/Tests/Fixtures.antt =====
-- Test data: a JSON decoder with fixed answers, SenML packs, snapshots and wakes of the bridge.
use pv_matter.Common.{
  ℕ, List, [], ◌∷◌, Option, none, some, Result, ok, err, length, ◌==◌, if◌then◌else◌,
}
use pv_matter.Int.{ℤ, pos}
use pv_matter.Text.{Text, codes}
use pv_matter.Serde.{RawRecord, RawInfo, SerdeJson}
use pv_matter.Senml.{Record, Pack, number, text}
use pv_matter.Domain.Info.{InverterInfo}
use pv_matter.Domain.Snapshot.{PvSnapshot, default_snapshot}
use pv_matter.Domain.Status.{online}
use pv_matter.Matter.Bridge.{Wake}

abbrev pub element : RawRecord Text
element = record {
  bn = none;
  bt = none;
  bu = none;
  n = none;
  u = none;
  t = none;
  v = none;
  vs = none;
}

-- A header, a power reading in its own unit, an energy reading in the base unit, and a status.
abbrev pub raw_pack : List (RawRecord Text)
raw_pack =
    record element { bt = some (codes "1700000000"); bu = some (codes "Wh") }
    ∷ record element {
      n = some (codes "ac/total_power");
      u = some (codes "W");
      v = some (codes "1234.5");
    }
    ∷ record element {
      n = some (codes "energy/total");
      v = some (codes "98765");
      t = some (codes "-5");
    }
    ∷ record element { n = some (codes "device/status"); vs = some (codes "ok") }
    ∷ []

abbrev pub headless : List (RawRecord Text)
headless = record element { n = some (codes "ac/total_power"); v = some (codes "1") } ∷ []

abbrev pub raw_info : RawInfo
raw_info = record {
  schema = some 1;
  serial = some 3_004_000_000;
  name = some (codes "SN");
  device_model = some (codes "SB5.0");
  lines = some 2;
  strings = some 2;
  max_power_watts = some ((codes "l1", 5_000) ∷ (codes "l2", 4_000) ∷ []);
}

-- A payload of one byte is the pack, of two the pack without a header, of three the identity.
abbrev decode_records : List ℕ → Result (List (RawRecord Text)) (Unit {0})
decode_records payload =
    if length payload == 1 then ok raw_pack else if length payload == 2 then ok headless else err tt

abbrev decode_info : List ℕ → Result RawInfo (Unit {0})
decode_info payload = if length payload == 3 then ok raw_info else err tt

abbrev pub serde : SerdeJson
serde = record {
  Number = Text;
  Error = Unit;
  as_str = λ t. t;
  records_from_slice = decode_records;
  info_from_slice = decode_info;
}

abbrev reading : Text → Option Text → Text → Record
reading name unit raw = record { name = name; unit = unit; value = number raw; time_offset = pos 0 }

-- What `raw_pack` decodes to.
abbrev pub day_pack : Pack
day_pack = record {
  base_time = pos 1_700_000_000;
  records =
      reading (codes "ac/total_power") (some (codes "W")) (codes "1234.5")
      ∷ record (reading (codes "energy/total") (some (codes "Wh")) (codes "98765")) {
        time_offset = ℤ.negsuc 4;
      }
      ∷ record (reading (codes "device/status") (some (codes "Wh")) []) {
        value = text (codes "ok");
      }
      ∷ [];
}

abbrev pub inverter : InverterInfo
inverter = record {
  serial = some 3_004_000_000;
  name = some (codes "SN");
  device_model = some (codes "SB5.0");
  lines = some 2;
  strings = some 2;
  max_power_w = some (pos 9_000);
}

abbrev pub awake : PvSnapshot
awake = record default_snapshot { link = online }

abbrev pub producing : PvSnapshot
producing = record awake {
  power_mw = some (pos 1_234_500);
  energy_total_mwh = some (pos 98_765_000);
}

-- Three snapshots in two wakes, the second within the report floor of the first.
abbrev pub first_wake : Wake
first_wake = record {
  first = awake;
  received_at = 5;
  queued = [];
  notified_at = 6;
  reported_at = 7;
}

abbrev pub second_wake : Wake
second_wake = record {
  first = awake;
  received_at = 400_000_007;
  queued = producing ∷ [];
  notified_at = 1_000_000_007;
  reported_at = 1_000_000_009;
}

abbrev pub two_wakes : List Wake
two_wakes = first_wake ∷ second_wake ∷ []
