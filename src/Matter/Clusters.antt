-- ===== src/Matter/Clusters.antt =====
-- src/matter/power_source.rs and src/matter/temperature.rs: what their handlers read.
use pv_matter.Common.{ℕ, List, Option, some, Result}
use pv_matter.Text.{Text, codes}
use pv_matter.Int.{ℤ, pos}
use pv_matter.Domain.Status.{SourceStatus}
use pv_matter.Domain.Snapshot.{PvSnapshot, source_status}
use pv_matter.Matter.Tlv.{Builder, ArrayRead, read_array}

-- rs-matter's `PowerSourceStatusEnum` and `WiredCurrentTypeEnum`, as far as the source names them.
pub data PowerSourceStatusEnum : Type 0 where
  unspecified active standby unavailable : PowerSourceStatusEnum

pub data WiredCurrentTypeEnum : Type 0 where
  ac : WiredCurrentTypeEnum

unfoldable pub to_matter : SourceStatus → PowerSourceStatusEnum
to_matter SourceStatus.unspecified = PowerSourceStatusEnum.unspecified
to_matter SourceStatus.active = PowerSourceStatusEnum.active
to_matter SourceStatus.standby = PowerSourceStatusEnum.standby
to_matter SourceStatus.unavailable = PowerSourceStatusEnum.unavailable

unfoldable pub status : PvSnapshot → PowerSourceStatusEnum
unfolding to_matter
status s = to_matter (source_status s)

unfoldable pub order : PvSnapshot → ℕ
order s = 0

unfoldable pub description : PvSnapshot → Text
description s = codes "PV inverter (grid)"

unfoldable pub wired_current_type : PvSnapshot → WiredCurrentTypeEnum
wired_current_type s = ac

unfoldable pub endpoint_list : {P E : Type 0} → Builder ℕ P E → List ℕ → ArrayRead P → Result P E
endpoint_list b powered_endpoints = read_array b powered_endpoints

abbrev pub temp_min_centi_c : ℤ
temp_min_centi_c = pos 0

abbrev pub temp_max_centi_c : ℤ
temp_max_centi_c = pos 8_000

unfoldable pub measured_value : PvSnapshot → Option ℤ
measured_value s = s.temperature_centi_c

unfoldable pub min_measured_value : PvSnapshot → Option ℤ
min_measured_value s = some temp_min_centi_c

unfoldable pub max_measured_value : PvSnapshot → Option ℤ
max_measured_value s = some temp_max_centi_c
