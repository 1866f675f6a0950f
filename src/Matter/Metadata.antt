-- ===== src/Matter/Metadata.antt =====
-- The `CLUSTER` constants of src/matter/epm.rs, eem.rs, power_source.rs, power_topology.rs, temperature.rs
-- and desc_tags.rs: the features, and the attributes that the source selects next to the required ones. Which
-- attributes `with!(required)` keeps is decided by rs-matter, so it is a parameter.
pub mod Reports
use pv_matter.Common.{ℕ, Bool, true, false, ◌||◌, List, [], ◌∷◌, ◌++◌, ite}
use pv_matter.Matter.Node.{
  ClusterId, descriptor, power_source, power_topology, electrical_power_measurement,
  electrical_energy_measurement, temperature_measurement,
}

pub data Feature : Type 0 where
  alternating_current : Feature
  exported_energy cumulative_energy : Feature
  wired : Feature
  node_topology : Feature
  tag_list_feature : Feature

-- The attributes that the source and its tests name.
pub data AttributeId : Type 0 where
  voltage active_current active_power frequency : AttributeId
  cumulative_energy_exported : AttributeId
  power_mode number_of_measurement_types accuracy reactive_power : AttributeId
  cumulative_energy_imported : AttributeId
  status wired_current_type : AttributeId
  measured_value : AttributeId
  tag_list : AttributeId

unfoldable pub AttributeId-discrete : Discrete AttributeId
AttributeId-discrete = hlevel

-- `FULL_CLUSTER.with_features(…).with_attrs(with!(required; …))`
pub record Metadata : Type 0 where
  pub cluster : ClusterId
  pub features : List Feature
  pub selected : List AttributeId

abbrev pub epm_metadata : Metadata
epm_metadata = record {
  cluster = electrical_power_measurement;
  features = alternating_current ∷ [];
  selected = voltage ∷ active_current ∷ frequency ∷ [];
}

abbrev pub eem_metadata : Metadata
eem_metadata = record {
  cluster = electrical_energy_measurement;
  features = exported_energy ∷ cumulative_energy ∷ [];
  selected = cumulative_energy_exported ∷ [];
}

abbrev pub power_source_metadata : Metadata
power_source_metadata = record {
  cluster = power_source;
  features = wired ∷ [];
  selected = wired_current_type ∷ [];
}

abbrev pub power_topology_metadata : Metadata
power_topology_metadata = record {
  cluster = power_topology;
  features = node_topology ∷ [];
  selected = [];
}

abbrev pub temperature_metadata : Metadata
temperature_metadata = record { cluster = temperature_measurement; features = []; selected = [] }

abbrev pub tagged_desc_metadata : Metadata
tagged_desc_metadata = record {
  cluster = descriptor;
  features = tag_list_feature ∷ [];
  selected = tag_list ∷ [];
}

abbrev pub has : AttributeId → List AttributeId → Bool
has a [] = false
has a (b ∷ attributes) = ite (AttributeId-discrete b a) true (has a attributes)

-- The attributes that rs-matter keeps as required of a cluster with some features.
abbrev pub Required : Type 0
Required = ClusterId → List Feature → List AttributeId

unfoldable pub advertises : Required → Metadata → AttributeId → Bool
advertises required m a = has a m.selected || has a (required m.cluster m.features)
