-- ===== src/Matter/Node.antt =====
-- src/matter/node.rs and the own parts of src/matter/desc_tags.rs: the endpoints with their clusters, the
-- handler chain, the parts matcher and the tags. The root endpoint and its system handlers are
-- rs-matter's, so they are parameters; a cluster stands for its id.
pub mod Agreement
use pv_matter.Common.{
  ℕ, Bool, true, false, ◌&&◌, ◌||◌, List, [], ◌∷◌, ◌++◌, Option, none, some, Result, ◌==◌, ite,
  if◌then◌else◌,
}
use native.Mathlib.Decide.{ℕ_discrete}
use pv_matter.Text.{Text, codes}

abbrev pub ep_solar_power : ℕ
ep_solar_power = 1

abbrev pub ep_power_source : ℕ
ep_power_source = 2

abbrev pub ep_electrical_sensor : ℕ
ep_electrical_sensor = 3

abbrev pub ep_temperature : ℕ
ep_temperature = 4

-- The clusters that the source names; `system` stands for any of the root endpoint.
pub data ClusterId : Type 0 where
  descriptor identify power_source power_topology : ClusterId
  electrical_power_measurement electrical_energy_measurement temperature_measurement : ClusterId
  system : ℕ → ClusterId

unfoldable pub ClusterId-discrete : Discrete ClusterId
ClusterId-discrete = hlevel ℕ_discrete

-- The device types that rs-matter does not have.
pub record DeviceType : Type 0 where
  pub dtype : ℕ
  pub drev : ℕ

abbrev pub dev_type_solar_power : DeviceType
dev_type_solar_power = record { dtype = 0x17; drev = 1 }

abbrev pub dev_type_power_source : DeviceType
dev_type_power_source = record { dtype = 0x11; drev = 1 }

abbrev pub dev_type_electrical_sensor : DeviceType
dev_type_electrical_sensor = record { dtype = 0x510; drev = 1 }

abbrev pub dev_type_temperature_sensor : DeviceType
dev_type_temperature_sensor = record { dtype = 0x302; drev = 1 }

pub record Endpoint : Type 0 where
  pub id : ℕ
  pub device_type : DeviceType
  pub clusters : List ClusterId

-- `NODE`, behind the root endpoint.
unfoldable pub node : Endpoint → List Endpoint
node root =
    root
    ∷ record {
      id = ep_solar_power;
      device_type = dev_type_solar_power;
      clusters = descriptor ∷ identify ∷ [];
    }
    ∷ record {
      id = ep_power_source;
      device_type = dev_type_power_source;
      clusters = descriptor ∷ identify ∷ power_source ∷ [];
    }
    ∷ record {
      id = ep_electrical_sensor;
      device_type = dev_type_electrical_sensor;
      clusters =
          descriptor ∷ identify ∷ power_topology ∷ electrical_power_measurement
          ∷ electrical_energy_measurement ∷ [];
    }
    ∷ record {
      id = ep_temperature;
      device_type = dev_type_temperature_sensor;
      clusters = descriptor ∷ identify ∷ temperature_measurement ∷ [];
    }
    ∷ []

-- One Descriptor tag.
pub record SemanticTag : Type 0 where
  pub mfg_code : Option ℕ
  pub namespace_id : ℕ
  pub tag : ℕ
  pub label : Option Text

abbrev pub grid_tag : List SemanticTag
grid_tag = record { mfg_code = none; namespace_id = 15; tag = 1; label = none } ∷ []

abbrev pub inverter_temperature_tag : List SemanticTag
inverter_temperature_tag =
    record { mfg_code = none; namespace_id = 6; tag = 2; label = some (codes "inverter") } ∷ []

pub record SolarPartsMatcher : Type 0 where
  pub parent : ℕ
  pub children : List ℕ

abbrev pub contains_endpoint : List ℕ → ℕ → Bool
contains_endpoint [] e = false
contains_endpoint (c ∷ children) e = c == e || contains_endpoint children e

unfoldable pub matches : SolarPartsMatcher → ℕ → ℕ → Bool
matches m our_endpoint endpoint = our_endpoint == m.parent && contains_endpoint m.children endpoint

abbrev pub solar_parts : SolarPartsMatcher
solar_parts = record {
  parent = ep_solar_power;
  children = ep_power_source ∷ ep_electrical_sensor ∷ ep_temperature ∷ [];
}

abbrev pub powered_endpoints : List ℕ
powered_endpoints = ep_solar_power ∷ ep_power_source ∷ ep_electrical_sensor ∷ ep_temperature ∷ []

-- The handlers of the chain, with what they are built from.
pub data HandlerRef : Type 0 where
  desc_matching : SolarPartsMatcher → HandlerRef
  desc_tagged : List SemanticTag → HandlerRef
  desc_plain : HandlerRef
  identify_handler : HandlerRef
  cluster_handler : ClusterId → HandlerRef

-- One link of the chain: an `EpClMatcher` and the handler behind it.
pub record Link : Type 0 where
  pub endpoint : ℕ
  pub cluster : ClusterId
  pub handler : HandlerRef

-- The links of `dm_handler`, in their order.
unfoldable pub dm_handler : List Link
dm_handler =
    record { endpoint = ep_solar_power; cluster = descriptor; handler = desc_matching solar_parts }
    ∷ record { endpoint = ep_solar_power; cluster = identify; handler = identify_handler }
    ∷ record { endpoint = ep_power_source; cluster = descriptor; handler = desc_tagged grid_tag }
    ∷ record { endpoint = ep_power_source; cluster = identify; handler = identify_handler }
    ∷ record {
      endpoint = ep_power_source;
      cluster = power_source;
      handler = cluster_handler power_source;
    }
    ∷ record { endpoint = ep_electrical_sensor; cluster = descriptor; handler = desc_plain }
    ∷ record { endpoint = ep_electrical_sensor; cluster = identify; handler = identify_handler }
    ∷ record {
      endpoint = ep_electrical_sensor;
      cluster = power_topology;
      handler = cluster_handler power_topology;
    }
    ∷ record {
      endpoint = ep_electrical_sensor;
      cluster = electrical_power_measurement;
      handler = cluster_handler electrical_power_measurement;
    }
    ∷ record {
      endpoint = ep_electrical_sensor;
      cluster = electrical_energy_measurement;
      handler = cluster_handler electrical_energy_measurement;
    }
    ∷ record {
      endpoint = ep_temperature;
      cluster = descriptor;
      handler = desc_tagged inverter_temperature_tag;
    }
    ∷ record { endpoint = ep_temperature; cluster = identify; handler = identify_handler }
    ∷ record {
      endpoint = ep_temperature;
      cluster = temperature_measurement;
      handler = cluster_handler temperature_measurement;
    }
    ∷ []
