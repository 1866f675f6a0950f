-- ===== src/Tests/Source/Node.antt =====
-- The tests of src/matter/node.rs. The ids, the feature bits and the required attributes of a cluster are
-- rs-matter's, so they are parameters, with what the Matter specification says of them.
use pv_matter.Common.{
  ℕ, ◌≡◌, refl, true, false, Bool, ◌==◌, none, some, Option, List, [], ◌∷◌, ite, map, All, ◌||◌,
  ◌++◌, ◌+◌, arith, if◌then◌else◌,
}
use pv_matter.Matter.Node.{
  Endpoint, DeviceType, ClusterId, ClusterId-discrete, temperature_measurement, node, matches,
  solar_parts, ep_solar_power, ep_power_source, ep_electrical_sensor, ep_temperature, SemanticTag,
  inverter_temperature_tag, grid_tag, system, descriptor, identify, power_source, power_topology,
  electrical_power_measurement, electrical_energy_measurement,
}
use pv_matter.Matter.Metadata.{
  Feature, node_topology, AttributeId, Metadata, Required, AttributeId-discrete, advertises, has,
  epm_metadata, eem_metadata, power_source_metadata, tagged_desc_metadata, alternating_current,
  exported_energy, cumulative_energy, wired, tag_list_feature, power_mode,
  number_of_measurement_types, accuracy, active_power, reactive_power, voltage, active_current,
  frequency, cumulative_energy_exported, cumulative_energy_imported,
}

-- The root endpoint has the id 0.
abbrev endpoints : DeviceType → List ClusterId → List Endpoint
endpoints device_type clusters =
    node (record { id = 0; device_type = device_type; clusters = clusters })

abbrev find_endpoint : List Endpoint → ℕ → Option Endpoint
find_endpoint [] id = none
find_endpoint (e ∷ es) id = if e.id == id then some e else find_endpoint es id

abbrev any_cluster : List ClusterId → ClusterId → Bool
any_cluster [] c = false
any_cluster (d ∷ clusters) c = ite (ClusterId-discrete d c) true (any_cluster clusters c)

abbrev has_cluster : Option Endpoint → ClusterId → Bool
has_cluster none c = false
has_cluster (some e) c = any_cluster e.clusters c

module _ (root_type : DeviceType) (root_clusters : List ClusterId) where
  abbrev NodeIsRootPlusSolarPowerComposition : Type 0
  NodeIsRootPlusSolarPowerComposition =
      (map (λ (e : Endpoint). e.id) (endpoints root_type root_clusters)
        ≡ 0 ∷ ep_solar_power ∷ ep_power_source ∷ ep_electrical_sensor ∷ ep_temperature ∷ [])
      × ((e : Endpoint) × (find_endpoint (endpoints root_type root_clusters) ep_solar_power
            ≡ some e)
          × (e.device_type.dtype ≡ 0x17))

  node_is_root_plus_solar_power_composition : NodeIsRootPlusSolarPowerComposition
  unfolding node
  node_is_root_plus_solar_power_composition = (refl, (_, refl, refl))

  abbrev TemperatureEndpointIsTagged : Type 0
  TemperatureEndpointIsTagged =
      ((e : Endpoint) × (find_endpoint (endpoints root_type root_clusters) ep_temperature ≡ some e)
        × (e.device_type.dtype ≡ 0x302))
      × (has_cluster (find_endpoint (endpoints root_type root_clusters) ep_temperature)
            temperature_measurement
          ≡ true)
      × ((t : SemanticTag) × (inverter_temperature_tag ≡ t ∷ [])
          × (t.mfg_code ≡ none)
          × (t.namespace_id ≡ 6)
          × (t.tag ≡ 2))

  temperature_endpoint_is_tagged : TemperatureEndpointIsTagged
  unfolding node ClusterId-discrete
  temperature_endpoint_is_tagged = ((_, refl, refl), refl, (_, refl, refl, refl, refl))

abbrev SolarPartsMatcherListsExactlyTheComponentEndpoints : Type 0
SolarPartsMatcherListsExactlyTheComponentEndpoints =
    (matches solar_parts ep_solar_power ep_power_source ≡ true)
    × (matches solar_parts ep_solar_power ep_electrical_sensor ≡ true)
    × (matches solar_parts ep_solar_power ep_temperature ≡ true)
    × (matches solar_parts ep_solar_power 0 ≡ false)
    × (matches solar_parts ep_solar_power ep_solar_power ≡ false)
    × (matches solar_parts ep_electrical_sensor ep_temperature ≡ false)

solar_parts_matcher_lists_exactly_the_component_endpoints :
    SolarPartsMatcherListsExactlyTheComponentEndpoints
unfolding matches
solar_parts_matcher_lists_exactly_the_component_endpoints = (refl, refl, refl, refl, refl, refl)

-- What a test takes from rs-matter: the ids of the clusters, the bits of the features with their union, and the
-- attributes that `with!(required)` keeps.
record RsMatter : Type 0 where
  id : ClusterId → ℕ
  bits : Feature → ℕ
  union : ℕ → ℕ → ℕ
  required : Required

-- The feature map of `with_features`.
abbrev feature_map : RsMatter → List Feature → ℕ
feature_map rs [] = 0
feature_map rs (f ∷ []) = rs.bits f
feature_map rs (f ∷ g ∷ features) = rs.union (rs.bits f) (feature_map rs (g ∷ features))

-- `cluster.attribute(a).is_some()`
abbrev serves : RsMatter → Metadata → AttributeId → Bool
serves rs m a = advertises rs.required m a

-- The ids of the Matter specification.
record HasIds (rs : RsMatter) : Type 0 where
  power_source : rs.id power_source ≡ 0x2F
  power_topology : rs.id power_topology ≡ 0x9C
  epm : rs.id electrical_power_measurement ≡ 0x90
  eem : rs.id electrical_energy_measurement ≡ 0x91

-- What the Matter specification makes mandatory of the electrical clusters with the features of the source,
-- and two of the attributes that it does not.
record KeepsElectrical (rs : RsMatter) : Type 0 where
  power_mode :
      has power_mode (rs.required electrical_power_measurement (alternating_current ∷ [])) ≡ true
  types :
      has number_of_measurement_types
        (rs.required electrical_power_measurement (alternating_current ∷ []))
      ≡ true
  accuracy :
      has accuracy (rs.required electrical_power_measurement (alternating_current ∷ [])) ≡ true
  active_power :
      has active_power (rs.required electrical_power_measurement (alternating_current ∷ [])) ≡ true
  reactive_power :
      has reactive_power (rs.required electrical_power_measurement (alternating_current ∷ []))
      ≡ false
  imported :
      has cumulative_energy_imported
        (rs.required electrical_energy_measurement (exported_energy ∷ cumulative_energy ∷ []))
      ≡ false

module _ (rs : RsMatter) (root_type : DeviceType) (root_clusters : List ClusterId) where
  -- `has_cluster` compares ids.
  abbrev any_id : List ClusterId → ℕ → Bool
  any_id [] id = false
  any_id (d ∷ clusters) id = rs.id d == id || any_id clusters id

  -- `endpoint(id)`, its device type, and `has_cluster` of each of the clusters.
  abbrev Carries : ℕ → ℕ → List ClusterId → Type 0
  Carries id dtype clusters =
      (e : Endpoint) × (find_endpoint (endpoints root_type root_clusters) id ≡ some e)
      × (e.device_type.dtype ≡ dtype)
      × All (λ c. any_id e.clusters (rs.id c) ≡ true) clusters

  any_id-append :
      (before : List ClusterId) (c : ClusterId) (after : List ClusterId)
      → any_id (before ++ c ∷ after) (rs.id c) ≡ true
  any_id-append [] c after = ground arith
  any_id-append (d ∷ before) c after = ground (arith, any_id-append before c after)

  abbrev PowerSourceEndpointCarriesWiredPowerSourceAndGridTag : Type 0
  PowerSourceEndpointCarriesWiredPowerSourceAndGridTag =
      (rs.id power_source ≡ 0x2F)
      × Carries ep_power_source 0x11 (power_source ∷ [])
      × (feature_map rs power_source_metadata.features ≡ rs.bits wired)
      × (feature_map rs tagged_desc_metadata.features ≡ rs.bits tag_list_feature)
      × ((t : SemanticTag) × (grid_tag ≡ t ∷ []) × (t.namespace_id ≡ 0x0F) × (t.tag ≡ 0x01))

  power_source_endpoint_carries_wired_power_source_and_grid_tag :
      HasIds rs → PowerSourceEndpointCarriesWiredPowerSourceAndGridTag
  unfolding node
  power_source_endpoint_carries_wired_power_source_and_grid_tag h = (
    h.power_source,
    (_, refl, refl, (any_id-append (descriptor ∷ identify ∷ []) power_source [], tt)),
    refl,
    refl,
    (_, refl, refl, refl),
  )

  abbrev ElectricalSensorEndpointCarriesTopologyEpmEem : Type 0
  ElectricalSensorEndpointCarriesTopologyEpmEem =
      (rs.id power_topology ≡ 0x9C)
      × (rs.id electrical_power_measurement ≡ 0x90)
      × (rs.id electrical_energy_measurement ≡ 0x91)
      × Carries ep_electrical_sensor 0x510
          (power_topology ∷ electrical_power_measurement ∷ electrical_energy_measurement ∷ [])

  electrical_sensor_endpoint_carries_topology_epm_eem :
      HasIds rs → ElectricalSensorEndpointCarriesTopologyEpmEem
  unfolding node
  electrical_sensor_endpoint_carries_topology_epm_eem h =
      let epm = electrical_power_measurement in
      let eem = electrical_energy_measurement in
      let before = descriptor ∷ identify ∷ [] in
      (
        h.power_topology,
        h.epm,
        h.eem,
        (
          _,
          refl,
          refl,
          (
            any_id-append before power_topology (epm ∷ eem ∷ []),
            (
              any_id-append (before ++ power_topology ∷ []) epm (eem ∷ []),
              (any_id-append (before ++ (power_topology ∷ epm ∷ [])) eem [], tt),
            ),
          ),
        ),
      )

abbrev EpmAdvertisesAcWithMandatedVoltageAndCurrent : RsMatter → Type 0
EpmAdvertisesAcWithMandatedVoltageAndCurrent rs =
    (feature_map rs epm_metadata.features ≡ rs.bits alternating_current)
    × All (λ a. serves rs epm_metadata a ≡ true)
        (power_mode ∷ number_of_measurement_types ∷ accuracy ∷ active_power ∷ voltage
          ∷ active_current ∷ frequency ∷ [])
    × (serves rs epm_metadata reactive_power ≡ false)

epm_advertises_ac_with_mandated_voltage_and_current :
    (rs : RsMatter) → KeepsElectrical rs → EpmAdvertisesAcWithMandatedVoltageAndCurrent rs
unfolding advertises AttributeId-discrete
epm_advertises_ac_with_mandated_voltage_and_current rs k = (
  refl,
  (k.power_mode, (k.types, (k.accuracy, (k.active_power, (refl, (refl, (refl, tt))))))),
  k.reactive_power,
)

abbrev EemAdvertisesCumulativeExportedEnergy : RsMatter → Type 0
EemAdvertisesCumulativeExportedEnergy rs =
    (feature_map rs eem_metadata.features
      ≡ rs.union (rs.bits exported_energy) (rs.bits cumulative_energy))
    × (serves rs eem_metadata cumulative_energy_exported ≡ true)
    × (serves rs eem_metadata cumulative_energy_imported ≡ false)

eem_advertises_cumulative_exported_energy :
    (rs : RsMatter) → KeepsElectrical rs → EemAdvertisesCumulativeExportedEnergy rs
unfolding advertises AttributeId-discrete
eem_advertises_cumulative_exported_energy rs k = (refl, refl, k.imported)

-- The numbers of the Matter specification, with which the tests run.
abbrev specified_id : ClusterId → ℕ
specified_id descriptor = 0x1D
specified_id identify = 0x03
specified_id power_source = 0x2F
specified_id power_topology = 0x9C
specified_id electrical_power_measurement = 0x90
specified_id electrical_energy_measurement = 0x91
specified_id temperature_measurement = 0x402
specified_id (system n) = n

abbrev specified_bits : Feature → ℕ
specified_bits alternating_current = 2
specified_bits exported_energy = 2
specified_bits cumulative_energy = 4
specified_bits wired = 1
specified_bits node_topology = 1
specified_bits tag_list_feature = 1

abbrev specified_required : Required
specified_required electrical_power_measurement features =
    power_mode ∷ number_of_measurement_types ∷ accuracy ∷ active_power ∷ []
specified_required electrical_energy_measurement features = accuracy ∷ []
specified_required _ features = []

-- The bits of two features that a test unites are apart.
abbrev specified : RsMatter
specified = record {
  id = specified_id;
  bits = specified_bits;
  union = λ a b. a + b;
  required = specified_required;
}

specified-HasIds : HasIds specified
specified-HasIds = record { power_source = refl; power_topology = refl; epm = refl; eem = refl }

specified-KeepsElectrical : KeepsElectrical specified
unfolding AttributeId-discrete
specified-KeepsElectrical = record {
  power_mode = refl;
  types = refl;
  accuracy = refl;
  active_power = refl;
  reactive_power = refl;
  imported = refl;
}
