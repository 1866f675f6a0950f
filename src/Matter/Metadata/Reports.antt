-- ===== src/Matter/Metadata/Reports.antt =====
-- The attributes of the calls of src/matter/bridge.rs, against the node, the handler chain and the metadata.
use pv_matter.Common.{ℕ, ◌≡◌, ◌≢◌, refl, true, ◌==◌, if◌then◌else◌, List, [], ◌∷◌, ite, sym, ◌∙◌}
use pv_matter.Matter.Bridge.{Attribute}
use pv_matter.Matter.Node.{
  ClusterId, ClusterId-discrete, power_source, electrical_power_measurement,
  electrical_energy_measurement, temperature_measurement, ep_power_source, ep_electrical_sensor,
  ep_temperature, Endpoint, node, Link, dm_handler, HandlerRef, cluster_handler,
}
use pv_matter.Matter.Node.Agreement.{declared, served, node-dm_handler}
use pv_matter.Matter.Metadata.{
  AttributeId, AttributeId-discrete, Metadata, epm_metadata, eem_metadata, power_source_metadata,
  temperature_metadata, has, Required, advertises, wired, alternating_current,
}

-- The endpoint, the cluster with its metadata, and the attribute of the `notify_attr_changed` calls.
pub record Target : Type 0 where
  pub endpoint : ℕ
  pub metadata : Metadata
  pub attribute : AttributeId

unfoldable pub target : Attribute → Target
target Attribute.voltage = record {
  endpoint = ep_electrical_sensor;
  metadata = epm_metadata;
  attribute = AttributeId.voltage;
}
target Attribute.active_current = record {
  endpoint = ep_electrical_sensor;
  metadata = epm_metadata;
  attribute = AttributeId.active_current;
}
target Attribute.active_power = record {
  endpoint = ep_electrical_sensor;
  metadata = epm_metadata;
  attribute = AttributeId.active_power;
}
target Attribute.frequency = record {
  endpoint = ep_electrical_sensor;
  metadata = epm_metadata;
  attribute = AttributeId.frequency;
}
target Attribute.cumulative_energy_exported = record {
  endpoint = ep_electrical_sensor;
  metadata = eem_metadata;
  attribute = AttributeId.cumulative_energy_exported;
}
target Attribute.status = record {
  endpoint = ep_power_source;
  metadata = power_source_metadata;
  attribute = AttributeId.status;
}
target Attribute.measured_value = record {
  endpoint = ep_temperature;
  metadata = temperature_metadata;
  attribute = AttributeId.measured_value;
}

-- The handlers of the links that serve a cluster on an endpoint.
abbrev pub serving : ℕ → ClusterId → List Link → List HandlerRef
serving e c [] = []
serving e c (l ∷ links) =
    if l.endpoint == e
    then ite (ClusterId-discrete l.cluster c) (l.handler ∷ serving e c links) (serving e c links)
    else serving e c links

-- The three attributes that the source does not select are required by rs-matter, as the clusters'
-- specifications have it.
pub record KeepsMandatory (required : Required) : Type 0 where
  pub active_power :
      has AttributeId.active_power
        (required electrical_power_measurement (alternating_current ∷ []))
      ≡ true
  pub status : has AttributeId.status (required power_source (wired ∷ [])) ≡ true
  pub measured_value : has AttributeId.measured_value (required temperature_measurement []) ≡ true

-- Every attribute that the bridge may notify is on an endpoint that declares its cluster once, where exactly
-- the handler of that cluster serves it, and the cluster advertises it, provided that rs-matter keeps the
-- three mandatory attributes; the root endpoint is any other than that of the attribute.
pub target-advertises :
    (required : Required) (root : Endpoint) (a : Attribute)
    → KeepsMandatory required
    → root.id ≢ (target a).endpoint
    → (declared (target a).endpoint (target a).metadata.cluster (node root) ≡ 1)
      × (serving (target a).endpoint (target a).metadata.cluster dm_handler
          ≡ cluster_handler (target a).metadata.cluster ∷ [])
      × (advertises required (target a).metadata (target a).attribute ≡ true)
unfolding target advertises dm_handler served ClusterId-discrete AttributeId-discrete
target-advertises required root Attribute.voltage k h =
    (node-dm_handler root 3 electrical_power_measurement (λ q. h (sym q)) ∙ refl, refl, refl)
target-advertises required root Attribute.active_current k h =
    (node-dm_handler root 3 electrical_power_measurement (λ q. h (sym q)) ∙ refl, refl, refl)
target-advertises required root Attribute.active_power k h = (
  node-dm_handler root 3 electrical_power_measurement (λ q. h (sym q)) ∙ refl,
  refl,
  k.active_power,
)
target-advertises required root Attribute.frequency k h =
    (node-dm_handler root 3 electrical_power_measurement (λ q. h (sym q)) ∙ refl, refl, refl)
target-advertises required root Attribute.cumulative_energy_exported k h =
    (node-dm_handler root 3 electrical_energy_measurement (λ q. h (sym q)) ∙ refl, refl, refl)
target-advertises required root Attribute.status k h =
    (node-dm_handler root 2 power_source (λ q. h (sym q)) ∙ refl, refl, k.status)
target-advertises required root Attribute.measured_value k h =
    (node-dm_handler root 4 temperature_measurement (λ q. h (sym q)) ∙ refl, refl, k.measured_value)
