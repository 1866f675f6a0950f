-- ===== src/Matter/Handlers/PowerTopology.antt =====
-- The handler of src/matter/power_topology.rs: what it is made of, and its data version. It holds nothing but
-- its version.
use pv_matter.Common.{ℕ}
use pv_matter.Matter.Handlers.Version.{Dataver}

pub record PowerTopologyHandler (V : Type 0) : Type 0 where
  pub dataver : V

module _ {V : Type 0} where
  unfoldable pub new : V → PowerTopologyHandler V
  new dataver = record { dataver = dataver }

  module _ {Rand : Type 0} (ops : Dataver Rand V) where
    unfoldable pub dataver : PowerTopologyHandler V → ℕ
    dataver h = ops.get h.dataver

    unfoldable pub dataver_changed : PowerTopologyHandler V → PowerTopologyHandler V
    dataver_changed h = record h { dataver = ops.changed h.dataver }
