-- ===== src/Matter/Handlers/PowerSource.antt =====
-- The handler of src/matter/power_source.rs: what it is made of, and its data version. `state` is a reference
-- to the shared cell.
use pv_matter.Common.{ℕ, List}
use pv_matter.Matter.Handlers.Version.{Dataver}

pub record PowerSourceHandler (V R : Type 0) : Type 0 where
  pub dataver : V
  pub state : R
  pub powered_endpoints : List ℕ

module _ {V R : Type 0} where
  unfoldable pub new : V → R → List ℕ → PowerSourceHandler V R
  new dataver state powered_endpoints = record {
    dataver = dataver;
    state = state;
    powered_endpoints = powered_endpoints;
  }

  module _ {Rand : Type 0} (ops : Dataver Rand V) where
    unfoldable pub dataver : PowerSourceHandler V R → ℕ
    dataver h = ops.get h.dataver

    unfoldable pub dataver_changed : PowerSourceHandler V R → PowerSourceHandler V R
    dataver_changed h = record h { dataver = ops.changed h.dataver }
