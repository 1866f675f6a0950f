-- ===== src/Matter/Handlers/Epm.antt =====
-- The handler of src/matter/epm.rs: what it is made of, and its data version. `state` is a reference to the
-- shared cell.
use pv_matter.Common.{ℕ}
use pv_matter.Matter.Handlers.Version.{Dataver}

pub record EpmHandler (V R : Type 0) : Type 0 where
  pub dataver : V
  pub state : R

module _ {V R : Type 0} where
  unfoldable pub new : V → R → EpmHandler V R
  new dataver state = record { dataver = dataver; state = state }

  module _ {Rand : Type 0} (ops : Dataver Rand V) where
    unfoldable pub dataver : EpmHandler V R → ℕ
    dataver h = ops.get h.dataver

    unfoldable pub dataver_changed : EpmHandler V R → EpmHandler V R
    dataver_changed h = record h { dataver = ops.changed h.dataver }
