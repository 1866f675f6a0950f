-- ===== src/Domain.antt =====
-- src/domain.rs: the messages and the state that folds them. The parts are in the children: Status
-- (the enums), Info (the identity), Snapshot (the readings); the others prove.
pub mod Status
pub mod Info
pub mod Snapshot
pub mod Mask
pub mod Readings
pub mod Severity
pub mod Range
pub mod History
pub mod Order
pub mod Trace
pub mod Redelivery
use pv_matter.Common.{List, [], ◌∷◌, Option, none, some}
use pv_matter.Senml.{Pack}
use Status.{LinkStatus}
use Info.{InverterInfo}
use Snapshot.{PvSnapshot, default_snapshot, apply_pack, set_status}

pub data DomainMsg : Type 0 where
  info : InverterInfo → DomainMsg
  pack : Pack → DomainMsg
  status : LinkStatus → DomainMsg

pub record State : Type 0 where
  pub snapshot : PvSnapshot
  pub info : Option InverterInfo

abbrev pub default_state : State
default_state = record { snapshot = default_snapshot; info = none }

-- `State::apply`
unfoldable pub apply : State → DomainMsg → State
apply s (info i) = record {
  snapshot = record (s.snapshot) { max_power_w = i.max_power_w };
  info = some i;
}
apply s (pack p) = record s { snapshot = apply_pack s.snapshot p }
apply s (status l) = record s { snapshot = set_status s.snapshot l }

-- The messages of a run, folded in their order.
unfoldable pub apply_all : State → List DomainMsg → State
apply_all s [] = s
apply_all s (m ∷ msgs) = apply_all (apply s m) msgs
