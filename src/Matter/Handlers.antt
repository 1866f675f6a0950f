-- ===== src/Matter/Handlers.antt =====
-- `Handlers` of src/matter/node.rs, made of the five handlers of the children. `Dataver` and the random
-- generator are rs-matter's, so they are parameters. The handlers borrow one `RefCell`: a reference is of any
-- type `R`, and `borrow` reads it.
pub mod Version
pub mod PowerSource
pub mod PowerTopology
pub mod Epm
pub mod Eem
pub mod Temperature
pub mod Independent
use pv_matter.Common.{ℕ}
use pv_matter.Matter.Node.{powered_endpoints}
use Version.{Dataver}
use PowerSource.{PowerSourceHandler}
use PowerTopology.{PowerTopologyHandler}
use Epm.{EpmHandler}
use Eem.{EemHandler}
use Temperature.{TemperatureHandler}

pub record Handlers (V R : Type 0) : Type 0 where
  pub power_source : PowerSourceHandler V R
  pub power_topology : PowerTopologyHandler V
  pub epm : EpmHandler V R
  pub eem : EemHandler V R
  pub temperature : TemperatureHandler V R

-- `Handlers::new`, which draws a version for each handler.
unfoldable pub new_handlers : {Rand V R : Type 0} → Dataver Rand V → R → Rand → Handlers V R × Rand
new_handlers ops state rand =
    let (v1, rand1) = ops.new_rand rand in
    let (v2, rand2) = ops.new_rand rand1 in
    let (v3, rand3) = ops.new_rand rand2 in
    let (v4, rand4) = ops.new_rand rand3 in
    let (v5, rand5) = ops.new_rand rand4 in
    (
      record {
        power_source = PowerSource.new v1 state powered_endpoints;
        power_topology = PowerTopology.new v2;
        epm = Epm.new v3 state;
        eem = Eem.new v4 state;
        temperature = Temperature.new v5 state;
      },
      rand5,
    )
