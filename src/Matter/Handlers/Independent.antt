-- ===== src/Matter/Handlers/Independent.antt =====
-- The data versions of the handlers among one another, and the cell that they share.
use pv_matter.Common.{ℕ, ap, ◌≡◌, ◌∙◌, refl, List, [], ◌∷◌, ite, arith}
use pv_matter.Matter.Node.{powered_endpoints}
use pv_matter.Matter.Handlers.Version.{Dataver}
use pv_matter.Matter.Handlers.PowerSource
use pv_matter.Matter.Handlers.PowerTopology
use pv_matter.Matter.Handlers.Epm
use pv_matter.Matter.Handlers.Eem
use pv_matter.Matter.Handlers.Temperature
use pv_matter.Matter.Handlers.{Handlers, new_handlers}

-- The handlers, by the cluster that they serve.
pub data Functional : Type 0 where
  power_source power_topology epm eem temperature : Functional

pub Functional-discrete : Discrete Functional
Functional-discrete = hlevel

abbrev pub version : {V R : Type 0} → Handlers V R → Functional → V
version h power_source = h.power_source.dataver
version h power_topology = h.power_topology.dataver
version h epm = h.epm.dataver
version h eem = h.eem.dataver
version h temperature = h.temperature.dataver

-- Every handler reads the cell `state`, and the power source names the powered endpoints.
pub record Shares {V R : Type 0} (state : R) (h : Handlers V R) : Type 0 where
  pub power_source : h.power_source.state ≡ state
  pub epm : h.epm.state ≡ state
  pub eem : h.eem.state ≡ state
  pub temperature : h.temperature.state ≡ state
  pub endpoints : h.power_source.powered_endpoints ≡ powered_endpoints

-- A version after as many changes as calls name its handler.
abbrev pub version_after : {Rand V : Type 0} → Dataver Rand V → V → Functional → List Functional → V
version_after ops v c [] = v
version_after ops v c (d ∷ calls) =
    version_after ops (ite (Functional-discrete c d) (ops.changed v) v) c calls

module _ {Rand V R : Type 0} (ops : Dataver Rand V) where
  -- A call of `dataver` and of `dataver_changed`, which rs-matter sends to the handler of the cluster.
  abbrev pub dataver_of : Handlers V R → Functional → ℕ
  dataver_of h power_source = PowerSource.dataver ops h.power_source
  dataver_of h power_topology = PowerTopology.dataver ops h.power_topology
  dataver_of h epm = Epm.dataver ops h.epm
  dataver_of h eem = Eem.dataver ops h.eem
  dataver_of h temperature = Temperature.dataver ops h.temperature

  abbrev pub change : Handlers V R → Functional → Handlers V R
  change h power_source = record h { power_source = PowerSource.dataver_changed ops h.power_source }
  change h power_topology = record h {
    power_topology = PowerTopology.dataver_changed ops h.power_topology;
  }
  change h epm = record h { epm = Epm.dataver_changed ops h.epm }
  change h eem = record h { eem = Eem.dataver_changed ops h.eem }
  change h temperature = record h { temperature = Temperature.dataver_changed ops h.temperature }

  abbrev pub changed_all : Handlers V R → List Functional → Handlers V R
  changed_all h [] = h
  changed_all h (c ∷ calls) = changed_all (change h c) calls

  version-change :
      (h : Handlers V R) (c d : Functional)
      → version (change h d) c
        ≡ ite (Functional-discrete c d) (ops.changed (version h c)) (version h c)
  unfolding PowerSource.dataver_changed PowerTopology.dataver_changed Epm.dataver_changed
      Eem.dataver_changed Temperature.dataver_changed
  version-change h c power_source = ground arith
  version-change h c power_topology = ground arith
  version-change h c epm = ground arith
  version-change h c eem = ground arith
  version-change h c temperature = ground arith

  version-changed_all :
      (h : Handlers V R) (c : Functional) (calls : List Functional)
      → version (changed_all h calls) c ≡ version_after ops (version h c) c calls
  version-changed_all h c [] = refl
  version-changed_all h c (d ∷ calls) =
      version-changed_all (change h d) c calls
      ∙ ap (λ v. version_after ops v c calls) (version-change h c d)

  change-Shares :
      {state : R} (h : Handlers V R) (d : Functional) → Shares state h → Shares state (change h d)
  unfolding PowerSource.dataver_changed PowerTopology.dataver_changed Epm.dataver_changed
      Eem.dataver_changed Temperature.dataver_changed
  change-Shares h power_source s = ground arith
  change-Shares h power_topology s = ground arith
  change-Shares h epm s = ground arith
  change-Shares h eem s = ground arith
  change-Shares h temperature s = ground arith

  changed_all-Shares :
      {state : R} (h : Handlers V R) (calls : List Functional)
      → Shares state h
      → Shares state (changed_all h calls)
  changed_all-Shares h [] s = s
  changed_all-Shares h (d ∷ calls) s = changed_all-Shares (change h d) calls (change-Shares h d s)

  get-version : (h : Handlers V R) (c : Functional) → dataver_of h c ≡ ops.get (version h c)
  unfolding PowerSource.dataver PowerTopology.dataver Epm.dataver Eem.dataver Temperature.dataver
  get-version h power_source = refl
  get-version h power_topology = refl
  get-version h epm = refl
  get-version h eem = refl
  get-version h temperature = refl

  new_handlers-Shares : (state : R) (rand : Rand) → Shares state (new_handlers ops state rand).0
  unfolding new_handlers PowerSource.new PowerTopology.new Epm.new Eem.new Temperature.new
  new_handlers-Shares state rand = record {
    power_source = refl;
    epm = refl;
    eem = refl;
    temperature = refl;
    endpoints = refl;
  }

  -- After any changes of data versions, in any order among new handlers, each handler has the version of the
  -- changes that name it, and all of them read the one cell that they were made with.
  pub new_handlers-changed_all :
      (state : R) (rand : Rand) (c : Functional) (calls : List Functional)
      → let h = (new_handlers ops state rand).0 in
        (dataver_of (changed_all h calls) c ≡ ops.get (version_after ops (version h c) c calls))
        × Shares state (changed_all h calls)
  new_handlers-changed_all state rand c calls =
      let h = (new_handlers ops state rand).0 in
      (
        get-version (changed_all h calls) c ∙ ap ops.get (version-changed_all h c calls),
        changed_all-Shares h calls (new_handlers-Shares state rand),
      )
