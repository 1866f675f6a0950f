-- ===== src/Matter/Bridge/Subscriber.antt =====
-- A subscriber of the node, which reads an attribute again whenever the bridge notifies it.
use mathlib.Core.Logic.{if_pos, if_neg}
use mathlib.Core.Path.{ap, sym}
use pv_matter.Common.{ℕ, ℕ_discrete, ◌≡◌, ◌∙◌, refl, List, [], ◌∷◌, Option, map_opt, ite, arith}
use pv_matter.Int.{ℤ}
use pv_matter.Domain.Snapshot.{PvSnapshot, source_status}
use pv_matter.Matter.Epm
use pv_matter.Matter.Clusters.{PowerSourceStatusEnum}
use pv_matter.Matter.Eem.{EnergyMeasurement, cumulative_energy_exported}
use pv_matter.Matter.Bridge.{
  Attribute, Effect, Bridge, Wake, start_bridge, iterate, iterate_all, run_bridge,
}
use pv_matter.Matter.Bridge.Changes.{watched, Watched-discrete, times_notified}
use pv_matter.Matter.Bridge.Run.{iterate-newest, iterate-times}

-- What a read of an attribute returns.
pub data Reading : Type 0 where
  nullable : Option ℤ → Reading
  energy : Option EnergyMeasurement → Reading
  condition : PowerSourceStatusEnum → Reading

-- The reads of the handlers, by the attribute.
unfoldable pub read_attribute : ℕ → PvSnapshot → Attribute → Reading
read_attribute epoch s Attribute.voltage = nullable (pv_matter.Matter.Epm.voltage s)
read_attribute epoch s Attribute.active_current = nullable (pv_matter.Matter.Epm.active_current s)
read_attribute epoch s Attribute.active_power = nullable (pv_matter.Matter.Epm.active_power s)
read_attribute epoch s Attribute.frequency = nullable (pv_matter.Matter.Epm.frequency s)
read_attribute epoch s Attribute.cumulative_energy_exported =
    energy (cumulative_energy_exported epoch s)
read_attribute epoch s Attribute.status = condition (pv_matter.Matter.Clusters.status s)
read_attribute epoch s Attribute.measured_value =
    nullable (pv_matter.Matter.Clusters.measured_value s)

-- The reading without the time of an energy.
abbrev pub untimed : Reading → Reading
untimed (energy e) = nullable (map_opt (λ (m : EnergyMeasurement). m.energy) e)
untimed (nullable v) = nullable v
untimed (condition c) = condition c

-- The notified attributes are read again, from the shared snapshot.
abbrev pub reread : ℕ → List Effect → PvSnapshot → (Attribute → Reading) → Attribute → Reading
reread epoch effects shared cache a =
    ite (ℕ_discrete (times_notified a effects) 0) (cache a) (read_attribute epoch shared a)

-- What the subscriber has over a run, an iteration after the other.
unfoldable pub follow : ℕ → (Attribute → Reading) → Bridge → List Wake → Attribute → Reading
follow epoch cache b [] = cache
follow epoch cache b (w ∷ wakes) =
    follow epoch (reread epoch (iterate epoch b w).1 (iterate epoch b w).0.shared cache)
      (iterate epoch b w).0 wakes

energy-total :
    (epoch : ℕ) (s : PvSnapshot)
    → map_opt (λ (m : EnergyMeasurement). m.energy) (cumulative_energy_exported epoch s)
      ≡ s.energy_total_mwh
unfolding cumulative_energy_exported
energy-total epoch s = ground arith

-- The value behind an attribute decides the reading, but for the time of an energy.
untimed-watched :
    (epoch : ℕ) (a : Attribute) (s t : PvSnapshot)
    → watched a s ≡ watched a t
    → untimed (read_attribute epoch s a) ≡ untimed (read_attribute epoch t a)
unfolding read_attribute pv_matter.Matter.Epm.voltage pv_matter.Matter.Epm.active_current
    pv_matter.Matter.Epm.active_power pv_matter.Matter.Epm.frequency
    pv_matter.Matter.Clusters.status pv_matter.Matter.Clusters.measured_value
untimed-watched epoch Attribute.voltage s t h = cc
untimed-watched epoch Attribute.active_current s t h =
    let e : s.current_ma ≡ t.current_ma = cc in rw e refl
untimed-watched epoch Attribute.active_power s t h =
    let e : s.power_mw ≡ t.power_mw = cc in rw e refl
untimed-watched epoch Attribute.frequency s t h = cc
untimed-watched epoch Attribute.cumulative_energy_exported s t h =
    let e : s.energy_total_mwh ≡ t.energy_total_mwh = cc in
    rw (energy-total epoch s, energy-total epoch t, e) refl
untimed-watched epoch Attribute.status s t h =
    let e : source_status s ≡ source_status t = cc in rw e refl
untimed-watched epoch Attribute.measured_value s t h = cc

-- The subscriber has what a read returns.
abbrev pub IsFresh : ℕ → (Attribute → Reading) → PvSnapshot → Attribute → Type 0
IsFresh epoch cache s a = untimed (cache a) ≡ untimed (read_attribute epoch s a)

pub reread-IsFresh :
    (epoch : ℕ) (a : Attribute) (effects : List Effect) (prev next : PvSnapshot)
    (cache : Attribute → Reading)
    → times_notified a effects ≡ ite (Watched-discrete (watched a next) (watched a prev)) 0 1
    → IsFresh epoch cache prev a
    → IsFresh epoch (reread epoch effects next cache) next a
reread-IsFresh epoch a effects prev next cache n h =
    let times = times_notified a effects in
    let before = cache a in
    let now = read_attribute epoch next a in
    elim (Watched-discrete (watched a next) (watched a prev)) [
      | yes e ↦
          let silent : times ≡ 0 = n ∙ if_pos (Watched-discrete _ _) e 0 1 in
          ap untimed (if_pos (ℕ_discrete times 0) silent before now)
          ∙ h
          ∙ untimed-watched epoch a prev next (sym e)
      | no k ↦
          let once : times ≡ 1 = n ∙ if_neg (Watched-discrete _ _) k 0 1 in
          ap untimed (if_neg (ℕ_discrete times 0) (λ q. omega (arith, once, q)) before now)
    ]

follow-IsFresh :
    (epoch : ℕ) (a : Attribute) (cache : Attribute → Reading) (b : Bridge) (wakes : List Wake)
    → b.shared ≡ b.prev
    → IsFresh epoch cache b.shared a
    → IsFresh epoch (follow epoch cache b wakes) (iterate_all epoch b wakes).0.shared a
unfolding follow iterate_all
follow-IsFresh epoch a cache b [] agree h = h
follow-IsFresh epoch a cache b (w ∷ wakes) agree h =
    let (shared, prev) = iterate-newest epoch b w agree in
    let b' = (iterate epoch b w).0 in
    let effects = (iterate epoch b w).1 in
    follow-IsFresh epoch a (reread epoch effects b'.shared cache) b' wakes (shared ∙ sym prev)
      (reread-IsFresh epoch a effects b.shared b'.shared cache (iterate-times epoch a b w agree) h)

-- A subscriber that starts with a read of the attributes, and reads one again whenever an iteration of the
-- bridge notifies it, has after every run what a read then returns. Of the exported energy this holds for
-- the amount, and not said of the time.
pub follow-run_bridge :
    (epoch : ℕ) (a : Attribute) (initial : PvSnapshot) (wakes : List Wake)
    → untimed (follow epoch (read_attribute epoch initial) (start_bridge initial) wakes a)
      ≡ untimed (read_attribute epoch (run_bridge epoch initial wakes).0.shared a)
unfolding run_bridge start_bridge
follow-run_bridge epoch a initial wakes =
    follow-IsFresh epoch a (read_attribute epoch initial) (start_bridge initial) wakes refl refl
