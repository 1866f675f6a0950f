-- ===== src/Domain/Readings.antt =====
-- What `apply_pack` reads from a pack, for each quantity.
use mathlib.Core.Logic.{if_pos}
use mathlib.Core.Option.{some-injective}
use mathlib.Core.Path.{subst}
use pv_matter.Common.{
  ◌∙◌, ◌≡◌, refl, ◌↔◌, List, [], ◌∷◌, Option, none, some, or_else, map_opt, arith, ite, ◌>>=◌,
}
use pv_matter.Int.{ℤ, ◌+ℤ◌, wrap_i64}
use pv_matter.Text.{Text, codes, text_eq}
use pv_matter.Text.Laws.{text_eq_iff}
use pv_matter.Senml.{Record, Pack}
use pv_matter.Domain.Status.{LinkStatus-discrete, online, parse_device_status, parse_grid_relay}
use pv_matter.Domain.Snapshot.{
  PvSnapshot, RecordKind, total_power, line_voltage, line_current, ac_frequency,
  internal_temperature, lifetime_energy, health, relay_state, unmapped, kind_of, milli,
  centi_celsius, PackScan, text_value, apply_record, apply_records, enforce_link_mask, empty_scan,
  apply_pack,
}

pub RecordKind-discrete : Discrete RecordKind
RecordKind-discrete = hlevel

-- The last value that a list of records gives by `f`.
pub last_value {ℓ} : {A : Type ℓ} → (Record → Option A) → List Record → Option A
last_value f [] = none
last_value f (r ∷ records) = or_else (last_value f records) (f r)

-- `r`, if it has the name of the kind.
abbrev pub of_kind : RecordKind → Record → Option Record
of_kind k r = ite (RecordKind-discrete (kind_of r.name) k) (some r) none

-- The last record of a kind; the last text among those; the last energy total that scales, with its
-- time.
abbrev pub last_of : RecordKind → List Record → Option Record
last_of k records = last_value (of_kind k) records

abbrev pub last_text : RecordKind → List Record → Option Text
last_text k records = last_value (λ r. of_kind k r >>= λ q. text_value q.value) records

abbrev timed : ℤ → Record → ℤ → ℤ × ℤ
timed base_time r mwh = (mwh, wrap_i64 (base_time +ℤ r.time_offset))

abbrev pub last_energy : ℤ → List Record → Option (ℤ × ℤ)
last_energy base_time records =
    last_value (λ r. of_kind lifetime_energy r >>= λ q. map_opt (timed base_time q) (milli q))
      records

-- The value by `f` of what was found, or the old value.
abbrev latest {ℓ κ} : {A : Type ℓ} {B : Type κ} → (A → Option B) → Option A → Option B → Option B
latest f none old = old
latest f (some a) old = f a

record Follows (base_time : ℤ) (records : List Record) (s t : PackScan) : Type 0 where
  voltage : t.voltage ≡ latest milli (last_of line_voltage records) s.voltage
  current : t.current ≡ latest milli (last_of line_current records) s.current
  power : t.power ≡ latest milli (last_of total_power records) s.power
  frequency : t.frequency ≡ latest milli (last_of ac_frequency records) s.frequency
  temperature :
      t.temperature ≡ latest centi_celsius (last_of internal_temperature records) s.temperature
  device_status :
      t.device_status ≡ latest parse_device_status (last_text health records) s.device_status
  relay : t.relay ≡ latest parse_grid_relay (last_text relay_state records) s.relay
  energy :
      t.energy_total_mwh
      ≡ or_else (map_opt (λ e. e.0) (last_energy base_time records)) s.energy_total_mwh
  energy_time :
      t.energy_end_ts ≡ or_else (map_opt (λ e. e.1) (last_energy base_time records)) s.energy_end_ts

-- What later records give goes before what earlier ones gave.
latest_chain {ℓ κ} :
    {A : Type ℓ} {B : Type κ} (f : A → Option B) (a b : Option A) (x : Option B) {y z : Option B}
    → y ≡ latest f a x
    → z ≡ latest f b y
    → z ≡ latest f (or_else b a) x
latest_chain f a none x p q = q ∙ p
latest_chain f a (some b) x p q = q

or_else_chain {ℓ κ} :
    {A : Type ℓ} {B : Type κ} (f : A → B) (a b : Option A) (x : Option B) {y z : Option B}
    → y ≡ or_else (map_opt f a) x
    → z ≡ or_else (map_opt f b) y
    → z ≡ or_else (map_opt f (or_else b a)) x
or_else_chain f a none x p q = q ∙ p
or_else_chain f a (some b) x p q = q

apply_record-Follows :
    (base_time : ℤ) (r : Record) (s : PackScan)
    → Follows base_time (r ∷ []) s (apply_record base_time r s)
unfolding apply_record last_value
apply_record-Follows base_time r s = ground arith

Follows-cons :
    {base_time : ℤ} {r : Record} {records : List Record} {s t u : PackScan}
    → Follows base_time (r ∷ []) s t
    → Follows base_time records t u
    → Follows base_time (r ∷ records) s u
unfolding last_value
Follows-cons f g = record {
  voltage = latest_chain milli _ _ _ f.voltage g.voltage;
  current = latest_chain milli _ _ _ f.current g.current;
  power = latest_chain milli _ _ _ f.power g.power;
  frequency = latest_chain milli _ _ _ f.frequency g.frequency;
  temperature = latest_chain centi_celsius _ _ _ f.temperature g.temperature;
  device_status = latest_chain parse_device_status _ _ _ f.device_status g.device_status;
  relay = latest_chain parse_grid_relay _ _ _ f.relay g.relay;
  energy = or_else_chain (λ e. e.0) _ _ _ f.energy g.energy;
  energy_time = or_else_chain (λ e. e.1) _ _ _ f.energy_time g.energy_time;
}

apply_records-Follows :
    (base_time : ℤ) (records : List Record) (s : PackScan)
    → Follows base_time records s (apply_records base_time records s)
unfolding apply_records
apply_records-Follows base_time [] s = unfold last_value in ground arith
apply_records-Follows base_time (r ∷ records) s =
    Follows-cons (apply_record-Follows base_time r s)
      (apply_records-Follows base_time records (apply_record base_time r s))

-- The instantaneous readings of `t` are what the pack `p` gives.
pub record IsReadFrom (p : Pack) (t : PvSnapshot) : Type 0 where
  pub voltage : t.voltage_mv ≡ (last_of line_voltage p.records >>= milli)
  pub current : t.current_ma ≡ (last_of line_current p.records >>= milli)
  pub power : t.power_mw ≡ (last_of total_power p.records >>= milli)
  pub frequency : t.frequency_mhz ≡ (last_of ac_frequency p.records >>= milli)
  pub temperature :
      t.temperature_centi_c ≡ (last_of internal_temperature p.records >>= centi_celsius)
  pub device_status : t.device_status ≡ (last_text health p.records >>= parse_device_status)
  pub relay : t.grid_relay ≡ (last_text relay_state p.records >>= parse_grid_relay)

-- The energy total and its time are those of the last energy record that scales, at the time of the
-- pack plus its own offset; without one both are kept. It does not matter whether the link is online.
pub apply_pack-energy :
    (p : Pack) (s : PvSnapshot)
    → ((apply_pack s p).energy_total_mwh
        ≡ or_else (map_opt (λ e. e.0) (last_energy p.base_time p.records)) s.energy_total_mwh)
      × ((apply_pack s p).energy_end_ts
          ≡ or_else (map_opt (λ e. e.1) (last_energy p.base_time p.records)) s.energy_end_ts)
unfolding apply_pack enforce_link_mask
apply_pack-energy p s =
    let f = apply_records-Follows p.base_time p.records (empty_scan s) in
    (ground (arith, f.energy), ground (arith, f.energy_time))

bind_latest {ℓ κ} :
    {A : Type ℓ} {B : Type κ} (f : A → Option B) (a : Option A) → latest f a none ≡ (a >>= f)
bind_latest f none = refl
bind_latest f (some a) = refl

-- While the link is online, every number among the instantaneous readings is that of the last record of its
-- name, and each of the two states that of the last record of its name with a text; a reading is absent if
-- there is no such record or if it cannot be mapped. Readings of earlier packs are forgotten.
pub apply_pack-IsReadFrom :
    (p : Pack) (s : PvSnapshot) → s.link ≡ online → IsReadFrom p (apply_pack s p)
unfolding apply_pack enforce_link_mask
apply_pack-IsReadFrom p s h =
    let f = apply_records-Follows p.base_time p.records (empty_scan s) in
    rw (if_pos (LinkStatus-discrete s.link online) h) (record {
      voltage = f.voltage ∙ bind_latest milli _;
      current = f.current ∙ bind_latest milli _;
      power = f.power ∙ bind_latest milli _;
      frequency = f.frequency ∙ bind_latest milli _;
      temperature = f.temperature ∙ bind_latest centi_celsius _;
      device_status = f.device_status ∙ bind_latest parse_device_status _;
      relay = f.relay ∙ bind_latest parse_grid_relay _;
    })

-- The names that the contract gives to the quantities.
abbrev pub contract_name : RecordKind → Option Text
contract_name total_power = some (codes "ac/total_power")
contract_name line_voltage = some (codes "ac/l1/voltage")
contract_name line_current = some (codes "ac/l1/current")
contract_name ac_frequency = some (codes "ac/frequency")
contract_name internal_temperature = some (codes "device/temperature")
contract_name lifetime_energy = some (codes "energy/total")
contract_name health = some (codes "device/status")
contract_name relay_state = some (codes "device/grid_relay")
contract_name unmapped = none

contract_name-kind_of : (name w : Text) → contract_name (kind_of name) ≡ some w → name ≡ w
unfolding kind_of
contract_name-kind_of name w e = ground (
  arith,
  text_eq_iff name (codes "ac/total_power"),
  text_eq_iff name (codes "ac/l1/voltage"),
  text_eq_iff name (codes "ac/l1/current"),
  text_eq_iff name (codes "ac/frequency"),
  text_eq_iff name (codes "device/temperature"),
  text_eq_iff name (codes "energy/total"),
  text_eq_iff name (codes "device/status"),
  text_eq_iff name (codes "device/grid_relay"),
)

at_name : {k : RecordKind} {v w : Text} → kind_of v ≡ k → some v ≡ some w → kind_of w ≡ k
at_name {k} {v} {w} h e = subst (λ u. kind_of u ≡ k) (some-injective v w e) h

kind_of-contract_name : (k : RecordKind) (w : Text) → contract_name k ≡ some w → kind_of w ≡ k
unfolding kind_of text_eq
kind_of-contract_name unmapped w e = cc
kind_of-contract_name total_power w e = at_name refl e
kind_of-contract_name line_voltage w e = at_name refl e
kind_of-contract_name line_current w e = at_name refl e
kind_of-contract_name ac_frequency w e = at_name refl e
kind_of-contract_name internal_temperature w e = at_name refl e
kind_of-contract_name lifetime_energy w e = at_name refl e
kind_of-contract_name health w e = at_name refl e
kind_of-contract_name relay_state w e = at_name refl e

-- For each quantity of the contract: a record is taken for it exactly if it has its name.
pub kind_of_iff :
    (name : Text) (k : RecordKind) (w : Text)
    → contract_name k ≡ some w
    → (kind_of name ≡ k) ↔ (name ≡ w)
kind_of_iff name k w e = (
  λ same. contract_name-kind_of name w (rw same e),
  λ same. rw same (kind_of-contract_name k w e),
)
