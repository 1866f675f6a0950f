-- ===== src/Domain/Range.antt =====
-- Every number of a snapshot fits its type, and negating a reading never overflows.
use pv_matter.Common.{ℕ, List, [], ◌∷◌, Option, none, some, arith, inl, inr, Option-cases}
use pv_matter.Int.{ℤ, pos, negsuc, neg, ◌≤ℤ◌, i64_max, IsI64, wrap_i64-IsI64, ◌+ℤ◌}
use pv_matter.Text.{Text}
use pv_matter.Senml.{Record, Value, number, text}
use pv_matter.Senml.Decimal.{scale_decimal}
use pv_matter.Senml.Decimal.Grammar.{scale_decimal_bounded}
use pv_matter.Domain.Snapshot.{
  PvSnapshot, scaled, milli_shift, milli, centi_celsius, PackScan, apply_record, apply_records,
  enforce_link_mask, empty_scan, apply_pack, set_status,
}
use pv_matter.Domain.{DomainMsg, info, pack, status, State, default_state, apply, apply_all}

-- The `i64` values whose negation is an `i64` too.
abbrev pub IsMirrored : ℤ → Type 0
IsMirrored z = (neg (pos i64_max) ≤ℤ z) × (z ≤ℤ pos i64_max)

abbrev pub IsI16 : ℤ → Type 0
IsI16 z = (negsuc 32767 ≤ℤ z) × (z ≤ℤ pos 32767)

abbrev pub IfSome : (ℤ → Type 0) → Option ℤ → Type 0
IfSome P none = Unit
IfSome P (some z) = P z

pub record IsInRange (s : PvSnapshot) : Type 0 where
  pub voltage : IfSome IsMirrored s.voltage_mv
  pub current : IfSome IsMirrored s.current_ma
  pub power : IfSome IsMirrored s.power_mw
  pub frequency : IfSome IsMirrored s.frequency_mhz
  pub energy : IfSome IsMirrored s.energy_total_mwh
  pub energy_time : IfSome IsI64 s.energy_end_ts
  pub temperature : IfSome IsI16 s.temperature_centi_c

record IsInScanRange (s : PackScan) : Type 0 where
  voltage : IfSome IsMirrored s.voltage
  current : IfSome IsMirrored s.current
  power : IfSome IsMirrored s.power
  frequency : IfSome IsMirrored s.frequency
  energy : IfSome IsMirrored s.energy_total_mwh
  energy_time : IfSome IsI64 s.energy_end_ts
  temperature : IfSome IsI16 s.temperature

scale_decimal_in_range : (raw : Text) (exp : ℕ) → IfSome IsMirrored (scale_decimal raw exp)
scale_decimal_in_range raw exp = elim (Option-cases (scale_decimal raw exp)) [
  | inl e ↦ rw e tt
  | inr (z, e) ↦ rw e (scale_decimal_bounded raw exp e)
]

scaled_in_range : (r : Record) (shift : Option ℕ) → IfSome IsMirrored (scaled r shift)
unfolding scaled
scaled_in_range r none = tt
scaled_in_range r (some shift) = go r.value
  where
    go : (v : Value) → IfSome IsMirrored (scaled (record r { value = v }) (some shift))
    go (number raw) = scale_decimal_in_range raw shift
    go (text s) = tt

milli_in_range : (r : Record) → IfSome IsMirrored (milli r)
unfolding milli
milli_in_range r = scaled_in_range r (milli_shift r.unit)

centi_celsius_in_range : (r : Record) → IfSome IsI16 (centi_celsius r)
unfolding centi_celsius
centi_celsius_in_range r = ground arith

apply_record_in_range :
    (base_time : ℤ) (r : Record) (s : PackScan)
    → IsInScanRange s
    → IsInScanRange (apply_record base_time r s)
unfolding apply_record
apply_record_in_range base_time r s h =
    ground (
      arith,
      milli_in_range r,
      centi_celsius_in_range r,
      wrap_i64-IsI64 (base_time +ℤ r.time_offset),
    )

apply_records_in_range :
    (base_time : ℤ) (records : List Record) (s : PackScan)
    → IsInScanRange s
    → IsInScanRange (apply_records base_time records s)
unfolding apply_records
apply_records_in_range base_time [] s h = h
apply_records_in_range base_time (r ∷ records) s h =
    apply_records_in_range base_time records _ (apply_record_in_range base_time r s h)

enforce_link_mask-IsInRange : (s : PvSnapshot) → IsInRange s → IsInRange (enforce_link_mask s)
unfolding enforce_link_mask
enforce_link_mask-IsInRange s h = ground arith

apply-IsInRange :
    (s : State) (m : DomainMsg) → IsInRange s.snapshot → IsInRange (apply s m).snapshot
unfolding apply apply_pack set_status
apply-IsInRange s (info i) h = ground arith
apply-IsInRange s (pack p) h =
    let scan =
      apply_records_in_range p.base_time p.records (empty_scan s.snapshot) (ground arith) in
    enforce_link_mask-IsInRange _ (ground (arith, scan))
apply-IsInRange s (status l) h = enforce_link_mask-IsInRange _ (ground arith)

apply_all_from-IsInRange :
    (s : State) (msgs : List DomainMsg)
    → IsInRange s.snapshot
    → IsInRange (apply_all s msgs).snapshot
unfolding apply_all
apply_all_from-IsInRange s [] h = h
apply_all_from-IsInRange s (m ∷ msgs) h =
    apply_all_from-IsInRange (apply s m) msgs (apply-IsInRange s m h)

-- Whatever was received, the readings fit their types; none but the time of the energy total can be
-- -2 ^ 63, so that the sign flip of the Matter side never overflows.
pub apply_all-IsInRange :
    (msgs : List DomainMsg) → IsInRange (apply_all default_state msgs).snapshot
apply_all-IsInRange msgs = apply_all_from-IsInRange default_state msgs (ground arith)
