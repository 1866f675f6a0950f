-- ===== src/Domain/Redelivery.antt =====
-- A message that is delivered again, as MQTT allows for a publish that is delivered at least once.
use pv_matter.Common.{List, [], ◌∷◌, Option, ◌≡◌, ◌∙◌, refl, ap, arith, ◌⊎◌, inl, inr, Option-cases}
use pv_matter.Int.{ℤ}
use pv_matter.Senml.{Record, Pack}
use pv_matter.Domain.Status.{LinkStatus}
use pv_matter.Domain.Snapshot.{
  PvSnapshot, PackScan, RecordKind, total_power, line_voltage, line_current, ac_frequency,
  internal_temperature, lifetime_energy, health, relay_state, unmapped, kind_of, milli, text_value,
  apply_kind, apply_record, apply_records, enforce_link_mask, empty_scan, store_scan, apply_pack,
  set_status,
}
use pv_matter.Domain.{DomainMsg, info, pack, status, State, apply, apply_all}

abbrev with_energy : Option ℤ → Option ℤ → PackScan → PackScan
with_energy total end_ts s = record s { energy_total_mwh = total; energy_end_ts = end_ts }

-- What a scan makes of the energy that it starts with: it keeps it, or forgets it.
KeepsEnergy : (PackScan → PackScan) → Type 0
KeepsEnergy f =
    (total end_ts : Option ℤ) (s : PackScan)
    → f (with_energy total end_ts s) ≡ with_energy total end_ts (f s)

ForgetsEnergy : (PackScan → PackScan) → Type 0
ForgetsEnergy f = (total end_ts : Option ℤ) (s : PackScan) → f (with_energy total end_ts s) ≡ f s

apply_kind_energy :
    (k : RecordKind) (base_time : ℤ) (r : Record)
    → KeepsEnergy (apply_kind k base_time r) ⊎ ForgetsEnergy (apply_kind k base_time r)
unfolding apply_kind KeepsEnergy ForgetsEnergy
apply_kind_energy total_power base_time r = inl (λ total end_ts s. refl)
apply_kind_energy line_voltage base_time r = inl (λ total end_ts s. refl)
apply_kind_energy line_current base_time r = inl (λ total end_ts s. refl)
apply_kind_energy ac_frequency base_time r = inl (λ total end_ts s. refl)
apply_kind_energy internal_temperature base_time r = inl (λ total end_ts s. refl)
apply_kind_energy unmapped base_time r = inl (λ total end_ts s. refl)
apply_kind_energy lifetime_energy base_time r = elim (Option-cases (milli r)) [
  | inl e ↦ inl (λ total end_ts s. rw e refl)
  | inr (mwh, e) ↦ inr (λ total end_ts s. rw e refl)
]
apply_kind_energy health base_time r = elim (Option-cases (text_value r.value)) [
  | inl e ↦ inl (λ total end_ts s. rw e refl)
  | inr (vs, e) ↦ inl (λ total end_ts s. rw e refl)
]
apply_kind_energy relay_state base_time r = elim (Option-cases (text_value r.value)) [
  | inl e ↦ inl (λ total end_ts s. rw e refl)
  | inr (vs, e) ↦ inl (λ total end_ts s. rw e refl)
]

apply_record_energy :
    (base_time : ℤ) (r : Record)
    → KeepsEnergy (apply_record base_time r) ⊎ ForgetsEnergy (apply_record base_time r)
unfolding apply_record
apply_record_energy base_time r = apply_kind_energy (kind_of r.name) base_time r

apply_records_energy :
    (base_time : ℤ) (records : List Record)
    → KeepsEnergy (apply_records base_time records)
      ⊎ ForgetsEnergy (apply_records base_time records)
unfolding apply_records KeepsEnergy ForgetsEnergy
apply_records_energy base_time [] = inl (λ total end_ts s. refl)
apply_records_energy base_time (r ∷ records) = elim (apply_record_energy base_time r) [
  | inr first ↦ inr (λ total end_ts s. ap (apply_records base_time records) (first total end_ts s))
  | inl first ↦ elim (apply_records_energy base_time records) [
    | inl rest ↦ inl (λ total end_ts s.
        ap (apply_records base_time records) (first total end_ts s) ∙ rest total end_ts _)
    | inr rest ↦ inr (λ total end_ts s.
        ap (apply_records base_time records) (first total end_ts s) ∙ rest total end_ts _)
  ]
]

-- A scan that starts with the energy that it ended with ends in the same way.
rescan :
    (base_time : ℤ) (records : List Record) (s : PackScan)
    → let done = apply_records base_time records s in
      apply_records base_time records (with_energy done.energy_total_mwh done.energy_end_ts s)
      ≡ done
unfolding KeepsEnergy ForgetsEnergy
rescan base_time records s = elim (apply_records_energy base_time records) [
  | inl keeps ↦ keeps _ _ s
  | inr forgets ↦ forgets _ _ s
]

store_again :
    (s : PvSnapshot) (scan : PackScan)
    → enforce_link_mask (store_scan (enforce_link_mask (store_scan s scan)) scan)
      ≡ enforce_link_mask (store_scan s scan)
unfolding enforce_link_mask
store_again s scan = ground arith

empty_again :
    (s : PvSnapshot) (scan : PackScan)
    → empty_scan (enforce_link_mask (store_scan s scan))
      ≡ with_energy scan.energy_total_mwh scan.energy_end_ts (empty_scan s)
unfolding enforce_link_mask
empty_again s scan = ground arith

apply_pack_twice : (s : PvSnapshot) (p : Pack) → apply_pack (apply_pack s p) p ≡ apply_pack s p
unfolding apply_pack
apply_pack_twice s p =
    let scan = apply_records p.base_time p.records (empty_scan s) in
    ap (λ again. enforce_link_mask (store_scan (enforce_link_mask (store_scan s scan)) again))
      (ap (apply_records p.base_time p.records) (empty_again s scan)
        ∙ rescan p.base_time p.records (empty_scan s))
    ∙ store_again s scan

set_status_twice :
    (s : PvSnapshot) (l : LinkStatus) → set_status (set_status s l) l ≡ set_status s l
unfolding set_status enforce_link_mask
set_status_twice s l = ground arith

apply_twice : (s : State) (m : DomainMsg) → apply (apply s m) m ≡ apply s m
unfolding apply
apply_twice s (info i) = refl
apply_twice s (pack p) =
    ap (λ (t : PvSnapshot). record s { snapshot = t }) (apply_pack_twice s.snapshot p)
apply_twice s (status l) =
    ap (λ (t : PvSnapshot). record s { snapshot = t }) (set_status_twice s.snapshot l)

-- Each element once or, right behind itself, more than once.
pub data Redelivers {A : Type 0} : List A → List A → Type 0 where
  done : Redelivers [] []
  delivered :
      (a : A) {once again : List A} → Redelivers once again → Redelivers (a ∷ once) (a ∷ again)
  redelivered :
      (a : A) {once again : List A}
      → Redelivers (a ∷ once) (a ∷ again)
      → Redelivers (a ∷ once) (a ∷ a ∷ again)

-- The state does not depend on how often each message is delivered again before the next one comes.
pub apply_all-Redelivers :
    (s : State) {once again : List DomainMsg}
    → Redelivers once again
    → apply_all s again ≡ apply_all s once
unfolding apply_all
apply_all-Redelivers s done = refl
apply_all-Redelivers s (delivered m r) = apply_all-Redelivers (apply s m) r
apply_all-Redelivers s (redelivered m {again = again} r) =
    ap (λ t. apply_all t again) (apply_twice s m) ∙ apply_all-Redelivers s r
