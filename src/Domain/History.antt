-- ===== src/Domain/History.antt =====
-- The state after a run, in terms of the messages of the run.
use pv_matter.Common.{
  ◌≡◌, refl, ◌∙◌, ◌≢◌, List, [], ◌∷◌, ◌++◌, Option, none, some, or_else, get_or, map_opt, arith,
  All,
}
use pv_matter.Int.{ℤ}
use pv_matter.Senml.{Pack}
use pv_matter.Domain.Status.{LinkStatus, online}
use pv_matter.Domain.Info.{InverterInfo}
use pv_matter.Domain.Snapshot.{PvSnapshot, apply_pack, set_status, enforce_link_mask}
use pv_matter.Domain.Mask.{apply_all-IsMasked}
use pv_matter.Domain.Readings.{last_energy, apply_pack-energy, IsReadFrom, apply_pack-IsReadFrom}
use pv_matter.Domain.{DomainMsg, info, pack, status, State, default_state, apply, apply_all}

pub apply_all-append :
    (s : State) (xs ys : List DomainMsg) → apply_all s (xs ++ ys) ≡ apply_all (apply_all s xs) ys
unfolding apply_all
apply_all-append s [] ys = refl
apply_all-append s (m ∷ xs) ys = apply_all-append (apply s m) xs ys

-- What one message says of the link, of the identity and of the energy total with its time.
abbrev pub status_in : DomainMsg → Option LinkStatus
status_in (status l) = some l
status_in _ = none

abbrev pub info_in : DomainMsg → Option InverterInfo
info_in (info i) = some i
info_in _ = none

abbrev pub energy_in : DomainMsg → Option (ℤ × ℤ)
energy_in (pack p) = last_energy p.base_time p.records
energy_in _ = none

-- The last thing said by a list of messages.
abbrev pub last_said {ℓ} : {A : Type ℓ} → (DomainMsg → Option A) → List DomainMsg → Option A
last_said f [] = none
last_said f (m ∷ msgs) = or_else (last_said f msgs) (f m)

pub record Remembers (msgs : List DomainMsg) (s t : State) : Type 0 where
  pub link : t.snapshot.link ≡ get_or (last_said status_in msgs) s.snapshot.link
  pub identity : t.info ≡ or_else (last_said info_in msgs) s.info
  pub rating :
      t.snapshot.max_power_w
      ≡ get_or
          (map_opt (λ (i : InverterInfo). i.max_power_w) (last_said info_in msgs))
          s.snapshot.max_power_w
  pub energy :
      t.snapshot.energy_total_mwh
      ≡ or_else (map_opt (λ e. e.0) (last_said energy_in msgs)) s.snapshot.energy_total_mwh
  pub energy_time :
      t.snapshot.energy_end_ts
      ≡ or_else (map_opt (λ e. e.1) (last_said energy_in msgs)) s.snapshot.energy_end_ts

apply-Remembers : (s : State) (m : DomainMsg) → Remembers (m ∷ []) s (apply s m)
unfolding apply
apply-Remembers s (info i) = ground arith
apply-Remembers s (pack p) =
    unfold apply_pack enforce_link_mask in ground (arith, apply_pack-energy p s.snapshot)
apply-Remembers s (status l) = unfold set_status enforce_link_mask in ground arith

Remembers-cons :
    {m : DomainMsg} {msgs : List DomainMsg} {s t u : State}
    → Remembers (m ∷ []) s t
    → Remembers msgs t u
    → Remembers (m ∷ msgs) s u
Remembers-cons {m} {msgs} {s} {t} {u} h k = record {
  link = ground arith;
  identity = ground arith;
  rating = ground arith;
  energy = ground arith;
  energy_time = ground arith;
}

-- The link is the last status, the identity and the rating are those of the last `info`, and the
-- energy total with its time is that of the last pack with an energy record that scales: neither a
-- change of the status nor a later pack without one forgets it.
pub apply_all-Remembers : (s : State) (msgs : List DomainMsg) → Remembers msgs s (apply_all s msgs)
unfolding apply_all
apply_all-Remembers s [] = ground arith
apply_all-Remembers s (m ∷ msgs) =
    Remembers-cons (apply-Remembers s m) (apply_all-Remembers (apply s m) msgs)

-- No pack comes, and no status but `online`.
abbrev pub IsQuiet : DomainMsg → Type 0
IsQuiet (info i) = Unit
IsQuiet (pack p) = ⊥
IsQuiet (status l) = l ≡ online

abbrev pub IsNoPack : DomainMsg → Type 0
IsNoPack (pack p) = ⊥
IsNoPack _ = Unit

-- The seven instantaneous readings agree.
pub record SameReadings (s t : PvSnapshot) : Type 0 where
  pub voltage : t.voltage_mv ≡ s.voltage_mv
  pub current : t.current_ma ≡ s.current_ma
  pub power : t.power_mw ≡ s.power_mw
  pub frequency : t.frequency_mhz ≡ s.frequency_mhz
  pub temperature : t.temperature_centi_c ≡ s.temperature_centi_c
  pub device_status : t.device_status ≡ s.device_status
  pub grid_relay : t.grid_relay ≡ s.grid_relay

apply-quiet :
    (s : State) (m : DomainMsg)
    → IsQuiet m
    → s.snapshot.link ≡ online
    → SameReadings s.snapshot (apply s m).snapshot × ((apply s m).snapshot.link ≡ online)
unfolding apply
apply-quiet s (info i) q h = ground arith
apply-quiet s (pack p) q h = absurd q
apply-quiet s (status l) q h = unfold set_status enforce_link_mask in ground arith

apply_all-quiet :
    (s : State) (msgs : List DomainMsg)
    → All IsQuiet msgs
    → s.snapshot.link ≡ online
    → SameReadings s.snapshot (apply_all s msgs).snapshot
unfolding apply_all
apply_all-quiet s [] q h = ground arith
apply_all-quiet s (m ∷ msgs) q h =
    let (same, still) = apply-quiet s m q.0 h in
    let later = apply_all-quiet (apply s m) msgs q.1 still in ground (arith, same, later)

link-apply_pack : (s : PvSnapshot) (p : Pack) → (apply_pack s p).link ≡ s.link
unfolding apply_pack enforce_link_mask
link-apply_pack s p = ground arith

-- A pack that arrives while the link is online stays readable, unchanged, until the next pack or the
-- next other status.
pub live_readings :
    (before after : List DomainMsg) (p : Pack)
    → (apply_all default_state before).snapshot.link ≡ online
    → All IsQuiet after
    → IsReadFrom p (apply_all default_state (before ++ pack p ∷ after)).snapshot
unfolding apply
live_readings before after p h q =
    let s = apply_all default_state before in
    let t = apply s (pack p) in
    let read = apply_pack-IsReadFrom p s.snapshot h in
    let same = apply_all-quiet t after q (link-apply_pack s.snapshot p ∙ h) in
    rw (apply_all-append default_state before (pack p ∷ after))
      (unfold apply_all in ground (arith, read, same))

pub record IsBlank (s : PvSnapshot) : Type 0 where
  pub voltage : s.voltage_mv ≡ none
  pub current : s.current_ma ≡ none
  pub power : s.power_mw ≡ none
  pub frequency : s.frequency_mhz ≡ none
  pub temperature : s.temperature_centi_c ≡ none
  pub device_status : s.device_status ≡ none
  pub grid_relay : s.grid_relay ≡ none

apply-IsBlank :
    (s : State) (m : DomainMsg) → IsNoPack m → IsBlank s.snapshot → IsBlank (apply s m).snapshot
unfolding apply
apply-IsBlank s (info i) q h = ground arith
apply-IsBlank s (pack p) q h = absurd q
apply-IsBlank s (status l) q h = unfold set_status enforce_link_mask in ground arith

apply_all-IsBlank :
    (s : State) (msgs : List DomainMsg)
    → All IsNoPack msgs
    → IsBlank s.snapshot
    → IsBlank (apply_all s msgs).snapshot
unfolding apply_all
apply_all-IsBlank s [] q h = h
apply_all-IsBlank s (m ∷ msgs) q h =
    apply_all-IsBlank (apply s m) msgs q.1 (apply-IsBlank s m q.0 h)

-- Once the link is not online the readings stay absent until the next pack, also if the link comes
-- back meanwhile.
pub readings-IsBlank :
    (before after : List DomainMsg)
    → (apply_all default_state before).snapshot.link ≢ online
    → All IsNoPack after
    → IsBlank (apply_all default_state (before ++ after)).snapshot
readings-IsBlank before after h q =
    let m = apply_all-IsMasked before in
    rw (apply_all-append default_state before after)
      (apply_all-IsBlank (apply_all default_state before) after q (ground (arith, m)))
