-- ===== src/Domain/Mask.antt =====
-- The link mask: what is blank while the inverter is not online, and what survives.
use pv_matter.Common.{◌≡◌, ◌≢◌, List, [], ◌∷◌, none, arith}
use pv_matter.Domain.Status.{online}
use pv_matter.Domain.Snapshot.{PvSnapshot, enforce_link_mask, apply_pack, set_status}
use pv_matter.Domain.{DomainMsg, info, pack, status, State, default_state, apply, apply_all}

-- While the link is not online every instantaneous reading is absent.
pub record IsMasked (s : PvSnapshot) : Type 0 where
  pub voltage : s.link ≢ online → s.voltage_mv ≡ none
  pub current : s.link ≢ online → s.current_ma ≡ none
  pub power : s.link ≢ online → s.power_mw ≡ none
  pub frequency : s.link ≢ online → s.frequency_mhz ≡ none
  pub temperature : s.link ≢ online → s.temperature_centi_c ≡ none
  pub device_status : s.link ≢ online → s.device_status ≡ none
  pub grid_relay : s.link ≢ online → s.grid_relay ≡ none

pub enforce_link_mask-IsMasked : (s : PvSnapshot) → IsMasked (enforce_link_mask s)
unfolding enforce_link_mask
enforce_link_mask-IsMasked s = ground arith

apply-IsMasked : (s : State) (m : DomainMsg) → IsMasked s.snapshot → IsMasked (apply s m).snapshot
unfolding apply apply_pack set_status
apply-IsMasked s (info i) h = ground arith
apply-IsMasked s (pack p) h = enforce_link_mask-IsMasked _
apply-IsMasked s (status l) h = enforce_link_mask-IsMasked _

apply_all_from-IsMasked :
    (s : State) (msgs : List DomainMsg) → IsMasked s.snapshot → IsMasked (apply_all s msgs).snapshot
unfolding apply_all
apply_all_from-IsMasked s [] h = h
apply_all_from-IsMasked s (m ∷ msgs) h =
    apply_all_from-IsMasked (apply s m) msgs (apply-IsMasked s m h)

-- After any messages at all, in any order, the instantaneous readings are absent while the link is
-- not online: a retained pack that is replayed at night never reads as live.
pub apply_all-IsMasked : (msgs : List DomainMsg) → IsMasked (apply_all default_state msgs).snapshot
apply_all-IsMasked msgs = apply_all_from-IsMasked default_state msgs (ground arith)
