-- ===== src/Lifecycle/Joined.antt =====
-- What `main` waits for before it returns, and what its loop was left for.
use pv_matter.Common.{◌≤◌, ◌≡◌, ◌≢◌, true, false, Option, none, some}
use pv_matter.Text.{Text}
use pv_matter.Lifecycle.{
  Lifecycle, looping, returned, Departure, by_signal, by_matter, by_ingest, by_updates, IsJoined,
}

-- What stands behind a departure: a signal has come, or the task has ended.
abbrev pub IsCaused : Option Departure → Lifecycle → Type 0
IsCaused none p = ⊥
IsCaused (some by_signal) p = 1 ≤ p.signals
IsCaused (some by_matter) p = p.matter_alive ≡ false
IsCaused (some by_ingest) p = p.ingest_alive ≡ false
IsCaused (some by_updates) p = p.matter_alive ≡ false

record IsSettled (p : Lifecycle) : Type 0 where
  joined : p.stage ≡ returned → IsJoined p
  told : p.stage ≡ returned → p.told ≡ true
  caused : p.stage ≢ looping → IsCaused p.departure p
