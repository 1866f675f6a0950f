-- ===== src/Tests/Lifecycle.antt =====
-- Runs of the program with its ends: a status on its way when a signal comes, and a Matter thread that fails.
use pv_matter.Common.{
  ◌+◌, ◌≤◌, ◌≡◌, ◌++◌, refl, true, inl, inr, List, [], ◌∷◌, none, ok, err, arith,
}
use pv_matter.Text.{codes}
use pv_matter.Domain.{info, status, default_state}
use pv_matter.Domain.Snapshot.{PvSnapshot}
use pv_matter.Domain.Status.{online}
use pv_matter.Main.{Wait, Event, bootstrap, steady}
use pv_matter.Main.Pipeline.{messages, arrivals}
use pv_matter.Main.Start.{main, exited, component_failed}
use pv_matter.System.{initial, send, boot_take, boot, take}
use pv_matter.Lifecycle.{
  Lifecycle, begin, exit, AtSelect, signal_comes, works, matter_gone, tell, joins, drops, elapsed,
  work, publish, matter_fails, Lives, start, next, Runs, then_work,
}
use pv_matter.Lifecycle.Left.{EndsBy}
use pv_matter.Lifecycle.Sequential.{Lives-main}
use pv_matter.Tests.Config.{plain, plain_read}
use pv_matter.Lifecycle.Exits.{Lives-exit}
use pv_matter.Lifecycle.Ends.{works_left, works_done, works_done-le}
use pv_matter.Lifecycle.Returns.{IsDoomed, Returns, IsDoomed-Returns}
use pv_matter.Lifecycle.Signals.{GoesOn, signal_comes-GoesOn}
use pv_matter.Lifecycle.Heard.{IsUndisturbed, ShutsDown, signal_comes-ShutsDown}
use pv_matter.Tests.Fixtures.{serde, inverter}
use pv_matter.Tests.System.{epoch, prefix, info_routed, status_routed}

abbrev Living : Type 0
Living = (p : Lifecycle) × Lives serde epoch prefix none p

-- The identity has come, and the main task is at its `select!`.
abbrev booted : Living
unfolding begin initial
booted = (
  _,
  next
      (next
        (next (next start (publish _ (codes "pv/a/info") (1 ∷ 2 ∷ 3 ∷ []) tt refl refl))
          (work (works _ (send _ (info inverter) info_routed (omega arith)) (tt, refl))))
        (work (works _ (boot_take _ (info inverter) [] refl refl refl) refl)))
      (work (works _ (boot _ refl) refl)),
)

booted-AtSelect : AtSelect booted.0
unfolding begin initial
booted-AtSelect = record { in_loop = refl; phase = refl; not_sending = refl }

-- The main task waits to send the snapshot of a status.
abbrev sending : Living
unfolding begin initial
sending = (
  _,
  next
      (next (next booted.1 (publish _ (codes "pv/a/status") (codes "online") tt refl refl))
        (work (works _ (send _ (status online) status_routed (omega arith)) (tt, refl))))
      (work (works _ (take _ (status online) [] refl refl refl) refl)),
)

-- The Matter thread has failed.
abbrev failed : Living
unfolding begin initial
failed = (_, next booted.1 (matter_fails _ tt refl refl))

-- The main task notices and tells the thread to stop; the drop of the runtime finds it gone.
abbrev failed_run : (q : Lifecycle) × Runs serde epoch failed.0 q
unfolding begin initial
failed_run = (
  _,
  then_work
      (then_work
        (then_work
          (then_work Runs.here
            (matter_gone _ (record { in_loop = refl; phase = refl; not_sending = refl }) refl))
          (tell _ refl))
        (joins _ elapsed refl tt))
      (drops _ refl (inl refl)),
)

abbrev failed_end : Living
unfolding begin initial
failed_end = (
  _,
  next
      (next
        (next
          (next failed.1 (
            work
              (matter_gone _ (record { in_loop = refl; phase = refl; not_sending = refl }) refl)))
          (work (tell _ refl)))
        (work (joins _ elapsed refl tt)))
      (work (drops _ refl (inl refl))),
)

failed_end-exit : exit failed_end.0 ≡ exited (err component_failed)
unfolding begin initial exit
failed_end-exit = refl

failed-IsDoomed : IsDoomed failed.0
unfolding begin initial
failed-IsDoomed = inr (inl refl)

Lives-exit_example :
    (exit failed_end.0 ≡ exited (ok tt) → 1 ≤ failed_end.0.signals)
    × (exit failed_end.0 ≡ exited (err component_failed) → 1 ≤ failed_end.0.faults)
Lives-exit_example = Lives-exit failed_end.1

works_done-le_example : works_done failed_run.1 + works_left failed_run.0 ≤ works_left failed.0
works_done-le_example = works_done-le failed_run.1

IsDoomed-Returns_example : Returns serde epoch failed.0
IsDoomed-Returns_example = IsDoomed-Returns failed.0 failed.1 failed-IsDoomed

booted-IsUndisturbed : IsUndisturbed booted.0
unfolding begin initial
booted-IsUndisturbed = record { inbox = refl; sending = refl; ingest = refl; matter = refl }

signal_comes-ShutsDown_example : ShutsDown serde epoch (signal_comes booted.0)
signal_comes-ShutsDown_example =
    signal_comes-ShutsDown booted.0 booted.1 booted-AtSelect booted-IsUndisturbed

abbrev forwarded : PvSnapshot
forwarded = sending.0.system.state.snapshot

signal_comes-GoesOn_example : GoesOn serde epoch (signal_comes sending.0)
unfolding begin initial
signal_comes-GoesOn_example = signal_comes-GoesOn sending.0 forwarded sending.1 refl refl refl refl

Lives-main_example :
    (waits : List Wait) × (events : List Event) × (failed_end.0.system.taken
      ≡ messages waits ++ arrivals events)
    × EndsBy failed_end.0.departure events
    × ((steady (bootstrap default_state waits).state events).state ≡ failed_end.0.system.state)
    × (main (λ n. true) plain true true waits events ≡ exit failed_end.0)
unfolding begin initial
Lives-main_example = Lives-main (λ n. true) plain failed_end.1 plain_read refl (inr refl)
