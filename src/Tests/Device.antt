-- ===== src/Tests/Device.antt =====
-- Runs of the array reads, of the accuracy rows, of the metadata and of the Matter thread.
use pv_matter.Common.{
  ℕ, ◌+◌, ◌%◌, ◌^◌, ◌≡◌, ◌≢◌, ◌↔◌, refl, true, false, List, [], ◌∷◌, none, some, Result, ok, err,
  length, All, arith,
}
use pv_matter.Int.{pos}
use pv_matter.Domain.Snapshot.{PvSnapshot}
use pv_matter.Matter.Tlv.{read_all, read_array}
use pv_matter.Matter.Tlv.Reads.{buffer}
use pv_matter.Matter.Measurement.{MeasurementType, electrical_energy_type, IsSound}
use pv_matter.Matter.Epm.{accuracy_rows, number_of_measurement_types}
use pv_matter.Matter.Epm.Rows.{rows_of, accuracy_rows-IsSound}
use pv_matter.Matter.Bridge.{Attribute}
use pv_matter.Matter.Node.{
  descriptor, system, power_source, electrical_power_measurement, temperature_measurement, Endpoint,
  node, dm_handler, cluster_handler,
}
use pv_matter.Matter.Node.Agreement.{declared}
use pv_matter.Matter.Metadata.{AttributeId, AttributeId-discrete, Required, advertises}
use pv_matter.Matter.Metadata.Reports.{target, serving, KeepsMandatory, target-advertises}
use pv_matter.Matter.Runtime.{Call, open_window, print_qr_code, Poll, run}
use pv_matter.Matter.Runtime.Polls.{Finishes}
use pv_matter.Matter.Runtime.Outcome.{needed, Succeed, run-eq-ok_iff, opens, run-opens_iff}
use pv_matter.Matter.Handlers.Version.{Dataver}
use pv_matter.Matter.Handlers.Temperature
use pv_matter.Matter.Handlers.Independent.{Functional, version}
use pv_matter.Matter.Handlers.{new_handlers}
use pv_matter.Matter.Bridge.{report_changes, one_if, moved, log_accuracy_mins}
use pv_matter.Matter.Bridge.Changes.{report_changes_unread}
use pv_matter.Matter.Epm.{active_power_current_min}
use pv_matter.Tests.Fixtures.{producing}

read_all_written : read_array {A = ℕ} (buffer 2) (7 ∷ 8 ∷ []) (read_all []) ≡ ok (7 ∷ 8 ∷ [])
unfolding read_array
read_all_written = refl

abbrev rated : PvSnapshot
rated = record producing { max_power_w = some (pos 5_000) }

accuracy_rows-IsSound_example :
    (length (accuracy_rows rated) ≡ number_of_measurement_types rated)
    × ((t : MeasurementType) → t ≢ electrical_energy_type → rows_of t (accuracy_rows rated) ≡ 1)
    × All IsSound (accuracy_rows rated)
accuracy_rows-IsSound_example = accuracy_rows-IsSound rated (5_000, refl, omega arith)

-- The required attributes of the measuring clusters, as the clusters' specifications have them.
abbrev required : Required
required electrical_power_measurement features = AttributeId.active_power ∷ []
required power_source features = AttributeId.status ∷ []
required temperature_measurement features = AttributeId.measured_value ∷ []
required _ features = []

required-KeepsMandatory : KeepsMandatory required
unfolding AttributeId-discrete
required-KeepsMandatory = record { active_power = refl; status = refl; measured_value = refl }

abbrev root_endpoint : Endpoint
root_endpoint = record {
  id = 0;
  device_type = record { dtype = 22; drev = 3 };
  clusters = descriptor ∷ system 31 ∷ [];
}

not_root : 0 ≢ (target Attribute.status).endpoint
unfolding target
not_root = omega arith

target-advertises_example :
    (declared
        (target Attribute.status).endpoint
        (target Attribute.status).metadata.cluster
        (node root_endpoint)
      ≡ 1)
    × (serving
          (target Attribute.status).endpoint
          (target Attribute.status).metadata.cluster
          dm_handler
        ≡ cluster_handler (target Attribute.status).metadata.cluster ∷ [])
    × (advertises required (target Attribute.status).metadata (target Attribute.status).attribute
        ≡ true)
target-advertises_example =
    target-advertises required root_endpoint Attribute.status required-KeepsMandatory not_root

-- A device on which only the printing of the code fails.
abbrev no_printer : Call → Result (Unit {0}) ℕ
no_printer print_qr_code = err 5
no_printer _ = ok tt

abbrev quiet_poll : Poll ℕ
quiet_poll = record {
  transport = none;
  mdns = none;
  respond = none;
  dm_job = none;
  bridge = none;
  shutdown = false;
}

abbrev polls : List (Poll ℕ)
polls = quiet_poll ∷ record quiet_poll { shutdown = true } ∷ []

-- It runs as long as a fabric knows it.
runs_commissioned : (run no_printer true polls).result ≡ some (ok tt)
unfolding run
runs_commissioned = refl

fails_uncommissioned : (run no_printer false polls).result ≡ some (err 5)
unfolding run
fails_uncommissioned = refl

run-eq-ok_iff_example :
    ((run no_printer true polls).result ≡ some (ok tt))
    ↔ (Succeed no_printer (needed true) × Finishes polls (ok tt))
run-eq-ok_iff_example = run-eq-ok_iff no_printer true polls

run-opens_iff_example : (opens no_printer (run no_printer false polls).calls ≡ true) ↔ (
    (false ≡ false)
    × Succeed no_printer (
        pv_matter.Matter.Runtime.load_persist ∷ pv_matter.Matter.Runtime.rand
        ∷ pv_matter.Matter.Runtime.im_load_persist ∷ pv_matter.Matter.Runtime.bind
        ∷ pv_matter.Matter.Runtime.print_qr_text ∷ print_qr_code ∷ [])
    × (no_printer open_window ≡ ok tt))
run-opens_iff_example = run-opens_iff no_printer false polls

-- Versions count their changes, and a random one is the next of a counter.
abbrev counted : Dataver ℕ ℕ
counted = record { new_rand = λ r. (r, r + 100); get = λ v. v % 2 ^ 32; changed = λ v. v + 1 }

versions_drawn : version (new_handlers {R = ℕ} counted 7 5).0 Functional.temperature ≡ 405
unfolding new_handlers pv_matter.Matter.Handlers.Temperature.new
versions_drawn = refl

abbrev epoch : ℕ
epoch = 946_684_800

report_changes_unread_example :
    report_changes epoch producing (record producing {
      max_power_w = some (pos 5_000);
      energy_end_ts = some (pos 1_700_000_000);
    })
    ≡ one_if
        (moved (some (pos 5_000)) producing.max_power_w)
        (log_accuracy_mins (active_power_current_min (some (pos 5_000))))
report_changes_unread_example =
    report_changes_unread epoch producing (some (pos 5_000)) (some (pos 1_700_000_000))
