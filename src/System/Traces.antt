-- ===== src/System/Traces.antt =====
-- The whole program with the messages of its publishes as a trace.
use mathlib.Core.Path.{ap, sym}
use pv_matter.Common.{ℕ, ◌≡◌, ◌∙◌, Option}
use pv_matter.Text.{Text}
use pv_matter.Serde.{SerdeJson}
use pv_matter.Domain.{State, default_state}
use pv_matter.Domain.Trace.{trace_of, trace_of-eq_iff}
use pv_matter.Ingest.{new_router}
use pv_matter.System.Messages.{routed}
use pv_matter.System.{System, Reach}
use pv_matter.System.Progress.{IsQuiet}
use pv_matter.System.Settled.{quiet-reads}

module _ {serde : SerdeJson} {matter_epoch_secs : ℕ} where
  -- Two runs of the program, of whatever scheduling, prefix and pinned device, whose publishes route to the
  -- same trace, come to the same reads when nothing is on its way: when the identity came among the packs and
  -- statuses, and which identities it replaced, is forgotten.
  pub IsQuiet-trace_of :
      {prefix prefix' : Text} {pinned_device pinned_device' : Option Text} {s t : System}
      → Reach serde matter_epoch_secs prefix pinned_device s
      → Reach serde matter_epoch_secs prefix' pinned_device' t
      → IsQuiet s
      → IsQuiet t
      → trace_of (routed serde (new_router prefix pinned_device) s.published)
        ≡ trace_of (routed serde (new_router prefix' pinned_device') t.published)
      → s.bridge.shared ≡ t.bridge.shared
  IsQuiet-trace_of r r' q q' e =
      quiet-reads r q
      ∙ ap (λ (u : State). u.snapshot) ((trace_of-eq_iff default_state _ _).1 e)
      ∙ sym (quiet-reads r' q')
