-- ===== src/Tests/Traces.antt =====
-- A run of the whole program that takes the messages in another order.
use pv_matter.Common.{◌≡◌, refl, [], ◌∷◌, none, some, arith}
use pv_matter.Text.{codes, strip_prefix, split_once, contains, text_eq, trim, is_whitespace}
use pv_matter.Text.Utf8.{from_utf8_lossy}
use pv_matter.Int.{wrap_i64}
use pv_matter.Domain.{info, status, default_state, apply}
use pv_matter.Domain.Info.{parse_info}
use pv_matter.Domain.Status.{online, parse_link_status}
use pv_matter.Ingest.{Router, new_router, address, decode_leaf, route}
use pv_matter.System.{System, initial, Reach, start, next, poll, internal, send, boot_take, boot}
use pv_matter.System.Messages.{routed}
use pv_matter.System.Traces.{IsQuiet-trace_of}
use pv_matter.Domain.Trace.{trace_of, trace_of-eq_iff}
use pv_matter.System.Progress.{IsQuiet}
use pv_matter.Tests.Fixtures.{serde, inverter}
use pv_matter.Tests.System.{
  epoch, prefix, info_routed, status_routed, settled, settled-IsQuiet, settled_reach,
}

abbrev status_router : Router
status_router =
    (route serde (new_router prefix none) (from_utf8_lossy (codes "pv/a/status"))
      (codes "online")).router

status_routed_first :
    (route serde
      (new_router prefix none)
      (from_utf8_lossy (codes "pv/a/status"))
      (codes "online")).message
    ≡ some (status online)
unfolding route address strip_prefix new_router split_once contains decode_leaf text_eq parse_info
    from_utf8_lossy parse_link_status trim is_whitespace
status_routed_first = refl

info_routed_second :
    (route serde status_router (from_utf8_lossy (codes "pv/a/info")) (1 ∷ 2 ∷ 3 ∷ [])).message
    ≡ some (info inverter)
unfolding route address strip_prefix new_router split_once contains decode_leaf text_eq parse_info
    from_utf8_lossy wrap_i64
info_routed_second = refl

-- The status comes first, and the bootstrap takes both.
abbrev reordered : (s : System) × Reach serde epoch prefix none s
unfolding initial apply
reordered = (
  _,
  next
      (next
        (next
          (next
            (next
              (next (next start (poll _ (codes "pv/a/status") (codes "online") refl))
                (internal (send _ (status online) status_routed_first (omega arith))))
              (internal (boot_take _ (status online) [] refl refl refl)))
            (poll _ (codes "pv/a/info") (1 ∷ 2 ∷ 3 ∷ []) refl))
          (internal (send _ (info inverter) info_routed_second (omega arith))))
        (internal (boot_take _ (info inverter) [] refl refl refl)))
      (internal (boot _ refl)),
)

reordered-IsQuiet : IsQuiet reordered.0
unfolding initial apply
reordered-IsQuiet = record {
  sending = refl;
  inbox = refl;
  phase = refl;
  forwarding = refl;
  updates = refl;
  holding = refl;
}

settled_messages :
    routed serde (new_router prefix none) settled.0.published ≡ info inverter ∷ status online ∷ []
unfolding initial routed
settled_messages = rw (info_routed, status_routed) refl

reordered_messages :
    routed serde (new_router prefix none) reordered.0.published ≡ status online ∷ info inverter ∷ []
unfolding initial routed apply
reordered_messages = rw (status_routed_first, info_routed_second) refl

same_trace :
    trace_of (routed serde (new_router prefix none) settled.0.published)
    ≡ trace_of (routed serde (new_router prefix none) reordered.0.published)
same_trace =
    rw (settled_messages, reordered_messages)
      ((trace_of-eq_iff default_state (info inverter ∷ status online ∷ [])
          (status online ∷ info inverter ∷ [])).0.1
        (refl, refl))

IsQuiet-trace_of_example : settled.0.bridge.shared ≡ reordered.0.bridge.shared
IsQuiet-trace_of_example =
    IsQuiet-trace_of settled_reach reordered.1 settled-IsQuiet reordered-IsQuiet same_trace
