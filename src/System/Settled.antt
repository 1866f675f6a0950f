-- ===== src/System/Settled.antt =====
-- What the handlers read when the program has nothing more to do.
use mathlib.Core.Path.{ap}
use pv_matter.Common.{ℕ, suc, ◌≡◌, ◌∙◌, refl, Option, arith, inl, inr, append-nil}
use pv_matter.Text.{Text}
use pv_matter.Serde.{SerdeJson}
use pv_matter.Domain.{State, default_state, apply_all}
use pv_matter.Ingest.{new_router}
use pv_matter.Matter.Bridge.{newest}
use pv_matter.System.Messages.{routed, Reach-IsConserved}
use pv_matter.System.Shown.{Reach-IsShown}
use pv_matter.System.{
  System, Internal, send, boot_take, boot, take, forward, receive, floor_over, drain, report,
  internal, Reach, next, Settles, here, then_step,
}
use pv_matter.System.Progress.{steps_left, IsQuiet, progress, settle_within}

module _ {serde : SerdeJson} {matter_epoch_secs : ℕ} where
  pub published-Internal :
      {s t : System} → Internal serde matter_epoch_secs s t → t.published ≡ s.published
  published-Internal (send s m e room) = refl
  published-Internal (boot_take s m inbox b i e) = refl
  published-Internal (boot s b) = refl
  published-Internal (take s m inbox b f e) = refl
  published-Internal (forward s u e room) = refl
  published-Internal (receive s u updates b h e) = refl
  published-Internal (floor_over s u e) = refl
  published-Internal (drain s u newer updates h e) = refl
  published-Internal (report s u at h e) = refl

  pub published-Settles :
      {s t : System} → Settles serde matter_epoch_secs s t → t.published ≡ s.published
  published-Settles here = refl
  published-Settles (then_step r st) = published-Internal st ∙ published-Settles r

  module _ {prefix : Text} {pinned_device : Option Text} where
    pub Reach-Settles :
        {s t : System}
        → Reach serde matter_epoch_secs prefix pinned_device s
        → Settles serde matter_epoch_secs s t
        → Reach serde matter_epoch_secs prefix pinned_device t
    Reach-Settles r here = r
    Reach-Settles r (then_step q st) = next (Reach-Settles r q) (internal st)

    -- In a quiet state that the program can reach, the handlers read the fold of the routed messages of
    -- all publishes.
    pub quiet-reads :
        {s : System}
        → Reach serde matter_epoch_secs prefix pinned_device s
        → IsQuiet s
        → s.bridge.shared
          ≡ (apply_all default_state
              (routed serde (new_router prefix pinned_device) s.published)).snapshot
    quiet-reads {s} r q =
        let c = Reach-IsConserved serde prefix pinned_device matter_epoch_secs r in
        let shown : s.bridge.shared ≡ s.state.snapshot =
          unfold newest in
          rw (q.holding, q.updates, q.forwarding) at ((Reach-IsShown r).newest_pending q.phase) in
        let all_taken : s.taken ≡ routed serde (new_router prefix pinned_device) s.published =
          rw append-nil at (rw (q.inbox, q.sending) at (c.accounted)) in
        shown
        ∙ ap (λ (t : State). t.snapshot) c.folded
        ∙ ap (λ ms. (apply_all default_state ms).snapshot) all_taken

    -- From every reachable state the program comes to one where nothing is on its way by internal steps
    -- alone, and there the handlers read the fold of the routed messages of all publishes.
    pub Reach_settles :
        {s : System}
        → Reach serde matter_epoch_secs prefix pinned_device s
        → (t : System) × Settles serde matter_epoch_secs s t
          × IsQuiet t
          × (t.bridge.shared
              ≡ (apply_all default_state
                  (routed serde (new_router prefix pinned_device) s.published)).snapshot)
    Reach_settles {s} r =
        let (t, run, quiet) = settle_within (suc (steps_left s)) s (omega arith) in
        (
          t,
          run,
          quiet,
          quiet-reads (Reach-Settles r run) quiet
              ∙ ap
                  (λ ps.
                    (apply_all default_state
                      (routed serde (new_router prefix pinned_device) ps)).snapshot)
                  (published-Settles run),
        )

    -- However the tasks are scheduled: where a run of internal steps from a reachable state cannot go on,
    -- the handlers read the fold of the routed messages of all publishes.
    pub Settles-reads :
        {s t : System}
        → Reach serde matter_epoch_secs prefix pinned_device s
        → Settles serde matter_epoch_secs s t
        → ((u : System) → ¬ (Internal serde matter_epoch_secs t u))
        → t.bridge.shared
          ≡ (apply_all default_state
              (routed serde (new_router prefix pinned_device) s.published)).snapshot
    Settles-reads {s} {t} r run over =
        elim (progress {serde = serde} {matter_epoch_secs = matter_epoch_secs} t) [
          | inl quiet ↦
              quiet-reads (Reach-Settles r run) quiet
              ∙ ap
                  (λ ps.
                    (apply_all default_state
                      (routed serde (new_router prefix pinned_device) ps)).snapshot)
                  (published-Settles run)
          | inr (u, st) ↦ absurd (over u st)
        ]
