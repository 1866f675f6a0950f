-- ===== src/System/Shown.antt =====
-- What the attribute handlers read, in every state that the program can reach.
use mathlib.Core.Path.{sym}
use pv_matter.Common.{ℕ, ◌≡◌, ◌∙◌, refl, List, [], ◌∷◌, ◌++◌, Option, none, arith, append-nil}
use pv_matter.Text.{Text}
use pv_matter.Serde.{SerdeJson}
use pv_matter.Domain.Snapshot.{PvSnapshot}
use pv_matter.Matter.Bridge.{start_bridge, newest}
use pv_matter.Matter.Bridge.Run.{newest-append, settle-newest}
use pv_matter.System.Messages.{to_list}
use pv_matter.System.{
  booting, steady, Holding, idle, waiting, draining, System, initial, Internal, send, boot_take,
  boot, take, forward, receive, floor_over, drain, report, Step, poll, internal, Reach, start, next,
}

-- The snapshot that the bridge holds, and all that are on their way to the handlers, the oldest first.
abbrev pub held : Holding → List PvSnapshot
held idle = []
held (waiting u) = u ∷ []
held (draining u) = u ∷ []

abbrev pub pending : System → List PvSnapshot
pending s = held s.holding ++ (s.updates ++ to_list s.forwarding)

-- The newest snapshot on the way is that of the main task, and nothing is on the way before the bridge is
-- started.
pub record IsShown (s : System) : Type 0 where
  pub agree : s.bridge.shared ≡ s.bridge.prev
  pub newest_pending : s.phase ≡ steady → newest s.bridge.shared (pending s) ≡ s.state.snapshot
  pub before : s.phase ≡ booting → (s.holding ≡ idle) × (s.updates ≡ []) × (s.forwarding ≡ none)

newest-snoc :
    (shared u : PvSnapshot) (held updates : List PvSnapshot)
    → newest shared (held ++ (updates ++ u ∷ [])) ≡ u
unfolding newest
newest-snoc shared u held updates =
    newest-append shared held (updates ++ u ∷ [])
    ∙ newest-append (newest shared held) updates (u ∷ [])

module _ {serde : SerdeJson} {matter_epoch_secs : ℕ} where
  Internal-IsShown : {s t : System} → Internal serde matter_epoch_secs s t → IsShown s → IsShown t
  unfolding newest start_bridge
  Internal-IsShown (send s m e room) h = record {
    agree = h.agree;
    newest_pending = h.newest_pending;
    before = h.before;
  }
  Internal-IsShown (boot_take s m inbox b i e) h = record {
    agree = h.agree;
    newest_pending = λ p. absurd (cc);
    before = h.before;
  }
  Internal-IsShown (boot s b) h = record {
    agree = refl;
    newest_pending = λ p. let (x, y, z) = h.before b in rw (x, y, z) refl;
    before = λ p. absurd (cc);
  }
  Internal-IsShown (take s m inbox b f e) h = record {
    agree = h.agree;
    newest_pending = λ p. newest-snoc _ _ (held s.holding) s.updates;
    before = λ p. absurd (cc);
  }
  Internal-IsShown (forward s u e room) h = record {
    agree = h.agree;
    newest_pending = λ p. rw append-nil (rw e at (h.newest_pending p));
    before = λ p. absurd (ground (arith, h.before p));
  }
  Internal-IsShown (receive s u updates b i e) h = record {
    agree = h.agree;
    newest_pending = λ p. rw (i, e) at (h.newest_pending p);
    before = λ p. absurd (cc);
  }
  Internal-IsShown (floor_over s u e) h = record {
    agree = h.agree;
    newest_pending = λ p. rw e at (h.newest_pending p);
    before = λ p. absurd (ground (arith, h.before p));
  }
  Internal-IsShown (drain s u newer updates i e) h = record {
    agree = h.agree;
    newest_pending = λ p. rw (i, e) at (h.newest_pending p);
    before = λ p. absurd (ground (arith, h.before p));
  }
  Internal-IsShown (report s u at i e) h =
      let (shared, prev) = settle-newest matter_epoch_secs s.bridge u at h.agree in
      record {
        agree = shared ∙ sym prev;
        newest_pending = λ p. rw (shared, e) (rw (i, e) at (h.newest_pending p));
        before = λ p. absurd (ground (arith, h.before p));
      }

  Step-IsShown : {s t : System} → Step serde matter_epoch_secs s t → IsShown s → IsShown t
  Step-IsShown (poll s topic payload e) h = record {
    agree = h.agree;
    newest_pending = h.newest_pending;
    before = h.before;
  }
  Step-IsShown (internal i) h = Internal-IsShown i h

  -- In every reachable state of the steady loop, the newest snapshot on the way to the handlers is that of
  -- the main task; before the bridge is started nothing is on the way.
  pub Reach-IsShown :
      {prefix : Text} {pinned_device : Option Text} {s : System}
      → Reach serde matter_epoch_secs prefix pinned_device s
      → IsShown s
  unfolding initial start_bridge
  Reach-IsShown start = record {
    agree = refl;
    newest_pending = λ p. absurd (cc);
    before = λ p. (refl, refl, refl);
  }
  Reach-IsShown (next r st) = Step-IsShown st (Reach-IsShown r)
