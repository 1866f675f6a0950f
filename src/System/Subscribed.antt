-- ===== src/System/Subscribed.antt =====
-- A subscriber of the node in the whole program: of the attributes that the bridge may notify, it reads one
-- again whenever it is notified.
use mathlib.Core.Path.{ap}
use pv_matter.Common.{ℕ, ◌≡◌, ◌∙◌, refl, Option}
use pv_matter.Text.{Text}
use pv_matter.Serde.{SerdeJson}
use pv_matter.Domain.{default_state, apply_all}
use pv_matter.Ingest.{new_router}
use pv_matter.Matter.Bridge.{Attribute, same_snapshot, settle}
use pv_matter.Matter.Bridge.Run.{settle-times}
use pv_matter.Matter.Bridge.Subscriber.{
  Reading, read_attribute, untimed, reread, IsFresh, reread-IsFresh,
}
use pv_matter.System.Messages.{routed}
use pv_matter.System.Progress.{IsQuiet}
use pv_matter.System.Settled.{quiet-reads}
use pv_matter.System.Shown.{Reach-IsShown}
use pv_matter.System.{
  steady, System, Internal, send, boot_take, boot, take, forward, receive, floor_over, drain,
  report, Step, poll, internal, Reach, next,
}

module _ (serde : SerdeJson) (matter_epoch_secs : ℕ) where
  -- What the subscriber has behind a step: the attributes that the bridge notified in it are read again.
  abbrev pub after_step :
      {s t : System}
      → Step serde matter_epoch_secs s t
      → (Attribute → Reading)
      → Attribute
      → Reading
  after_step (poll s topic payload e) cache = cache
  after_step (internal (report s u at h e)) cache =
      let (b, effects) = settle matter_epoch_secs (same_snapshot u s.bridge.prev) s.bridge u at in
      reread matter_epoch_secs effects b.shared cache
  after_step (internal i) cache = cache

  -- The states of a run from the start and what the subscriber has there; it comes at some state behind the
  -- start of the Matter thread and reads every attribute.
  pub data Watches (prefix : Text) (pinned_device : Option Text)
      : System → (Attribute → Reading) → Type 0 where
    subscribe :
        {s : System}
        → Reach serde matter_epoch_secs prefix pinned_device s
        → s.phase ≡ steady
        → Watches prefix pinned_device s (read_attribute matter_epoch_secs s.bridge.shared)
    watch :
        {s t : System} {cache : Attribute → Reading}
        → Watches prefix pinned_device s cache
        → (st : Step serde matter_epoch_secs s t)
        → Watches prefix pinned_device t (after_step st cache)

module _ {serde : SerdeJson} {matter_epoch_secs : ℕ} where
  Internal-steady :
      {s t : System} → Internal serde matter_epoch_secs s t → s.phase ≡ steady → t.phase ≡ steady
  Internal-steady (send s m e room) p = p
  Internal-steady (boot_take s m inbox b i e) p = p
  Internal-steady (boot s b) p = refl
  Internal-steady (take s m inbox b f e) p = p
  Internal-steady (forward s u e room) p = p
  Internal-steady (receive s u updates b h e) p = p
  Internal-steady (floor_over s u e) p = p
  Internal-steady (drain s u newer updates h e) p = p
  Internal-steady (report s u at h e) p = p

  Step-steady :
      {s t : System} → Step serde matter_epoch_secs s t → s.phase ≡ steady → t.phase ≡ steady
  Step-steady (poll s topic payload e) p = p
  Step-steady (internal i) p = Internal-steady i p

  -- Each step keeps the readings of the subscriber up to date.
  Step-IsFresh :
      {s t : System} (st : Step serde matter_epoch_secs s t) (cache : Attribute → Reading)
      (a : Attribute)
      → s.bridge.shared ≡ s.bridge.prev
      → s.phase ≡ steady
      → IsFresh matter_epoch_secs cache s.bridge.shared a
      → IsFresh matter_epoch_secs (after_step serde matter_epoch_secs st cache) t.bridge.shared a
  Step-IsFresh (poll s topic payload e) cache a agree p h = h
  Step-IsFresh (internal (send s m e room)) cache a agree p h = h
  Step-IsFresh (internal (boot_take s m inbox b i e)) cache a agree p h = h
  Step-IsFresh (internal (boot s b)) cache a agree p h = absurd cc
  Step-IsFresh (internal (take s m inbox b f e)) cache a agree p h = h
  Step-IsFresh (internal (forward s u e room)) cache a agree p h = h
  Step-IsFresh (internal (receive s u updates b i e)) cache a agree p h = h
  Step-IsFresh (internal (floor_over s u e)) cache a agree p h = h
  Step-IsFresh (internal (drain s u newer updates i e)) cache a agree p h = h
  Step-IsFresh (internal (report s u at i e)) cache a agree p h =
      let same = same_snapshot u s.bridge.prev in
      let (b, effects) = settle matter_epoch_secs same s.bridge u at in
      reread-IsFresh matter_epoch_secs a effects s.bridge.shared b.shared cache
        (settle-times matter_epoch_secs a same s.bridge u at agree) h

  module _ {prefix : Text} {pinned_device : Option Text} where
    pub Watches-Reach :
        {s : System} {cache : Attribute → Reading}
        → Watches serde matter_epoch_secs prefix pinned_device s cache
        → Reach serde matter_epoch_secs prefix pinned_device s × (s.phase ≡ steady)
    Watches-Reach (subscribe r p) = (r, p)
    Watches-Reach (watch w st) = let (r, p) = Watches-Reach w in (next r st, Step-steady st p)

    Watches-IsFresh :
        {s : System} {cache : Attribute → Reading} (a : Attribute)
        → Watches serde matter_epoch_secs prefix pinned_device s cache
        → IsFresh matter_epoch_secs cache s.bridge.shared a
    Watches-IsFresh a (subscribe r p) = refl
    Watches-IsFresh a (watch {cache = cache} w st) =
        let (r, p) = Watches-Reach w in
        Step-IsFresh st cache a (Reach-IsShown r).agree p (Watches-IsFresh a w)

    -- Of the seven attributes that the bridge may notify: a subscriber that comes at any time after the
    -- start of the Matter thread, reads each of them once, and from then on only what the bridge notifies,
    -- has in every quiet state that the run comes to the readings of the fold of the routed messages of all
    -- publishes. Of the exported energy this holds for the amount, and is not said of the time; nothing is
    -- said of other attributes, such as the accuracy, which follows the rating and is never notified.
    pub Watches-IsQuiet :
        {s : System} {cache : Attribute → Reading}
        → Watches serde matter_epoch_secs prefix pinned_device s cache
        → IsQuiet s
        → (a : Attribute)
        → untimed (cache a)
          ≡ untimed (
              read_attribute matter_epoch_secs
                (apply_all default_state
                  (routed serde (new_router prefix pinned_device) s.published)).snapshot
                a)
    Watches-IsQuiet w q a =
        Watches-IsFresh a w
        ∙ ap (λ shared. untimed (read_attribute matter_epoch_secs shared a))
            (quiet-reads (Watches-Reach w).0 q)
