-- ===== src/System/Truth.antt =====
-- What the attribute handlers read in every state that the program can reach, against the past states of the
-- main task.
use mathlib.Core.Path.{ap, sym}
use pv_matter.Common.{
  ℕ, ◌≡◌, ◌∙◌, refl, List, [], ◌∷◌, ◌++◌, Option, append_assoc, append-nil, All, All-append,
}
use pv_matter.Text.{Text}
use pv_matter.Serde.{SerdeJson}
use pv_matter.Domain.{DomainMsg, State, default_state, apply, apply_all}
use pv_matter.Domain.Snapshot.{PvSnapshot}
use pv_matter.Domain.Mask.{IsMasked, apply_all-IsMasked}
use pv_matter.Domain.Range.{IsInRange, apply_all-IsInRange}
use pv_matter.Ingest.{new_router}
use pv_matter.Matter.Bridge.{start_bridge}
use pv_matter.Matter.Bridge.Run.{settle-newest}
use pv_matter.System.Messages.{to_list, routed, Reach-IsConserved}
use pv_matter.System.{
  System, initial, Internal, send, boot_take, boot, take, forward, receive, floor_over, drain,
  report, Step, poll, internal, Reach, start, next,
}
use pv_matter.System.Shown.{held, pending, IsShown, Reach-IsShown}

-- A snapshot that the main task had after some of the messages that it took.
pub record IsPast (taken : List DomainMsg) (u : PvSnapshot) : Type 0 where
  pub before : List DomainMsg
  pub after : List DomainMsg
  pub split : taken ≡ before ++ after
  pub folded : u ≡ (apply_all default_state before).snapshot

IsPast-snoc :
    {taken : List DomainMsg} {u : PvSnapshot} (m : DomainMsg)
    → IsPast taken u
    → IsPast (taken ++ m ∷ []) u
IsPast-snoc m p = record {
  before = p.before;
  after = p.after ++ m ∷ [];
  split = ap (λ ms. ms ++ m ∷ []) p.split ∙ append_assoc p.before p.after (m ∷ []);
  folded = p.folded;
}

All-IsPast-snoc :
    (taken : List DomainMsg) (m : DomainMsg) (us : List PvSnapshot)
    → All (IsPast taken) us
    → All (IsPast (taken ++ m ∷ [])) us
All-IsPast-snoc taken m [] h = tt
All-IsPast-snoc taken m (u ∷ us) h = (IsPast-snoc m h.0, All-IsPast-snoc taken m us h.1)

-- What the handlers read and what is on the way to them are such snapshots.
pub record IsTrue (s : System) : Type 0 where
  pub shared : IsPast s.taken s.bridge.shared
  pub pending : All (IsPast s.taken) (pending s)

IsPast_now :
    (taken : List DomainMsg) (st : State)
    → st ≡ apply_all default_state taken
    → IsPast taken st.snapshot
IsPast_now taken st h = record {
  before = taken;
  after = [];
  split = sym (append-nil taken);
  folded = ap (λ (t : State). t.snapshot) h;
}

All-snoc {κ} :
    (P : PvSnapshot → Type κ) (xs ys : List PvSnapshot) (u : PvSnapshot)
    → All P (xs ++ (ys ++ []))
    → P u
    → All P (xs ++ (ys ++ u ∷ []))
All-snoc P xs ys u h k =
    rw append_assoc at (All-append P (xs ++ ys) (u ∷ []) (rw append-nil at h) (k, tt))

-- The steps that take a message.
taken-IsTrue :
    (s : System) (m : DomainMsg)
    → apply s.state m ≡ apply_all default_state (s.taken ++ m ∷ [])
    → IsTrue s
    → IsPast (s.taken ++ m ∷ []) s.bridge.shared
      × All (IsPast (s.taken ++ m ∷ [])) (pending s)
      × IsPast (s.taken ++ m ∷ []) (apply s.state m).snapshot
taken-IsTrue s m folded h = (
  IsPast-snoc m h.shared,
  All-IsPast-snoc s.taken m (pending s) h.pending,
  IsPast_now (s.taken ++ m ∷ []) (apply s.state m) folded,
)

-- What the handlers read in a reachable state: the fold of a first part of the routed messages of all
-- publishes so far, which keeps the link mask and the ranges.
pub record ReadsTruth (serde : SerdeJson) (prefix : Text) (pinned_device : Option Text) (s : System)
    : Type 0 where
  pub before : List DomainMsg
  pub after : List DomainMsg
  pub split : routed serde (new_router prefix pinned_device) s.published ≡ before ++ after
  pub folded : s.bridge.shared ≡ (apply_all default_state before).snapshot
  pub masked : IsMasked s.bridge.shared
  pub in_range : IsInRange s.bridge.shared

module _ {serde : SerdeJson} {matter_epoch_secs : ℕ} where
  Internal-IsTrue :
      {s t : System}
      → Internal serde matter_epoch_secs s t
      → IsShown s
      → s.state ≡ apply_all default_state s.taken
      → t.state ≡ apply_all default_state t.taken
      → IsTrue s
      → IsTrue t
  unfolding start_bridge
  Internal-IsTrue (send s m e room) sh f g h = record { shared = h.shared; pending = h.pending }
  Internal-IsTrue (boot_take s m inbox b i e) sh f g h =
      let (shared, pending, now) = taken-IsTrue s m g h in
      record { shared = shared; pending = pending }
  Internal-IsTrue (boot s b) sh f g h = record {
    shared = IsPast_now s.taken s.state f;
    pending = h.pending;
  }
  Internal-IsTrue (take s m inbox b i e) sh f g h =
      let (shared, pending, now) = taken-IsTrue s m g h in
      record {
        shared = shared;
        pending = All-snoc _ (held s.holding) s.updates _ (rw i at pending) now;
      }
  Internal-IsTrue (forward s u e room) sh f g h = record {
    shared = h.shared;
    pending = rw append-nil (rw e at (h.pending));
  }
  Internal-IsTrue (receive s u updates b i e) sh f g h = record {
    shared = h.shared;
    pending = rw (i, e) at (h.pending);
  }
  Internal-IsTrue (floor_over s u e) sh f g h = record {
    shared = h.shared;
    pending = rw e at (h.pending);
  }
  Internal-IsTrue (drain s u newer updates i e) sh f g h = record {
    shared = h.shared;
    pending = (rw (i, e) at (h.pending)).1;
  }
  Internal-IsTrue (report s u at i e) sh f g h =
      let (shared, prev) = settle-newest matter_epoch_secs s.bridge u at sh.agree in
      let past = rw i at (h.pending) in record { shared = rw shared past.0; pending = past.1 }

  Step-IsTrue :
      {s t : System}
      → Step serde matter_epoch_secs s t
      → IsShown s
      → s.state ≡ apply_all default_state s.taken
      → t.state ≡ apply_all default_state t.taken
      → IsTrue s
      → IsTrue t
  Step-IsTrue (poll s topic payload e) sh f g h = record { shared = h.shared; pending = h.pending }
  Step-IsTrue (internal i) sh f g h = Internal-IsTrue i sh f g h

  Reach-IsTrue :
      {prefix : Text} {pinned_device : Option Text} {s : System}
      → Reach serde matter_epoch_secs prefix pinned_device s
      → IsTrue s
  unfolding initial start_bridge apply_all
  Reach-IsTrue start = record {
    shared = record { before = []; after = []; split = refl; folded = refl };
    pending = tt;
  }
  Reach-IsTrue {prefix} {pinned_device} (next r st) =
      Step-IsTrue st (Reach-IsShown r)
        (Reach-IsConserved serde prefix pinned_device matter_epoch_secs r).folded
        (Reach-IsConserved serde prefix pinned_device matter_epoch_secs (next r st)).folded
        (Reach-IsTrue r)

  -- At every moment of every run, the handlers read a snapshot that is the fold of some first part of the
  -- routed messages: never a mix of two, never one that the link mask forbids, never one out of range.
  pub Reach-ReadsTruth :
      {prefix : Text} {pinned_device : Option Text} {s : System}
      → Reach serde matter_epoch_secs prefix pinned_device s
      → ReadsTruth serde prefix pinned_device s
  Reach-ReadsTruth {prefix} {pinned_device} {s} r =
      let c = Reach-IsConserved serde prefix pinned_device matter_epoch_secs r in
      let p = (Reach-IsTrue r).shared in
      record {
        before = p.before;
        after = p.after ++ (s.inbox ++ to_list s.sending);
        split =
            sym c.accounted
            ∙ ap (λ ms. ms ++ (s.inbox ++ to_list s.sending)) p.split
            ∙ append_assoc p.before p.after _;
        folded = p.folded;
        masked = rw (p.folded) (apply_all-IsMasked p.before);
        in_range = rw (p.folded) (apply_all-IsInRange p.before);
      }
