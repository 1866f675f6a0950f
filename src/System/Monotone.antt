-- ===== src/System/Monotone.antt =====
-- The reads of the handlers over the steps of the whole program.
use mathlib.Core.Path.{ap, subst}
use pv_matter.Common.{
  ℕ, ◌≡◌, ◌∙◌, refl, List, [], ◌∷◌, ◌++◌, Option, none, append_assoc, append-nil,
}
use pv_matter.Text.{Text}
use pv_matter.Serde.{SerdeJson}
use pv_matter.Domain.{DomainMsg, State, default_state, apply, apply_all}
use pv_matter.Domain.Snapshot.{PvSnapshot}
use pv_matter.Matter.Bridge.{start_bridge}
use pv_matter.Matter.Bridge.Run.{settle-newest}
use pv_matter.System.Messages.{to_list, Reach-IsConserved}
use pv_matter.System.Shown.{held, pending, IsShown, Reach-IsShown}
use pv_matter.System.Onward.{
  ReadsAt, MovesOn, same-ReadsAt, pass-ReadsAt, stays, boot_take-ReadsAt, boot-MovesOn,
  take-ReadsAt, report-MovesOn,
}
use pv_matter.System.{
  booting, System, initial, Internal, send, boot_take, boot, take, forward, receive, floor_over,
  drain, report, Step, poll, internal, Reach, start, next,
}

unsent_snoc :
    (xs ys : List PvSnapshot) (o : Option PvSnapshot) (u : PvSnapshot)
    → o ≡ none
    → xs ++ (ys ++ u ∷ []) ≡ (xs ++ (ys ++ to_list o)) ++ u ∷ []
unsent_snoc xs ys o u e = rw e (rw (append-nil, append_assoc) refl)

nothing_pending : (s : System) → IsShown s → s.phase ≡ booting → pending s ≡ []
nothing_pending s h b = let (i, n, f) = h.before b in rw (i, n, f) refl

-- A run of steps from any state.
pub data Comes (serde : SerdeJson) (matter_epoch_secs : ℕ) (s : System) : System → Type 0 where
  here : Comes serde matter_epoch_secs s s
  by_step :
      {t u : System}
      → Comes serde matter_epoch_secs s t
      → Step serde matter_epoch_secs t u
      → Comes serde matter_epoch_secs s u

-- What is read in two states, against the messages that were taken: the fold of the first of them, and then of
-- as many or more.
pub record NeverBack (s t : System) : Type 0 where
  pub before : List DomainMsg
  pub later : List DomainMsg
  pub after : List DomainMsg
  pub split : t.taken ≡ before ++ (later ++ after)
  pub reads : s.bridge.shared ≡ (apply_all default_state before).snapshot
  pub then_reads : t.bridge.shared ≡ (apply_all default_state (before ++ later)).snapshot

module _ {serde : SerdeJson} {matter_epoch_secs : ℕ} where
  Internal-MovesOn :
      {before : List DomainMsg} {s t : System}
      → Internal serde matter_epoch_secs s t
      → IsShown s
      → s.state ≡ apply_all default_state s.taken
      → ReadsAt before s
      → MovesOn before t
  unfolding start_bridge
  Internal-MovesOn (send s m e room) shown folded r = stays _ (same-ReadsAt s _ refl refl refl r)
  Internal-MovesOn (boot_take s m inbox b i e) shown folded r =
      stays _ (boot_take-ReadsAt s _ m refl refl (nothing_pending s shown b) r)
  Internal-MovesOn (boot s b) shown folded r =
      boot-MovesOn s _ refl (ap (λ (st : State). st.snapshot) folded) (nothing_pending s shown b) r
  Internal-MovesOn (take s m inbox b f e) shown folded r = stays _ (
      take-ReadsAt s _ m folded refl refl
        (unsent_snoc (held s.holding) s.updates s.forwarding (apply s.state m).snapshot f) r)
  Internal-MovesOn (forward s u e room) shown folded r =
      stays _ (same-ReadsAt s _ refl refl (rw e (rw append-nil refl)) r)
  Internal-MovesOn (receive s u updates b i e) shown folded r =
      stays _ (same-ReadsAt s _ refl refl (rw (i, e) refl) r)
  Internal-MovesOn (floor_over s u e) shown folded r =
      stays _ (same-ReadsAt s _ refl refl (rw e refl) r)
  Internal-MovesOn (drain s u newer updates i e) shown folded r =
      stays _ (pass-ReadsAt s _ u refl refl (rw (i, e) refl) r)
  Internal-MovesOn (report s u at i e) shown folded r =
      report-MovesOn s _ u refl (settle-newest matter_epoch_secs s.bridge u at shown.agree).0
        (rw i refl) r

  Step-MovesOn :
      {before : List DomainMsg} {s t : System}
      → Step serde matter_epoch_secs s t
      → IsShown s
      → s.state ≡ apply_all default_state s.taken
      → ReadsAt before s
      → MovesOn before t
  Step-MovesOn (poll s topic payload e) shown folded r = stays _ (same-ReadsAt s _ refl refl refl r)
  Step-MovesOn (internal i) shown folded r = Internal-MovesOn i shown folded r

  module _ {prefix : Text} {pinned_device : Option Text} where
    Reach-MovesOn :
        {s t : System} {before : List DomainMsg}
        → Reach serde matter_epoch_secs prefix pinned_device s
        → Step serde matter_epoch_secs s t
        → ReadsAt before s
        → MovesOn before t
    Reach-MovesOn r st at =
        Step-MovesOn st (Reach-IsShown r)
          (Reach-IsConserved serde prefix pinned_device matter_epoch_secs r).folded at

    Reach-ReadsAt :
        {s : System}
        → Reach serde matter_epoch_secs prefix pinned_device s
        → (before : List DomainMsg) × ReadsAt before s
    unfolding initial start_bridge apply_all
    Reach-ReadsAt start =
        ([], record { passed = []; rest = []; split = refl; shared = refl; on_way = refl })
    Reach-ReadsAt (next r st) =
        let (before, at) = Reach-ReadsAt r in
        let on = Reach-MovesOn r st at in (before ++ on.later, on.reads)

    Comes-Reach :
        {s t : System}
        → Reach serde matter_epoch_secs prefix pinned_device s
        → Comes serde matter_epoch_secs s t
        → Reach serde matter_epoch_secs prefix pinned_device t
    Comes-Reach r here = r
    Comes-Reach r (by_step c st) = next (Comes-Reach r c) st

    Comes-MovesOn :
        {s t : System} {before : List DomainMsg}
        → Reach serde matter_epoch_secs prefix pinned_device s
        → Comes serde matter_epoch_secs s t
        → ReadsAt before s
        → MovesOn before t
    Comes-MovesOn {s} r here at = stays s at
    Comes-MovesOn {t = t} {before} r (by_step c st) at =
        let on = Comes-MovesOn r c at in
        let further = Reach-MovesOn (Comes-Reach r c) st on.reads in
        record {
          later = on.later ++ further.later;
          reads =
              subst (λ ms. ReadsAt ms t) (append_assoc before on.later further.later) further.reads;
        }

    -- The reads never go back: in every run from a reachable state on, in every order of the tasks, the
    -- handlers read the fold of a first part of the messages that the main task took, and later the fold of
    -- the same part or a longer one.
    pub Comes-NeverBack :
        {s t : System}
        → Reach serde matter_epoch_secs prefix pinned_device s
        → Comes serde matter_epoch_secs s t
        → NeverBack s t
    Comes-NeverBack r c =
        let (before, at) = Reach-ReadsAt r in
        let on = Comes-MovesOn r c at in
        record {
          before = before;
          later = on.later;
          after = on.reads.passed ++ on.reads.rest;
          split = on.reads.split ∙ append_assoc before on.later _;
          reads = at.shared;
          then_reads = on.reads.shared;
        }
