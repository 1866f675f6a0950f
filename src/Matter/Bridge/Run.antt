-- ===== src/Matter/Bridge/Run.antt =====
-- What the bridge does over a run: the shared snapshot, the notifications and the report floor.
use mathlib.Core.Logic.{if_pos}
use mathlib.Core.Path.{ap, sym}
use pv_matter.Common.{
  ℕ, ◌+◌, ◌≤◌, ◌≡◌, refl, Bool, true, false, List, [], ◌∷◌, ◌++◌, Option, none, some, ite, arith,
  ◌∙◌, map, if◌then◌else◌,
}
use pv_matter.Domain.Snapshot.{PvSnapshot}
use pv_matter.Matter.Bridge.{
  Attribute, Bridge, Wake, newest, floor_wait, same_snapshot, start_bridge, settle, iterate,
  iterate_all, run_bridge, sleep_effects, min_report_spacing,
}
use pv_matter.Matter.Bridge.Sleeps.{slept}
use pv_matter.Matter.Bridge.Changes.{
  watched, Watched-discrete, times_notified, times_notified-append, times_notified-report_changes,
}

-- The snapshots that the channel gave over a run, in their order.
abbrev pub received : List Wake → List PvSnapshot
received [] = []
received (w ∷ wakes) = w.first ∷ (w.queued ++ received wakes)

pub newest-append :
    (s : PvSnapshot) (xs ys : List PvSnapshot) → newest s (xs ++ ys) ≡ newest (newest s xs) ys
unfolding newest
newest-append s [] ys = refl
newest-append s (x ∷ xs) ys = newest-append x xs ys

-- An iteration leaves the newest snapshot in both places.
pub iterate-newest :
    (epoch : ℕ) (b : Bridge) (w : Wake)
    → b.shared ≡ b.prev
    → ((iterate epoch b w).0.shared ≡ newest w.first w.queued)
      × ((iterate epoch b w).0.prev ≡ newest w.first w.queued)
unfolding iterate settle same_snapshot
iterate-newest epoch b w h = ground arith

iterate_all-newest :
    (epoch : ℕ) (b : Bridge) (wakes : List Wake)
    → b.shared ≡ b.prev
    → (iterate_all epoch b wakes).0.shared ≡ newest b.shared (received wakes)
unfolding iterate_all newest
iterate_all-newest epoch b [] h = refl
iterate_all-newest epoch b (w ∷ wakes) h =
    let (shared, prev) = iterate-newest epoch b w h in
    iterate_all-newest epoch (iterate epoch b w).0 wakes (shared ∙ sym prev)
    ∙ ap (λ s. newest s (received wakes)) shared
    ∙ sym (newest-append w.first w.queued (received wakes))

-- After a run the handlers read the newest snapshot that came through the channel, and the initial
-- one if none came: the coalescing drops none that is the last.
pub run_bridge-newest :
    (epoch : ℕ) (initial : PvSnapshot) (wakes : List Wake)
    → (run_bridge epoch initial wakes).0.shared ≡ newest initial (received wakes)
unfolding run_bridge start_bridge
run_bridge-newest epoch initial wakes = iterate_all-newest epoch (start_bridge initial) wakes refl

times_notified-sleep : (a : Attribute) (n : ℕ) → times_notified a (sleep_effects n) ≡ 0
unfolding times_notified
times_notified-sleep a n = ground arith

pub settle-times :
    (epoch : ℕ) (a : Attribute) (same : Bool) (b : Bridge) (next : PvSnapshot) (at : ℕ)
    → b.shared ≡ b.prev
    → times_notified a (settle epoch same b next at).1
      ≡ ite
          (Watched-discrete (watched a (settle epoch same b next at).0.shared) (watched a b.shared))
          0
          1
unfolding settle
settle-times epoch a true b next at h =
    unfold times_notified in
    sym (if_pos (Watched-discrete (watched a b.shared) (watched a b.shared)) refl 0 1)
settle-times epoch a false b next at h = rw h (times_notified-report_changes epoch a b.prev next)

-- An iteration notifies an attribute as often as what is compared for it differs from before.
pub iterate-times :
    (epoch : ℕ) (a : Attribute) (b : Bridge) (w : Wake)
    → b.shared ≡ b.prev
    → times_notified a (iterate epoch b w).1
      ≡ ite (Watched-discrete (watched a (iterate epoch b w).0.shared) (watched a b.shared)) 0 1
unfolding iterate
iterate-times epoch a b w h =
    let next = newest w.first w.queued in
    omega (
      arith,
      times_notified-append a (sleep_effects (floor_wait b.last_report w.received_at))
          (settle epoch (same_snapshot next b.prev) b next w.reported_at).1,
      times_notified-sleep a (floor_wait b.last_report w.received_at),
      settle-times epoch a (same_snapshot next b.prev) b next w.reported_at h,
    )

-- How often the fields that the bridge compares for an attribute change from one snapshot to the next.
abbrev pub changes : Attribute → PvSnapshot → List PvSnapshot → ℕ
changes a s [] = 0
changes a s (t ∷ ts) = ite (Watched-discrete (watched a t) (watched a s)) 0 1 + changes a t ts

-- The newest snapshot at each iteration.
abbrev pub coalesced : List Wake → List PvSnapshot
coalesced wakes = map (λ w. newest w.first w.queued) wakes

iterate_all-changes :
    (epoch : ℕ) (a : Attribute) (b : Bridge) (wakes : List Wake)
    → b.shared ≡ b.prev
    → times_notified a (iterate_all epoch b wakes).1 ≡ changes a b.shared (coalesced wakes)
unfolding iterate_all
iterate_all-changes epoch a b [] h = unfold times_notified in refl
iterate_all-changes epoch a b (w ∷ wakes) h =
    let (shared, prev) = iterate-newest epoch b w h in
    let later = iterate_all-changes epoch a (iterate epoch b w).0 wakes (shared ∙ sym prev) in
    times_notified-append a (iterate epoch b w).1 _
    ∙ rw (iterate-times epoch a b w h, later, shared) refl

-- Over a run an attribute is notified exactly as often as the field that the bridge compares for it changes
-- from one coalesced snapshot to the next, from the initial one on. For the exported energy that field is
-- the total alone: a new time of the same total, which a read returns too, is not notified.
pub run_bridge-changes :
    (epoch : ℕ) (a : Attribute) (initial : PvSnapshot) (wakes : List Wake)
    → times_notified a (run_bridge epoch initial wakes).1 ≡ changes a initial (coalesced wakes)
unfolding run_bridge start_bridge times_notified
run_bridge-changes epoch a initial wakes =
    iterate_all-changes epoch a (start_bridge initial) wakes refl

-- When the iterations that report do so.
abbrev pub reports_at : ℕ → Bridge → List Wake → List ℕ
reports_at epoch b [] = []
reports_at epoch b (w ∷ wakes) =
    (if same_snapshot (newest w.first w.queued) b.prev then [] else w.notified_at ∷ [])
    ++ reports_at epoch (iterate epoch b w).0 wakes

abbrev pub IsAfter : Option ℕ → ℕ → Type 0
IsAfter none t = Unit
IsAfter (some last) t = last + min_report_spacing ≤ t

-- Each time is at least the floor behind the one before, the first behind the given one.
abbrev pub IsSpaced : Option ℕ → List ℕ → Type 0
IsSpaced last [] = Unit
IsSpaced last (t ∷ ts) = IsAfter last t × IsSpaced (some t) ts

abbrev pub IsBefore : Option ℕ → ℕ → Type 0
IsBefore none t = Unit
IsBefore (some last) t = last ≤ t

-- The clock runs forwards, and an iteration that sleeps as long as its effects say notifies no earlier than
-- that.
abbrev pub IsTimed : ℕ → Bridge → List Wake → Type 0
IsTimed epoch b [] = Unit
IsTimed epoch b (w ∷ wakes) =
    IsBefore b.last_report w.received_at
    × ((w.received_at + slept (iterate epoch b w).1 ≤ w.notified_at)
        × ((w.notified_at ≤ w.reported_at) × IsTimed epoch (iterate epoch b w).0 wakes))

-- Settling leaves the given snapshot in both places, also where it is the old one.
pub settle-newest :
    (epoch : ℕ) (b : Bridge) (next : PvSnapshot) (at : ℕ)
    → b.shared ≡ b.prev
    → ((settle epoch (same_snapshot next b.prev) b next at).0.shared ≡ next)
      × ((settle epoch (same_snapshot next b.prev) b next at).0.prev ≡ next)
unfolding settle same_snapshot
settle-newest epoch b next at h = ground arith
