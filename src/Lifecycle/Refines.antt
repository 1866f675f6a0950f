-- ===== src/Lifecycle/Refines.antt =====
-- The program with its ends against System, which has none.
use pv_matter.Common.{ℕ, ◌≡◌, refl, ◌⊎◌, inl, inr, Option, sym}
use mathlib.Core.Path.{subst}
use pv_matter.Text.{Text}
use pv_matter.Serde.{SerdeJson}
use pv_matter.System
use pv_matter.System.{System, Internal, internal, poll, Reach}
use pv_matter.Lifecycle.{
  Lifecycle, begin, signal_comes, Works, works, shutdown_requested, matter_gone, ingest_gone,
  updates_closed, tell, matter_stops, joins, drops, Step, work, publish, signal, nothing_received,
  matter_fails, ingest_fails, Lives, start, next,
}

module _ {serde : SerdeJson} {matter_epoch_secs : ℕ} where
  -- A work is a step of System, or leaves it alone.
  pub Works-Internal :
      {p q : Lifecycle}
      → Works serde matter_epoch_secs p q
      → (q.system ≡ p.system) ⊎ Internal serde matter_epoch_secs p.system q.system
  Works-Internal (works p i c) = inr i
  Works-Internal (shutdown_requested p a h) = inl refl
  Works-Internal (matter_gone p a h) = inl refl
  Works-Internal (ingest_gone p a h) = inl refl
  Works-Internal (updates_closed p u l f h) = inl refl
  Works-Internal (tell p s) = inl refl
  Works-Internal (matter_stops p u t h) = inl refl
  Works-Internal (joins p o s c) = inl refl
  Works-Internal (drops p s j) = inl refl

  Step-System :
      {p q : Lifecycle}
      → Step serde matter_epoch_secs p q
      → (q.system ≡ p.system) ⊎ System.Step serde matter_epoch_secs p.system q.system
  unfolding signal_comes
  Step-System (work w) = elim (Works-Internal w) [ inl e ↦ inl e | inr i ↦ inr (internal i) ]
  Step-System (publish p topic payload u a e) = inr (poll p.system topic payload e)
  Step-System (signal p u e) = inl refl
  Step-System (nothing_received p a d e) = inl refl
  Step-System (matter_fails p u e a) = inl refl
  Step-System (ingest_fails p u a) = inl refl

  -- However its tasks end, the program comes to no other state of its channels, its state and its handlers
  -- than System does, so that what holds in every state that System can reach holds to the end.
  pub Lives-Reach :
      {prefix : Text} {pinned_device : Option Text} {p : Lifecycle}
      → Lives serde matter_epoch_secs prefix pinned_device p
      → Reach serde matter_epoch_secs prefix pinned_device p.system
  unfolding begin
  Lives-Reach start = System.start
  Lives-Reach {prefix} {pinned_device} (next l st) = elim (Step-System st) [
    | inl e ↦
        subst (λ s. Reach serde matter_epoch_secs prefix pinned_device s) (sym e) (Lives-Reach l)
    | inr i ↦ System.next (Lives-Reach l) i
  ]
