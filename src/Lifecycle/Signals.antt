-- ===== src/Lifecycle/Signals.antt =====
-- What a shutdown signal does, by where the main task stands when it comes.
use mathlib.Core.Path.{ap}
use pv_matter.Common.{
  ◌⊎◌, ℕ, suc, ◌≡◌, ◌∙◌, refl, Bool, true, false, Option, none, some, arith, Bool-cases, inl, inr,
}
use pv_matter.Text.{Text}
use pv_matter.Serde.{SerdeJson}
use pv_matter.Domain.Snapshot.{PvSnapshot}
use pv_matter.System.{
  System, Internal, send, boot_take, boot, take, forward, receive, floor_over, drain, report, here,
  initial,
}
use pv_matter.Lifecycle.{
  Lifecycle, here, returned, looping, begin, signal_comes, keeps, Works, works, shutdown_requested,
  matter_gone, ingest_gone, updates_closed, tell, matter_stops, joins, drops, Step, work, publish,
  signal, nothing_received, matter_fails, ingest_fails, Lives, start, next, Runs, then_work,
  then_idle,
}
use pv_matter.Lifecycle.Returns.{work_within, stopped}
use pv_matter.Lifecycle.Ends.{works_left, IsCalm, IsTold, Runs-IsTold, Lives-IsTold}

-- A signal is heard at the `select!` only, and the shutdown is told only behind the loop.
pub record IsAttentive (p : Lifecycle) : Type 0 where
  pub heard : p.heard ≡ true → p.stage ≡ looping → p.system.forwarding ≡ none
  pub told : p.stage ≡ looping → p.told ≡ false

hears_lem :
    (p : Lifecycle)
    → IsAttentive p
    → (signal_comes p).heard ≡ true
    → p.stage ≡ looping
    → p.system.forwarding ≡ none
unfolding signal_comes
hears_lem p a h l = ground (arith, a.heard)

-- The program loops, its tasks are alive, and nothing has told it to stop.
record IsDeaf (p : Lifecycle) : Type 0 where
  stage : p.stage ≡ looping
  ingest : p.ingest_alive ≡ true
  matter : p.matter_alive ≡ true
  heard : p.heard ≡ false
  told : p.told ≡ false

deaf :
    (p : Lifecycle) (u : PvSnapshot)
    → IsAttentive p
    → p.stage ≡ looping
    → p.system.forwarding ≡ some u
    → (signal_comes p).heard ≡ false
unfolding signal_comes
deaf p u a s f = elim (Bool-cases p.heard) [
  | inr n ↦ rw (s, f) n
  | inl h ↦ let g = a.heard h s in cc
]

module _ {serde : SerdeJson} {matter_epoch_secs : ℕ} where
  heard-Internal :
      {s t : System} (i : Internal serde matter_epoch_secs s t) (heard : Bool)
      → (heard ≡ true → s.forwarding ≡ none)
      → keeps serde matter_epoch_secs i heard ≡ true
      → t.forwarding ≡ none
  heard-Internal (send s m e room) heard f h = f h
  heard-Internal (boot_take s m inbox b i e) heard f h = f h
  heard-Internal (boot s b) heard f h = f h
  heard-Internal (take s m inbox b k e) heard f h = cc
  heard-Internal (forward s u e room) heard f h = refl
  heard-Internal (receive s u updates b k e) heard f h = f h
  heard-Internal (floor_over s u e) heard f h = f h
  heard-Internal (drain s u newer updates k e) heard f h = f h
  heard-Internal (report s u at k e) heard f h = f h

  Works-IsAttentive :
      {p q : Lifecycle} → Works serde matter_epoch_secs p q → IsAttentive p → IsAttentive q
  Works-IsAttentive (works p i c) a = record {
    heard = λ h l. heard-Internal i p.heard (λ k. a.heard k l) h;
    told = a.told;
  }
  Works-IsAttentive (shutdown_requested p s h) a = record { heard = λ h l. cc; told = λ l. cc }
  Works-IsAttentive (matter_gone p s d) a = record { heard = λ h l. cc; told = λ l. cc }
  Works-IsAttentive (ingest_gone p s d) a = record { heard = λ h l. cc; told = λ l. cc }
  Works-IsAttentive (updates_closed p u l f d) a = record { heard = λ h l. cc; told = λ l. cc }
  Works-IsAttentive (tell p s) a = record { heard = λ h l. cc; told = λ l. cc }
  Works-IsAttentive (matter_stops p u t h) a = record { heard = a.heard; told = a.told }
  Works-IsAttentive (joins p o s c) a = record { heard = λ h l. cc; told = λ l. cc }
  Works-IsAttentive (drops p s j) a = record { heard = λ h l. cc; told = λ l. cc }

  Step-IsAttentive :
      {p q : Lifecycle} → Step serde matter_epoch_secs p q → IsAttentive p → IsAttentive q
  unfolding signal_comes
  Step-IsAttentive (work w) a = Works-IsAttentive w a
  Step-IsAttentive (publish p topic payload u e n) a = record { heard = a.heard; told = a.told }
  Step-IsAttentive (signal p u e) a = record { heard = hears_lem p a; told = a.told }
  Step-IsAttentive (nothing_received p s d e) a = record { heard = λ h l. cc; told = a.told }
  Step-IsAttentive (matter_fails p u e h) a = record { heard = a.heard; told = a.told }
  Step-IsAttentive (ingest_fails p u h) a = record { heard = a.heard; told = a.told }

  pub Lives-IsAttentive :
      {prefix : Text} {pinned_device : Option Text} {p : Lifecycle}
      → Lives serde matter_epoch_secs prefix pinned_device p
      → IsAttentive p
  unfolding begin initial
  Lives-IsAttentive start = record { heard = λ h l. refl; told = λ l. refl }
  Lives-IsAttentive (next l st) = Step-IsAttentive st (Lives-IsAttentive l)

module _ (serde : SerdeJson) (matter_epoch_secs : ℕ) where
  keeps-false :
      {s t : System} (i : Internal serde matter_epoch_secs s t)
      → keeps serde matter_epoch_secs i false ≡ false
  keeps-false (send s m e room) = refl
  keeps-false (boot_take s m inbox b i e) = refl
  keeps-false (boot s b) = refl
  keeps-false (take s m inbox b f e) = refl
  keeps-false (forward s u e room) = refl
  keeps-false (receive s u updates b k e) = refl
  keeps-false (floor_over s u e) = refl
  keeps-false (drain s u newer updates k e) = refl
  keeps-false (report s u at k e) = refl

  Works-IsDeaf : {p q : Lifecycle} → Works serde matter_epoch_secs p q → IsDeaf p → IsDeaf q
  Works-IsDeaf (works p i c) d = record {
    stage = d.stage;
    ingest = d.ingest;
    matter = d.matter;
    heard = ap (keeps serde matter_epoch_secs i) d.heard ∙ keeps-false i;
    told = d.told;
  }
  Works-IsDeaf (shutdown_requested p s h) d = let e = d.heard in absurd cc
  Works-IsDeaf (matter_gone p s dead) d = let e = d.matter in absurd cc
  Works-IsDeaf (ingest_gone p s dead) d = let e = d.ingest in absurd cc
  Works-IsDeaf (updates_closed p u l f dead) d = let e = d.matter in absurd cc
  Works-IsDeaf (tell p s) d = let e = d.stage in absurd cc
  Works-IsDeaf (matter_stops p u t h) d = let e = d.told in absurd cc
  Works-IsDeaf (joins p o s c) d = let e = d.stage in absurd cc
  Works-IsDeaf (drops p s j) d = let e = d.stage in absurd cc

  Runs-IsDeaf : {p q : Lifecycle} → Runs serde matter_epoch_secs p q → IsDeaf p → IsDeaf q
  Runs-IsDeaf here d = d
  Runs-IsDeaf (then_work r w) d = Works-IsDeaf w (Runs-IsDeaf r d)
  Runs-IsDeaf (then_idle r s a e) d = let f = (Runs-IsDeaf r d).ingest in absurd cc

  -- How the program goes on that nothing tells to stop: its loop is never left, and a run that cannot go on has
  -- come to a state where there is nothing to do; there is such a run.
  pub record GoesOn (p : Lifecycle) : Type 0 where
    pub loops : (q : Lifecycle) → Runs serde matter_epoch_secs p q → q.stage ≡ looping
    pub waits :
        (q : Lifecycle)
        → Runs serde matter_epoch_secs p q
        → ((r : Lifecycle) → ¬ (Works serde matter_epoch_secs q r))
        → IsCalm q
    pub some_run : (q : Lifecycle) × Runs serde matter_epoch_secs p q × IsCalm q

  deaf_calm : (q : Lifecycle) → IsDeaf q → (q.stage ≡ returned) ⊎ IsCalm q → IsCalm q
  deaf_calm q d (inl e) = let l = d.stage in absurd cc
  deaf_calm q d (inr c) = c

  IsDeaf-GoesOn : (p : Lifecycle) → IsTold p → IsDeaf p → GoesOn p
  IsDeaf-GoesOn p t d = record {
    loops = λ q run. (Runs-IsDeaf run d).stage;
    waits = λ q run stuck.
        deaf_calm q (Runs-IsDeaf run d)
          (stopped serde matter_epoch_secs q (Runs-IsTold run t) stuck);
    some_run =
        let (q, run, over) =
          work_within serde matter_epoch_secs (suc (works_left p)) p (omega arith) t in
        (q, run, deaf_calm q (Runs-IsDeaf run d) over);
  }

module _ {serde : SerdeJson} {matter_epoch_secs : ℕ} {prefix : Text}
    {pinned_device : Option Text} where
  -- A signal that comes while the main task waits to send a snapshot, with both tasks alive, is lost in every
  -- order of the tasks: without a further publish, signal or fault the loop is never left, and every run that
  -- cannot go on has come to a state where the program loops with nothing to do.
  pub signal_comes-GoesOn :
      (p : Lifecycle) (u : PvSnapshot)
      → Lives serde matter_epoch_secs prefix pinned_device p
      → p.stage ≡ looping
      → p.system.forwarding ≡ some u
      → p.ingest_alive ≡ true
      → p.matter_alive ≡ true
      → GoesOn serde matter_epoch_secs (signal_comes p)
  unfolding signal_comes
  signal_comes-GoesOn p u l s f i m =
      let a = Lives-IsAttentive l in
      let t = Lives-IsTold l in
      IsDeaf-GoesOn serde matter_epoch_secs (signal_comes p)
        (record { joining = t.joining; dropping = t.dropping })
        (record { stage = s; ingest = i; matter = m; heard = deaf p u a s f; told = a.told s })
