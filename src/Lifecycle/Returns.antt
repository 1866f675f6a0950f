-- ===== src/Lifecycle/Returns.antt =====
-- What becomes of the program once a task has ended or the loop was left.
use pv_matter.Common.{
  ℕ, zero, suc, ◌<◌, ◌≡◌, ◌≢◌, ◌∙◌, refl, ap, ◌⊎◌, inl, inr, false, Option, some, arith,
}
use pv_matter.Text.{Text}
use pv_matter.Serde.{SerdeJson}
use pv_matter.Main.Start.{exit_of}
use pv_matter.Lifecycle.{
  Lifecycle, looping, returned, exit, Works, works, shutdown_requested, matter_gone, ingest_gone,
  updates_closed, tell, matter_stops, joins, drops, Runs, here, then_work, then_idle, Step, work,
  publish, signal, signal_comes, nothing_received, matter_fails, ingest_fails, Lives,
}
use pv_matter.Lifecycle.Ends.{
  works_left, Works-lt, IsCalm, next_work, IsTold, Works-IsTold, Runs-IsTold, Lives-IsTold,
}

-- The loop was left, or a task has ended.
abbrev pub IsDoomed : Lifecycle → Type 0
IsDoomed p = (p.stage ≢ looping) ⊎ (p.matter_alive ≡ false) ⊎ (p.ingest_alive ≡ false)

module _ {serde : SerdeJson} {matter_epoch_secs : ℕ} where
  Works-IsDoomed : {p q : Lifecycle} → Works serde matter_epoch_secs p q → IsDoomed p → IsDoomed q
  Works-IsDoomed (works p i c) d = d
  Works-IsDoomed (shutdown_requested p s h) d = inl (λ e. cc)
  Works-IsDoomed (matter_gone p s h) d = inl (λ e. cc)
  Works-IsDoomed (ingest_gone p s h) d = inl (λ e. cc)
  Works-IsDoomed (updates_closed p u l f h) d = inl (λ e. cc)
  Works-IsDoomed (tell p s) d = inl (λ e. cc)
  Works-IsDoomed (matter_stops p u t h) d = inr (inl refl)
  Works-IsDoomed (joins p o s c) d = inl (λ e. cc)
  Works-IsDoomed (drops p s j) d = inl (λ e. cc)

  Step-IsDoomed : {p q : Lifecycle} → Step serde matter_epoch_secs p q → IsDoomed p → IsDoomed q
  unfolding signal_comes
  Step-IsDoomed (work w) d = Works-IsDoomed w d
  Step-IsDoomed (publish p topic payload u a e) d = d
  Step-IsDoomed (signal p u e) d = d
  Step-IsDoomed (nothing_received p s a e) d = d
  Step-IsDoomed (matter_fails p u e a) d = inr (inl refl)
  Step-IsDoomed (ingest_fails p u a) d = inr (inr refl)

  -- Behind the loop, `fatal` is decided.
  pub Works-left :
      {p q : Lifecycle}
      → Works serde matter_epoch_secs p q
      → p.stage ≢ looping
      → (q.stage ≢ looping) × (q.fatal ≡ p.fatal)
  Works-left (works p i c) n = (n, refl)
  Works-left (shutdown_requested p s h) n = absurd (n s.in_loop)
  Works-left (matter_gone p s h) n = absurd (n s.in_loop)
  Works-left (ingest_gone p s h) n = absurd (n s.in_loop)
  Works-left (updates_closed p u l f h) n = absurd (n l)
  Works-left (tell p s) n = (λ e. cc, refl)
  Works-left (matter_stops p u t h) n = (n, refl)
  Works-left (joins p o s c) n = (λ e. cc, refl)
  Works-left (drops p s j) n = (λ e. cc, refl)

  Runs-IsDoomed : {p q : Lifecycle} → Runs serde matter_epoch_secs p q → IsDoomed p → IsDoomed q
  Runs-IsDoomed here d = d
  Runs-IsDoomed (then_work r w) d = Works-IsDoomed w (Runs-IsDoomed r d)
  Runs-IsDoomed (then_idle r s a e) d = Runs-IsDoomed r d

  Runs-left :
      {p q : Lifecycle}
      → Runs serde matter_epoch_secs p q
      → p.stage ≢ looping
      → (q.stage ≢ looping) × (q.fatal ≡ p.fatal)
  Runs-left here n = (n, refl)
  Runs-left (then_work r w) n =
      let (m, e) = Runs-left r n in let (k, f) = Works-left w m in (k, f ∙ e)
  Runs-left (then_idle r s a i) n = Runs-left r n

calm_is_sound : (p : Lifecycle) → IsCalm p → ¬ (IsDoomed p)
calm_is_sound p c (inl n) = n c.stage
calm_is_sound p c (inr (inl d)) = let m = c.matter in cc
calm_is_sound p c (inr (inr d)) = let m = c.ingest in cc

pub returned-exit : (p : Lifecycle) → p.stage ≡ returned → exit p ≡ exit_of (some p.fatal)
unfolding exit
returned-exit p s = rw s refl

module _ (serde : SerdeJson) (matter_epoch_secs : ℕ) where
  first_work :
      {p q r : Lifecycle}
      → Works serde matter_epoch_secs p q
      → Runs serde matter_epoch_secs q r
      → Runs serde matter_epoch_secs p r
  first_work w here = then_work here w
  first_work w (then_work r v) = then_work (first_work w r) v
  first_work w (then_idle r s a e) = then_idle (first_work w r) s a e

  pub work_within :
      (n : ℕ) (p : Lifecycle)
      → works_left p < n
      → IsTold p
      → (q : Lifecycle) × Runs serde matter_epoch_secs p q × ((q.stage ≡ returned) ⊎ IsCalm q)
  work_within zero p h t = absurd (omega arith)
  work_within (suc n) p h t = elim (next_work serde matter_epoch_secs p t) [
    | inr over ↦ (p, here, over)
    | inl (q, w) ↦
        let (r, run, over) = work_within n q (omega (arith, Works-lt w)) (Works-IsTold w t) in
        (r, first_work w run, over)
  ]

  -- A state without a work is that of a program that has returned, or is calm.
  pub stopped :
      (q : Lifecycle)
      → IsTold q
      → ((r : Lifecycle) → ¬ (Works serde matter_epoch_secs q r))
      → (q.stage ≡ returned) ⊎ IsCalm q
  stopped q t stuck = elim (next_work serde matter_epoch_secs q t) [
    | inl (r, w) ↦ absurd (stuck r w)
    | inr over ↦ over
  ]

  -- How a doomed program ends. A run is one of works and of turns that get no message: some run comes to
  -- the return of `main`, and every run that has no work left has come there; `fatal`, as it was when the
  -- loop was left, decides what `main` returns. No other step takes the program out of this.
  pub record Returns (p : Lifecycle) : Type 0 where
    pub some_run : (q : Lifecycle) × Runs serde matter_epoch_secs p q × (q.stage ≡ returned)
    pub every_run :
        (q : Lifecycle)
        → Runs serde matter_epoch_secs p q
        → ((r : Lifecycle) → ¬ (Works serde matter_epoch_secs q r))
        → q.stage ≡ returned
    pub result :
        (q : Lifecycle)
        → Runs serde matter_epoch_secs p q
        → p.stage ≢ looping
        → q.stage ≡ returned
        → exit q ≡ exit_of (some p.fatal)
    pub stays : (q : Lifecycle) → Step serde matter_epoch_secs p q → IsDoomed q

module _ {serde : SerdeJson} {matter_epoch_secs : ℕ} {prefix : Text}
    {pinned_device : Option Text} where
  -- Once a task has ended or the loop was left, `main` returns, whatever the order in which the tasks run
  -- and however the join goes, the Matter thread being one that stops when the shutdown is in its channel:
  -- a run that goes on without publishes, signals and faults, and does not go on for ever by turns of the
  -- `select!` that get no message, comes to the return of `main`; behind the loop, what it returns is
  -- decided. Publishes, signals, faults and such turns leave it so.
  pub IsDoomed-Returns :
      (p : Lifecycle)
      → Lives serde matter_epoch_secs prefix pinned_device p
      → IsDoomed p
      → Returns serde matter_epoch_secs p
  IsDoomed-Returns p l d = record {
    some_run =
        let (q, run, over) =
          work_within serde matter_epoch_secs (suc (works_left p)) p (omega arith)
            (Lives-IsTold l) in
        (q, run, ended q (Runs-IsDoomed run d) over);
    every_run = λ q run stuck.
        ended q (Runs-IsDoomed run d)
          (stopped serde matter_epoch_secs q (Runs-IsTold run (Lives-IsTold l)) stuck);
    result = λ q run n s. returned-exit q s ∙ ap (λ f. exit_of (some f)) (Runs-left run n).1;
    stays = λ q st. Step-IsDoomed st d;
  }
    where
      ended : (q : Lifecycle) → IsDoomed q → (q.stage ≡ returned) ⊎ IsCalm q → q.stage ≡ returned
      ended q d (inl s) = s
      ended q d (inr c) = absurd (calm_is_sound q c d)
