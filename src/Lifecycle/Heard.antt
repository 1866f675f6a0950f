-- ===== src/Lifecycle/Heard.antt =====
-- What becomes of a signal that comes while the main task is at its `select!` and no message is on its way.
use pv_matter.Common.{
  ℕ, suc, ◌≡◌, ◌≢◌, ◌∙◌, refl, ap, true, false, [], Option, none, some, ok, ◌⊎◌, inl, inr, arith,
}
use pv_matter.Text.{Text}
use pv_matter.Serde.{SerdeJson}
use pv_matter.Main.Start.{exited, exit_of}
use pv_matter.System.{
  System, Internal, send, boot_take, boot, take, forward, receive, floor_over, drain, report,
}
use pv_matter.Lifecycle.{
  Lifecycle, looping, returned, exit, AtSelect, signal_comes, keeps, Works, works,
  shutdown_requested, matter_gone, ingest_gone, updates_closed, tell, matter_stops, joins, drops,
  then_idle, Lives, Runs, here, then_work,
}
use pv_matter.Lifecycle.Ends.{works_left, IsCalm, IsTold, Runs-IsTold, Lives-IsTold}
use pv_matter.Lifecycle.Returns.{Works-left, returned-exit, work_within, stopped}
use pv_matter.Lifecycle.Signals.{Lives-IsAttentive}

-- No message is in the channel to the main task, or about to enter it.
pub record IsUndisturbed (p : Lifecycle) : Type 0 where
  pub inbox : p.system.inbox ≡ []
  pub sending : p.system.sending ≡ none
  pub ingest : p.ingest_alive ≡ true
  pub matter : p.matter_alive ≡ true

-- The signal is heard, and nothing else can end the loop.
record IsHearing (p : Lifecycle) : Type 0 where
  at : AtSelect p
  calm : IsUndisturbed p
  heard : p.heard ≡ true
  told : p.told ≡ false

IsEnding : Lifecycle → Type 0
IsEnding p = IsHearing p ⊎ ((p.stage ≢ looping) × (p.fatal ≡ false))

-- A step of the bridge.
still :
    (p : Lifecycle) (t : System)
    → IsHearing p
    → t.phase ≡ p.system.phase
    → t.forwarding ≡ p.system.forwarding
    → t.inbox ≡ p.system.inbox
    → t.sending ≡ p.system.sending
    → IsHearing (record p { system = t })
still p t d phase forwarding inbox sending = record {
  at = record {
    in_loop = d.at.in_loop;
    phase = phase ∙ d.at.phase;
    not_sending = forwarding ∙ d.at.not_sending;
  };
  calm = record {
    inbox = inbox ∙ d.calm.inbox;
    sending = sending ∙ d.calm.sending;
    ingest = d.calm.ingest;
    matter = d.calm.matter;
  };
  heard = d.heard;
  told = d.told;
}

module _ {serde : SerdeJson} {matter_epoch_secs : ℕ} where
  internal-IsHearing :
      (p : Lifecycle) {t : System} (i : Internal serde matter_epoch_secs p.system t)
      → IsHearing p
      → IsHearing (record p { system = t; heard = keeps serde matter_epoch_secs i p.heard })
  internal-IsHearing p (send s m e room) d = let n = d.calm.sending in absurd cc
  internal-IsHearing p (boot_take s m inbox b i e) d = let n = d.at.phase in absurd cc
  internal-IsHearing p (boot s b) d = let n = d.at.phase in absurd cc
  internal-IsHearing p (take s m inbox b f e) d = let n = d.calm.inbox in absurd cc
  internal-IsHearing p (forward s u e room) d = let n = d.at.not_sending in absurd cc
  internal-IsHearing p (receive s u updates b h e) d = still p _ d refl refl refl refl
  internal-IsHearing p (floor_over s u e) d = still p _ d refl refl refl refl
  internal-IsHearing p (drain s u newer updates h e) d = still p _ d refl refl refl refl
  internal-IsHearing p (report s u time h e) d = still p _ d refl refl refl refl

  Works-IsHearing : {p q : Lifecycle} → Works serde matter_epoch_secs p q → IsHearing p → IsEnding q
  unfolding IsEnding
  Works-IsHearing (works p i c) d = inl (internal-IsHearing p i d)
  Works-IsHearing (shutdown_requested p s h) d = inr (λ e. cc, refl)
  Works-IsHearing (matter_gone p s dead) d = let m = d.calm.matter in absurd cc
  Works-IsHearing (ingest_gone p s dead) d = let a = d.calm.ingest in absurd cc
  Works-IsHearing (updates_closed p u l f dead) d = let m = d.calm.matter in absurd cc
  Works-IsHearing (tell p s) d = let l = d.at.in_loop in absurd cc
  Works-IsHearing (matter_stops p u t h) d = let n = d.told in absurd cc
  Works-IsHearing (joins p o s c) d = let l = d.at.in_loop in absurd cc
  Works-IsHearing (drops p s j) d = let l = d.at.in_loop in absurd cc

  Runs-IsEnding : {p q : Lifecycle} → Runs serde matter_epoch_secs p q → IsEnding p → IsEnding q
  unfolding IsEnding
  Runs-IsEnding here d = d
  Runs-IsEnding (then_work r w) d = elim (Runs-IsEnding r d) [
    | inl hearing ↦ Works-IsHearing w hearing
    | inr (left, fine) ↦ let (away, same) = Works-left w left in inr (away, same ∙ fine)
  ]
  Runs-IsEnding (then_idle r s a e) d = elim (Runs-IsEnding r d) [
    | inl hearing ↦ let i = hearing.calm.ingest in absurd cc
    | inr (left, fine) ↦ absurd (left s.in_loop)
  ]

ending-exit :
    (q : Lifecycle) → IsEnding q → (q.stage ≡ returned) ⊎ IsCalm q → exit q ≡ exited (ok tt)
unfolding IsEnding exit_of
ending-exit q (inl d) (inl e) = let l = d.at.in_loop in absurd cc
ending-exit q (inl d) (inr c) = let h = d.heard in let n = c.heard in absurd cc
ending-exit q (inr (n, f)) (inl e) = returned-exit q e ∙ ap (λ b. exit_of (some b)) f
ending-exit q (inr (n, f)) (inr c) = absurd (n c.stage)

module _ (serde : SerdeJson) (matter_epoch_secs : ℕ) where
  -- How the program shuts down: some run comes to the return of `main` without an error, and every run that
  -- cannot go on has come there.
  pub record ShutsDown (p : Lifecycle) : Type 0 where
    pub some_run : (q : Lifecycle) × Runs serde matter_epoch_secs p q × (exit q ≡ exited (ok tt))
    pub every_run :
        (q : Lifecycle)
        → Runs serde matter_epoch_secs p q
        → ((r : Lifecycle) → ¬ (Works serde matter_epoch_secs q r))
        → exit q ≡ exited (ok tt)

  IsEnding-ShutsDown : (p : Lifecycle) → IsTold p → IsEnding p → ShutsDown p
  IsEnding-ShutsDown p t d = record {
    some_run =
        let (q, run, over) =
          work_within serde matter_epoch_secs (suc (works_left p)) p (omega arith) t in
        (q, run, ending-exit q (Runs-IsEnding run d) over);
    every_run = λ q run stuck.
        ending-exit q (Runs-IsEnding run d)
          (stopped serde matter_epoch_secs q (Runs-IsTold run t) stuck);
  }

module _ {serde : SerdeJson} {matter_epoch_secs : ℕ} {prefix : Text}
    {pinned_device : Option Text} where
  -- A signal that comes while the main task is at its `select!`, with both tasks alive and no message on
  -- its way to it, ends the program without an error, in every order of the tasks, whatever the bridge is
  -- at and however the join goes, unless a publish or a fault comes; the Matter thread is one that stops
  -- when the shutdown is in its channel.
  pub signal_comes-ShutsDown :
      (p : Lifecycle)
      → Lives serde matter_epoch_secs prefix pinned_device p
      → AtSelect p
      → IsUndisturbed p
      → ShutsDown serde matter_epoch_secs (signal_comes p)
  unfolding signal_comes IsEnding
  signal_comes-ShutsDown p l s c =
      let t = Lives-IsTold l in
      IsEnding-ShutsDown serde matter_epoch_secs (signal_comes p)
        (record { joining = t.joining; dropping = t.dropping })
        (inl (record {
          at = record { in_loop = s.in_loop; phase = s.phase; not_sending = s.not_sending };
          calm = record {
            inbox = c.inbox;
            sending = c.sending;
            ingest = c.ingest;
            matter = c.matter;
          };
          heard = rw (s.in_loop, s.not_sending) refl;
          told = (Lives-IsAttentive l).told s.in_loop;
        }))
