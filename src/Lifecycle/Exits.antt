-- ===== src/Lifecycle/Exits.antt =====
-- What an exit of the program says of its past.
use pv_matter.Common.{ℕ, ◌≤◌, ◌≡◌, ◌≢◌, refl, Bool, true, false, Option, ok, err, arith}
use pv_matter.Text.{Text}
use pv_matter.Serde.{SerdeJson}
use pv_matter.Main.Start.{component_failed, exited, exit_of}
use pv_matter.System.{
  System, Internal, send, boot_take, boot, take, forward, receive, floor_over, drain, report,
}
use pv_matter.Lifecycle.{
  Lifecycle, JoinOutcome, join_matter_thread, Departure, by_matter, by_ingest, by_updates, drops,
  Stage, looping, joining, returned, begin, exit_at, exit, leave, signal_comes, keeps, Works, works,
  shutdown_requested, matter_gone, ingest_gone, updates_closed, tell, matter_stops, joins, Step,
  work, publish, signal, nothing_received, matter_fails, ingest_fails, Lives, start, next,
}

-- The flags against the past: a flag is set by a signal or by a fault.
pub record IsAccounted (p : Lifecycle) : Type 0 where
  pub heard : p.heard ≡ true → 1 ≤ p.signals
  pub fatal : p.fatal ≡ true → 1 ≤ p.faults
  pub left : p.stage ≢ looping → p.fatal ≡ false → 1 ≤ p.signals
  pub told : p.told ≡ true → p.stage ≢ looping
  pub matter : p.stage ≡ looping → p.matter_alive ≡ false → 1 ≤ p.faults
  pub ingest : p.ingest_alive ≡ false → 1 ≤ p.faults

failed_IsAccounted :
    (p : Lifecycle) (d : Departure) → IsAccounted p → 1 ≤ p.faults → IsAccounted (leave d true p)
failed_IsAccounted p d a f = record {
  heard = a.heard;
  fatal = λ q. f;
  left = λ n q. cc;
  told = λ q. cc;
  matter = λ q. cc;
  ingest = a.ingest;
}

dropping_IsAccounted :
    (p : Lifecycle) (outcome : JoinOutcome)
    → IsAccounted p
    → p.stage ≡ joining
    → IsAccounted (join_matter_thread outcome p)
dropping_IsAccounted p outcome a s = record {
  heard = a.heard;
  fatal = a.fatal;
  left = λ n q. a.left (λ e. cc) q;
  told = λ q. cc;
  matter = λ q. cc;
  ingest = a.ingest;
}

ok_left :
    (stage : Stage) (fatal : Bool) (n : ℕ)
    → (stage ≢ looping → fatal ≡ false → 1 ≤ n)
    → exit_at stage fatal ≡ exited (ok tt)
    → 1 ≤ n
unfolding exit_at exit_of
ok_left returned false n left h = left (λ e. cc) refl
ok_left returned true n left h = cc
ok_left _ fatal n left h = cc

err_fatal :
    (stage : Stage) (fatal : Bool) (n : ℕ)
    → (fatal ≡ true → 1 ≤ n)
    → exit_at stage fatal ≡ exited (err component_failed)
    → 1 ≤ n
unfolding exit_at exit_of
err_fatal returned true n f h = f refl
err_fatal returned false n f h = cc
err_fatal _ fatal n f h = cc

module _ {serde : SerdeJson} {matter_epoch_secs : ℕ} where
  keeps-true :
      {s t : System} (i : Internal serde matter_epoch_secs s t) (heard : Bool)
      → keeps serde matter_epoch_secs i heard ≡ true
      → heard ≡ true
  keeps-true (send s m e room) heard h = h
  keeps-true (boot_take s m inbox b i e) heard h = h
  keeps-true (boot s b) heard h = h
  keeps-true (take s m inbox b f e) heard h = cc
  keeps-true (forward s u e room) heard h = h
  keeps-true (receive s u updates b k e) heard h = h
  keeps-true (floor_over s u e) heard h = h
  keeps-true (drain s u newer updates k e) heard h = h
  keeps-true (report s u at k e) heard h = h

  Works-IsAccounted :
      {p q : Lifecycle} → Works serde matter_epoch_secs p q → IsAccounted p → IsAccounted q
  Works-IsAccounted (works p i c) a = record {
    heard = λ h. a.heard (keeps-true i p.heard h);
    fatal = a.fatal;
    left = a.left;
    told = a.told;
    matter = a.matter;
    ingest = a.ingest;
  }
  Works-IsAccounted (shutdown_requested p s h) a = record {
    heard = a.heard;
    fatal = λ q. cc;
    left = λ n q. a.heard h;
    told = λ q. cc;
    matter = λ q. cc;
    ingest = a.ingest;
  }
  Works-IsAccounted (matter_gone p s d) a = failed_IsAccounted p by_matter a (a.matter s.in_loop d)
  Works-IsAccounted (ingest_gone p s d) a = failed_IsAccounted p by_ingest a (a.ingest d)
  Works-IsAccounted (updates_closed p u l f d) a = failed_IsAccounted p by_updates a (a.matter l d)
  Works-IsAccounted (tell p s) a = record {
    heard = a.heard;
    fatal = a.fatal;
    left = λ n q. a.left (λ e. cc) q;
    told = λ q. cc;
    matter = λ q. cc;
    ingest = a.ingest;
  }
  Works-IsAccounted (matter_stops p u t h) a = record {
    heard = a.heard;
    fatal = a.fatal;
    left = a.left;
    told = a.told;
    matter = λ q. absurd (a.told t q);
    ingest = a.ingest;
  }
  Works-IsAccounted (joins p o s c) a = dropping_IsAccounted p o a s
  Works-IsAccounted (drops p s j) a = record {
    heard = a.heard;
    fatal = a.fatal;
    left = λ n q. a.left (λ e. cc) q;
    told = λ q. cc;
    matter = λ q. cc;
    ingest = a.ingest;
  }

  Step-IsAccounted :
      {p q : Lifecycle} → Step serde matter_epoch_secs p q → IsAccounted p → IsAccounted q
  unfolding signal_comes
  Step-IsAccounted (work w) a = Works-IsAccounted w a
  Step-IsAccounted (publish p topic payload u e n) a = record {
    heard = a.heard;
    fatal = a.fatal;
    left = a.left;
    told = a.told;
    matter = a.matter;
    ingest = a.ingest;
  }
  Step-IsAccounted (signal p u e) a = record {
    heard = λ q. omega arith;
    fatal = a.fatal;
    left = λ n q. omega arith;
    told = a.told;
    matter = a.matter;
    ingest = a.ingest;
  }
  Step-IsAccounted (nothing_received p s d e) a = record {
    heard = λ q. cc;
    fatal = a.fatal;
    left = a.left;
    told = a.told;
    matter = a.matter;
    ingest = a.ingest;
  }
  Step-IsAccounted (matter_fails p u e h) a = record {
    heard = a.heard;
    fatal = λ q. omega arith;
    left = a.left;
    told = a.told;
    matter = λ q d. omega arith;
    ingest = λ q. omega arith;
  }
  Step-IsAccounted (ingest_fails p u h) a = record {
    heard = a.heard;
    fatal = λ q. omega arith;
    left = a.left;
    told = a.told;
    matter = λ q d. omega arith;
    ingest = λ q. omega arith;
  }

  pub Lives-IsAccounted :
      {prefix : Text} {pinned_device : Option Text} {p : Lifecycle}
      → Lives serde matter_epoch_secs prefix pinned_device p
      → IsAccounted p
  unfolding begin
  Lives-IsAccounted start = record {
    heard = λ q. cc;
    fatal = λ q. cc;
    left = λ n q. absurd (n refl);
    told = λ q. cc;
    matter = λ q d. cc;
    ingest = λ q. cc;
  }
  Lives-IsAccounted (next l st) = Step-IsAccounted st (Lives-IsAccounted l)

  -- In every run, a return without an error has a signal in its past, and a return with the error of a failed
  -- component has a task that ended by itself: neither comes for another reason.
  pub Lives-exit :
      {prefix : Text} {pinned_device : Option Text} {p : Lifecycle}
      → Lives serde matter_epoch_secs prefix pinned_device p
      → (exit p ≡ exited (ok tt) → 1 ≤ p.signals)
        × (exit p ≡ exited (err component_failed) → 1 ≤ p.faults)
  unfolding exit
  Lives-exit {p = p} l =
      let a = Lives-IsAccounted l in
      (ok_left p.stage p.fatal p.signals a.left, err_fatal p.stage p.fatal p.faults a.fatal)
