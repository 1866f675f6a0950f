-- ===== src/Lifecycle/Away.antt =====
-- What a step leaves alone once the main task of src/main.rs has left its loops.
use pv_matter.Common.{ℕ, ◌≡◌, ◌≢◌, refl}
use pv_matter.Serde.{SerdeJson}
use pv_matter.System.{
  System, Internal, send, boot_take, boot, take, forward, receive, floor_over, drain, report,
}
use pv_matter.Lifecycle.{
  Lifecycle, looping, signal_comes, Works, works, shutdown_requested, matter_gone, ingest_gone,
  updates_closed, tell, matter_stops, joins, drops, Step, work, publish, signal, nothing_received,
  matter_fails, ingest_fails, CanAct, actor, keeps,
}

-- What a step does not touch once the loop is left.
pub record IsAway (p q : Lifecycle) : Type 0 where
  pub stage : q.stage ≢ looping
  pub fatal : q.fatal ≡ p.fatal
  pub departure : q.departure ≡ p.departure
  pub taken : q.system.taken ≡ p.system.taken
  pub state : q.system.state ≡ p.system.state

module _ {serde : SerdeJson} {matter_epoch_secs : ℕ} where
  internal-IsAway :
      (p : Lifecycle) {t : System} (i : Internal serde matter_epoch_secs p.system t)
      → CanAct p (actor serde matter_epoch_secs i)
      → p.stage ≢ looping
      → IsAway p (record p { system = t; heard = keeps serde matter_epoch_secs i p.heard })
  internal-IsAway p (send s m e room) c n = record {
    stage = n;
    fatal = refl;
    departure = refl;
    taken = refl;
    state = refl;
  }
  internal-IsAway p (boot_take s m inbox b i e) c n = absurd (n c)
  internal-IsAway p (boot s b) c n = absurd (n c)
  internal-IsAway p (take s m inbox b f e) c n = absurd (n c)
  internal-IsAway p (forward s u e room) c n = absurd (n c.0)
  internal-IsAway p (receive s u updates b i e) c n = record {
    stage = n;
    fatal = refl;
    departure = refl;
    taken = refl;
    state = refl;
  }
  internal-IsAway p (floor_over s u e) c n = record {
    stage = n;
    fatal = refl;
    departure = refl;
    taken = refl;
    state = refl;
  }
  internal-IsAway p (drain s u newer updates i e) c n = record {
    stage = n;
    fatal = refl;
    departure = refl;
    taken = refl;
    state = refl;
  }
  internal-IsAway p (report s u at i e) c n = record {
    stage = n;
    fatal = refl;
    departure = refl;
    taken = refl;
    state = refl;
  }

  Works-IsAway :
      {p q : Lifecycle} → Works serde matter_epoch_secs p q → p.stage ≢ looping → IsAway p q
  Works-IsAway (works p i c) n = internal-IsAway p i c n
  Works-IsAway (shutdown_requested p s h) n = absurd (n s.in_loop)
  Works-IsAway (matter_gone p s d) n = absurd (n s.in_loop)
  Works-IsAway (ingest_gone p s d) n = absurd (n s.in_loop)
  Works-IsAway (updates_closed p u l f d) n = absurd (n l)
  Works-IsAway (tell p s) n = record {
    stage = λ e. cc;
    fatal = refl;
    departure = refl;
    taken = refl;
    state = refl;
  }
  Works-IsAway (matter_stops p u t h) n = record {
    stage = n;
    fatal = refl;
    departure = refl;
    taken = refl;
    state = refl;
  }
  Works-IsAway (drops p s j) n = record {
    stage = λ e. cc;
    fatal = refl;
    departure = refl;
    taken = refl;
    state = refl;
  }
  Works-IsAway (joins p o s c) n = record {
    stage = λ e. cc;
    fatal = refl;
    departure = refl;
    taken = refl;
    state = refl;
  }

  pub Step-IsAway :
      {p q : Lifecycle} → Step serde matter_epoch_secs p q → p.stage ≢ looping → IsAway p q
  unfolding signal_comes
  Step-IsAway (work w) n = Works-IsAway w n
  Step-IsAway (publish p topic payload u a e) n = record {
    stage = n;
    fatal = refl;
    departure = refl;
    taken = refl;
    state = refl;
  }
  Step-IsAway (signal p u e) n = record {
    stage = n;
    fatal = refl;
    departure = refl;
    taken = refl;
    state = refl;
  }
  Step-IsAway (nothing_received p s d e) n = absurd (n s.in_loop)
  Step-IsAway (matter_fails p u e a) n = record {
    stage = n;
    fatal = refl;
    departure = refl;
    taken = refl;
    state = refl;
  }
  Step-IsAway (ingest_fails p u a) n = record {
    stage = n;
    fatal = refl;
    departure = refl;
    taken = refl;
    state = refl;
  }
