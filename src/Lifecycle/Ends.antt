-- ===== src/Lifecycle/Ends.antt =====
-- How far the program can go without publishes, signals and faults, and where it stops.
use pv_matter.Common.{
  ℕ, ◌+◌, ◌<◌, ◌≤◌, ◌≡◌, refl, ◌⊎◌, inl, inr, Bool, true, false, Option, some, Option-cases,
  Bool-cases, arith,
}
use pv_matter.Text.{Text}
use pv_matter.Serde.{SerdeJson}
use pv_matter.Domain.Snapshot.{PvSnapshot}
use pv_matter.System.{System, steady, Internal, boot, forward, receive, floor_over, drain}
use pv_matter.System.Progress.{
  steps_left, Internal-lt, IsQuiet, progress, Phase-cases, Holding-cases, List-cases,
}
use pv_matter.Lifecycle.{
  IsUp, HasTasks, ingest, main, Lifecycle, Stage, looping, stopping, joining, dropping, returned,
  AtSelect, Actor, handing_over, bridge, CanAct, actor, Works, works, shutdown_requested,
  matter_gone, ingest_gone, updates_closed, tell, matter_stops, joins, drops, elapsed, Runs, here,
  then_work, then_idle, Step, work, publish, signal, signal_comes, nothing_received, matter_fails,
  ingest_fails, begin, Lives, start, next,
}

stage_weight : Stage → ℕ
stage_weight looping = 4
stage_weight stopping = 3
stage_weight joining = 2
stage_weight dropping = 1
stage_weight returned = 0

alive_weight : Bool → ℕ
alive_weight true = 1
alive_weight false = 0

-- How many works are left at most.
unfoldable pub works_left : Lifecycle → ℕ
unfolding stage_weight alive_weight
works_left p = steps_left p.system + stage_weight p.stage + alive_weight p.matter_alive

-- The program loops, both of its tasks are there, and there is nothing to do.
pub record IsCalm (p : Lifecycle) : Type 0 where
  pub stage : p.stage ≡ looping
  pub ingest : p.ingest_alive ≡ true
  pub matter : p.matter_alive ≡ true
  pub heard : p.heard ≡ false
  pub quiet : IsQuiet p.system

Stage-cases :
    (s : Stage) → (s ≡ looping) ⊎ (s ≡ stopping) ⊎ (s ≡ joining) ⊎ (s ≡ dropping) ⊎ (s ≡ returned)
Stage-cases looping = inl refl
Stage-cases stopping = inr (inl refl)
Stage-cases joining = inr (inr (inl refl))
Stage-cases dropping = inr (inr (inr (inl refl)))
Stage-cases returned = inr (inr (inr (inr refl)))

-- The shutdown is in its channel once the main task is behind its send.
pub record IsTold (p : Lifecycle) : Type 0 where
  pub joining : p.stage ≡ joining → p.told ≡ true
  pub dropping : p.stage ≡ dropping → p.told ≡ true

module _ {serde : SerdeJson} {matter_epoch_secs : ℕ} where
  pub Works-lt : {p q : Lifecycle} → Works serde matter_epoch_secs p q → works_left q < works_left p
  unfolding works_left
  Works-lt (works p i c) = omega (arith, Internal-lt i)
  Works-lt (shutdown_requested p s h) = rw (s.in_loop) (omega arith)
  Works-lt (matter_gone p s d) = rw (s.in_loop) (omega arith)
  Works-lt (ingest_gone p s d) = rw (s.in_loop) (omega arith)
  Works-lt (updates_closed p u l f d) = rw l (omega arith)
  Works-lt (tell p s) = rw s (omega arith)
  Works-lt (matter_stops p u t h) = rw h (omega arith)
  Works-lt (joins p o s c) = rw s (omega arith)
  Works-lt (drops p s j) = rw s (omega arith)

  pub Works-IsTold : {p q : Lifecycle} → Works serde matter_epoch_secs p q → IsTold p → IsTold q
  Works-IsTold (works p i c) t = record { joining = t.joining; dropping = t.dropping }
  Works-IsTold (shutdown_requested p s h) t = record { joining = λ e. cc; dropping = λ e. cc }
  Works-IsTold (matter_gone p s d) t = record { joining = λ e. cc; dropping = λ e. cc }
  Works-IsTold (ingest_gone p s d) t = record { joining = λ e. cc; dropping = λ e. cc }
  Works-IsTold (updates_closed p u l f d) t = record { joining = λ e. cc; dropping = λ e. cc }
  Works-IsTold (tell p s) t = record { joining = λ e. refl; dropping = λ e. refl }
  Works-IsTold (matter_stops p u h m) t = record { joining = t.joining; dropping = t.dropping }
  Works-IsTold (joins p o s c) t = record { joining = λ e. cc; dropping = λ e. t.joining s }
  Works-IsTold (drops p s j) t = record { joining = λ e. cc; dropping = λ e. cc }

  pub Runs-IsTold : {p q : Lifecycle} → Runs serde matter_epoch_secs p q → IsTold p → IsTold q
  Runs-IsTold here t = t
  Runs-IsTold (then_work r w) t = Works-IsTold w (Runs-IsTold r t)
  Runs-IsTold (then_idle r s d e) t =
      let u = Runs-IsTold r t in record { joining = u.joining; dropping = u.dropping }

  Step-IsTold : {p q : Lifecycle} → Step serde matter_epoch_secs p q → IsTold p → IsTold q
  unfolding signal_comes
  Step-IsTold (work w) t = Works-IsTold w t
  Step-IsTold (publish p topic payload u a e) t = record {
    joining = t.joining;
    dropping = t.dropping;
  }
  Step-IsTold (signal p u e) t = record { joining = t.joining; dropping = t.dropping }
  Step-IsTold (nothing_received p s d e) t = record { joining = t.joining; dropping = t.dropping }
  Step-IsTold (matter_fails p u e a) t = record { joining = t.joining; dropping = t.dropping }
  Step-IsTold (ingest_fails p u a) t = record { joining = t.joining; dropping = t.dropping }

  pub Lives-IsTold :
      {prefix : Text} {pinned_device : Option Text} {p : Lifecycle}
      → Lives serde matter_epoch_secs prefix pinned_device p
      → IsTold p
  unfolding begin
  Lives-IsTold start = record { joining = λ e. cc; dropping = λ e. cc }
  Lives-IsTold (next l st) = Step-IsTold st (Lives-IsTold l)

  pub works_done : {p q : Lifecycle} → Runs serde matter_epoch_secs p q → ℕ
  works_done here = 0
  works_done (then_work r w) = works_done r + 1
  works_done (then_idle r s d e) = works_done r

  -- Without publishes, signals and faults the program can go on for ever only by turns of the `select!`
  -- that get no message, behind the end of the ingest task and with the branch of that end ready: all else
  -- that a run does, the end of the program included, is at most `works_left` of its start.
  pub works_done-le :
      {p q : Lifecycle} (r : Runs serde matter_epoch_secs p q)
      → works_done r + works_left q ≤ works_left p
  unfolding works_done works_left
  works_done-le here = omega arith
  works_done-le (then_work r w) = omega (arith, works_done-le r, Works-lt w)
  works_done-le (then_idle r s d e) = works_done-le r

looping-HasTasks : (s : Stage) → s ≡ looping → HasTasks s
looping-HasTasks s e = rw e tt

looping-IsUp : (s : Stage) → s ≡ looping → IsUp s
looping-IsUp s e = rw e tt

pub looping-CanAct :
    (p : Lifecycle) (a : Actor)
    → p.stage ≡ looping
    → p.ingest_alive ≡ true
    → p.matter_alive ≡ true
    → CanAct p a
looping-CanAct p ingest l i m = (looping-HasTasks p.stage l, i)
looping-CanAct p main l i m = l
looping-CanAct p handing_over l i m = (l, m)
looping-CanAct p bridge l i m = (looping-IsUp p.stage l, m)

-- The main task with the living Matter thread can act while a snapshot is handed over.
handing-CanAct :
    (p : Lifecycle) (a : Actor)
    → p.stage ≡ looping
    → p.matter_alive ≡ true
    → (a ≡ handing_over) ⊎ (a ≡ bridge)
    → CanAct p a
handing-CanAct p ingest l m (inl e) = cc
handing-CanAct p ingest l m (inr e) = cc
handing-CanAct p main l m (inl e) = cc
handing-CanAct p main l m (inr e) = cc
handing-CanAct p handing_over l m e = (l, m)
handing-CanAct p bridge l m e = (looping-IsUp p.stage l, m)

module _ (serde : SerdeJson) (matter_epoch_secs : ℕ) where
  -- While the main task waits to send a snapshot, it or the bridge has an internal step.
  unblocks :
      (s : System) (u : PvSnapshot)
      → s.phase ≡ steady
      → s.forwarding ≡ some u
      → (t : System) × (i : Internal serde matter_epoch_secs s t) × ((actor serde matter_epoch_secs
              i
            ≡ handing_over)
          ⊎ (actor serde matter_epoch_secs i ≡ bridge))
  unblocks s u p f = elim (List-cases s.updates) [
    | inl room ↦ (_, forward s u f (rw room (omega arith)), inl refl)
    | inr (newer, updates, more) ↦ elim (Holding-cases s.holding) [
      | inl i ↦ (_, receive s newer updates p i more, inr refl)
      | inr (inl (v, w)) ↦ (_, floor_over s v w, inr refl)
      | inr (inr (v, d)) ↦ (_, drain s v newer updates d more, inr refl)
    ]
  ]

  abbrev pub Next : Lifecycle → Type 0
  Next p = (q : Lifecycle) × Works serde matter_epoch_secs p q

  next_internal :
      (p : Lifecycle) {t : System} (i : Internal serde matter_epoch_secs p.system t)
      → CanAct p (actor serde matter_epoch_secs i)
      → Next p
  next_internal p i c = (_, works p i c)

  sending_next :
      (p : Lifecycle) (u : PvSnapshot)
      → p.stage ≡ looping
      → p.system.phase ≡ steady
      → p.system.forwarding ≡ some u
      → Next p
  sending_next p u l s f = elim (Bool-cases p.matter_alive) [
    | inr dead ↦ (_, updates_closed p u l f dead)
    | inl m ↦
        let (t, i, a) = unblocks p.system u s f in next_internal p i (handing-CanAct p _ l m a)
  ]

  select_next : (p : Lifecycle) → AtSelect p → Next p ⊎ IsCalm p
  select_next p s = elim (Bool-cases p.heard) [
    | inl h ↦ inl (_, shutdown_requested p s h)
    | inr unheard ↦ elim (Bool-cases p.matter_alive) [
      | inr dead ↦ inl (_, matter_gone p s dead)
      | inl m ↦ elim (Bool-cases p.ingest_alive) [
        | inr dead ↦ inl (_, ingest_gone p s dead)
        | inl a ↦ elim (progress {serde = serde} {matter_epoch_secs = matter_epoch_secs} p.system) [
          | inl quiet ↦
              inr (record {
                stage = s.in_loop;
                ingest = a;
                matter = m;
                heard = unheard;
                quiet = quiet;
              })
          | inr (t, i) ↦ inl (next_internal p i (looping-CanAct p _ s.in_loop a m))
        ]
      ]
    ]
  ]

  -- Once told, a state without a work is that of a program that has returned, or is calm: a task that has
  -- ended, a signal that was heard and a loop that was left do not go unnoticed.
  pub next_work : (p : Lifecycle) → IsTold p → Next p ⊎ ((p.stage ≡ returned) ⊎ IsCalm p)
  next_work p told = elim (Stage-cases p.stage) [
    | inr (inl s) ↦ inl (_, tell p s)
    | inr (inr (inl s)) ↦ inl (_, joins p elapsed s tt)
    | inr (inr (inr (inl s))) ↦ elim (Bool-cases p.matter_alive) [
      | inl m ↦ inl (_, matter_stops p (rw s tt) (told.dropping s) m)
      | inr dead ↦ inl (_, drops p s (inl dead))
    ]
    | inr (inr (inr (inr s))) ↦ inr (inl s)
    | inl l ↦ elim (Phase-cases p.system.phase) [
      | inl b ↦ inl (next_internal p (boot p.system b) l)
      | inr s ↦ elim (Option-cases p.system.forwarding) [
        | inr (u, f) ↦ inl (sending_next p u l s f)
        | inl f ↦ elim (select_next p (record { in_loop = l; phase = s; not_sending = f })) [
          | inl n ↦ inl n
          | inr c ↦ inr (inr c)
        ]
      ]
    ]
  ]
