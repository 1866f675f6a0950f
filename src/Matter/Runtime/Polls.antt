-- ===== src/Matter/Runtime/Polls.antt =====
-- src/matter/mod.rs: which of its futures ends the event loops.
use mathlib.Core.Option.{some-injective}
use mathlib.Core.Path.{subst, sym}
use pv_matter.Common.{
  ℕ, ◌<◌, ◌≡◌, ◌↔◌, refl, Bool, true, false, List, [], ◌∷◌, Option, none, some, Result, ◌≤◌, arith,
  ◌∙◌, ◌⊎◌, inl, inr,
}
use pv_matter.Matter.Runtime.{Poll, select, shutdown_ready, poll_all, block_on}

-- The futures of the selects, in the order in which these poll them.
pub data Task : Type 0 where
  transport mdns respond dm_job bridge shutdown : Task

-- What a poll finds of a future.
abbrev pub ready : {E : Type 0} → Poll E → Task → Option (Result (Unit {0}) E)
ready p transport = p.transport
ready p mdns = p.mdns
ready p respond = p.respond
ready p dm_job = p.dm_job
ready p bridge = p.bridge
ready p shutdown = shutdown_ready p.shutdown

abbrev pub rank : Task → ℕ
rank transport = 0
rank mdns = 1
rank respond = 2
rank dm_job = 3
rank bridge = 4
rank shutdown = 5

-- A future whose result the selects return.
pub record Wins {E : Type 0} (p : Poll E) (r : Result (Unit {0}) E) : Type 0 where
  pub task : Task
  pub is_ready : ready p task ≡ some r
  pub others : (u : Task) → rank u < rank task → ready p u ≡ none

-- The first poll that finds a future ready gives the result.
unfoldable pub Finishes : {E : Type 0} → List (Poll E) → Result (Unit {0}) E → Type 0
Finishes [] r = ⊥
Finishes (p ∷ polls) r = Wins p r ⊎ (((t : Task) → ready p t ≡ none) × Finishes polls r)

-- The futures before the `k`th are pending.
below :
    {E : Type 0}
    → (p : Poll E) (k : ℕ) → (p.transport ≡ none) ⊎ (k ≤ 0)
    → (p.mdns ≡ none) ⊎ (k ≤ 1)
    → (p.respond ≡ none) ⊎ (k ≤ 2)
    → (p.dm_job ≡ none) ⊎ (k ≤ 3)
    → (p.bridge ≡ none) ⊎ (k ≤ 4)
    → (shutdown_ready {E = E} p.shutdown ≡ none) ⊎ (k ≤ 5)
    → (u : Task) → rank u < k
    → ready p u ≡ none
below p k a b c d e f transport h = ground arith
below p k a b c d e f mdns h = ground arith
below p k a b c d e f respond h = ground arith
below p k a b c d e f dm_job h = ground arith
below p k a b c d e f bridge h = ground arith
below p k a b c d e f shutdown h = ground arith

rank-lt : (u : Task) → rank u < 6
rank-lt transport = omega arith
rank-lt mdns = omega arith
rank-lt respond = omega arith
rank-lt dm_job = omega arith
rank-lt bridge = omega arith
rank-lt shutdown = omega arith

-- What a poll means, by its result.
abbrev Polled : {E : Type 0} → Poll E → Option (Result (Unit {0}) E) → Type 0
Polled p none = (t : Task) → ready p t ≡ none
Polled p (some r) = Wins p r

abbrev poll : {E : Type 0} → (a b c d e : Option (Result (Unit {0}) E)) → Bool → Poll E
poll a b c d e f = record {
  transport = a;
  mdns = b;
  respond = c;
  dm_job = d;
  bridge = e;
  shutdown = f;
}

poll-Polled :
    {E : Type 0}
    → (a b c d e : Option (Result (Unit {0}) E)) (f : Bool)
    → Polled (poll a b c d e f) (poll_all (poll a b c d e f))
poll-Polled (some r) b c d e f = record {
  task = transport;
  is_ready = refl;
  others =
      below _ 0 (inr (omega arith)) (inr (omega arith)) (inr (omega arith)) (inr (omega arith))
        (inr (omega arith)) (inr (omega arith));
}
poll-Polled none (some r) c d e f = record {
  task = mdns;
  is_ready = refl;
  others =
      below _ 1 (inl refl) (inr (omega arith)) (inr (omega arith)) (inr (omega arith))
        (inr (omega arith)) (inr (omega arith));
}
poll-Polled none none (some r) d e f = record {
  task = respond;
  is_ready = refl;
  others =
      below _ 2 (inl refl) (inl refl) (inr (omega arith)) (inr (omega arith)) (inr (omega arith))
        (inr (omega arith));
}
poll-Polled none none none (some r) e f = record {
  task = dm_job;
  is_ready = refl;
  others =
      below _ 3 (inl refl) (inl refl) (inl refl) (inr (omega arith)) (inr (omega arith))
        (inr (omega arith));
}
poll-Polled none none none none (some r) f = record {
  task = bridge;
  is_ready = refl;
  others =
      below _ 4 (inl refl) (inl refl) (inl refl) (inl refl) (inr (omega arith)) (inr (omega arith));
}
poll-Polled none none none none none true = record {
  task = shutdown;
  is_ready = refl;
  others =
      below (poll none none none none none true) 5 (inl refl) (inl refl) (inl refl) (inl refl)
        (inl refl) (inr (omega arith));
}
poll-Polled none none none none none false = λ t.
    below (poll none none none none none false) 6 (inl refl) (inl refl) (inl refl) (inl refl)
      (inl refl) (inl refl) t (rank-lt t)

poll_all-Polled : {E : Type 0} → (p : Poll E) → Polled p (poll_all p)
poll_all-Polled p = poll-Polled p.transport p.mdns p.respond p.dm_job p.bridge p.shutdown

winner-poll_all :
    {E : Type 0}
    → (p : Poll E) (r : Result (Unit {0}) E) (task : Task) → ready p task ≡ some r
    → ((u : Task) → rank u < rank task → ready p u ≡ none)
    → poll_all p ≡ some r
winner-poll_all p r transport h o = rw h refl
winner-poll_all p r mdns h o = rw (o transport (omega arith), h) refl
winner-poll_all p r respond h o = rw (o transport (omega arith), o mdns (omega arith), h) refl
winner-poll_all p r dm_job h o =
    rw (o transport (omega arith), o mdns (omega arith), o respond (omega arith), h) refl
winner-poll_all p r bridge h o =
    rw
      (
        o transport (omega arith),
        o mdns (omega arith),
        o respond (omega arith),
        o dm_job (omega arith),
        h,
      )
      refl
winner-poll_all p r shutdown h o =
    rw
      (
        o transport (omega arith),
        o mdns (omega arith),
        o respond (omega arith),
        o dm_job (omega arith),
        o bridge (omega arith),
        h,
      )
      refl

idle_poll : {E : Type 0} → (p : Poll E) → ((t : Task) → ready p t ≡ none) → poll_all p ≡ none
idle_poll p h = rw (h transport, h mdns, h respond, h dm_job, h bridge, h shutdown) refl

select-Finishes :
    {E : Type 0}
    → (p : Poll E) (polls : List (Poll E)) (r : Result (Unit {0}) E)
      (o : Option (Result (Unit {0}) E))
    → poll_all p ≡ o
    → Polled p o
    → (block_on polls ≡ some r) ↔ Finishes polls r
    → (select o (block_on polls) ≡ some r) ↔ Finishes (p ∷ polls) r
unfolding Finishes
select-Finishes p polls r none h pend ih = (
  λ q. inr (pend, ih.0 q),
  λ f. elim f [
    | inl w ↦ absurd (let q = winner-poll_all p r w.task w.is_ready w.others in cc)
    | inr (_, g) ↦ ih.1 g
  ],
)
select-Finishes p polls r (some x) h w ih = (
  λ q. inl (subst (Wins p) (some-injective x r q) w),
  λ f. elim f [
    | inl v ↦ sym h ∙ winner-poll_all p r v.task v.is_ready v.others
    | inr (pend, _) ↦ absurd (let q = idle_poll p pend in cc)
  ],
)

pub block_on-Finishes :
    {E : Type 0}
    → (polls : List (Poll E)) (r : Result (Unit {0}) E)
    → (block_on polls ≡ some r) ↔ Finishes polls r
unfolding block_on Finishes
block_on-Finishes [] r = (λ h. absurd (cc), λ f. absurd f)
block_on-Finishes (p ∷ polls) r =
    select-Finishes p polls r (poll_all p) refl (poll_all-Polled p) (block_on-Finishes polls r)
