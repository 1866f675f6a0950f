-- ===== src/Matter/Runtime.antt =====
-- src/matter/mod.rs: `run`, from the stored fabrics to the end of the event loops. What the calls of rs-matter
-- and of the socket return, and what the polls of its futures give, are parameters.
pub mod Polls
pub mod Outcome
use pv_matter.Common.{
  ℕ, ◌<◌, ◌≡◌, ◌↔◌, refl, Bool, true, false, ◌||◌, List, [], ◌∷◌, ◌++◌, Option, none, some, Result,
  ok, err, All, ap, ◌≤◌, arith, ◌∙◌, ◌⊎◌, inl, inr,
}

-- The calls of `run` that may fail, in its order.
pub data Call : Type 0 where
  load_persist rand im_load_persist bind : Call
  print_qr_text print_qr_code open_window : Call

-- What one poll of all futures finds ready; the shutdown future has no error.
pub record Poll (E : Type 0) : Type 0 where
  pub transport : Option (Result (Unit {0}) E)
  pub mdns : Option (Result (Unit {0}) E)
  pub respond : Option (Result (Unit {0}) E)
  pub dm_job : Option (Result (Unit {0}) E)
  pub bridge : Option (Result (Unit {0}) E)
  pub shutdown : Bool

-- The calls that were made, and what `run` returned, if it did.
pub record Ran (E : Type 0) : Type 0 where
  pub calls : List Call
  pub result : Option (Result (Unit {0}) E)

-- `select(a, b).coalesce()`
abbrev pub select :
    {E : Type 0}
    → Option (Result (Unit {0}) E)
    → Option (Result (Unit {0}) E)
    → Option (Result (Unit {0}) E)
select (some r) b = some r
select none b = b

abbrev pub shutdown_ready : {E : Type 0} → Bool → Option (Result (Unit {0}) E)
shutdown_ready true = some (ok tt)
shutdown_ready false = none

abbrev pub poll_all : {E : Type 0} → Poll E → Option (Result (Unit {0}) E)
poll_all p =
    let inner = select p.transport (select p.mdns (select p.respond p.dm_job)) in
    let core = select inner p.bridge in select core (shutdown_ready p.shutdown)

-- `block_on` over the polls of a run.
unfoldable pub block_on : {E : Type 0} → List (Poll E) → Option (Result (Unit {0}) E)
block_on [] = none
block_on (p ∷ polls) = select (poll_all p) (block_on polls)

-- A call followed by `?` and the rest of `run`.
abbrev pub attempt : {E : Type 0} → Call → Result (Unit {0}) E → Ran E → Ran E
attempt c (ok t) rest = record { calls = c ∷ rest.calls; result = rest.result }
attempt c (err e) rest = record { calls = c ∷ []; result = some (err e) }

-- The pairing code and the commissioning window of a device that no fabric knows.
abbrev pub pairing : {E : Type 0} → (Call → Result (Unit {0}) E) → Bool → Ran E → Ran E
pairing does true rest = rest
pairing does false rest =
    attempt print_qr_text (does print_qr_text)
      (attempt print_qr_code (does print_qr_code) (attempt open_window (does open_window) rest))

-- `run`: `does` says what each call returns, `commissioned` whether the loaded fabrics have one.
unfoldable pub run : {E : Type 0} → (Call → Result (Unit {0}) E) → Bool → List (Poll E) → Ran E
unfolding block_on
run does commissioned polls = attempt load_persist (does load_persist) (
    attempt rand (does rand) (
      attempt im_load_persist (does im_load_persist) (
        attempt bind (does bind)
          (pairing does commissioned (record { calls = []; result = block_on polls })))))
