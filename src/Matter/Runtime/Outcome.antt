-- ===== src/Matter/Runtime/Outcome.antt =====
-- src/matter/mod.rs: how `run` ends, and when the commissioning window is opened.
use pv_matter.Common.{
  ◌≡◌, ◌↔◌, ◌||◌, ◌&&◌, ◌∙◌, sym, arith, refl, Bool, true, false, List, [], ◌∷◌, some, Result, ok,
  err, All,
}
use pv_matter.Matter.Runtime.{
  Call, load_persist, rand, im_load_persist, bind, print_qr_text, print_qr_code, open_window, Poll,
  Ran, block_on, attempt, run,
}
use pv_matter.Matter.Runtime.Polls.{Finishes, block_on-Finishes}

-- The calls that a run needs.
unfoldable pub needed : Bool → List Call
needed true = load_persist ∷ rand ∷ im_load_persist ∷ bind ∷ []
needed false =
    load_persist ∷ rand ∷ im_load_persist ∷ bind ∷ print_qr_text ∷ print_qr_code ∷ open_window ∷ []

abbrev pub Succeed : {E : Type 0} → (Call → Result (Unit {0}) E) → List Call → Type 0
Succeed does calls = All (λ c. does c ≡ ok tt) calls

attempt-eq-ok :
    {E : Type 0}
    → (c : Call) (r : Result (Unit {0}) E) (rest : Ran E)
    → ((attempt c r rest).result ≡ some (ok tt)) ↔ ((r ≡ ok tt) × (rest.result ≡ some (ok tt)))
attempt-eq-ok c (ok t) rest = (λ h. (refl, h), λ h. h.1)
attempt-eq-ok c (err e) rest = (λ h. absurd (cc), λ h. absurd (cc))

-- Calls in their order, each needed for the next.
abbrev chain : {E : Type 0} → (Call → Result (Unit {0}) E) → List Call → Ran E → Ran E
chain does [] rest = rest
chain does (c ∷ calls) rest = attempt c (does c) (chain does calls rest)

chain-eq-ok :
    {E : Type 0}
    → (does : Call → Result (Unit {0}) E) (calls : List Call) (rest : Ran E)
    → ((chain does calls rest).result ≡ some (ok tt))
      ↔ (Succeed does calls × (rest.result ≡ some (ok tt)))
chain-eq-ok does [] rest = (λ h. (tt, h), λ h. h.1)
chain-eq-ok does (c ∷ calls) rest =
    let first = attempt-eq-ok c (does c) (chain does calls rest) in
    let others = chain-eq-ok does calls rest in
    (
      λ h. (((first.0 h).0, (others.0 (first.0 h).1).0), (others.0 (first.0 h).1).1),
      λ h. first.1 (h.0.0, others.1 (h.0.1, h.1)),
    )

run-chain :
    {E : Type 0}
    → (does : Call → Result (Unit {0}) E) (commissioned : Bool) (polls : List (Poll E))
    → run does commissioned polls
      ≡ chain does (needed commissioned) (record { calls = []; result = block_on polls })
unfolding run needed
run-chain does true polls = refl
run-chain does false polls = refl

-- `run` returns without an error exactly if every call that the device needs succeeds, those for pairing
-- included on one without a fabric, and then the first future to be ready, in the order of the selects, has
-- no error.
pub run-eq-ok_iff :
    {E : Type 0}
    → (does : Call → Result (Unit {0}) E) (commissioned : Bool) (polls : List (Poll E))
    → ((run does commissioned polls).result ≡ some (ok tt))
      ↔ (Succeed does (needed commissioned) × Finishes polls (ok tt))
run-eq-ok_iff does commissioned polls =
    let setup =
      chain-eq-ok does (needed commissioned) (record { calls = []; result = block_on polls }) in
    let end = block_on-Finishes polls (ok tt) in
    rw (run-chain does commissioned polls)
      (λ h. ((setup.0 h).0, end.0 (setup.0 h).1), λ h. setup.1 (h.0, end.1 h.1))

abbrev is_ok : {E : Type 0} → Result (Unit {0}) E → Bool
is_ok (ok t) = true
is_ok (err e) = false

abbrev is_open_window : Call → Bool
is_open_window open_window = true
is_open_window _ = false

-- Whether the window was opened: the call was made, and it succeeded.
abbrev pub opens : {E : Type 0} → (Call → Result (Unit {0}) E) → List Call → Bool
opens does [] = false
opens does (c ∷ calls) = (is_open_window c && is_ok (does c)) || opens does calls

attempt-opens :
    {E : Type 0}
    → (does : Call → Result (Unit {0}) E) (c : Call) (r : Result (Unit {0}) E) (rest : Ran E)
    → is_open_window c ≡ false
    → (opens does (attempt c r rest).calls ≡ true) ↔ ((r ≡ ok tt) × (opens does rest.calls ≡ true))
attempt-opens does c (ok t) rest h = rw h (λ q. (refl, q), λ q. q.1)
attempt-opens does c (err e) rest h = rw h (λ q. absurd (cc), λ q. absurd (cc))

chain-opens :
    {E : Type 0}
    → (does : Call → Result (Unit {0}) E) (calls : List Call) (rest : Ran E)
    → All (λ c. is_open_window c ≡ false) calls
    → (opens does (chain does calls rest).calls ≡ true)
      ↔ (Succeed does calls × (opens does rest.calls ≡ true))
chain-opens does [] rest h = (λ q. (tt, q), λ q. q.1)
chain-opens does (c ∷ calls) rest h =
    let first = attempt-opens does c (does c) (chain does calls rest) h.0 in
    let others = chain-opens does calls rest h.1 in
    (
      λ q. (((first.0 q).0, (others.0 (first.0 q).1).0), (others.0 (first.0 q).1).1),
      λ q. first.1 (q.0.0, others.1 (q.0.1, q.1)),
    )

is_ok_iff : {E : Type 0} → (r : Result (Unit {0}) E) → (is_ok r ≡ true) ↔ (r ≡ ok tt)
is_ok_iff (ok t) = (λ h. refl, λ h. refl)
is_ok_iff (err e) = (λ h. absurd (cc), λ h. absurd (cc))

attempt_window :
    {E : Type 0}
    → (does : Call → Result (Unit {0}) E) (r : Result (Unit {0}) E) (polls : List (Poll E))
    → opens does (attempt open_window r (record { calls = []; result = block_on polls })).calls
      ≡ is_ok (does open_window)
attempt_window does (ok t) polls = ground arith
attempt_window does (err e) polls = ground arith

-- The commissioning window is opened exactly on a device without a fabric, after the storage, the random
-- generator, the socket and the printing of the pairing code are all in order, if the call that opens it
-- succeeds.
pub run-opens_iff :
    {E : Type 0}
    → (does : Call → Result (Unit {0}) E) (commissioned : Bool) (polls : List (Poll E))
    → (opens does (run does commissioned polls).calls ≡ true) ↔ (
        (commissioned ≡ false)
        × Succeed does
            (load_persist ∷ rand ∷ im_load_persist ∷ bind ∷ print_qr_text ∷ print_qr_code ∷ [])
        × (does open_window ≡ ok tt))
unfolding run
run-opens_iff does true polls =
    let setup =
      chain-opens does (load_persist ∷ rand ∷ im_load_persist ∷ bind ∷ [])
        (record { calls = []; result = block_on polls }) (refl, (refl, (refl, (refl, tt)))) in
    (λ q. absurd (let r = (setup.0 q).1 in cc), λ q. absurd (cc))
run-opens_iff does false polls =
    let last : Ran _ = record { calls = []; result = block_on polls } in
    let window = attempt_window does (does open_window) polls in
    let setup =
      chain-opens does
        (load_persist ∷ rand ∷ im_load_persist ∷ bind ∷ print_qr_text ∷ print_qr_code ∷ [])
        (attempt open_window (does open_window) last)
        (refl, (refl, (refl, (refl, (refl, (refl, tt)))))) in
    (
      λ q. (refl, (setup.0 q).0, (is_ok_iff (does open_window)).0 (sym window ∙ (setup.0 q).1)),
      λ q. setup.1 (q.1, window ∙ (is_ok_iff (does open_window)).1 q.2),
    )
