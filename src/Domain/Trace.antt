-- ===== src/Domain/Trace.antt =====
-- A quotient of the lists of messages of src/domain.rs: by the moves of an identity before a pack or a
-- status, and by the replacement of an identity by the next.
use mathlib.Core.Path.{ap₂}
use mathlib.Core.Quot
use mathlib.Core.Quot.{Quot, Quot-set}
use pv_matter.Common.{List, [], ◌∷◌, ◌++◌, Option, none, some, ◌≡◌, ◌∙◌, ◌↔◌, refl, sym, ap}
use pv_matter.Domain.Info.{InverterInfo}
use pv_matter.Domain.{DomainMsg, info, pack, status, State, apply, apply_all}
use pv_matter.Domain.Order.{measurements, apply_pack_info, apply_status_info}
use pv_matter.Domain.History.{apply_all-append}

abbrev pub IsMeasurement : DomainMsg → Type 0
IsMeasurement (info i) = ⊥
IsMeasurement (pack p) = Unit
IsMeasurement (status l) = Unit

pub data Alike : List DomainMsg → List DomainMsg → Type 0 where
  earlier :
      (before : List DomainMsg) (m : DomainMsg) (i : InverterInfo) (after : List DomainMsg)
      → IsMeasurement m
      → Alike (before ++ m ∷ info i ∷ after) (before ++ info i ∷ m ∷ after)
  replaced :
      (before : List DomainMsg) (i j : InverterInfo) (after : List DomainMsg)
      → Alike (before ++ info i ∷ info j ∷ after) (before ++ info j ∷ after)

abbrev pub Trace : Type 0
Trace = Quot Alike

abbrev pub trace_of : List DomainMsg → Trace
trace_of msgs = Quot.mk msgs

State-IsSet : IsSet State
State-IsSet = hlevel

-- The last identity that came.
abbrev pub last_info : Option InverterInfo → List DomainMsg → Option InverterInfo
last_info last [] = last
last_info last (info i ∷ msgs) = last_info (some i) msgs
last_info last (pack p ∷ msgs) = last_info last msgs
last_info last (status l ∷ msgs) = last_info last msgs

Seen-IsSet : IsSet (Option InverterInfo × List DomainMsg)
Seen-IsSet = hlevel

apply_measurement_info :
    (s : State) (m : DomainMsg) (i : InverterInfo)
    → IsMeasurement m
    → apply (apply s m) (info i) ≡ apply (apply s (info i)) m
apply_measurement_info s (info j) i h = absurd h
apply_measurement_info s (pack p) i h = apply_pack_info s p i
apply_measurement_info s (status l) i h = apply_status_info s l i

apply_all-Alike :
    (s : State) {left right : List DomainMsg}
    → Alike left right
    → apply_all s left ≡ apply_all s right
unfolding apply_all apply
apply_all-Alike s (earlier before m i after h) =
    apply_all-append s before (m ∷ info i ∷ after)
    ∙ ap (λ t. apply_all t after) (apply_measurement_info (apply_all s before) m i h)
    ∙ sym (apply_all-append s before (info i ∷ m ∷ after))
apply_all-Alike s (replaced before i j after) =
    apply_all-append s before (info i ∷ info j ∷ after)
    ∙ sym (apply_all-append s before (info j ∷ after))

-- The state of a trace, from a first state on.
state_of : State → Trace → State
state_of s = Quot.lift State-IsSet (apply_all s) (λ left right h. apply_all-Alike s h)

-- What a trace still tells of its messages.
abbrev seen : List DomainMsg → Option InverterInfo × List DomainMsg
seen msgs = (last_info none msgs, measurements msgs)

last_info-Alike :
    (o : Option InverterInfo) {left right : List DomainMsg}
    → Alike left right
    → last_info o left ≡ last_info o right
last_info-Alike o (earlier before m i after h) = moved o before m h
  where
    moved :
        (o : Option InverterInfo) (before : List DomainMsg) (m : DomainMsg)
        → IsMeasurement m
        → last_info o (before ++ m ∷ info i ∷ after) ≡ last_info o (before ++ info i ∷ m ∷ after)
    moved o [] (info j) h = absurd h
    moved o [] (pack p) h = refl
    moved o [] (status l) h = refl
    moved o (info j ∷ before) m h = moved (some j) before m h
    moved o (pack p ∷ before) m h = moved o before m h
    moved o (status l ∷ before) m h = moved o before m h
last_info-Alike o (replaced before i j after) = again o before
  where
    again :
        (o : Option InverterInfo) (before : List DomainMsg)
        → last_info o (before ++ info i ∷ info j ∷ after) ≡ last_info o (before ++ info j ∷ after)
    again o [] = refl
    again o (info k ∷ before) = again (some k) before
    again o (pack p ∷ before) = again o before
    again o (status l ∷ before) = again o before

measurements-append :
    (before after : List DomainMsg)
    → measurements (before ++ after) ≡ measurements before ++ measurements after
measurements-append [] after = refl
measurements-append (info i ∷ before) after = measurements-append before after
measurements-append (pack p ∷ before) after =
    ap (λ ms. pack p ∷ ms) (measurements-append before after)
measurements-append (status l ∷ before) after =
    ap (λ ms. status l ∷ ms) (measurements-append before after)

measurements_swap :
    (m : DomainMsg) (i : InverterInfo) (after : List DomainMsg)
    → measurements (m ∷ info i ∷ after) ≡ measurements (info i ∷ m ∷ after)
measurements_swap (info j) i after = refl
measurements_swap (pack p) i after = refl
measurements_swap (status l) i after = refl

measurements-Alike :
    {left right : List DomainMsg} → Alike left right → measurements left ≡ measurements right
measurements-Alike (earlier before m i after h) =
    measurements-append before _
    ∙ ap (λ ms. measurements before ++ ms) (measurements_swap m i after)
    ∙ sym (measurements-append before _)
measurements-Alike (replaced before i j after) =
    measurements-append before _ ∙ sym (measurements-append before _)

seen_of : Trace → Option InverterInfo × List DomainMsg
seen_of =
    Quot.lift Seen-IsSet seen
      (λ left right h. ap₂ (λ o ms. (o, ms)) (last_info-Alike none h) (measurements-Alike h))

-- One message in front of a trace.
first_then : DomainMsg → Trace → Trace
first_then m =
    Quot.lift Quot-set (λ msgs. Quot.mk (m ∷ msgs)) (λ left right h. Quot.sound (ahead m h))
  where
    ahead :
        (m : DomainMsg) {left right : List DomainMsg}
        → Alike left right
        → Alike (m ∷ left) (m ∷ right)
    ahead m (earlier before n i after h) = earlier (m ∷ before) n i after h
    ahead m (replaced before i j after) = replaced (m ∷ before) i j after

abbrev info_first : Option InverterInfo → List DomainMsg → List DomainMsg
info_first none msgs = msgs
info_first (some i) msgs = info i ∷ msgs

passes :
    (o : Option InverterInfo) (m : DomainMsg) (msgs : List DomainMsg)
    → IsMeasurement m
    → trace_of (m ∷ info_first o msgs) ≡ trace_of (info_first o (m ∷ msgs))
passes none m msgs h = refl
passes (some i) m msgs h = Quot.sound (earlier [] m i msgs h)

supersedes :
    (o : Option InverterInfo) (i : InverterInfo) (msgs : List DomainMsg)
    → trace_of (info_first o (info i ∷ msgs)) ≡ trace_of (info i ∷ msgs)
supersedes none i msgs = refl
supersedes (some j) i msgs = Quot.sound (replaced [] j i msgs)

-- A trace is the last identity before all packs and statuses.
trace_of-normal :
    (o : Option InverterInfo) (msgs : List DomainMsg)
    → trace_of (info_first o msgs) ≡ trace_of (info_first (last_info o msgs) (measurements msgs))
unfolding first_then
trace_of-normal o [] = refl
trace_of-normal o (info i ∷ msgs) = supersedes o i msgs ∙ trace_of-normal (some i) msgs
trace_of-normal o (pack p ∷ msgs) =
    sym (passes o (pack p) msgs tt)
    ∙ ap (first_then (pack p)) (trace_of-normal o msgs)
    ∙ passes (last_info o msgs) (pack p) (measurements msgs) tt
trace_of-normal o (status l ∷ msgs) =
    sym (passes o (status l) msgs tt)
    ∙ ap (first_then (status l)) (trace_of-normal o msgs)
    ∙ passes (last_info o msgs) (status l) (measurements msgs) tt

-- Two lists of messages are the same trace exactly if their last identities are the same, and so are their
-- packs and statuses in their order; and then they lead to the same state from every first state.
pub trace_of-eq_iff :
    (s : State) (left right : List DomainMsg)
    → ((trace_of left ≡ trace_of right)
        ↔ ((last_info none left ≡ last_info none right) × (measurements left ≡ measurements right)))
      × (trace_of left ≡ trace_of right → apply_all s left ≡ apply_all s right)
unfolding state_of seen_of
trace_of-eq_iff s left right = (
  (
    λ e. (ap (λ t. (seen_of t).0) e, ap (λ t. (seen_of t).1) e),
    λ (i, m).
        trace_of-normal none left
        ∙ ap₂ (λ o ms. trace_of (info_first o ms)) i m
        ∙ sym (trace_of-normal none right),
  ),
  λ e. ap (state_of s) e,
)
