-- ===== src/System/Onward.antt =====
-- How what the attribute handlers read moves through the messages that the main task took.
use mathlib.Core.Path.{ap, sym, subst}
use pv_matter.Common.{◌≡◌, ◌∙◌, refl, List, [], ◌∷◌, ◌++◌, append_assoc, append-nil}
use pv_matter.Domain.{DomainMsg, State, default_state, apply, apply_all}
use pv_matter.Domain.History.{apply_all-append}
use pv_matter.Domain.Snapshot.{PvSnapshot}
use pv_matter.System.Shown.{pending}
use pv_matter.System.{System}

-- The snapshots behind each of some messages.
abbrev pub trail : State → List DomainMsg → List PvSnapshot
trail s [] = []
trail s (m ∷ msgs) = (apply s m).snapshot ∷ trail (apply s m) msgs

trail-snoc :
    (s : State) (msgs : List DomainMsg) (m : DomainMsg)
    → trail s (msgs ++ m ∷ []) ≡ trail s msgs ++ (apply (apply_all s msgs) m).snapshot ∷ []
unfolding apply_all
trail-snoc s [] m = refl
trail-snoc s (n ∷ msgs) m = ap (λ us. (apply s n).snapshot ∷ us) (trail-snoc (apply s n) msgs m)

-- A trail that begins with a snapshot.
record Begins (s : State) (msgs : List DomainMsg) (u : PvSnapshot) (us : List PvSnapshot)
    : Type 0 where
  message : DomainMsg
  others : List DomainMsg
  split : msgs ≡ message ∷ others
  snapshot : u ≡ (apply s message).snapshot
  later : us ≡ trail (apply s message) others

begins :
    (s : State) (msgs : List DomainMsg) (u : PvSnapshot) (us : List PvSnapshot)
    → u ∷ us ≡ trail s msgs
    → Begins s msgs u us
begins s [] u us h = absurd cc
begins s (m ∷ msgs) u us h = record {
  message = m;
  others = msgs;
  split = refl;
  snapshot = cc;
  later = cc;
}

-- The handlers read the fold of the messages `before`; the snapshots of those that follow were passed over, and
-- the snapshots of the rest are on their way.
pub record ReadsAt (before : List DomainMsg) (s : System) : Type 0 where
  pub passed : List DomainMsg
  pub rest : List DomainMsg
  pub split : s.taken ≡ before ++ (passed ++ rest)
  pub shared : s.bridge.shared ≡ (apply_all default_state before).snapshot
  pub on_way : pending s ≡ trail (apply_all default_state (before ++ passed)) rest

-- All that a step changes but the place in the messages.
pub same-ReadsAt :
    {before : List DomainMsg} (s t : System)
    → t.taken ≡ s.taken
    → t.bridge.shared ≡ s.bridge.shared
    → pending t ≡ pending s
    → ReadsAt before s
    → ReadsAt before t
same-ReadsAt s t taken shared on_way r = record {
  passed = r.passed;
  rest = r.rest;
  split = taken ∙ r.split;
  shared = shared ∙ r.shared;
  on_way = on_way ∙ r.on_way;
}

-- The first snapshot on the way is passed over.
pub pass-ReadsAt :
    {before : List DomainMsg} (s t : System) (u : PvSnapshot)
    → t.taken ≡ s.taken
    → t.bridge.shared ≡ s.bridge.shared
    → pending s ≡ u ∷ pending t
    → ReadsAt before s
    → ReadsAt before t
unfolding apply_all
pass-ReadsAt {before} s t u taken shared on_way r =
    let b =
      begins (apply_all default_state (before ++ r.passed)) r.rest u (pending t)
        (sym on_way ∙ r.on_way) in
    record {
      passed = r.passed ++ b.message ∷ [];
      rest = b.others;
      split =
          taken
          ∙ r.split
          ∙ ap (λ ms. before ++ ms)
              (ap (λ ms. r.passed ++ ms) b.split
                ∙ sym (append_assoc r.passed (b.message ∷ []) b.others));
      shared = shared ∙ r.shared;
      on_way =
          b.later
          ∙ ap (λ st. trail st b.others)
              (sym (apply_all-append default_state (before ++ r.passed) (b.message ∷ []))
                ∙ ap (apply_all default_state) (append_assoc before r.passed (b.message ∷ [])));
    }

-- The handlers read the fold of as many messages or more.
pub record MovesOn (before : List DomainMsg) (t : System) : Type 0 where
  pub later : List DomainMsg
  pub reads : ReadsAt (before ++ later) t

pub stays : {before : List DomainMsg} (t : System) → ReadsAt before t → MovesOn before t
stays {before} t r = record {
  later = [];
  reads = subst (λ ms. ReadsAt ms t) (sym (append-nil before)) r;
}

-- The bootstrap takes a message.
pub boot_take-ReadsAt :
    {before : List DomainMsg} (s t : System) (m : DomainMsg)
    → t.taken ≡ s.taken ++ m ∷ []
    → t.bridge.shared ≡ s.bridge.shared
    → pending t ≡ []
    → ReadsAt before s
    → ReadsAt before t
boot_take-ReadsAt {before} s t m taken shared on_way r = record {
  passed = r.passed ++ (r.rest ++ m ∷ []);
  rest = [];
  split =
      taken
      ∙ ap (λ ms. ms ++ m ∷ []) r.split
      ∙ append_assoc before (r.passed ++ r.rest) (m ∷ [])
      ∙ ap (λ ms. before ++ ms)
          (append_assoc r.passed r.rest (m ∷ [])
            ∙ sym (append-nil (r.passed ++ (r.rest ++ m ∷ []))));
  shared = shared ∙ r.shared;
  on_way = on_way;
}

-- The bridge starts with the state of the main task.
pub boot-MovesOn :
    {before : List DomainMsg} (s t : System)
    → t.taken ≡ s.taken
    → t.bridge.shared ≡ (apply_all default_state s.taken).snapshot
    → pending t ≡ []
    → ReadsAt before s
    → MovesOn before t
boot-MovesOn {before} s t taken shared on_way r = record {
  later = r.passed ++ r.rest;
  reads = record {
    passed = [];
    rest = [];
    split = taken ∙ r.split ∙ sym (append-nil (before ++ (r.passed ++ r.rest)));
    shared = shared ∙ ap (λ ms. (apply_all default_state ms).snapshot) r.split;
    on_way = on_way;
  };
}

-- The steady loop takes a message.
pub take-ReadsAt :
    {before : List DomainMsg} (s t : System) (m : DomainMsg)
    → s.state ≡ apply_all default_state s.taken
    → t.taken ≡ s.taken ++ m ∷ []
    → t.bridge.shared ≡ s.bridge.shared
    → pending t ≡ pending s ++ (apply s.state m).snapshot ∷ []
    → ReadsAt before s
    → ReadsAt before t
take-ReadsAt {before} s t m folded taken shared on_way r =
    let at = apply_all default_state (before ++ r.passed) in
    let all : s.state ≡ apply_all at r.rest =
      folded
      ∙ ap (apply_all default_state) (r.split ∙ sym (append_assoc before r.passed r.rest))
      ∙ apply_all-append default_state (before ++ r.passed) r.rest in
    record {
      passed = r.passed;
      rest = r.rest ++ m ∷ [];
      split =
          taken
          ∙ ap (λ ms. ms ++ m ∷ []) r.split
          ∙ append_assoc before (r.passed ++ r.rest) (m ∷ [])
          ∙ ap (λ ms. before ++ ms) (append_assoc r.passed r.rest (m ∷ []));
      shared = shared ∙ r.shared;
      on_way =
          on_way
          ∙ ap (λ us. us ++ (apply s.state m).snapshot ∷ []) r.on_way
          ∙ ap (λ st. trail at r.rest ++ (apply st m).snapshot ∷ []) all
          ∙ sym (trail-snoc at r.rest m);
    }

-- The bridge settles the first snapshot on the way.
pub report-MovesOn :
    {before : List DomainMsg} (s t : System) (u : PvSnapshot)
    → t.taken ≡ s.taken
    → t.bridge.shared ≡ u
    → pending s ≡ u ∷ pending t
    → ReadsAt before s
    → MovesOn before t
unfolding apply_all
report-MovesOn {before} s t u taken shared on_way r =
    let st = apply_all default_state (before ++ r.passed) in
    let b = begins st r.rest u (pending t) (sym on_way ∙ r.on_way) in
    let later = r.passed ++ b.message ∷ [] in
    let here : apply st b.message ≡ apply_all default_state (before ++ later) =
      sym (apply_all-append default_state (before ++ r.passed) (b.message ∷ []))
      ∙ ap (apply_all default_state) (append_assoc before r.passed (b.message ∷ [])) in
    record {
      later = later;
      reads = record {
        passed = [];
        rest = b.others;
        split =
            taken
            ∙ r.split
            ∙ ap (λ ms. before ++ (r.passed ++ ms)) b.split
            ∙ ap (λ ms. before ++ ms) (sym (append_assoc r.passed (b.message ∷ []) b.others))
            ∙ sym (append_assoc before later b.others);
        shared = shared ∙ b.snapshot ∙ ap (λ (q : State). q.snapshot) here;
        on_way =
            b.later
            ∙ ap (λ q. trail q b.others)
                (here ∙ ap (apply_all default_state) (sym (append-nil (before ++ later))));
      };
    }
