-- ===== src/Ingest/Lock.antt =====
-- The device lock of the router, over any run of topics and payloads.
use mathlib.Core.Option.{some-injective}
use pv_matter.Common.{
  ℕ, ◌+◌, ◌≤◌, ◌≡◌, refl, ◌⊎◌, inl, inr, true, false, List, [], ◌∷◌, ◌++◌, Option, none, some,
  arith, All, All-append, sym, ◌∙◌, Option-cases, Bool-cases, if◌then◌else◌,
}
use pv_matter.Text.{Text}
use pv_matter.Serde.{SerdeJson}
use pv_matter.Domain.{DomainMsg}
use pv_matter.Ingest.{Router, new_router, address, route}
use pv_matter.Ingest.Address.{IsTopic}
use pv_matter.Ingest.Origin.{route_sound, route_keeps_lock}

-- The topics and payloads of a run.
abbrev pub Publishes : Type 0
Publishes = List (Text × List ℕ)

abbrev pub with_topic : Text → Option DomainMsg → List (Text × DomainMsg)
with_topic topic none = []
with_topic topic (some m) = (topic, m) ∷ []

abbrev pub IsTopicOf : Text → Text → Text × DomainMsg → Type 0
IsTopicOf prefix device (topic, m) = (leaf : Text) × IsTopic prefix topic device leaf

module _ (serde : SerdeJson) where
  prefix-route :
      (r : Router) (topic : Text) (payload : List ℕ)
      → (route serde r topic payload).router.prefix ≡ r.prefix
  unfolding route
  prefix-route r topic payload = ground arith

  -- The routed messages of a run with the topics that they came from.
  unfoldable pub routed_messages : Router → Publishes → List (Text × DomainMsg)
  routed_messages r [] = []
  routed_messages r ((topic, payload) ∷ publishes) =
      with_topic topic (route serde r topic payload).message
      ++ routed_messages (route serde r topic payload).router publishes

  pub warnings : Router → Publishes → ℕ
  warnings r [] = 0
  warnings r ((topic, payload) ∷ publishes) =
      (if (route serde r topic payload).warns then 1 else 0)
      + warnings (route serde r topic payload).router publishes

  All-with_topic :
      {prefix device : Text} (topic : Text) (o : Option DomainMsg)
      → ((m : DomainMsg) → o ≡ some m → (leaf : Text) × IsTopic prefix topic device leaf)
      → All (IsTopicOf prefix device) (with_topic topic o)
  All-with_topic topic none h = tt
  All-with_topic topic (some m) h = (h m refl, tt)

  -- A message of a router that is locked afterwards is from a topic of that device.
  message-IsTopicOf :
      (r : Router) (topic : Text) (payload : List ℕ) {device : Text}
      → (route serde r topic payload).router.device_id ≡ some device
      → All (IsTopicOf r.prefix device) (with_topic topic (route serde r topic payload).message)
  message-IsTopicOf r topic payload {device} h = All-with_topic topic _ λ m e.
      let f = route_sound serde r topic payload e in
      let same : f.device ≡ device = some-injective _ _ (sym f.locked ∙ h) in
      (f.leaf, rw same at f.addressed)

  held-routed_messages :
      (r : Router) (publishes : Publishes) {device : Text}
      → r.device_id ≡ some device
      → All (IsTopicOf r.prefix device) (routed_messages r publishes)
  unfolding routed_messages
  held-routed_messages r [] h = tt
  held-routed_messages r ((topic, payload) ∷ publishes) {device} h =
      let (held, same) = route_keeps_lock serde r topic payload h in
      All-append _ (with_topic topic _) _ (message-IsTopicOf r topic payload held)
        (rw same at (held-routed_messages (route serde r topic payload).router publishes held))

  -- A router with no lock takes one with the first topic that is addressed to a device.
  route_free :
      (r : Router) (topic : Text) (payload : List ℕ)
      → r.device_id ≡ none
      → ((route serde r topic payload).message ≡ none)
          × ((route serde r topic payload).router.device_id ≡ none)
        ⊎ ((device : Text) × ((route serde r topic payload).router.device_id ≡ some device))
  unfolding route
  route_free r topic payload h = elim (Option-cases (address r.prefix topic)) [
    | inl e ↦ inl (ground arith, ground arith)
    | inr ((device, leaf), e) ↦ inr (device, ground arith)
  ]

  free-routed_messages :
      (r : Router) (publishes : Publishes)
      → r.device_id ≡ none
      → (device : Text) × All (IsTopicOf r.prefix device) (routed_messages r publishes)
  unfolding routed_messages
  free-routed_messages r [] h = ([], tt)
  free-routed_messages r ((topic, payload) ∷ publishes) h =
      let r' = (route serde r topic payload).router in
      elim (route_free r topic payload h) [
        | inl (silent, free) ↦
            let (device, all) = free-routed_messages r' publishes free in
            (device, rw silent (rw (prefix-route r topic payload) at all))
        | inr (device, held) ↦ (
          device,
          All-append _ (with_topic topic _) _ (message-IsTopicOf r topic payload held)
              (rw (prefix-route r topic payload) at (held-routed_messages r' publishes held)),
        )
      ]

  -- The messages of a run come from topics of one device, which is the pinned one if there is one.
  abbrev pub IsFromOneDevice : Text → Option Text → Publishes → Type 0
  IsFromOneDevice prefix pinned publishes =
      (device : Text) × ((pinned ≡ none) ⊎ (pinned ≡ some device))
      × All (IsTopicOf prefix device) (routed_messages (new_router prefix pinned) publishes)

  -- Whatever arrives, all messages that a new router routes come from well-formed topics of one device,
  -- which is the pinned one if there is one.
  pub one_device :
      (prefix : Text) (pinned : Option Text) (publishes : Publishes)
      → IsFromOneDevice prefix pinned publishes
  unfolding new_router
  one_device prefix none publishes =
      let (device, all) = free-routed_messages _ publishes refl in (device, inl refl, all)
  one_device prefix (some device) publishes =
      (device, inr refl, held-routed_messages _ publishes refl)

  -- The router warns only if it has not warned before, and remembers it.
  warns-route :
      (r : Router) (topic : Text) (payload : List ℕ)
      → (r.warned_other_device ≡ true
          → ((route serde r topic payload).warns ≡ false)
            × ((route serde r topic payload).router.warned_other_device ≡ true))
        × ((route serde r topic payload).warns ≡ true
            → (route serde r topic payload).router.warned_other_device ≡ true)
  unfolding route
  warns-route r topic payload = ground arith

  warnings_of_warned :
      (r : Router) (publishes : Publishes) → r.warned_other_device ≡ true → warnings r publishes ≡ 0
  unfolding warnings
  warnings_of_warned r [] h = refl
  warnings_of_warned r ((topic, payload) ∷ publishes) h =
      let (quiet, warned) = (warns-route r topic payload).0 h in
      rw (quiet, warnings_of_warned (route serde r topic payload).router publishes warned)

  -- Over any run, the router warns of a second device at most once.
  pub warnings-le : (r : Router) (publishes : Publishes) → warnings r publishes ≤ 1
  unfolding warnings
  warnings-le r [] = omega arith
  warnings-le r ((topic, payload) ∷ publishes) =
      let r' = (route serde r topic payload).router in
      elim (Bool-cases (route serde r topic payload).warns) [
        | inl loud ↦
            let zero = warnings_of_warned r' publishes ((warns-route r topic payload).1 loud) in
            rw loud (omega (arith, zero))
        | inr quiet ↦ rw quiet (omega (arith, warnings-le r' publishes))
      ]
