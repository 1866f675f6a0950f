-- ===== src/Ingest/Subscribed.antt =====
-- The subscriptions of the loop against the topics that the router takes. Which topics a broker delivers for
-- a filter is not part of the source, so it is a parameter.
use mathlib.Core.Path.{subst}
use pv_matter.Common.{
  ℕ, ◌≡◌, ◌↔◌, refl, ◌⊎◌, inl, inr, true, List, [], ◌∷◌, ◌++◌, some, arith, Bool-cases,
}
use pv_matter.Text.{Text, codes, text_eq, is_empty, Lacks}
use pv_matter.Text.Laws.{text_eq_iff}
use pv_matter.Serde.{SerdeJson}
use pv_matter.Domain.{DomainMsg}
use pv_matter.Ingest.{
  Router, address, decode_leaf, route, conn_ack, Action, subscribe, send, wait_reconnect,
  topic_filter, turn,
}
use pv_matter.Ingest.Address.{address_iff}
use pv_matter.Ingest.Origin.{route_sound}

-- Without the two wildcards of MQTT.
abbrev pub IsPlain : Text → Type 0
IsPlain s = Lacks b'+' s × Lacks b'#' s

-- A topic that has one level between two texts.
abbrev pub IsBetween : Text → Text → Text → Type 0
IsBetween before after topic =
    (level : Text) × Lacks b'/' level × (topic ≡ before ++ (b'/' ∷ (level ++ b'/' ∷ after)))

-- The rule for the wildcard `+` (MQTT, 4.7.1.3): it stands for exactly one level.
abbrev pub FollowsMqtt : (Text → Text → Type 0) → Type 0
FollowsMqtt Delivers =
    (before after topic : Text)
    → IsPlain before
    → IsPlain after
    → Delivers (before ++ (codes "/+/" ++ after)) topic ↔ IsBetween before after topic

-- A subscription among the actions delivers the topic.
abbrev pub Subscribed : (Text → Text → Type 0) → List Action → Text → Type 0
Subscribed Delivers [] topic = ⊥
Subscribed Delivers (subscribe f ∷ actions) topic =
    Delivers f topic ⊎ Subscribed Delivers actions topic
Subscribed Delivers (send m ∷ actions) topic = Subscribed Delivers actions topic
Subscribed Delivers (wait_reconnect ∷ actions) topic = Subscribed Delivers actions topic

-- The leaves that the router decodes.
abbrev pub IsLeaf : Text → Type 0
IsLeaf leaf = (leaf ≡ codes "info") ⊎ (leaf ≡ codes "instantaneous") ⊎ (leaf ≡ codes "status")

decode_leaf-IsLeaf :
    (serde : SerdeJson) (leaf : Text) (payload : List ℕ) {m : DomainMsg}
    → decode_leaf serde leaf payload ≡ some m
    → IsLeaf leaf
unfolding decode_leaf
decode_leaf-IsLeaf serde leaf payload h = elim (Bool-cases (text_eq leaf (codes "info"))) [
  | inl e ↦ inl ((text_eq_iff leaf (codes "info")).0 e)
  | inr n1 ↦ elim (Bool-cases (text_eq leaf (codes "instantaneous"))) [
    | inl e ↦ inr (inl ((text_eq_iff leaf (codes "instantaneous")).0 e))
    | inr n2 ↦ elim (Bool-cases (text_eq leaf (codes "status"))) [
      | inl e ↦ inr (inr ((text_eq_iff leaf (codes "status")).0 e))
      | inr n3 ↦ absurd (ground arith)
    ]
  ]
]

leaf-IsPlain : (leaf : Text) → IsLeaf leaf → IsPlain leaf
leaf-IsPlain leaf (inl e) = rw e (ground arith)
leaf-IsPlain leaf (inr (inl e)) = rw e (ground arith)
leaf-IsPlain leaf (inr (inr e)) = rw e (ground arith)

leaf-Lacks : (leaf : Text) → IsLeaf leaf → Lacks b'/' leaf
leaf-Lacks leaf (inl e) = rw e (ground arith)
leaf-Lacks leaf (inr (inl e)) = rw e (ground arith)
leaf-Lacks leaf (inr (inr e)) = rw e (ground arith)

is_empty-eq-true : (s : Text) → is_empty s ≡ true → s ≡ []
is_empty-eq-true [] h = refl
is_empty-eq-true (c ∷ s) h = cc

-- The topic is addressed to a device, with a leaf that the router decodes; or its device is empty.
unfoldable pub IsAwaited : Text → Text → Type 0
IsAwaited prefix topic =
    (device : Text) × (leaf : Text) × IsLeaf leaf
    × ((device ≡ []) ⊎ (address prefix topic ≡ some (device, leaf)))

between-IsAwaited :
    (prefix leaf topic : Text) → IsLeaf leaf → IsBetween prefix leaf topic → IsAwaited prefix topic
unfolding IsAwaited
between-IsAwaited prefix leaf topic l (device, lacks, spelled) =
    elim (Bool-cases (is_empty device)) [
      | inl e ↦ (device, leaf, l, inl (is_empty-eq-true device e))
      | inr n ↦ (
        device,
        leaf,
        l,
        inr (
            (address_iff prefix topic device leaf).1 (record {
              spelled = spelled;
              named = n;
              device_level = lacks;
              leaf_level = leaf-Lacks leaf l;
            })),
      )
    ]

module _ (Delivers : Text → Text → Type 0) (rule : FollowsMqtt Delivers) (serde : SerdeJson) where
  -- A filter delivers exactly the topics with its leaf.
  filter-Delivers :
      (prefix leaf topic : Text)
      → IsPlain prefix
      → IsLeaf leaf
      → Delivers (topic_filter prefix leaf) topic ↔ IsBetween prefix leaf topic
  unfolding topic_filter
  filter-Delivers prefix leaf topic p l = rule prefix leaf topic p (leaf-IsPlain leaf l)

  Subscribed-sound :
      (r : Router) (topic : Text)
      → IsPlain r.prefix
      → Subscribed Delivers (turn serde r conn_ack).actions topic
      → (leaf : Text) × IsLeaf leaf × IsBetween r.prefix leaf topic
  unfolding turn
  Subscribed-sound r topic p (inl d) =
      (codes "info", inl refl, (filter-Delivers r.prefix (codes "info") topic p (inl refl)).0 d)
  Subscribed-sound r topic p (inr (inl d)) = (
    codes "instantaneous",
    inr (inl refl),
    (filter-Delivers r.prefix (codes "instantaneous") topic p (inr (inl refl))).0 d,
  )
  Subscribed-sound r topic p (inr (inr (inl d))) = (
    codes "status",
    inr (inr refl),
    (filter-Delivers r.prefix (codes "status") topic p (inr (inr refl))).0 d,
  )
  Subscribed-sound r topic p (inr (inr (inr d))) = absurd d

  Subscribed-complete :
      (r : Router) (leaf topic : Text)
      → IsPlain r.prefix
      → IsLeaf leaf
      → Delivers (topic_filter r.prefix leaf) topic
      → Subscribed Delivers (turn serde r conn_ack).actions topic
  unfolding turn
  Subscribed-complete r leaf topic p (inl e) d =
      inl (subst (λ l. Delivers (topic_filter r.prefix l) topic) e d)
  Subscribed-complete r leaf topic p (inr (inl e)) d =
      inr (inl (subst (λ l. Delivers (topic_filter r.prefix l) topic) e d))
  Subscribed-complete r leaf topic p (inr (inr e)) d =
      inr (inr (inl (subst (λ l. Delivers (topic_filter r.prefix l) topic) e d)))

  -- The subscriptions of a connection fit the router, for a broker that follows the rule for `+` and a prefix
  -- without wildcards: every topic from which it routes a message is delivered, and every topic that is
  -- delivered is addressed to a device with a leaf that it decodes, or has an empty device.
  pub turn-Subscribed :
      (r : Router) (topic : Text)
      → IsPlain r.prefix
      → ((payload : List ℕ) (m : DomainMsg)
          → (route serde r topic payload).message ≡ some m
          → Subscribed Delivers (turn serde r conn_ack).actions topic)
        × (Subscribed Delivers (turn serde r conn_ack).actions topic → IsAwaited r.prefix topic)
  turn-Subscribed r topic p = (
    λ payload m h.
        let f = route_sound serde r topic payload h in
        let l = decode_leaf-IsLeaf serde f.leaf payload f.decoded in
        Subscribed-complete r f.leaf topic p l (
          (filter-Delivers r.prefix f.leaf topic p l).1
            (f.device, f.addressed.device_level, f.addressed.spelled)),
    λ d.
        let (leaf, l, between) = Subscribed-sound r topic p d in
        between-IsAwaited r.prefix leaf topic l between,
  )
