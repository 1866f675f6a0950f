-- ===== src/Ingest/Origin.antt =====
-- From which topics and payloads the router returns a message.
use pv_matter.Common.{ℕ, ◌≡◌, ◌↔◌, ◌⊎◌, inl, inr, List, none, some, arith, sym, ◌∙◌, Option-cases}
use pv_matter.Text.{Text}
use pv_matter.Text.Laws.{text_eq_iff, text_eq_refl}
use pv_matter.Serde.{SerdeJson}
use pv_matter.Domain.{DomainMsg}
use pv_matter.Ingest.{Router, address, decode_leaf, route}
use pv_matter.Ingest.Address.{IsTopic, address_iff}

module _ (serde : SerdeJson) where
  -- What a routed message means: it was decoded from the leaf of a topic of the device that the
  -- router is locked onto from then on.
  pub record IsFrom (r : Router) (topic : Text) (payload : List ℕ) (m : DomainMsg) (r' : Router)
      : Type 0 where
    pub device : Text
    pub leaf : Text
    pub addressed : IsTopic r.prefix topic device leaf
    pub locked : r'.device_id ≡ some device
    pub decoded : decode_leaf serde leaf payload ≡ some m

  -- A message is routed only from a well-formed topic of the locked device, and only if the payload
  -- of that leaf is decoded.
  pub route_sound :
      (r : Router) (topic : Text) (payload : List ℕ) {m : DomainMsg}
      → (route serde r topic payload).message ≡ some m
      → IsFrom r topic payload m (route serde r topic payload).router
  unfolding route
  route_sound r topic payload {m} h = elim (Option-cases (address r.prefix topic)) [
    | inl e ↦ absurd (ground arith)
    | inr ((device, leaf), e) ↦ elim (Option-cases r.device_id) [
      | inl free ↦ record {
        device = device;
        leaf = leaf;
        addressed = (address_iff r.prefix topic device leaf).0 e;
        locked = ground arith;
        decoded = ground arith;
      }
      | inr (locked, held) ↦ record {
        device = device;
        leaf = leaf;
        addressed = (address_iff r.prefix topic device leaf).0 e;
        locked = ground (arith, text_eq_iff locked device);
        decoded = ground arith;
      }
    ]
  ]

  -- Every topic of the locked device, or any device while there is no lock, is decoded by its leaf.
  route_complete :
      (r : Router) (topic device leaf : Text) (payload : List ℕ)
      → IsTopic r.prefix topic device leaf
      → (r.device_id ≡ none) ⊎ (r.device_id ≡ some device)
      → ((route serde r topic payload).message ≡ decode_leaf serde leaf payload)
        × ((route serde r topic payload).router.device_id ≡ some device)
  unfolding route
  route_complete r topic device leaf payload t h =
      rw ((address_iff r.prefix topic device leaf).1 t) (ground (arith, text_eq_refl device))

  -- The lock is never changed or lifted, and the prefix never changes.
  pub route_keeps_lock :
      (r : Router) (topic : Text) (payload : List ℕ) {device : Text}
      → r.device_id ≡ some device
      → ((route serde r topic payload).router.device_id ≡ some device)
        × ((route serde r topic payload).router.prefix ≡ r.prefix)
  unfolding route
  route_keeps_lock r topic payload h = ground arith

  -- A message is routed exactly if the topic is a well-formed one of the device that the router is locked onto
  -- behind it, and the payload is decoded to the message as its leaf says.
  pub route-eq-some_iff :
      (r : Router) (topic : Text) (payload : List ℕ) (m : DomainMsg)
      → ((route serde r topic payload).message ≡ some m)
        ↔ IsFrom r topic payload m (route serde r topic payload).router
  route-eq-some_iff r topic payload m = (route_sound r topic payload, returned)
    where
      returned :
          IsFrom r topic payload m (route serde r topic payload).router
          → (route serde r topic payload).message ≡ some m
      returned f = elim (Option-cases r.device_id) [
        | inl free ↦
            (route_complete r topic f.device f.leaf payload f.addressed (inl free)).0 ∙ f.decoded
        | inr (locked, held) ↦
            let (kept, prefix) = route_keeps_lock r topic payload held in
            let same : r.device_id ≡ some f.device = held ∙ sym kept ∙ f.locked in
            (route_complete r topic f.device f.leaf payload f.addressed (inr same)).0 ∙ f.decoded
      ]
