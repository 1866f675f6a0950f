-- ===== src/System/Redelivered.antt =====
-- What a broker that delivers a publish again makes of the reads.
use mathlib.Core.Path.{ap, sym}
use pv_matter.Common.{
  ℕ, ◌≡◌, ◌∙◌, refl, List, ◌++◌, Option, none, some, arith, inl, inr, Option-cases,
}
use pv_matter.Text.{Text}
use pv_matter.Text.Laws.{text_eq_refl}
use pv_matter.Serde.{SerdeJson}
use pv_matter.Domain.{DomainMsg, State, default_state}
use pv_matter.Domain.Redelivery.{Redelivers, done, delivered, redelivered, apply_all-Redelivers}
use pv_matter.Ingest.{Router, new_router, address, route}
use pv_matter.Ingest.Lock.{Publishes}
use pv_matter.System.Messages.{to_list, routed}
use pv_matter.System.{System, Reach}
use pv_matter.System.Progress.{IsQuiet}
use pv_matter.System.Settled.{quiet-reads}

delivered_some :
    (o : Option DomainMsg) {once again : List DomainMsg}
    → Redelivers once again
    → Redelivers (to_list o ++ once) (to_list o ++ again)
delivered_some none r = r
delivered_some (some m) r = delivered m r

redelivered_some :
    (o : Option DomainMsg) (once again : List DomainMsg)
    → Redelivers (to_list o ++ once) (to_list o ++ again)
    → Redelivers (to_list o ++ once) (to_list o ++ (to_list o ++ again))
redelivered_some none once again r = r
redelivered_some (some m) once again r = redelivered m r

module _ (serde : SerdeJson) where
  -- The router that has routed a publish routes it again in the same way, and is not changed by it.
  route_twice :
      (r : Router) (topic : Text) (payload : List ℕ)
      → let first = route serde r topic payload in
        let second = route serde first.router topic payload in
        (second.message ≡ first.message) × (second.router ≡ first.router)
  unfolding route
  route_twice r topic payload = elim (Option-cases (address r.prefix topic)) [
    | inl e ↦ rw e (rw e (refl, refl))
    | inr ((device, leaf), e) ↦ elim (Option-cases r.device_id) [
      | inl free ↦ ground (arith, e, free, text_eq_refl device)
      | inr (locked, held) ↦ ground (arith, e, held)
    ]
  ]

  routed-Redelivers :
      (r : Router) {once again : Publishes}
      → Redelivers once again
      → Redelivers (routed serde r once) (routed serde r again)
  unfolding routed
  routed-Redelivers r done = done
  routed-Redelivers r (delivered (topic, payload) d) =
      delivered_some (route serde r topic payload).message
        (routed-Redelivers (route serde r topic payload).router d)
  routed-Redelivers r (redelivered (topic, payload) {again = again} d) =
      let (message, router) = route_twice r topic payload in
      rw (message, router)
        (redelivered_some (route serde r topic payload).message _ _ (routed-Redelivers r d))

module _ {serde : SerdeJson} {matter_epoch_secs : ℕ} {prefix : Text}
    {pinned_device : Option Text} where
  -- Two runs of the program, of whatever scheduling, whose publishes differ only by the redelivery of some of
  -- them right behind themselves, come to the same reads when nothing is on its way.
  pub IsQuiet-Redelivers :
      {s t : System}
      → Reach serde matter_epoch_secs prefix pinned_device s
      → Reach serde matter_epoch_secs prefix pinned_device t
      → IsQuiet s
      → IsQuiet t
      → Redelivers s.published t.published
      → t.bridge.shared ≡ s.bridge.shared
  IsQuiet-Redelivers {s} {t} r r' q q' d =
      quiet-reads r' q'
      ∙ ap (λ (u : State). u.snapshot)
          (apply_all-Redelivers default_state
            (routed-Redelivers serde (new_router prefix pinned_device) d))
      ∙ sym (quiet-reads r q)
