-- ===== src/System/Messages.antt =====
-- The messages on their way to the main task and the channels, in every state that the program can reach.
use mathlib.Core.Path.{ap, sym}
use pv_matter.Common.{
  ℕ, ◌<◌, ◌≤◌, ◌≡◌, ◌∙◌, refl, List, [], ◌∷◌, ◌++◌, Option, none, some, length, length-append,
  arith, append_assoc, append-nil,
}
use pv_matter.Text.{Text}
use pv_matter.Text.Utf8.{from_utf8_lossy}
use pv_matter.Serde.{SerdeJson}
use pv_matter.Domain.{DomainMsg, State, default_state, apply, apply_all}
use pv_matter.Domain.History.{apply_all-append}
use pv_matter.Ingest.{Router, new_router, route}
use pv_matter.Ingest.Lock.{Publishes}
use pv_matter.System.{
  System, initial, Internal, send, boot_take, boot, take, forward, receive, floor_over, drain,
  report, Step, poll, internal, Reach, start, next, msg_channel_capacity, updates_capacity,
}

abbrev pub to_list {ℓ} : {A : Type ℓ} → Option A → List A
to_list none = []
to_list (some a) = a ∷ []

module _ (serde : SerdeJson) where
  -- The router behind a run of publishes, and the messages that it routed.
  unfoldable pub router_after : Router → Publishes → Router
  router_after r [] = r
  router_after r ((topic, payload) ∷ publishes) =
      router_after (route serde r topic payload).router publishes

  unfoldable pub routed : Router → Publishes → List DomainMsg
  routed r [] = []
  routed r ((topic, payload) ∷ publishes) =
      to_list (route serde r topic payload).message
      ++ routed (route serde r topic payload).router publishes

  router_after-append :
      (r : Router) (ps : Publishes) (topic : Text) (payload : List ℕ)
      → router_after r (ps ++ (topic, payload) ∷ [])
        ≡ (route serde (router_after r ps) topic payload).router
  unfolding router_after
  router_after-append r [] topic payload = refl
  router_after-append r ((t, p) ∷ ps) topic payload =
      router_after-append (route serde r t p).router ps topic payload

  routed-append :
      (r : Router) (ps : Publishes) (topic : Text) (payload : List ℕ)
      → routed r (ps ++ (topic, payload) ∷ [])
        ≡ routed r ps ++ to_list (route serde (router_after r ps) topic payload).message
  unfolding router_after routed
  routed-append r [] topic payload = append-nil _
  routed-append r ((t, p) ∷ ps) topic payload =
      ap (λ ms. to_list (route serde r t p).message ++ ms)
        (routed-append (route serde r t p).router ps topic payload)
      ∙ sym (append_assoc (to_list (route serde r t p).message) _ _)

  module _ (prefix : Text) (pinned_device : Option Text) (matter_epoch_secs : ℕ) where
    -- The router and the state are those of the past, and every routed message is taken, in the channel or
    -- about to enter it, in the order of the publishes.
    pub record IsConserved (s : System) : Type 0 where
      pub router : s.router ≡ router_after (new_router prefix pinned_device) s.published
      pub folded : s.state ≡ apply_all default_state s.taken
      pub accounted :
          s.taken ++ (s.inbox ++ to_list s.sending)
          ≡ routed (new_router prefix pinned_device) s.published

    taken-state :
        (taken : List DomainMsg) (st : State) (m : DomainMsg)
        → st ≡ apply_all default_state taken
        → apply st m ≡ apply_all default_state (taken ++ m ∷ [])
    taken-state taken st m h =
        ap (λ t. apply t m) h
        ∙ (unfold apply_all in sym (apply_all-append default_state taken (m ∷ [])))

    -- The main task takes the oldest message.
    taken-IsConserved :
        (s : System) (m : DomainMsg) (inbox : List DomainMsg)
        → s.inbox ≡ m ∷ inbox
        → IsConserved s
        → IsConserved
            (record s { inbox = inbox; state = apply s.state m; taken = s.taken ++ m ∷ [] })
    taken-IsConserved s m inbox e c = record {
      router = c.router;
      folded = taken-state s.taken s.state m c.folded;
      accounted = rw append_assoc (rw e at (c.accounted));
    }

    Internal-IsConserved :
        {s t : System} → Internal serde matter_epoch_secs s t → IsConserved s → IsConserved t
    Internal-IsConserved (send s m e room) c = record {
      router = c.router;
      folded = c.folded;
      accounted = rw append-nil (rw e at (c.accounted));
    }
    Internal-IsConserved (boot_take s m inbox b i e) c = taken-IsConserved s m inbox e c
    Internal-IsConserved (boot s b) c = record {
      router = c.router;
      folded = c.folded;
      accounted = c.accounted;
    }
    Internal-IsConserved (take s m inbox b f e) c =
        let d = taken-IsConserved s m inbox e c in
        record { router = d.router; folded = d.folded; accounted = d.accounted }
    Internal-IsConserved (forward s u e room) c = record {
      router = c.router;
      folded = c.folded;
      accounted = c.accounted;
    }
    Internal-IsConserved (receive s u updates b h e) c = record {
      router = c.router;
      folded = c.folded;
      accounted = c.accounted;
    }
    Internal-IsConserved (floor_over s u e) c = record {
      router = c.router;
      folded = c.folded;
      accounted = c.accounted;
    }
    Internal-IsConserved (drain s u newer updates h e) c = record {
      router = c.router;
      folded = c.folded;
      accounted = c.accounted;
    }
    Internal-IsConserved (report s u at h e) c = record {
      router = c.router;
      folded = c.folded;
      accounted = c.accounted;
    }

    Step-IsConserved :
        {s t : System} → Step serde matter_epoch_secs s t → IsConserved s → IsConserved t
    Step-IsConserved (poll s topic payload e) c = record {
      router =
          ap (λ r. (route serde r (from_utf8_lossy topic) payload).router) c.router
          ∙ sym (
              router_after-append (new_router prefix pinned_device) s.published
                (from_utf8_lossy topic) payload);
      folded = c.folded;
      accounted =
          let past : s.taken ++ s.inbox ≡ routed (new_router prefix pinned_device) s.published =
            rw append-nil at (rw e at (c.accounted)) in
          ap
            (λ r.
              s.taken
              ++ (s.inbox ++ to_list (route serde r (from_utf8_lossy topic) payload).message))
            c.router
          ∙ sym (append_assoc s.taken s.inbox _)
          ∙ ap
              (λ ms.
                ms
                ++ to_list
                    (route serde (router_after (new_router prefix pinned_device) s.published)
                      (from_utf8_lossy topic) payload).message)
              past
          ∙ sym (
              routed-append (new_router prefix pinned_device) s.published (from_utf8_lossy topic)
                payload);
    }
    Step-IsConserved (internal i) c = Internal-IsConserved i c

    -- In every reachable state the state of the main task is the fold of the messages that it took, and
    -- these, the ones in the channel and the one about to enter it are exactly the routed messages of all
    -- publishes so far, in their order.
    pub Reach-IsConserved :
        {s : System} → Reach serde matter_epoch_secs prefix pinned_device s → IsConserved s
    unfolding initial router_after routed apply_all
    Reach-IsConserved start = record { router = refl; folded = refl; accounted = refl }
    Reach-IsConserved (next r st) = Step-IsConserved st (Reach-IsConserved r)

-- The channels keep to their capacities.
pub record IsBounded (s : System) : Type 0 where
  pub inbox : length s.inbox ≤ msg_channel_capacity
  pub updates : length s.updates ≤ updates_capacity

shorter {ℓ} :
    {A : Type ℓ} {a : A} {xs ys : List A} (n : ℕ) → length ys ≤ n → ys ≡ a ∷ xs → length xs ≤ n
shorter n h e = omega (arith, h, ap length e)

length-snoc {ℓ} :
    {A : Type ℓ} (xs : List A) (a : A) (n : ℕ) → length xs < n → length (xs ++ a ∷ []) ≤ n
length-snoc xs a n h = omega (arith, h, length-append xs (a ∷ []))

Internal-IsBounded :
    {serde : SerdeJson} {epoch : ℕ} {s t : System}
    → Internal serde epoch s t
    → IsBounded s
    → IsBounded t
Internal-IsBounded (send s m e room) b = record {
  inbox = length-snoc s.inbox m msg_channel_capacity room;
  updates = b.updates;
}
Internal-IsBounded (boot_take s m inbox p i e) b = record {
  inbox = shorter _ b.inbox e;
  updates = b.updates;
}
Internal-IsBounded (boot s p) b = record { inbox = b.inbox; updates = b.updates }
Internal-IsBounded (take s m inbox p f e) b = record {
  inbox = shorter _ b.inbox e;
  updates = b.updates;
}
Internal-IsBounded (forward s u e room) b = record {
  inbox = b.inbox;
  updates = length-snoc s.updates u updates_capacity room;
}
Internal-IsBounded (receive s u updates p h e) b = record {
  inbox = b.inbox;
  updates = shorter _ b.updates e;
}
Internal-IsBounded (floor_over s u e) b = record { inbox = b.inbox; updates = b.updates }
Internal-IsBounded (drain s u newer updates h e) b = record {
  inbox = b.inbox;
  updates = shorter _ b.updates e;
}
Internal-IsBounded (report s u at h e) b = record {
  inbox = b.inbox;
  updates = omega (arith, b.updates);
}

Step-IsBounded :
    {serde : SerdeJson} {epoch : ℕ} {s t : System}
    → Step serde epoch s t
    → IsBounded s
    → IsBounded t
Step-IsBounded (poll s topic payload e) b = record { inbox = b.inbox; updates = b.updates }
Step-IsBounded (internal i) b = Internal-IsBounded i b

-- In every reachable state at most 64 messages and at most 16 snapshots are queued.
pub Reach-IsBounded :
    {serde : SerdeJson} {epoch : ℕ} {prefix : Text} {pinned_device : Option Text} {s : System}
    → Reach serde epoch prefix pinned_device s
    → IsBounded s
unfolding initial
Reach-IsBounded start = omega arith
Reach-IsBounded (next r st) = Step-IsBounded st (Reach-IsBounded r)
