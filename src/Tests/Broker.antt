-- ===== src/Tests/Broker.antt =====
-- A broker that takes the first `+` of a filter for one level, and a subscription at it.
use pv_matter.Common.{
  ℕ, ◌≡◌, ◌≢◌, ◌∙◌, sym, ap, ◌++◌, List, Option, none, some, All-append, append_assoc, arith,
}
use pv_matter.Text.{Text, codes, split_once, Lacks}
use pv_matter.Text.Laws.{split_once-append}
use pv_matter.Domain.{DomainMsg}
use pv_matter.Ingest.{Router, new_router, conn_ack, route, turn}
use pv_matter.Ingest.Subscribed.{IsPlain, FollowsMqtt, Subscribed, IsAwaited, turn-Subscribed}
use pv_matter.Tests.Fixtures.{serde}

abbrev OneLevel : Text → Option (Text × Text) → Text → Type 0
OneLevel f none topic = topic ≡ f
OneLevel f (some (before, after)) topic =
    (level : Text) × Lacks b'/' level × (topic ≡ before ++ (level ++ after))

abbrev Delivers : Text → Text → Type 0
Delivers f topic = OneLevel f (split_once b'+' f) topic

filter_split :
    (before after : Text)
    → IsPlain before
    → split_once b'+' (before ++ (codes "/+/" ++ after))
      ≡ some (before ++ codes "/", codes "/" ++ after)
filter_split before after p =
    ap (split_once b'+') (sym (append_assoc before (codes "/") (codes "+/" ++ after)))
    ∙ split_once-append b'+' (before ++ codes "/") (codes "/" ++ after)
        (All-append (λ d. d ≢ b'+') before (codes "/") p.0 (ground arith))

Delivers-FollowsMqtt : FollowsMqtt Delivers
Delivers-FollowsMqtt before after topic p q = rw (filter_split before after p) (
  λ (level, lacks, e).
      (level, lacks, e ∙ append_assoc before (codes "/") (level ++ (codes "/" ++ after))),
  λ (level, lacks, e).
      (level, lacks, e ∙ sym (append_assoc before (codes "/") (level ++ (codes "/" ++ after)))),
)

abbrev router : Router
router = new_router (codes "pv/home") none

prefix-IsPlain : IsPlain router.prefix
unfolding new_router
prefix-IsPlain = ground arith

turn-Subscribed_example :
    ((payload : List ℕ) (m : DomainMsg)
      → (route serde router (codes "pv/home/a/info") payload).message ≡ some m
      → Subscribed Delivers (turn serde router conn_ack).actions (codes "pv/home/a/info"))
    × (Subscribed Delivers (turn serde router conn_ack).actions (codes "pv/home/a/info")
        → IsAwaited router.prefix (codes "pv/home/a/info"))
turn-Subscribed_example =
    turn-Subscribed Delivers Delivers-FollowsMqtt serde router (codes "pv/home/a/info")
      prefix-IsPlain
