-- ===== src/Node/Tests.antt =====
-- What a node knows, at concrete inputs.
use daylite.Prelude.{
  false, some, arith, ℕ, ◌%◌, ◌^◌, ◌==◌, ◌≡◌, refl, true, List, [], ◌∷◌, String, String-discrete,
  ℕ_discrete, count, if◌then◌else◌,
}
use daylite.Prelude.Assoc.{lookup, put, total}
use daylite.Node.{
  send_info, NodeInfo, get, increment, decrement, subscriber_count, Registry, erase_all,
  decrement_erased, unregister_subscriber, register_subscriber,
}
use daylite.Node.Tally.{
  Event, announces, disconnects, hear, nothing_known, listens, subscriber_count-hear,
}
use daylite.Node.Gossip.{receive_all, passed, latest-send_info}
use daylite.Node.Subscriptions.{subscribers_on, IsCounted}

abbrev node : ℕ → List String → NodeInfo
node id topics = record {
  name = "node";
  alive = true;
  id = id;
  hosts = [];
  in_topics = topics;
  splats = [];
  out_topics = [];
}

-- Node 2 subscribes twice and then once, node 3 comes and goes, and node 1 hears itself.
abbrev events : List Event
events =
    announces (node 2 ("sonar" ∷ "sonar" ∷ []))
    ∷ announces (node 3 ("sonar" ∷ []))
    ∷ announces (node 1 ("sonar" ∷ []))
    ∷ announces (node 2 ("sonar" ∷ []))
    ∷ disconnects (3 ∷ 9 ∷ [])
    ∷ []

subscriber_count-hear_example :
    subscriber_count "sonar" (hear 1 nothing_known events)
    ≡ total ℕ_discrete (listens "sonar") (hear 1 nothing_known events).latest_info % 2 ^ 32
subscriber_count-hear_example = subscriber_count-hear 1 events "sonar"

abbrev topic_of : ℕ → String
topic_of a = if a == 16 then "sonar" else "motor"

-- Two subscribers, of one topic each.
abbrev registry : Registry
registry = record {
  active_subscribers = 16 ∷ 32 ∷ [];
  active_publishers = 48 ∷ [];
  local_subscription_count = ("sonar", 1) ∷ ("motor", 1) ∷ [];
}

abbrev no_one : Registry
no_one = record {
  active_subscribers = [];
  active_publishers = 48 ∷ [];
  local_subscription_count = [];
}

no_one-IsCounted : IsCounted topic_of no_one
unfolding get lookup subscribers_on count
no_one-IsCounted t = refl

registry-registered :
    register_subscriber topic_of 32 (register_subscriber topic_of 16 no_one) ≡ registry
unfolding register_subscriber unregister_subscriber erase_all decrement_erased increment decrement
    get lookup put String-discrete
registry-registered = refl

-- Node 1 tells node 5 what it knows.
latest-send_info_example :
    lookup ℕ_discrete 2
      (receive_all 5
        (send_info false (node 1 ("motor" ∷ [])) (hear 1 nothing_known events))
        nothing_known).latest_info
    ≡ (if 1 == 2
        then some (node 1 ("motor" ∷ []))
        else passed false
            (lookup ℕ_discrete 2 nothing_known.latest_info)
            (lookup ℕ_discrete 2 (hear 1 nothing_known events).latest_info))
latest-send_info_example =
    latest-send_info 5 false (node 1 ("motor" ∷ [])) events nothing_known 2 (λ e. omega arith)
