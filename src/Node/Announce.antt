-- ===== src/Node/Announce.antt =====
-- What one node's announcement does to another node's counters.
use daylite.Prelude.{ℕ, ◌+◌, ◌%◌, ◌^◌, ◌≡◌, ◌≢◌, Option, none, some, String, ℕ_discrete, arith, map}
use daylite.Prelude.Assoc.{lookup, total, lookup-put}
use daylite.Node.{Known, Registry, info, receive_info, subscriber_count, tally, untally_old}
use daylite.Node.Counter.{get-increment_all}
use daylite.Node.Tally.{IsTallied, listens}
use daylite.Node.Subscriptions.{subscribers_on}

-- A node whose counters are in step and that hears of another one for the first time counts its active
-- subscribers of each topic on top of those that it knew, and keeps its info.
pub subscriber_count-receive_info :
    (subscribed published : ℕ → String) (own id : ℕ) (name : String) (port : Option ℕ)
    (r : Registry) (k : Known) (t : String)
    → id ≢ own
    → lookup ℕ_discrete id k.latest_info ≡ none
    → IsTallied k
    → let k' = receive_info own (info subscribed published id name port r) k in
      (subscriber_count t k'
        ≡ (subscriber_count t k + subscribers_on subscribed t r.active_subscribers) % 2 ^ 32)
      × (lookup ℕ_discrete id k'.latest_info ≡ some (info subscribed published id name port r))
unfolding subscriber_count receive_info info tally untally_old subscribers_on
subscriber_count-receive_info subscribed published own id name port r k t ne new v = ground (
  arith,
  v.subscriptions t,
  get-increment_all (map subscribed r.active_subscribers) t k.subscription_count
      (total ℕ_discrete (listens t) k.latest_info),
  lookup-put ℕ_discrete id id (info subscribed published id name port r) k.latest_info,
)
