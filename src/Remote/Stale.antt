-- ===== src/Remote/Stale.antt =====
-- What remote_node::send makes of the counters, which node_impl.cpp never takes an entry out of.
use daylite.Prelude.{
  ℕ, ◌≡◌, false, Option, none, some, List, [], ◌∷◌, String, String-discrete, ℕ_discrete, arith,
  Option-cases, Bool-cases, inl, inr, ◌==◌, ◌+◌, ◌-◌, ◌%◌, ◌^◌,
}
use daylite.Prelude.Assoc.{lookup, lookup-put}
use daylite.Packet.{Bson, Packet}
use daylite.Node.{
  Counts, get, increment, decrement, increment_all, decrement_all, Known, NodeInfo, tally, untally,
  untally_old, receive_info, bury, bury_all,
}
use daylite.Node.Tally.{Event, announces, disconnects, hear}
use daylite.Remote.{Mode, missing, stamped, send}
use daylite.Remote.Sending.{send_lem}

-- The topic has an entry.
abbrev pub IsListed : String → Counts → Type 0
IsListed t m = missing (lookup String-discrete t m) ≡ false

increment_all-IsListed :
    (t : String) (ts : List String) (m : Counts) → IsListed t m → IsListed t (increment_all ts m)
unfolding increment_all increment
increment_all-IsListed t [] m h = h
increment_all-IsListed t (u ∷ ts) m h =
    increment_all-IsListed t ts (increment u m)
      (ground (arith, lookup-put String-discrete u t ((get u m + 1) % 2 ^ 32) m))

decrement_all-IsListed :
    (t : String) (ts : List String) (m : Counts) → IsListed t m → IsListed t (decrement_all ts m)
unfolding decrement_all decrement
decrement_all-IsListed t [] m h = h
decrement_all-IsListed t (u ∷ ts) m h =
    decrement_all-IsListed t ts (decrement u m)
      (ground (arith, lookup-put String-discrete u t ((get u m + 2 ^ 32 - 1) % 2 ^ 32) m))

receive_info-IsListed :
    (t : String) (own : ℕ) (info : NodeInfo) (k : Known)
    → IsListed t k.subscription_count
    → IsListed t (receive_info own info k).subscription_count
unfolding receive_info tally
receive_info-IsListed t own info k h = elim (Bool-cases (info.id == own)) [
  | inl mine ↦ rw (mine, receive_info) h
  | inr foreign ↦
      rw (foreign, receive_info)
        (increment_all-IsListed t info.in_topics _ (kept (lookup ℕ_discrete info.id k.latest_info)))
]
  where
    kept : (o : Option NodeInfo) → IsListed t (untally_old o k).subscription_count
    kept none = h
    kept (some old) = decrement_all-IsListed t old.in_topics k.subscription_count h

bury-IsListed :
    (t : String) (id : ℕ) (k : Known)
    → IsListed t k.subscription_count
    → IsListed t (bury id k).subscription_count
unfolding bury untally
bury-IsListed t id k h = elim (Option-cases (lookup ℕ_discrete id k.latest_info)) [
  | inl unknown ↦ rw (unknown, bury) h
  | inr (info, known) ↦
      rw (known, bury) (decrement_all-IsListed t info.in_topics k.subscription_count h)
]

bury_all-IsListed :
    (t : String) (ids : List ℕ) (k : Known)
    → IsListed t k.subscription_count
    → IsListed t (bury_all ids k).subscription_count
unfolding bury_all
bury_all-IsListed t [] k h = h
bury_all-IsListed t (id ∷ ids) k h = bury_all-IsListed t ids (bury id k) (bury-IsListed t id k h)

hear-IsListed :
    (t : String) (own : ℕ) (k : Known) (events : List Event)
    → IsListed t k.subscription_count
    → IsListed t (hear own k events).subscription_count
unfolding hear
hear-IsListed t own k [] h = h
hear-IsListed t own k (announces info ∷ events) h =
    hear-IsListed t own (receive_info own info k) events (receive_info-IsListed t own info k h)
hear-IsListed t own k (disconnects ids ∷ events) h =
    hear-IsListed t own (bury_all ids k) events (bury_all-IsListed t ids k h)

-- Once a node has counted a subscription to a topic, it sends the topic's packets on for ever, if
-- they are not marked local, also
-- when every subscriber has left and the count is back at zero.
pub send-hear :
    (b : Bson) (own : ℕ) (mode : Mode) (k : Known) (events : List Event) (p : Packet b.Doc)
    → p.local_only ≡ false
    → IsListed p.meta.topic k.subscription_count
    → send b own mode (hear own k events).subscription_count p ≡ some (stamped b own p)
send-hear b own mode k events p l h =
    elim (send_lem b own mode (hear own k events).subscription_count p) [
      | inl (passes, e) ↦ e
      | inr (blocked, e) ↦ absurd (blocked (l, inl (hear-IsListed p.meta.topic own k events h)))
    ]
