-- ===== src/Endpoint.antt =====
-- libdaylite/src/publisher_impl.cpp and .hpp, and subscriber_impl.cpp and .hpp: what a client holds of
-- a node. `S` is the state that the mailbox's callback works on.
pub mod Journal
pub mod Lifetime
pub mod Service
mod Tests
use daylite.Prelude.{[], ◌∷◌, ℕ, Bool, true, false, Option, none, some, String, List, if◌then◌else◌}
use daylite.Outcome.{VoidResult, done, failed}
use daylite.Topic.{Topic}
use daylite.Packet.{NetworkTime, Meta, Packet, Bson, build, make}
use daylite.Mail.{Callback, Mailman, clear, enter, leave}
use daylite.Node.{
  Known, Registry, register_publisher, unregister_publisher, register_subscriber,
  unregister_subscriber,
}
use daylite.Node as Node

pub record Publisher : Type 0 where
  pub topic : Topic
  pub firehose : Bool
  pub husk : Bool

pub record Subscriber : Type 0 where
  pub topic : Topic
  pub send_packed : Bool
  pub husk : Bool

abbrev pub set_firehose : Bool → Publisher → Publisher
set_firehose firehose p = record p { firehose = firehose }

abbrev pub set_send_packed : Bool → Subscriber → Subscriber
set_send_packed packed s = record s { send_packed = packed }

-- publisher_impl::subscriber_count
unfoldable pub subscriber_count : Publisher → Known → ℕ
subscriber_count p k = if p.husk then 0 else Node.subscriber_count p.topic k

module _ (b : Bson) where
  open b use {Doc}

  -- The packet that `publish(packet)` hands to the mailbox; `own` is the node's id.
  unfoldable pub prepared : ℕ → Bool → Packet Doc → Packet Doc
  unfolding build
  prepared own firehose p =
      build b (record p { meta = record p.meta { droppable = firehose; origin_id = own } })

  -- publish(packet). A husk has no parent: `none`.
  unfoldable pub publish_packet :
      {S : Type 0}
      → Callback (Packet Doc) S
      → Publisher
      → ℕ
      → Packet Doc
      → S
      → Option (S × VoidResult)
  unfolding prepared
  publish_packet place p own q s =
      if p.husk then none else some (place (prepared own p.firehose q) s)

  -- publish(bson), from where the node's time was brought up to date.
  unfoldable pub publish :
      {S : Type 0}
      → Callback (Packet Doc) S
      → Publisher
      → ℕ
      → Meta
      → NetworkTime
      → Option Doc
      → S
      → Option (S × VoidResult)
  unfolding publish_packet make
  publish place p own blank time msg s =
      if p.husk
      then some (s, failed "Husk")
      else publish_packet place p own (make b blank p.topic time msg false) s

  -- What the callback of a subscriber is given.
  unfoldable pub received : Subscriber → Packet Doc → Option Doc
  received s p = if s.send_packed then p.packed else p.msg

-- The node's part of an object's life: its registry, and its mailman's table.
pub record Home : Type 0 where
  pub registry : Registry
  pub mailman : Mailman

abbrev with_registry : Registry → Option (ℕ × Mailman) → Option Home
with_registry r none = none
with_registry r (some (found, m)) = some (record { registry = r; mailman = m })

-- The constructors and destructors: `a` is the object's address and `box` that of its mailbox.
module _ (topic : Topic) (a box : ℕ) where
  unfoldable pub open_publisher : Home → Home
  unfolding register_publisher enter
  open_publisher h = record {
    registry = register_publisher a h.registry;
    mailman = enter h.mailman topic box;
  }

  -- ~publisher_impl
  unfoldable pub close_publisher : Bool → Home → Option Home
  unfolding unregister_publisher leave
  close_publisher husk h =
      if husk
      then some h
      else with_registry (unregister_publisher a h.registry) (leave h.mailman topic box)

  -- publisher_impl::set_husk leaves the registry as it is.
  unfoldable pub husk_publisher : Home → Option Home
  unfolding leave
  husk_publisher h = with_registry h.registry (leave h.mailman topic box)

-- `topic_of` gives the topics of the node's subscribers.
module _ (topic_of : ℕ → Topic) (a box : ℕ) where
  unfoldable pub open_subscriber : Home → Home
  unfolding register_subscriber enter
  open_subscriber h = record {
    registry = register_subscriber topic_of a h.registry;
    mailman = enter h.mailman (topic_of a) box;
  }

  -- subscriber_impl::set_husk, and so ~subscriber_impl.
  unfoldable pub husk_subscriber : Bool → Home → Option Home
  unfolding unregister_subscriber leave
  husk_subscriber husk h =
      if husk
      then some h
      else with_registry (unregister_subscriber topic_of a h.registry)
          (leave h.mailman (topic_of a) box)

-- What node_impl::stop does to the publishers, each with its topic, its address and its mailbox's, once
-- it has cleared the mailman.
unfoldable pub husk_publishers : List (Topic × ℕ × ℕ) → Home → Option Home
unfolding husk_publisher
husk_publishers [] h = some h
husk_publishers ((topic, a, box) ∷ ps) h = elim (husk_publisher topic a box h) [
  | none ↦ none
  | some h' ↦ husk_publishers ps h'
]

unfoldable pub stop_publishers : List (Topic × ℕ × ℕ) → Home → Option Home
unfolding husk_publishers
stop_publishers ps h = husk_publishers ps (record h { mailman = clear h.mailman })
