-- ===== src/Hub.antt =====
-- A whole node of libdaylite/src/node_impl.cpp at work: its mailman with the mailboxes that it has, those
-- of its remotes (remote_node.cpp), its own (the constructor of node_impl), and those of its subscribers
-- and publishers (subscriber_impl.cpp, publisher_impl.cpp), whose callbacks work on one state.
pub mod Whole
pub mod Steps
pub mod Shares
pub mod Wired
pub mod Relay
pub mod Heard
pub mod Attached
pub mod Added
pub mod Announcing
pub mod Joining
pub mod Hearing
pub mod Meeting
pub mod Kept
pub mod Leaving
pub mod Sound
pub mod Living
pub mod Closing
pub mod History
pub mod Sample
mod Tests
use daylite.Prelude.{
  ℕ, zero, suc, ◌≡◌, Bool, true, false, Option, none, some, List, [], ◌∷◌, ◌++◌, map, String, ◌==◌,
  ℕ_discrete, if◌then◌else◌,
}
use daylite.Prelude.Assoc.{remove}
use daylite.Outcome.{VoidResult, ok, fail, done}
use daylite.Topic.{Topic, any, internal}
use daylite.Packet.{NetworkTime, Meta, Packet, Bson, make}
use daylite.Clock.{update_time}
use daylite.Thread as Thread
use daylite.Thread.{Buffers}
use daylite.Mail as Mail
use daylite.Mail.{Mailman, Mailbox, Store, Callback, enter}
use daylite.Node as Node
use daylite.Node.{NodeInfo, Registry}
use daylite.Node.Control.{Control, control_mail}
use daylite.Remote as Remote
use daylite.Remote.{Mode, allow_internal, found, insert_id}
use daylite.Peers as Peers
use daylite.Peers.{Peer, Links, attach}
use daylite.Endpoint.{Subscriber, received}

-- The code that bsonbind generates for node_info.bsonbind, on the `msg` of a packet; `blank` is what the
-- constructor of a node_info leaves.
pub record InfoCode (Doc : Type 0) : Type 0 where
  pub bind : NodeInfo → Doc
  pub unbind : Option Doc → Option NodeInfo
  pub blank : NodeInfo
  pub unbind-bind : (info : NodeInfo) → unbind (some (bind info)) ≡ some info

-- What a mailbox is for: a remote, with its link and mode; the node's own; a subscriber's; or a
-- publisher's, which has no incoming callback.
pub data Role : Type 0 where
  remote : ℕ → Mode → Role
  control : Role
  subscribes : Subscriber → Role
  publishes : Role

-- A mailbox of the node, of the topic given.
pub record Post : Type 0 where
  pub topic : Topic
  pub role : Role

-- The mailboxes by address.
abbrev pub Roles : Type 0
Roles = List (ℕ × Post)

-- What the callbacks work on: the queues of the thread, the node's clock and what it knows, and what
-- the subscribers' callbacks were given, with the addresses of their mailboxes.
pub record Hub (Doc : Type 0) : Type 0 where
  pub buffers : Buffers Doc
  pub control : Control
  pub journal : List (ℕ × Option Doc)

module _ (b : Bson) (code : InfoCode b.Doc) (own : ℕ) (now : NetworkTime) where
  open b use {Doc}

  -- remote_node::send with what becomes of the packet in the thread.
  unfoldable pub remote_mail : ℕ → Mode → Callback (Packet Doc) (Hub Doc)
  unfolding Remote.send Thread.send
  remote_mail link mode p h = elim (Remote.send b own mode h.control.known.subscription_count p) [
    | none ↦ (h, done)
    | some q ↦
        let (r, buffers) = Thread.send h.buffers link q in (record h { buffers = buffers }, r)
  ]

  unfoldable pub own_mail : Callback (Packet Doc) (Hub Doc)
  unfolding control_mail
  own_mail p h = (
    record h {
      control = control_mail own code.blank now p.meta.stamp (code.unbind p.msg) h.control;
    },
    done,
  )

  -- The callback of subscriber_impl, whose client takes what it is given.
  unfoldable pub subscriber_mail : ℕ → Subscriber → Callback (Packet Doc) (Hub Doc)
  unfolding received
  subscriber_mail a s p h = (record h { journal = h.journal ++ (a, received b s p) ∷ [] }, done)

  unfoldable pub incoming_mail : ℕ → Role → Option (Callback (Packet Doc) (Hub Doc))
  incoming_mail a (remote link mode) = some (remote_mail link mode)
  incoming_mail a control = some own_mail
  incoming_mail a (subscribes s) = some (subscriber_mail a s)
  incoming_mail a publishes = none

  abbrev pub mailbox_of : ℕ → Post → Mailbox (Packet Doc) (Hub Doc)
  mailbox_of a post = Mail.mailbox post.topic (incoming_mail a post.role) none

  unfoldable pub boxes_of : Roles → Store (Packet Doc) (Hub Doc)
  boxes_of [] = []
  boxes_of ((a, r) ∷ roles) = (a, mailbox_of a r) ∷ boxes_of roles

  -- What `place_outgoing_mail` of the mailbox at the address `sender` does: mailman::send for it.
  unfoldable pub relay : Roles → Mailman → ℕ → Packet Doc → Hub Doc → Option (Hub Doc × VoidResult)
  unfolding boxes_of Mail.send
  relay roles m sender p h = Mail.send m (boxes_of roles) sender p.meta.topic p h

  -- remote_node::spin_update of the remote whose mailbox has the address `a`, at most as many rounds of it
  -- as said, with `_associated_ids`.
  unfoldable pub take_mail :
      ℕ → Roles → Mailman → ℕ → ℕ → List ℕ → Hub Doc → Option (List ℕ × Hub Doc)
  unfolding Thread.next found insert_id relay
  take_mail zero roles m a link ids h = some (ids, h)
  take_mail (suc n) roles m a link ids h =
      let (o, buffers) = Thread.next h.buffers link in
      let h' = record h { buffers = buffers } in
      elim o [
        | none ↦ some (ids, h')
        | some p ↦ elim (found own p) [
          | true ↦ take_mail n roles m a link ids h'
          | false ↦ elim (relay roles m a p h') [
            | none ↦ none
            | some (h'', r) ↦ take_mail n roles m a link (insert_id p.meta.id ids) h''
          ]
        ]
      ]
