-- ===== src/Hub/Whole.antt =====
-- A node of libdaylite/src/node_impl.cpp with its links and mailboxes: its constructor, send_info,
-- join_daylite, server_connection and server_disconnection, and what its subscribers and publishers
-- (subscriber_impl.cpp, publisher_impl.cpp), its remotes (remote_node.cpp) and its thread do to it.
use daylite.Prelude.{
  ℕ, Bool, true, false, Option, none, some, List, [], ◌∷◌, map, String, ◌==◌, ℕ_discrete,
  if◌then◌else◌,
}
use daylite.Prelude.Assoc.{remove}
use daylite.Outcome.{VoidResult, ok, fail, done}
use daylite.Topic.{any, internal}
use daylite.Packet.{NetworkTime, Meta, Packet, Bson, make}
use daylite.Clock.{update_time}
use daylite.Mail.{Mailman, enter, leave}
use daylite.Node as Node
use daylite.Node.{NodeInfo, Registry}
use daylite.Remote.{Mode, allow_internal}
use daylite.Peers as Peers
use daylite.Peers.{Peer, Links, attach}
use daylite.Thread.{Weather, pass_all}
use daylite.Endpoint.{Subscriber}
use daylite.Hub.{
  InfoCode, remote, control, subscribes, publishes, Post, Roles, Hub, relay, take_mail,
}

-- A node with its links: `me` is the address of its own mailbox, and `port` the one that its server
-- has, if any.
pub record NodeImpl (Doc : Type 0) : Type 0 where
  pub name : String
  pub port : Option ℕ
  pub registry : Registry
  pub remotes : List Peer
  pub mailman : Mailman
  pub roles : Roles
  pub hub : Hub Doc

-- What the constructor of node_impl leaves, where gettimeofday gives `now`.
unfoldable pub constructed : {Doc : Type 0} → String → ℕ → NetworkTime → NodeImpl Doc
unfolding enter
constructed name me now = record {
  name = name;
  port = none;
  registry = record {
    active_subscribers = [];
    active_publishers = [];
    local_subscription_count = [];
  };
  remotes = [];
  mailman = enter [] internal me;
  roles = (me, record { topic = internal; role = control }) ∷ [];
  hub = record {
    buffers = [];
    control = record {
      clock = record { network_time = record { seconds = 0; microseconds = 0 }; last_time = now };
      known = record { latest_info = []; subscription_count = []; splat_count = [] };
    };
    journal = [];
  };
}

-- The part of a node that its links are about.
abbrev pub links_of : {Doc : Type 0} → NodeImpl Doc → Links Doc
links_of n = record {
  remotes = n.remotes;
  buffers = n.hub.buffers;
  mailman = n.mailman;
  known = n.hub.control.known;
}

abbrev pub with_links : {Doc : Type 0} → Links Doc → NodeImpl Doc → NodeImpl Doc
with_links l n = record n {
  remotes = l.remotes;
  mailman = l.mailman;
  hub = record n.hub { buffers = l.buffers; control = record n.hub.control { known = l.known } };
}

-- The mailboxes of the remotes on the socket are gone.
unfoldable pub drop_roles : ℕ → List Peer → Roles → Roles
unfolding remove ℕ_discrete
drop_roles socket [] roles = roles
drop_roles socket (p ∷ ps) roles =
    drop_roles socket ps (if p.socket == socket then remove ℕ_discrete p.box roles else roles)

-- A remote of the node, by the address of its mailbox.
unfoldable pub find_remote : ℕ → List Peer → Option Peer
find_remote box [] = none
find_remote box (p ∷ ps) = if p.box == box then some p else find_remote box ps

-- What spin_update leaves of `_associated_ids`.
unfoldable pub set_ids : ℕ → List ℕ → List Peer → List Peer
set_ids box ids [] = []
set_ids box ids (p ∷ ps) =
    (if p.box == box then record p { associated_ids = ids } else p) ∷ set_ids box ids ps

module _ (b : Bson) (code : InfoCode b.Doc) (own : ℕ) (blank : Meta)
    (subscribed published : ℕ → String) (me : ℕ) (now : NetworkTime) where
  open b use {Doc}

  -- A packet of send_info.
  unfoldable pub info_packet : NetworkTime → NodeInfo → Packet Doc
  unfolding make
  info_packet time i = make b blank internal time (some (code.bind i)) true

  -- Packets that the node's own mailbox places, one by one; the results are not looked at.
  unfoldable pub place_all : Roles → Mailman → List (Packet Doc) → Hub Doc → Option (Hub Doc)
  unfolding relay
  place_all roles m [] h = some h
  place_all roles m (p ∷ ps) h = elim (relay b code own now roles m me p h) [
    | none ↦ none
    | some (h', r) ↦ place_all roles m ps h'
  ]

  -- The infos of send_info, as packets of the time to which it brings the clock.
  unfoldable pub info_packets : Bool → NodeImpl Doc → List (Packet Doc)
  unfolding Node.send_info Node.info update_time info_packet
  info_packets include_dead n =
      map (info_packet (update_time now n.hub.control.clock).network_time) (
        Node.send_info include_dead (Node.info subscribed published own n.name n.port n.registry)
          n.hub.control.known)

  -- node_impl::send_info
  unfoldable pub send_info : Bool → NodeImpl Doc → Option (NodeImpl Doc)
  unfolding place_all info_packets update_time
  send_info include_dead n =
      let control = record n.hub.control { clock = update_time now n.hub.control.clock } in
      elim (place_all n.roles n.mailman (info_packets include_dead n)
        (record n.hub { control = control })) [
          | none ↦ none
          | some hub ↦ some (record n { hub = hub })
        ]

  -- node_impl::join_daylite, where `opened` is what the transport's open returns and `p` the remote that
  -- is made then.
  unfoldable pub join_daylite :
      VoidResult → Peer → Mode → NodeImpl Doc → Option (VoidResult × NodeImpl Doc)
  unfolding attach send_info
  join_daylite (fail m c) p mode n = some (fail m c, n)
  join_daylite (ok a m c) p mode n =
      let joined = with_links (attach p (links_of n)) n in
      let post : Post = record { topic = any; role = remote p.link mode } in
      elim (send_info false (record joined { roles = (p.box, post) ∷ n.roles })) [
        | none ↦ none
        | some n' ↦ some (done, n')
      ]

  -- node_impl::server_connection; such a remote lets internal packets through.
  unfoldable pub server_connection : VoidResult → Peer → NodeImpl Doc → Option (NodeImpl Doc)
  unfolding join_daylite
  server_connection opened p n = elim (join_daylite opened p allow_internal n) [
    | none ↦ none
    | some (r, n') ↦ some n'
  ]

  -- node_impl::server_disconnection, which destroys the remotes on the socket.
  unfoldable pub server_disconnection : ℕ → NodeImpl Doc → Option (NodeImpl Doc)
  unfolding Peers.server_disconnection send_info drop_roles
  server_disconnection socket n = elim (Peers.server_disconnection socket (links_of n)) [
    | none ↦ none
    | some l ↦
        send_info true (record (with_links l n) { roles = drop_roles socket n.remotes n.roles })
  ]

  -- node_impl::register_subscriber and register_publisher, each with its send_info.
  unfoldable pub register_subscriber : ℕ → NodeImpl Doc → Option (NodeImpl Doc)
  unfolding Node.register_subscriber send_info
  register_subscriber a n =
      send_info false (record n { registry = Node.register_subscriber subscribed a n.registry })

  unfoldable pub register_publisher : ℕ → NodeImpl Doc → Option (NodeImpl Doc)
  unfolding Node.register_publisher send_info
  register_publisher a n =
      send_info false (record n { registry = Node.register_publisher a n.registry })

  -- The constructor of subscriber_impl for an object at the address `a` with its mailbox at `box`: the node
  -- registers it and sends its infos, then its mailbox is registered.
  unfoldable pub subscribe : ℕ → ℕ → NodeImpl Doc → Option (NodeImpl Doc)
  unfolding register_subscriber enter
  subscribe a box n = elim (register_subscriber a n) [
    | none ↦ none
    | some n' ↦
        let s : Subscriber = record { topic = subscribed a; send_packed = false; husk = false } in
        some (record n' {
          mailman = enter n'.mailman s.topic box;
          roles = (box, record { topic = s.topic; role = subscribes s }) ∷ n'.roles;
        })
  ]

  -- So the constructor of publisher_impl.
  unfoldable pub advertise : ℕ → ℕ → NodeImpl Doc → Option (NodeImpl Doc)
  unfolding register_publisher enter
  advertise a box n = elim (register_publisher a n) [
    | none ↦ none
    | some n' ↦ some (record n' {
      mailman = enter n'.mailman (published a) box;
      roles = (box, record { topic = published a; role = publishes }) ∷ n'.roles;
    })
  ]

  abbrev without_box : ℕ → NodeImpl Doc → Option (ℕ × Mailman) → Option (NodeImpl Doc)
  without_box box n none = none
  without_box box n (some (found, m)) =
      some (record n { mailman = m; roles = remove ℕ_discrete box n.roles })

  -- subscriber_impl::set_husk, and so ~subscriber_impl, of one that is no husk.
  unfoldable pub unsubscribe : ℕ → ℕ → NodeImpl Doc → Option (NodeImpl Doc)
  unfolding Node.unregister_subscriber leave remove ℕ_discrete
  unsubscribe a box n =
      without_box box (record n { registry = Node.unregister_subscriber subscribed a n.registry })
        (leave n.mailman (subscribed a) box)

  -- ~publisher_impl of one that is no husk.
  unfoldable pub unadvertise : ℕ → ℕ → NodeImpl Doc → Option (NodeImpl Doc)
  unfolding Node.unregister_publisher leave remove ℕ_discrete
  unadvertise a box n =
      without_box box (record n { registry = Node.unregister_publisher a n.registry })
        (leave n.mailman (published a) box)

  -- What the mailbox at the address `box` places as outgoing mail, as publish does.
  unfoldable pub place : ℕ → Packet Doc → NodeImpl Doc → Option (NodeImpl Doc)
  unfolding relay
  place box p n = elim (relay b code own now n.roles n.mailman box p n.hub) [
    | none ↦ none
    | some (h, r) ↦ some (record n { hub = h })
  ]

  -- remote_node::spin_update of the remote with that mailbox, for at most as many rounds.
  unfoldable pub spin_remote : ℕ → ℕ → NodeImpl Doc → Option (NodeImpl Doc)
  unfolding find_remote set_ids take_mail
  spin_remote rounds box n = elim (find_remote box n.remotes) [
    | none ↦ some n
    | some p ↦
        elim (take_mail b code own now rounds n.roles n.mailman p.box p.link p.associated_ids
          n.hub) [
            | none ↦ none
            | some (ids, h) ↦ some (record n { remotes = set_ids p.box ids n.remotes; hub = h })
          ]
  ]

  -- A round of the thread's loop, whose sockets have the answers given.
  unfoldable pub thread_round : (ℕ → Weather Doc) → NodeImpl Doc → NodeImpl Doc
  unfolding pass_all
  thread_round w n = record n { hub = record n.hub { buffers = (pass_all w n.hub.buffers).1 } }
