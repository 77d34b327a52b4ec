-- ===== src/Hub/Sample.antt =====
-- Two nodes and their packets, which the examples use.
use daylite.Prelude.{
  ℕ, ◌≡◌, ◌≢◌, refl, false, true, Option, none, some, [], ◌∷◌, map, String, ℕ_discrete, arith,
}
use daylite.Prelude.Assoc.{lookup, put}
use daylite.Outcome.{done}
use text.Mathlib.TextEquality.{eq_iff}
use daylite.Topic.{any, Topic, internal}
use daylite.Packet.{NetworkTime, Meta, Packet, make, build, packed_of}
use daylite.Packet.RoundTrip.{parse-build}
use daylite.Packet.Sample.{SampleDoc, info_doc, sample, meta_of}
use daylite.Clock.{update_time}
use daylite.Thread.{SocketBuffer, fresh, add_socket, Weather}
use daylite.Mail.{Mailman, id32, boxes, enter}
use daylite.Node as Node
use daylite.Node.{NodeInfo, register_subscriber}
use daylite.Remote.{allow_internal, stamped}
use daylite.Peers.{Peer}
use daylite.Hub.{subscribes, InfoCode, remote, Roles, Hub}
use daylite.Hub.Whole.{NodeImpl, constructed, info_packet, info_packets, join_daylite}
use daylite.Hub.Wired.{IsWired, rewatch-IsWired}
use daylite.Hub.Added.{subscribe-IsWired, constructed-IsWired, constructed-entry, attach-IsWired}
use daylite.Hub.Joining.{join_announces}
use daylite.Endpoint.{Subscriber}
use daylite.Mail.Table.{boxes-enter}
use daylite.Hub.Sound.{IsFree}
use daylite.Hub.Meeting.{AreParsed}

abbrev pub blank_info : NodeInfo
blank_info = record {
  name = "";
  alive = false;
  id = 0;
  hosts = [];
  in_topics = [];
  splats = [];
  out_topics = [];
}

abbrev pub unbind_info : Option SampleDoc → Option NodeInfo
unbind_info (some (info_doc i)) = some i
unbind_info d = none

abbrev pub info_code : InfoCode SampleDoc
info_code = record {
  bind = info_doc;
  unbind = unbind_info;
  blank = blank_info;
  unbind-bind = λ i. refl;
}

abbrev pub blank : Meta
blank = meta_of "" false 0 []

abbrev pub noon : NetworkTime
noon = record { seconds = 12; microseconds = 0 }

abbrev pub topic_of : ℕ → String
topic_of a = "sonar"

-- A new node, and the remote of the link to the one that it joins.
abbrev pub alone : NodeImpl SampleDoc
alone = constructed "alone" 1 noon

abbrev pub gateway : Peer
gateway = record { box = 2; link = 20; socket = 200; associated_ids = [] }

pub alone-IsWired : IsWired sample info_code 7 noon alone.roles alone.mailman alone.hub
alone-IsWired = constructed-IsWired sample info_code 7 noon "alone" 1 noon

-- The other end: node 9 with a remote on link 30, which has read what node 7 queued.
abbrev pub host : NodeImpl SampleDoc
host = constructed "host" 1 noon

abbrev pub host_roles : Roles
host_roles = (2, record { topic = any; role = remote 30 allow_internal }) ∷ host.roles

abbrev pub own_info : NodeInfo
own_info = Node.info topic_of topic_of 7 "alone" none alone.registry

abbrev pub sent : Packet SampleDoc
sent = stamped sample 7 (
    info_packet sample info_code 7 blank topic_of topic_of 1 noon
      (update_time noon alone.hub.control.clock).network_time own_info)

abbrev pub read : Packet SampleDoc
read = record sent { local_only = true }

abbrev pub brought : SocketBuffer SampleDoc
brought = record fresh { inbox = read ∷ [] }

abbrev pub host_hub : Hub SampleDoc
host_hub = record host.hub { buffers = (30, brought) ∷ [] }

pub host-IsWired : IsWired sample info_code 9 noon host_roles (enter host.mailman any 2) host_hub
unfolding lookup ℕ_discrete add_socket put
host-IsWired =
    rewatch-IsWired sample info_code 9 noon host_roles (enter host.mailman any 2)
      (record host.hub { buffers = (30, fresh) ∷ [] }) host_hub
      (λ l q e. (brought, ground (arith, e)))
      (attach-IsWired sample info_code 9 noon host.roles 2 host.mailman host.hub
        (constructed-IsWired sample info_code 9 noon "host" 1 noon) (unfold constructed in refl) 30
        allow_internal (record host.hub { buffers = (30, fresh) ∷ [] }) (unfold constructed in refl)
        (unfold constructed in refl)).0

-- The document that goes over the wire.
abbrev pub wired : SampleDoc
wired = packed_of sample sent.meta sent.msg

pub sent-packed : sent.packed ≡ some wired
unfolding stamped build packed_of
sent-packed = refl

pub sent-AreParsed : AreParsed sample blank true (sent ∷ []) (read ∷ [])
unfolding build packed_of stamped info_packet make
sent-AreParsed = (wired, sent-packed, parse-build sample blank true sent wired refl, tt)

pub queued :
    info_packets sample info_code 7 blank topic_of topic_of 1 noon false alone
    ≡ info_packet sample info_code 7 blank topic_of topic_of 1 noon
        (update_time noon alone.hub.control.clock).network_time
        own_info
      ∷ []
unfolding info_packets Node.send_info Node.passed_on constructed
queued = refl

-- The host with a subscriber, whose mailbox is at 3, and a packet for it.
abbrev pub listener : Subscriber
listener = record { topic = "sonar"; send_packed = false; husk = false }

abbrev pub listening_roles : Roles
listening_roles = (3, record { topic = "sonar"; role = subscribes listener }) ∷ host_roles

abbrev pub listening : Mailman
listening = enter (enter host.mailman any 2) "sonar" 3

pub listening-IsWired : IsWired sample info_code 9 noon listening_roles listening host_hub
listening-IsWired =
    subscribe-IsWired sample info_code 9 noon host_roles 3 (enter host.mailman any 2) host_hub
      host-IsWired (unfold constructed lookup ℕ_discrete in refl) "sonar" listener

abbrev pub ping : Packet SampleDoc
ping = make sample blank "sonar" noon none false

pub ping-topic : ping.meta.topic ≢ any
unfolding make build
ping-topic e = cc ((eq_iff "sonar" any).1 e)

-- The host with its remote.
abbrev pub linked_host : NodeImpl SampleDoc
linked_host = record host { mailman = enter host.mailman any 2; roles = host_roles; hub = host_hub }

-- Sockets that take what is written and bring nothing.
abbrev pub calm : ℕ → Weather SampleDoc
calm s = record { can_write = true; can_read = true; reads = [] }

pub alone-boxes : (topic : Topic) → lookup ℕ_discrete (id32 2) (boxes alone.mailman topic) ≡ none
unfolding constructed boxes lookup put ℕ_discrete
alone-boxes topic = ground (arith, boxes-enter [] internal topic 1)

pub alone-IsFree : IsFree 2 alone
alone-IsFree = record { address = unfold constructed lookup ℕ_discrete in refl; id = alone-boxes }

-- What the join leaves of the new node, for the other end.
pub alone_joined :
    (n' : NodeImpl SampleDoc) × (join_daylite sample info_code 7 blank topic_of topic_of 1 noon done
        gateway allow_internal alone
      ≡ some (done, n'))
    × (lookup ℕ_discrete 20 n'.hub.buffers
        ≡ some (record fresh {
          outbox =
              map
                (stamped sample 7)
                (info_packets sample info_code 7 blank topic_of topic_of 1 noon false alone);
        }))
    × (n'.hub.control.known ≡ alone.hub.control.known)
    × IsWired sample info_code 7 noon n'.roles n'.mailman n'.hub
alone_joined =
    join_announces sample info_code 7 blank 1 noon topic_of topic_of gateway alone alone-IsWired
      (unfold constructed lookup ℕ_discrete in refl)
      (constructed-entry sample info_code 7 noon "alone" 1 noon)
      (unfold constructed lookup ℕ_discrete in refl) (unfold constructed lookup in refl)
      (λ e. absurd (omega arith))
