-- ===== src/Lib.antt =====
-- A model of libdaylite, the library by which the nodes of a daylite network publish and subscribe to
-- topics, and the theorems that hold of it.
--
-- The parts, from the wire upwards. A tcp_input_channel and a tcp_output_channel (Channel) cut a byte
-- stream into BSON documents and back; packet (Packet) is such a document with its meta. The
-- tcp_thread (Thread) moves packets between the sockets and one pair of queues for each transport,
-- where droppable packets are throttled by the "firehose" sets. A mailman (Mail) hands a packet to the
-- mailboxes of its topic. A remote_node (Remote) is the mailbox that stands for a peer: it stamps what
-- it sends with its node's id and lets in what this node has not had. The node_impl (Node) keeps the
-- infos of the other nodes, the counters of their subscriptions, and its own subscribers and
-- publishers (Endpoint), and a clock that follows the others (Clock). The tcp_server (Server) accepts
-- the peers' sockets (Socket), a tcp_transport (Transport) holds one, and the node keeps a remote for
-- each (Peers). The spinner (Spinner) calls all that have something to do in turn. With SPLAT_ENABLED, nodes
-- of one machine pass droppable packets through shared files (Splat, Neighborhood). Hub puts the mailman,
-- the remotes, the thread, the node and its subscribers together.
--
-- Files, with the code that they are about (below libdaylite/):
--   Buffer    src/dynamic_circular_buffer.cpp: Buffer is the class, one function per method; Slices and
--             Window describe the array, Bounds the invariant, Refine, Growth and Script the theorems.
--   Outcome   include/daylite/result.hpp: Result, success, failure, to_void_result. Slot is
--             include/daylite/option.hpp, Lives about the objects that options hold.
--   Channel   src/tcp_output_channel.cpp (Output) and src/tcp_input_channel.cpp (Input); Stream is one
--             read, Drain a client that goes on reading.
--   Topic     src/topic.cpp and topic.hpp.
--   Packet    src/packet.cpp, msgs/meta.bsonbind: parse and make are constructors, build the method;
--             Bson is the interface of libbson and of the code that bsonbind generates, and Sample an
--             instance for the examples.
--   Thread    src/tcp_thread.cpp: pop_in is next and push_out is send on one buffer, pass a round of
--             run; Firehose is about the sets, Named about histories in which they
--             are used, Delivery about histories of calls, Sleep about the pause,
--             Parts what a pass is made of, Loop the whole thread and Sockets what one socket
--             sees of it.
--   Mail      src/mailman.cpp and mailbox.cpp: enter and leave are the table's part of register_mailbox
--             and unregister_mailbox, recipients whom send reaches.
--   Node      src/node_impl.cpp, msgs/node_info.bsonbind: receive_info is the callback of the node's
--             mailbox, bury what server_disconnection does to an info; Gossip is about the infos that nodes
--             pass on, Control the whole callback.
--   Remote    src/remote_node.cpp: send, and spin_update over the packets that the thread has.
--   Clock     src/node_impl.cpp, update_time and operator >: the network time. Windows is
--             src_win/win_sys_time.c.
--   Endpoint  src/publisher_impl.cpp and src/subscriber_impl.cpp: Journal follows a message from one node
--             to another, Lifetime what the life of an object does to its node, Service src/service_impl.cpp.
--   Peers     src/node_impl.cpp, join_daylite, server_connection and server_disconnection, with the
--             constructor and shutdown of src/remote_node.cpp: Linked is the invariant of the links,
--             Departure the loss of a socket, History any sequence of these.
--   Spinner   src/spinner_impl.cpp: Rounds is a pass of spin_once, Waiting the spinetts that are made and
--             destroyed.
--   Transport src/tcp_transport.cpp, and what src/tcp_server.cpp does to a socket that is lent: Life is
--             about the pointer to the socket.
--   Server    src/tcp_server.cpp: Notices is what its listeners are told.
--   Socket    src/tcp_socket.cpp on Linux, over the answers of the system: Modes is about blocking,
--             Addresses about host names and ports.
--   Gateway   src/node_impl.cpp, start, stop and the service of the gateway: Servers is about starts and
--             stops of the service, Stopping about stop and the sockets that it deletes.
--   Crc       src/crc.cpp and crc.h: Bitwise is about the table, Errors about the checksums of messages
--             that differ.
--   Splat     src/splat.cpp: Names has the files and their names, Bounds what a call does to a file,
--             Registers the register that a publisher and a reader keep, Refine and Sharing the proofs.
--   Neighborhood  the code of src/node_impl.cpp and src/remote_node.cpp under SPLAT_ENABLED: Opened is
--             about the splats that a node reads, Delivery a packet's way, Loss what gets lost, Sending
--             about remote_node::send.
--   Document  include/daylite/bson.hpp and src/bson.cpp, the objects that share a document of libbson:
--             Script is a program's calls, Sharing a step against the counts, Ownership any program.
--   Hub       a whole node, whose mailboxes work on one state: remote_mail, own_mail and subscriber_mail are
--             what the callbacks of src/remote_node.cpp, src/node_impl.cpp and src/subscriber_impl.cpp do to
--             it, relay is what a mailbox's place_outgoing_mail comes to, and take_mail is spin_update of
--             a remote. Whole has the node with its links: the constructor, send_info, join_daylite,
--             server_connection, server_disconnection, register_subscriber and register_publisher with
--             their send_info, and the constructors and destructors of subscribers and publishers. Wired is the invariant of
--             the mailboxes, Steps and Shares follow a packet from one to the next, Relay and Heard say
--             whom it reaches, Attached and Added are about mailboxes that are added, Announcing and Joining
--             about what a node says on its links, Hearing and Meeting about what the other one makes of it,
--             Kept, Leaving, Sound, Living and Closing about what the operations keep, History about any
--             sequence of them.
--   Programs  the programs around the library, daylited/src/daylightd.cpp and tools/listen/listen.cpp
--             beside libdaylite/, and examples/daylite_pub.cpp and daylite_sub.cpp, with src/util.cpp:
--             Library is what they call, loop their loop, where a signal comes or not before each test of
--             the flag; Exits is about when they end.
--   Prelude   names and lemmas that the others share: Tests are Boolean tests, Lists and Assoc lists
--             and association lists, Bits the bits of numbers.
--
-- Conventions. Integers are natural numbers with the wrap-around of their type written out (% 2 ^ 32 for
-- a uint32_t). A failed assertion, a null pointer that is followed and a copy past an array's end are
-- `none`. Objects are named by their addresses. The name that
-- tcp_thread looks up in a firehose set is read through a reference that dangles, so pop_in_by, push_out_by
-- and push_in_by take what the read gives; pop_in, push_out and push_in, which the other parts use, are
-- these where it still gives the topic's name. An unordered_map is an association list, so its order of
-- iteration is one of those possible. Sockets and the callbacks of other code are lists of their results
-- or functions that the definitions take. The mutexes of tcp_thread make each of its functions
-- one step, and, of the visit of a buffer by run, the flush and each packet that is read, so that a
-- history is a sequence of these steps.
--
-- Bounds and fuel. tcp_output_channel::write loops until all bytes are sent: the model runs over the
-- results of the sends, and is `none` where they end before the loop does. read_in makes the hundred
-- rounds of the code's loop. drain takes a number of reads, and its theorem gives one that is enough.
-- take_mail takes a number of rounds, and one more than the packets in the queue is enough.
-- A program's loop runs over the signals that come, and is `none` where they end before one has come.
-- Everything else is structural recursion.
--
-- Not modelled: tcp_socket on Windows; the rate, which nothing uses, and the macros of assert.hpp;
-- printing, and threads but for the steps named above; the random id of a node.
pub mod Prelude
pub mod Buffer
pub mod Outcome
pub mod Channel
pub mod Topic
pub mod Packet
pub mod Thread
pub mod Mail
pub mod Node
pub mod Remote
pub mod Spinner
pub mod Transport
pub mod Server
pub mod Clock
pub mod Endpoint
pub mod Peers
pub mod Socket
pub mod Gateway
pub mod Crc
pub mod Splat
pub mod Neighborhood
pub mod Document
pub mod Hub
pub mod Programs
