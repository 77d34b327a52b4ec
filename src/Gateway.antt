-- ===== src/Gateway.antt =====
-- How a node starts and stops, in libdaylite/src/node_impl.cpp: start, gateway, the gateway's service,
-- and stop, whose parts for publishers, subscribers and remotes stand with those.
pub mod Stopping
pub mod Servers
mod Tests
use daylite.Prelude.{
  ℕ, Bool, true, false, Option, none, some, List, [], ◌∷◌, ◌++◌, map, String, ◌==◌, ◌||◌,
}
use daylite.Outcome.{VoidResult, ok, fail, done, failed}
use daylite.Thread.{Buffers}
use daylite.Node.{Registry}
use daylite.Server.{Server, open_server, close, add_tcp_server_listener, remove_tcp_server_listener}
use daylite.Peers.{Peer, Links, join_daylite, shutdown}
use daylite.Endpoint.{Home, husk_subscriber, stop_publishers}

-- `_server`. `lost` are the servers that `release` gave up, which nothing deletes, and `deleted` those
-- that an assignment to `_server` deleted.
pub record Gateway : Type 0 where
  pub server : Option Server
  pub lost : List Server
  pub deleted : List Server

-- What the three calls of tcp_server::open return.
pub record Opening : Type 0 where
  pub opened : VoidResult
  pub bound : VoidResult
  pub listening : VoidResult

abbrev fresh_server : Server
fresh_server = record { clients = []; listeners = []; is_open = false }

-- The old server, if there is one, is deleted when `_server` is assigned to: its destructor closes it.
abbrev replaced : Option Server → List Server → List Server
replaced none deleted = deleted
replaced (some s) deleted = (close s).1 ∷ deleted

-- node_impl::stop_gateway_service; `self` is the address of the node as a listener.
unfoldable pub stop_gateway_service : ℕ → Gateway → VoidResult × Gateway
unfolding close remove_tcp_server_listener
stop_gateway_service self g = elim g.server [
  | none ↦ (failed "Node not started", g)
  | some s ↦ (
    done,
    record g { server = none; lost = (close (remove_tcp_server_listener self s).1).1 ∷ g.lost },
  )
]

-- node_impl::start_gateway_service. The result of adding a listener is tested, and is a success.
unfoldable pub start_gateway_service : ℕ → Opening → Gateway → VoidResult × Gateway
unfolding open_server add_tcp_server_listener stop_gateway_service
start_gateway_service self o g =
    let made = open_server o.opened o.bound o.listening fresh_server in
    let g' = record g { server = some made.1; deleted = replaced g.server g.deleted } in
    elim made.0 [
      | fail m c ↦ (fail m c, record g' { server = none; lost = made.1 ∷ g.lost })
      | ok a m c ↦
          let added = add_tcp_server_listener self made.1 in
          let g'' = record g' { server = some added.1 } in
          elim added.0 [
            | fail n d ↦ (fail n d, (stop_gateway_service self g'').1)
            | ok b n d ↦ (done, g'')
          ]
    ]

unfoldable pub is_among : ℕ → List ℕ → Bool
is_among x [] = false
is_among x (y ∷ ys) = x == y || is_among x ys

unfoldable pub clients_of : List Server → List ℕ
clients_of [] = []
clients_of (s ∷ servers) = s.clients ++ clients_of servers

-- The sockets that the servers which were closed have deleted. A name is not used for two sockets.
unfoldable pub deleted_sockets : Gateway → List ℕ
unfolding clients_of
deleted_sockets g = clients_of g.lost ++ clients_of g.deleted

-- A node, as far as it starts and stops.
pub record Host (Doc : Type 0) : Type 0 where
  pub gateway : Gateway
  pub registry : Registry
  pub links : Links Doc

-- The loop of stop over the subscribers, each with its address and its mailbox's.
unfoldable pub husk_subscribers : (ℕ → String) → List (ℕ × ℕ) → Home → Option Home
unfolding husk_subscriber
husk_subscribers topic_of [] h = some h
husk_subscribers topic_of ((a, box) ∷ ss) h = elim (husk_subscriber topic_of a box false h) [
  | none ↦ none
  | some h' ↦ husk_subscribers topic_of ss h'
]

module _ {Doc : Type 0} where
  -- node_impl::start: the result of `gateway` is not looked at. `joined` is what the transport's `open`
  -- returns, and `p` the remote that is made.
  unfoldable pub start : ℕ → Opening → VoidResult → Peer → Host Doc → VoidResult × Host Doc
  unfolding start_gateway_service join_daylite
  start self o joined p h =
      let g = (start_gateway_service self o h.gateway).1 in
      let (ret, links) = join_daylite joined p h.links in
      (ret, record h { gateway = g; links = links })

  -- The loop of stop over the remotes. Shutdown takes the link from the thread and destroys the
  -- transport, whose close uses the socket: it dangles if a server has deleted it.
  unfoldable pub shutdown_all : List ℕ → List Peer → Buffers Doc → Option (Buffers Doc)
  unfolding shutdown is_among
  shutdown_all deleted [] buffers = some buffers
  shutdown_all deleted (p ∷ ps) buffers = elim (is_among p.socket deleted) [
    | true ↦ none
    | false ↦ shutdown_all deleted ps (shutdown p buffers)
  ]

  -- node_impl::stop. The objects of the registry are known by their topics and mailboxes. The loop over
  -- the subscribers is over those that there were at first, though set_husk erases from that vector.
  unfoldable pub stop :
      ℕ → (ℕ → String) → (ℕ → String) → (ℕ → ℕ) → Host Doc → Option (VoidResult × Host Doc)
  unfolding stop_gateway_service stop_publishers husk_subscribers shutdown_all deleted_sockets
  stop self subscribed published box_of h =
      let g = (stop_gateway_service self h.gateway).1 in
      let home : Home = record { registry = h.registry; mailman = h.links.mailman } in
      let publishers = map (λ a. (published a, a, box_of a)) h.registry.active_publishers in
      let subscribers = map (λ a. (a, box_of a)) h.registry.active_subscribers in
      elim (stop_publishers publishers home) [
        | none ↦ none
        | some home' ↦ elim (husk_subscribers subscribed subscribers home') [
          | none ↦ none
          | some home'' ↦ elim (shutdown_all (deleted_sockets g) h.links.remotes h.links.buffers) [
            | none ↦ none
            | some buffers ↦ some (
              done,
              record {
                gateway = g;
                registry = home''.registry;
                links = record h.links {
                  remotes = [];
                  buffers = buffers;
                  mailman = home''.mailman;
                };
              },
            )
          ]
        ]
      ]
