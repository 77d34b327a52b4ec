-- ===== src/Peers.antt =====
-- The links of a node, in libdaylite/src/node_impl.cpp: join_daylite, server_connection and
-- server_disconnection, with the constructor and shutdown of remote_node.cpp. The messages that the
-- node sends at the end of these are not part of it.
pub mod Linked
pub mod Departure
pub mod History
mod Tests
use daylite.Prelude.{
  ℕ, Bool, true, false, Option, none, some, List, [], ◌∷◌, ◌++◌, ◌==◌, ◌&&◌, if◌then◌else◌,
}
use daylite.Outcome.{VoidResult, ok, fail}
use daylite.Topic.{any}
use daylite.Thread.{Buffers, add_socket, remove_socket}
use daylite.Mail.{Mailman, enter, leave}
use daylite.Node.{Known, bury_all}

-- A remote node: `box` is the address of the mailbox that it is, `link` that of its transport, and
-- `socket` that of the transport's socket.
pub record Peer : Type 0 where
  pub box : ℕ
  pub link : ℕ
  pub socket : ℕ
  pub associated_ids : List ℕ

pub record Links (Doc : Type 0) : Type 0 where
  pub remotes : List Peer
  pub buffers : Buffers Doc
  pub mailman : Mailman
  pub known : Known

-- The loop of node_impl::spin_update: the remotes whose transport has no socket leave the mailman.
unfoldable pub drop_unlinked : (Peer → Bool) → List Peer → Mailman → Option (List Peer × Mailman)
unfolding leave
drop_unlinked has_socket [] m = some ([], m)
drop_unlinked has_socket (p ∷ ps) m = elim (has_socket p) [
  | true ↦ elim (drop_unlinked has_socket ps m) [
    | none ↦ none
    | some (kept, m') ↦ some (p ∷ kept, m')
  ]
  | false ↦ elim (leave m any p.box) [
    | none ↦ none
    | some (found, m') ↦ drop_unlinked has_socket ps m'
  ]
]

module _ {Doc : Type 0} where
  -- The constructor of remote_node, and its registration. The result of add_socket is not looked at.
  unfoldable pub attach : Peer → Links Doc → Links Doc
  unfolding add_socket enter
  attach p n = record n {
    remotes = n.remotes ++ p ∷ [];
    buffers = (add_socket n.buffers p.link).1;
    mailman = enter n.mailman any p.box;
  }

  -- `opened` is what the transport's `open` returns.
  unfoldable pub join_daylite : VoidResult → Peer → Links Doc → VoidResult × Links Doc
  unfolding attach
  join_daylite (fail m c) p n = (fail m c, n)
  join_daylite (ok a m c) p n = (ok true "" 0, attach p n)

  unfoldable pub server_connection : VoidResult → Peer → Links Doc → Links Doc
  unfolding attach
  server_connection (fail m c) p n = n
  server_connection (ok a m c) p n = attach p n

  -- remote_node::shutdown, whose result is only printed. The transport is destroyed too, and closes its
  -- socket: in the loss of a socket the server deletes it only afterwards, and Gateway has what stop does.
  unfoldable pub shutdown : Peer → Buffers Doc → Buffers Doc
  unfolding remove_socket
  shutdown p buffers = (remove_socket buffers p.link).1

  -- One remote that goes: it leaves the mailman, what its nodes announced is taken back, and shutdown
  -- takes its link from the thread.
  unfoldable pub detach : Peer → Links Doc → Option (Links Doc)
  unfolding leave bury_all shutdown
  detach p n = elim (leave n.mailman any p.box) [
    | none ↦ none
    | some (found, m) ↦ some (record n {
      mailman = m;
      known = bury_all p.associated_ids n.known;
      buffers = shutdown p n.buffers;
    })
  ]

  abbrev pub keep_first : Peer → Option (List Peer × Links Doc) → Option (List Peer × Links Doc)
  keep_first p none = none
  keep_first p (some (ps, n)) = some (p ∷ ps, n)

  -- The loop of server_disconnection over the remotes given: those that stay.
  unfoldable pub drop_socket : ℕ → List Peer → Links Doc → Option (List Peer × Links Doc)
  unfolding detach
  drop_socket socket [] n = some ([], n)
  drop_socket socket (p ∷ ps) n = elim (p.socket == socket) [
    | false ↦ keep_first p (drop_socket socket ps n)
    | true ↦ elim (detach p n) [ none ↦ none | some n' ↦ drop_socket socket ps n' ]
  ]

  unfoldable pub server_disconnection : ℕ → Links Doc → Option (Links Doc)
  unfolding drop_socket
  server_disconnection socket n = elim (drop_socket socket n.remotes n) [
    | none ↦ none
    | some (ps, n') ↦ some (record n' { remotes = ps })
  ]

  -- node_impl::spin_update. The flag says whether the program ends.
  unfoldable pub spin_update : (Peer → Bool) → Bool → Bool → Links Doc → Option (Bool × Links Doc)
  unfolding drop_unlinked
  spin_update has_socket auto_exit should_exit n =
      elim (drop_unlinked has_socket n.remotes n.mailman) [
        | none ↦ none
        | some (ps, m) ↦ some (auto_exit && should_exit, record n { remotes = ps; mailman = m })
      ]
