-- ===== src/Gateway/Stopping.antt =====
-- What stop leaves of a node, and when it does not return.
use daylite.Prelude.{ℕ, ◌≡◌, ◌||◌, Bool, false, none, List, [], ◌∷◌, ℕ_discrete}
use daylite.Prelude.Assoc.{lookup}
use daylite.Thread.{Buffers}
use daylite.Peers.{Peer, shutdown}
use daylite.Gateway.{Host, stop_gateway_service, is_among, deleted_sockets}

-- Whether a remote is on one of the sockets.
unfoldable pub on_any : List ℕ → List Peer → Bool
unfolding is_among
on_any deleted [] = false
on_any deleted (p ∷ ps) = is_among p.socket deleted || on_any deleted ps

module _ {Doc : Type 0} where
  -- None of the remotes' links has a buffer.
  abbrev pub AllGone : List Peer → Buffers Doc → Type 0
  AllGone [] buffers = Unit {0}
  AllGone (p ∷ ps) buffers = (lookup ℕ_discrete p.link buffers ≡ none) × AllGone ps buffers

  -- What the thread has left once it has lost all the links.
  abbrev pub unwatched : List Peer → Buffers Doc → Buffers Doc
  unwatched [] buffers = buffers
  unwatched (p ∷ ps) buffers = unwatched ps (shutdown p buffers)

  -- What a node is once it has stopped.
  abbrev pub stopped : ℕ → Host Doc → Host Doc
  stopped self h = record h {
    gateway = (stop_gateway_service self h.gateway).1;
    links = record h.links {
      remotes = [];
      buffers = unwatched h.links.remotes h.links.buffers;
      mailman = [];
    };
  }

  -- Whether stop deletes, or has deleted, the socket of a remote.
  abbrev pub is_on_deleted : ℕ → Host Doc → Bool
  is_on_deleted self h =
      on_any (deleted_sockets (stop_gateway_service self h.gateway).1) h.links.remotes
