-- ===== src/Peers/History.antt =====
-- A history of a node's links: connections made and accepted, and sockets lost.
use daylite.Prelude.{ℕ, ◌≡◌, refl, Option, none, some, List, [], ◌∷◌}
use daylite.Outcome.{VoidResult, ok, fail}
use daylite.Mail.{id32}
use daylite.Peers.{Peer, Links, join_daylite, server_connection, server_disconnection}
use daylite.Peers.Linked.{Apart, IsLinked, attach-IsLinked}
use daylite.Peers.Departure.{server_disconnection-IsLinked}

pub data LinkEvent : Type 0 where
  joins accepts : VoidResult → Peer → LinkEvent
  loses : ℕ → LinkEvent

module _ {Doc : Type 0} where
  abbrev pub then_links : Option (Links Doc) → (Links Doc → Option (Links Doc)) → Option (Links Doc)
  then_links none f = none
  then_links (some n) f = f n

  unfoldable pub run_links : List LinkEvent → Links Doc → Option (Links Doc)
  run_links [] n = some n
  run_links (joins r p ∷ es) n = run_links es (join_daylite r p n).1
  run_links (accepts r p ∷ es) n = run_links es (server_connection r p n)
  run_links (loses socket ∷ es) n = then_links (server_disconnection socket n) (run_links es)

  -- Each remote that is made has an id that none of those there has.
  abbrev pub IsFresh : List LinkEvent → Links Doc → Type 0
  IsFresh [] n = Unit {0}
  IsFresh (joins r p ∷ es) n = Apart (id32 p.box) n.remotes × IsFresh es (join_daylite r p n).1
  IsFresh (accepts r p ∷ es) n = Apart (id32 p.box) n.remotes × IsFresh es (server_connection r p n)
  IsFresh (loses socket ∷ es) n =
      (n' : Links Doc) → server_disconnection socket n ≡ some n' → IsFresh es n'

  join_daylite-IsLinked :
      (r : VoidResult) (p : Peer) (n : Links Doc)
      → Apart (id32 p.box) n.remotes
      → IsLinked n
      → IsLinked (join_daylite r p n).1 × IsLinked (server_connection r p n)
  unfolding join_daylite server_connection
  join_daylite-IsLinked (fail m c) p n out v = (v, v)
  join_daylite-IsLinked (ok a m c) p n out v =
      (attach-IsLinked p n out v, attach-IsLinked p n out v)

  -- Over any history of connections, made or accepted or failed, and of sockets lost, in which every
  -- remote gets an id that no other one has at that time, no null pointer is followed and the links
  -- stay in order.
  pub run_links-IsLinked :
      (es : List LinkEvent) (n : Links Doc)
      → IsLinked n
      → IsFresh es n
      → (n' : Links Doc) × (run_links es n ≡ some n') × IsLinked n'
  unfolding run_links
  run_links-IsLinked [] n v h = (n, refl, v)
  run_links-IsLinked (joins r p ∷ es) n v h =
      run_links-IsLinked es (join_daylite r p n).1 (join_daylite-IsLinked r p n h.0 v).0 h.1
  run_links-IsLinked (accepts r p ∷ es) n v h =
      run_links-IsLinked es (server_connection r p n) (join_daylite-IsLinked r p n h.0 v).1 h.1
  run_links-IsLinked (loses socket ∷ es) n v h =
      let d = server_disconnection-IsLinked socket n v in
      let (n', e, w) = run_links-IsLinked es d.0 d.3 (h d.0 d.1) in (n', rw (d.1, run_links) e, w)
