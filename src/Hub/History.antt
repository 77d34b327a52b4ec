-- ===== src/Hub/History.antt =====
-- A node from its constructor on, in any history of what happens to it.
use daylite.Prelude.{ℕ, ◌≡◌, refl, Option, none, some, List, [], ◌∷◌, String, ℕ_discrete}
use daylite.Prelude.Assoc.{lookup}
use daylite.Outcome.{VoidResult}
use daylite.Packet.{NetworkTime, Meta, Packet, Bson}
use daylite.Thread.{Weather}
use daylite.Remote.{Mode}
use daylite.Peers.{Peer}
use daylite.Hub.{InfoCode}
use daylite.Hub.Whole.{
  unsubscribe, unadvertise, NodeImpl, constructed, join_daylite, server_connection,
  server_disconnection, subscribe, advertise, place, spin_remote, thread_round,
}
use daylite.Hub.Wired.{later-IsWired}
use daylite.Hub.Sound.{IsFree, IsSound, place-IsSound, spin_remote-IsSound, thread_round-IsSound}
use daylite.Hub.Closing.{IsHeld, unsubscribe-IsSound, unadvertise-IsSound}
use daylite.Hub.Living.{
  constructed-IsSound, join_daylite-IsSound, server_connection-IsSound,
  server_disconnection-IsSound, subscribe-IsSound, advertise-IsSound,
}

-- What happens to a node: it joins another, with what open returns and the remote that is made; its server
-- accepts a socket, or loses one; a client subscribes or advertises, and ends that, with the addresses of
-- the object and of its mailbox; a mailbox places a packet; a remote is updated, for at most so many
-- packets; the thread makes a round.
pub data Event (Doc : Type 0) : Type 0 where
  joins : VoidResult → Peer → Mode → Event Doc
  accepts : VoidResult → Peer → Event Doc
  loses : ℕ → Event Doc
  subscribes_at advertises_at : ℕ → ℕ → Event Doc
  unsubscribes unadvertises : ℕ → ℕ → Event Doc
  places : ℕ → Packet Doc → Event Doc
  spins : ℕ → ℕ → Event Doc
  passes : (ℕ → Weather Doc) → Event Doc

module _ (b : Bson) (code : InfoCode b.Doc) (own : ℕ) (blank : Meta)
    (subscribed published : ℕ → String) (me : ℕ) where
  open b use {Doc}

  -- What the event, at the time, leaves of the node.
  unfoldable pub happen : NetworkTime → Event Doc → NodeImpl Doc → Option (NodeImpl Doc)
  unfolding join_daylite server_connection server_disconnection subscribe advertise unsubscribe
      unadvertise place spin_remote thread_round
  happen now (joins opened p mode) n =
      elim (join_daylite b code own blank subscribed published me now opened p mode n) [
        | none ↦ none
        | some (r, n') ↦ some n'
      ]
  happen now (accepts opened p) n =
      server_connection b code own blank subscribed published me now opened p n
  happen now (loses socket) n =
      server_disconnection b code own blank subscribed published me now socket n
  happen now (subscribes_at a box) n =
      subscribe b code own blank subscribed published me now a box n
  happen now (advertises_at a box) n =
      advertise b code own blank subscribed published me now a box n
  happen now (unsubscribes a box) n =
      unsubscribe b code own blank subscribed published me now a box n
  happen now (unadvertises a box) n =
      unadvertise b code own blank subscribed published me now a box n
  happen now (places box p) n = place b code own blank subscribed published me now box p n
  happen now (spins rounds box) n =
      spin_remote b code own blank subscribed published me now rounds box n
  happen now (passes w) n = some (thread_round b code own blank subscribed published me now w n)

  unfoldable pub history : List (NetworkTime × Event Doc) → NodeImpl Doc → Option (NodeImpl Doc)
  unfolding happen
  history [] n = some n
  history ((now, e) ∷ es) n = elim (happen now e n) [ none ↦ none | some n' ↦ history es n' ]

  -- A mailbox that is made has an address, an id and, for a remote, a link of its own; the mailbox of an
  -- object that goes is registered.
  abbrev pub IsFitting : Event Doc → NodeImpl Doc → Type 0
  IsFitting (joins opened p mode) n =
      IsFree p.box n × (lookup ℕ_discrete p.link n.hub.buffers ≡ none)
  IsFitting (accepts opened p) n = IsFree p.box n × (lookup ℕ_discrete p.link n.hub.buffers ≡ none)
  IsFitting (loses socket) n = Unit {0}
  IsFitting (subscribes_at a box) n = IsFree box n
  IsFitting (advertises_at a box) n = IsFree box n
  IsFitting (unsubscribes a box) n = IsHeld (subscribed a) box n
  IsFitting (unadvertises a box) n = IsHeld (published a) box n
  IsFitting (places box p) n = Unit {0}
  IsFitting (spins rounds box) n = Unit {0}
  IsFitting (passes w) n = Unit {0}

  abbrev pub AreFitting : List (NetworkTime × Event Doc) → NodeImpl Doc → Type 0
  AreFitting [] n = Unit {0}
  AreFitting ((now, e) ∷ es) n =
      IsFitting e n × ((n' : NodeImpl Doc) → happen now e n ≡ some n' → AreFitting es n')

  later-IsSound :
      (now now' : NetworkTime) (n : NodeImpl Doc)
      → IsSound b code own now n
      → IsSound b code own now' n
  later-IsSound now now' n v = record {
    kept = record {
      wired = later-IsWired b code own now now' n.roles n.mailman n.hub v.kept.wired;
      tallied = v.kept.tallied;
    };
    linked = v.linked;
    posted = v.posted;
  }

  happen-IsSound :
      (now : NetworkTime) (e : Event Doc) (n : NodeImpl Doc)
      → IsSound b code own now n
      → IsFitting e n
      → (n' : NodeImpl Doc) × (happen now e n ≡ some n') × IsSound b code own now n'
  unfolding happen
  happen-IsSound now (joins opened p mode) n v (free, unwatched) =
      let (r, n', e, w) =
        join_daylite-IsSound b code own now blank subscribed published me opened p mode n v free
          unwatched in
      (n', rw (e, happen) refl, w)
  happen-IsSound now (accepts opened p) n v (free, unwatched) =
      server_connection-IsSound b code own now blank subscribed published me opened p n v free
        unwatched
  happen-IsSound now (loses socket) n v fits =
      server_disconnection-IsSound b code own now blank subscribed published me socket n v
  happen-IsSound now (subscribes_at a box) n v free =
      subscribe-IsSound b code own now blank subscribed published me a box n v free
  happen-IsSound now (advertises_at a box) n v free =
      advertise-IsSound b code own now blank subscribed published me a box n v free
  happen-IsSound now (unsubscribes a box) n v held =
      unsubscribe-IsSound b code own now blank subscribed published me a box n v held
  happen-IsSound now (unadvertises a box) n v held =
      unadvertise-IsSound b code own now blank subscribed published me a box n v held
  happen-IsSound now (places box p) n v fits =
      place-IsSound b code own now blank subscribed published me box p n v
  happen-IsSound now (spins rounds box) n v fits =
      spin_remote-IsSound b code own now blank subscribed published me rounds box n v
  happen-IsSound now (passes w) n v fits =
      (_, refl, thread_round-IsSound b code own now blank subscribed published me w n v)

  history-IsSound :
      (now : NetworkTime) (es : List (NetworkTime × Event Doc)) (n : NodeImpl Doc)
      → IsSound b code own now n
      → AreFitting es n
      → (n' : NodeImpl Doc) × (history es n ≡ some n') × IsSound b code own now n'
  unfolding history
  history-IsSound now [] n v fits = (n, refl, v)
  history-IsSound now ((at, e) ∷ es) n v (fits, later) =
      let (n1, f, w) = happen-IsSound at e n (later-IsSound now at n v) fits in
      let (n', g, x) = history-IsSound now es n1 (later-IsSound at now n1 w) (later n1 f) in
      (n', rw (f, history) g, x)

  -- Over any history of a node from its constructor, in which each mailbox that is made has a new address
  -- and an id that no registered one has, each remote a link that the thread does not watch, and each
  -- object that goes its mailbox in the mailman, every operation ends, no assertion fails and no null
  -- pointer is followed; and then each registered mailbox is one of the node's and stands under its topic,
  -- each remote stands in the mailman under its own id, with a link of its own that the thread watches,
  -- and the counters are those of the latest infos.
  pub history-constructed :
      (name : String) (start now : NetworkTime) (es : List (NetworkTime × Event Doc))
      → AreFitting es (constructed name me start)
      → (n' : NodeImpl Doc) × (history es (constructed name me start) ≡ some n')
        × IsSound b code own now n'
  history-constructed name start now es fits =
      history-IsSound now es (constructed name me start)
        (constructed-IsSound b code own now name me start) fits
