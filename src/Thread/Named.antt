-- ===== src/Thread/Named.antt =====
-- Histories of one `tcp_thread::buffer` in which each use of the firehose sets has its own name, as it
-- is read through the dangling reference `topic().name()`. A pass is a flush and the packets it reads.
use daylite.Prelude.{◌≡◌, List, [], ◌∷◌, String}
use daylite.Packet.{Packet}
use daylite.Thread.{
  SocketBuffer, pop_in_by, push_out_by, push_in_by, pop_in, push_out, push_in, flush,
}
use daylite.Thread.Firehose.{
  IsSound, push_out-IsSound, pop_in-IsSound, flush-IsSound, push_in-IsSound,
}

-- The names after a packet are what `find` reads and what `insert` reads.
pub data NamedMove (Doc : Type 0) : Type 0 where
  sends : Packet Doc → String → String → NamedMove Doc
  nexts : (Packet Doc → String) → NamedMove Doc
  flushes : NamedMove Doc
  reads_in : Packet Doc → String → String → NamedMove Doc

module _ {Doc : Type 0} where
  unfoldable pub move : SocketBuffer Doc → NamedMove Doc → SocketBuffer Doc
  unfolding flush
  move q (sends p sought inserted) = push_out_by sought inserted q p
  move q (nexts key) = (pop_in_by key q).1
  move q flushes = (flush q).1
  move q (reads_in p sought inserted) = push_in_by sought inserted q p

  unfoldable pub run_named : SocketBuffer Doc → List (NamedMove Doc) → SocketBuffer Doc
  unfolding move
  run_named q [] = q
  run_named q (m ∷ moves) = run_named (move q m) moves

  -- Every name that a move reads is that of the packet's topic.
  abbrev pub ReadsTopic : NamedMove Doc → Type 0
  ReadsTopic (sends p sought inserted) = (sought ≡ p.meta.topic) × (inserted ≡ p.meta.topic)
  ReadsTopic (nexts key) = (p : Packet Doc) → key p ≡ p.meta.topic
  ReadsTopic flushes = Unit {0}
  ReadsTopic (reads_in p sought inserted) = (sought ≡ p.meta.topic) × (inserted ≡ p.meta.topic)

  abbrev pub AllReadTopic : List (NamedMove Doc) → Type 0
  AllReadTopic [] = Unit {0}
  AllReadTopic (m ∷ moves) = ReadsTopic m × AllReadTopic moves

  move-IsSound :
      (q : SocketBuffer Doc) (m : NamedMove Doc) → ReadsTopic m → IsSound q → IsSound (move q m)
  unfolding move
  move-IsSound q (sends p sought inserted) (e, e') v =
      unfold push_out in rw (e, e') (push_out-IsSound q p v)
  move-IsSound q (nexts key) e v =
      let es : key ≡ (λ (p : Packet Doc). p.meta.topic) = λ i p. e p i in
      unfold pop_in in rw es (pop_in-IsSound q v)
  move-IsSound q flushes e v = flush-IsSound q v
  move-IsSound q (reads_in p sought inserted) (e, e') v =
      unfold push_in in rw (e, e') (push_in-IsSound q p v)

  -- Where every name that the history reads through a dangling reference is still that of the packet's
  -- topic, a sound buffer stays one: the firehose sets are exact, a topic has at most one droppable
  -- packet in each direction, and is in the set exactly while it has one.
  pub run_named-IsSound :
      (q : SocketBuffer Doc) (moves : List (NamedMove Doc))
      → AllReadTopic moves
      → IsSound q
      → IsSound (run_named q moves)
  unfolding run_named
  run_named-IsSound q [] e v = v
  run_named-IsSound q (m ∷ moves) (e, es) v =
      run_named-IsSound (move q m) moves es (move-IsSound q m e v)
