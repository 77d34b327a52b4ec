-- ===== src/Thread/Delivery.antt =====
-- A history of one `tcp_thread::buffer`: the calls of the node and the passes of the thread, in the
-- order in which the mutexes let them through. The mutex of a buffer is free between the parts of a
-- pass, so a pass that calls of the node interrupt is a flush and the packets that it reads.
use daylite.Prelude.{◌≡◌, List, [], ◌∷◌, ◌++◌, if◌then◌else◌, arith, append_assoc, append-nil}
use daylite.Packet.{Packet}
use daylite.Thread.{SocketBuffer, pop_in, push_out, push_in, flush, pass, Weather}
use daylite.Thread.Reliable.{
  reliable, listed, readable, reliable-append, reliable-nil, push_out-reliable, push_in-reliable,
  pass-reliable, flush-reliable, pop_in-reliable,
}

pub data Move (Doc : Type 0) : Type 0 where
  sends : Packet Doc → Move Doc
  nexts : Move Doc
  passes : Weather Doc → Move Doc
  flushes : Move Doc
  reads_in : Packet Doc → Move Doc

-- What came of a history: the packets handed to the socket, those handed to the node, and the buffer.
pub record Trace (Doc : Type 0) : Type 0 where
  pub wire : List (Packet Doc)
  pub popped : List (Packet Doc)
  pub buffer : SocketBuffer Doc

module _ {Doc : Type 0} where
  unfoldable pub run : SocketBuffer Doc → List (Move Doc) → Trace Doc
  run q [] = record { wire = []; popped = []; buffer = q }
  run q (sends p ∷ moves) = run (push_out q p) moves
  run q (nexts ∷ moves) =
      let rest = run (pop_in q).1 moves in
      record rest { popped = listed (pop_in q).0 ++ rest.popped }
  run q (passes w ∷ moves) =
      let rest = run (pass w q).1 moves in record rest { wire = (pass w q).0 ++ rest.wire }
  run q (flushes ∷ moves) =
      let rest = run (flush q).1 moves in record rest { wire = (flush q).0 ++ rest.wire }
  run q (reads_in p ∷ moves) = run (push_in q p) moves

  abbrev pub sent : List (Move Doc) → List (Packet Doc)
  sent [] = []
  sent (sends p ∷ moves) = p ∷ sent moves
  sent (nexts ∷ moves) = sent moves
  sent (passes w ∷ moves) = sent moves
  sent (flushes ∷ moves) = sent moves
  sent (reads_in p ∷ moves) = sent moves

  abbrev pub arrived : List (Move Doc) → List (Packet Doc)
  arrived [] = []
  arrived (sends p ∷ moves) = arrived moves
  arrived (nexts ∷ moves) = arrived moves
  arrived (passes w ∷ moves) = (if w.can_read then readable 100 w.reads else []) ++ arrived moves
  arrived (flushes ∷ moves) = arrived moves
  arrived (reads_in p ∷ moves) = p ∷ arrived moves

  -- Of the packets that are not droppable, those sent are those handed to `write` and then those
  -- still queued, in order, each as often; whatever was queued at the start goes first.
  pub run-outbox :
      (q : SocketBuffer Doc) (moves : List (Move Doc))
      → reliable q.outbox ++ reliable (sent moves)
        ≡ reliable (run q moves).wire ++ reliable (run q moves).buffer.outbox
  unfolding run
  run-outbox q [] = ground (arith, reliable-nil {Doc = Doc}, append-nil (reliable q.outbox))
  run-outbox q (sends p ∷ moves) = ground (
    arith,
    run-outbox (push_out q p) moves,
    push_out-reliable q p,
    reliable-append (p ∷ []) (sent moves),
    append_assoc (reliable q.outbox) (reliable (p ∷ [])) (reliable (sent moves)),
  )
  run-outbox q (nexts ∷ moves) = ground (arith, run-outbox (pop_in q).1 moves, pop_in-reliable q)
  run-outbox q (passes w ∷ moves) = ground (
    arith,
    run-outbox (pass w q).1 moves,
    pass-reliable w q,
    reliable-append (pass w q).0 (run (pass w q).1 moves).wire,
    append_assoc (reliable (pass w q).0) (reliable (pass w q).1.outbox) (reliable (sent moves)),
    append_assoc (reliable (pass w q).0) (reliable (run (pass w q).1 moves).wire)
        (reliable (run (pass w q).1 moves).buffer.outbox),
  )
  run-outbox q (flushes ∷ moves) = ground (
    arith,
    run-outbox (flush q).1 moves,
    flush-reliable q,
    reliable-append (flush q).0 (run (flush q).1 moves).wire,
    append_assoc (reliable (flush q).0) (reliable (flush q).1.outbox) (reliable (sent moves)),
    append_assoc (reliable (flush q).0) (reliable (run (flush q).1 moves).wire)
        (reliable (run (flush q).1 moves).buffer.outbox),
  )
  run-outbox q (reads_in p ∷ moves) =
      ground (arith, run-outbox (push_in q p) moves, push_in-reliable q p)

  -- Of the packets that are not droppable, those that are read are those that `next` handed to
  -- the node and then those still queued, in order, each as often; whatever was queued at the start
  -- goes first.
  pub run-inbox :
      (q : SocketBuffer Doc) (moves : List (Move Doc))
      → reliable q.inbox ++ reliable (arrived moves)
        ≡ reliable (run q moves).popped ++ reliable (run q moves).buffer.inbox
  unfolding run
  run-inbox q [] = ground (arith, reliable-nil {Doc = Doc}, append-nil (reliable q.inbox))
  run-inbox q (sends p ∷ moves) =
      ground (arith, run-inbox (push_out q p) moves, push_out-reliable q p)
  run-inbox q (nexts ∷ moves) = ground (
    arith,
    run-inbox (pop_in q).1 moves,
    pop_in-reliable q,
    reliable-append (listed (pop_in q).0) (run (pop_in q).1 moves).popped,
    append_assoc (reliable (listed (pop_in q).0)) (reliable (pop_in q).1.inbox)
        (reliable (arrived moves)),
    append_assoc (reliable (listed (pop_in q).0)) (reliable (run (pop_in q).1 moves).popped)
        (reliable (run (pop_in q).1 moves).buffer.inbox),
  )
  run-inbox q (passes w ∷ moves) = ground (
    arith,
    run-inbox (pass w q).1 moves,
    pass-reliable w q,
    reliable-append (if w.can_read then readable 100 w.reads else []) (arrived moves),
    append_assoc (reliable q.inbox) (reliable (if w.can_read then readable 100 w.reads else []))
        (reliable (arrived moves)),
  )
  run-inbox q (flushes ∷ moves) = ground (arith, run-inbox (flush q).1 moves, flush-reliable q)
  run-inbox q (reads_in p ∷ moves) = ground (
    arith,
    run-inbox (push_in q p) moves,
    push_in-reliable q p,
    reliable-append (p ∷ []) (arrived moves),
    append_assoc (reliable q.inbox) (reliable (p ∷ [])) (reliable (arrived moves)),
  )
