-- ===== src/Thread/Loop.antt =====
-- libdaylite/src/tcp_thread.cpp, run and exit: the thread with all its buffers, and the part
-- of a history that one socket sees. `_exit` stops the loop before the next round.
use daylite.Prelude.{
  ℕ, ◌==◌, Bool, true, false, not, ◌&&◌, none, some, List, [], ◌∷◌, ◌++◌, ℕ_discrete, if◌then◌else◌,
  max,
}
use daylite.Prelude.Assoc.{lookup, put}
use daylite.Packet.{Packet}
use daylite.Thread.{
  Buffers, Weather, Blend, flush, push_in, pass_all, pass_counts, add_socket, remove_socket, next,
  send, update_sleep,
}
use daylite.Thread.Delivery.{Move, sends, nexts, passes, flushes, reads_in}
use daylite.Thread.Reliable.{listed}

pub record TcpThread (Doc : Type 0) : Type 0 where
  pub buffers : Buffers Doc
  pub sleep : ℕ
  pub is_exiting : Bool

-- The calls of the node, each on a socket, and the rounds of the thread. A round that calls interrupt
-- is a flush and the packets read, for one socket after another.
pub data Act (Doc : Type 0) : Type 0 where
  sends_on : ℕ → Packet Doc → Act Doc
  takes_from : ℕ → Act Doc
  adds : ℕ → Act Doc
  removes : ℕ → Act Doc
  goes_round : (ℕ → Weather Doc) → Act Doc
  flushes_to : ℕ → Act Doc
  reads_from : ℕ → Packet Doc → Act Doc
  exits : Act Doc

-- What a step hands to the socket, and to the node.
pub record Step (Doc : Type 0) : Type 0 where
  pub wire : List (Packet Doc)
  pub popped : List (Packet Doc)
  pub after : TcpThread Doc

module _ {Doc : Type 0} where
  abbrev pub created : TcpThread Doc
  created = record { buffers = []; sleep = 10_000; is_exiting = false }

  -- A round of the loop of `run`, where the flag lets it begin.
  unfoldable pub round :
      Blend → (ℕ → Weather Doc) → TcpThread Doc → List (ℕ × List (Packet Doc)) × TcpThread Doc
  unfolding pass_all pass_counts update_sleep
  round f w t =
      let (i, o) = pass_counts w t.buffers (0, 0) in
      let (wires, bs) = pass_all w t.buffers in
      if t.is_exiting
      then ([], t)
      else (wires, record t { buffers = bs; sleep = update_sleep f t.sleep (max i o) })

  -- `exit`, which then waits for the round that is under way.
  unfoldable pub exit : TcpThread Doc → TcpThread Doc
  exit t = record t { is_exiting = true }

  -- The parts of a round, at one socket.
  unfoldable pub flush_to : Buffers Doc → ℕ → List (Packet Doc) × Buffers Doc
  unfolding lookup put flush ℕ_discrete
  flush_to bs r = elim (lookup ℕ_discrete r bs) [
    | none ↦ ([], bs)
    | some q ↦ ((flush q).0, put ℕ_discrete r (flush q).1 bs)
  ]

  unfoldable pub read_from : Buffers Doc → ℕ → Packet Doc → Buffers Doc
  unfolding lookup put push_in ℕ_discrete
  read_from bs r p = elim (lookup ℕ_discrete r bs) [
    | none ↦ bs
    | some q ↦ put ℕ_discrete r (push_in q p) bs
  ]

  abbrev pub wire_at : ℕ → List (ℕ × List (Packet Doc)) → List (Packet Doc)
  wire_at s wires = elim (lookup ℕ_discrete s wires) [ none ↦ [] | some ps ↦ ps ]

  -- A step, as the socket `s` sees it.
  unfoldable pub act : Blend → ℕ → Act Doc → TcpThread Doc → Step Doc
  unfolding send next add_socket remove_socket round flush_to read_from exit lookup ℕ_discrete
  act f s (sends_on r p) t = record {
    wire = [];
    popped = [];
    after = record t { buffers = (send t.buffers r p).1 };
  }
  act f s (takes_from r) t = record {
    wire = [];
    popped = if r == s then listed (next t.buffers r).0 else [];
    after = record t { buffers = (next t.buffers r).1 };
  }
  act f s (adds r) t = record {
    wire = [];
    popped = [];
    after = record t { buffers = (add_socket t.buffers r).1 };
  }
  act f s (removes r) t = record {
    wire = [];
    popped = [];
    after = record t { buffers = (remove_socket t.buffers r).1 };
  }
  act f s (goes_round w) t = record {
    wire = wire_at s (round f w t).0;
    popped = [];
    after = (round f w t).1;
  }
  act f s (flushes_to r) t = record {
    wire = if r == s then (flush_to t.buffers r).0 else [];
    popped = [];
    after = record t { buffers = (flush_to t.buffers r).1 };
  }
  act f s (reads_from r p) t = record {
    wire = [];
    popped = [];
    after = record t { buffers = read_from t.buffers r p };
  }
  act f s exits t = record { wire = []; popped = []; after = exit t }

  unfoldable pub watch : Blend → ℕ → List (Act Doc) → TcpThread Doc → Step Doc
  unfolding act
  watch f s [] t = record { wire = []; popped = []; after = t }
  watch f s (a ∷ acts) t =
      let now = act f s a t in
      let rest = watch f s acts now.after in
      record rest { wire = now.wire ++ rest.wire; popped = now.popped ++ rest.popped }

  -- The part of a step that is about the socket; a thread that exits makes no rounds.
  abbrev pub moves_at : ℕ → Bool → Act Doc → List (Move Doc)
  moves_at s stopped (sends_on r p) = if r == s then sends p ∷ [] else []
  moves_at s stopped (takes_from r) = if r == s then nexts ∷ [] else []
  moves_at s stopped (adds r) = []
  moves_at s stopped (removes r) = []
  moves_at s stopped (goes_round w) = if stopped then [] else passes (w s) ∷ []
  moves_at s stopped (flushes_to r) = if r == s then flushes ∷ [] else []
  moves_at s stopped (reads_from r p) = if r == s then reads_in p ∷ [] else []
  moves_at s stopped exits = []

  abbrev pub stops : Bool → Act Doc → Bool
  stops stopped exits = true
  stops stopped a = stopped

  abbrev pub moves_of : ℕ → Bool → List (Act Doc) → List (Move Doc)
  moves_of s stopped [] = []
  moves_of s stopped (a ∷ acts) = moves_at s stopped a ++ moves_of s (stops stopped a) acts

  -- No step removes the socket.
  abbrev pub keeps : ℕ → List (Act Doc) → Bool
  keeps s [] = true
  keeps s (removes r ∷ acts) = not (r == s) && keeps s acts
  keeps s (a ∷ acts) = keeps s acts
