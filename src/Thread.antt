-- ===== src/Thread.antt =====
-- libdaylite/src/tcp_thread.cpp and .hpp: the queues between the node and its sockets. The mutexes
-- make each function one step, and, of a pass over one buffer, the flush and each packet that is
-- read. A transport is named by a number, and a packet is never null here: `next` returns `none` for
-- `packet()`.
pub mod Firehose
pub mod Reliable
pub mod Delivery
pub mod Named
pub mod Sleep
pub mod Parts
pub mod Loop
pub mod Sockets
mod Tests
use daylite.Prelude.{
  ℕ, zero, suc, ◌+◌, ◌%◌, ◌^◌, Bool, true, false, Option, none, some, List, [], ◌∷◌, ◌++◌, String,
  String-discrete, ite, if◌then◌else◌, length, max, ◌==◌, ◌/◌, ◌*◌, ◌≤◌, ◌<◌, ℕ_discrete,
}
use daylite.Prelude.Assoc.{lookup, put, remove}
use daylite.Outcome.{Result, ok, fail, VoidResult, done, failed}
use daylite.Packet.{Packet}

-- `std::unordered_set<std::string>`
unfoldable pub contains : String → List String → Bool
unfolding String-discrete
contains t [] = false
contains t (x ∷ s) = ite (String-discrete x t) true (contains t s)

unfoldable pub erase : String → List String → List String
unfolding String-discrete
erase t [] = []
erase t (x ∷ s) = ite (String-discrete x t) (erase t s) (x ∷ erase t s)

-- tcp_thread::buffer
pub record SocketBuffer (Doc : Type 0) : Type 0 where
  pub inbox : List (Packet Doc)
  pub in_firehose : List String
  pub outbox : List (Packet Doc)
  pub out_firehose : List String
  pub reject_out_count : ℕ

-- What a pass of `run` meets at one transport: whether there is an output channel, whether there is
-- an input channel after `update`, and what its reads return.
pub record Weather (Doc : Type 0) : Type 0 where
  pub can_write : Bool
  pub can_read : Bool
  pub reads : List (Result (Packet Doc))

-- `_buffers`, by transport.
abbrev pub Buffers : Type 0 → Type 0
Buffers Doc = List (ℕ × SocketBuffer Doc)

module _ {Doc : Type 0} where
  abbrev pub fresh : SocketBuffer Doc
  fresh = record {
    inbox = [];
    in_firehose = [];
    outbox = [];
    out_firehose = [];
    reject_out_count = 0;
  }

  -- `next` on the socket's buffer. `topic` returns a temporary, so that the name by which the set is
  -- searched is read through a dangling reference: `key` is what it gives for the packet.
  abbrev pub pop_in_by :
      (Packet Doc → String) → SocketBuffer Doc → Option (Packet Doc) × SocketBuffer Doc
  pop_in_by key q = elim q.inbox [
    | [] ↦ (none, q)
    | p ∷ rest ↦ (
      some p,
      record q {
        inbox = rest;
        in_firehose = if p.meta.droppable then erase (key p) q.in_firehose else q.in_firehose;
      },
    )
  ]

  -- `send` on the socket's buffer: a droppable packet goes in only if the set has no such name. The
  -- dangling reference is read twice: `sought` is what `find` reads, and `inserted` what `insert` does.
  abbrev pub push_out_by : String → String → SocketBuffer Doc → Packet Doc → SocketBuffer Doc
  push_out_by sought inserted q p =
      if p.meta.droppable
      then (if contains sought q.out_firehose
          then record q { reject_out_count = (q.reject_out_count + 1) % 2 ^ 32 }
          else record q { outbox = q.outbox ++ p ∷ []; out_firehose = inserted ∷ q.out_firehose })
      else record q { outbox = q.outbox ++ p ∷ [] }

  -- What `run` does with a packet that was read, with a name that dangles as in `send`.
  abbrev pub push_in_by : String → String → SocketBuffer Doc → Packet Doc → SocketBuffer Doc
  push_in_by sought inserted q p =
      if p.meta.droppable
      then (if contains sought q.in_firehose
          then q
          else record q { inbox = q.inbox ++ p ∷ []; in_firehose = inserted ∷ q.in_firehose })
      else record q { inbox = q.inbox ++ p ∷ [] }

  -- The three where every read through the dangling reference still gives the topic's name.
  unfoldable pub pop_in : SocketBuffer Doc → Option (Packet Doc) × SocketBuffer Doc
  unfolding erase
  pop_in q = pop_in_by (λ p. p.meta.topic) q

  unfoldable pub push_out : SocketBuffer Doc → Packet Doc → SocketBuffer Doc
  unfolding contains
  push_out q p = push_out_by p.meta.topic p.meta.topic q p

  unfoldable pub push_in : SocketBuffer Doc → Packet Doc → SocketBuffer Doc
  unfolding contains
  push_in q p = push_in_by p.meta.topic p.meta.topic q p

  -- What `run` does where the output channel is there: every packet is handed to `write`, whose
  -- result only changes what is printed. The first part is what was handed over.
  unfoldable pub flush : SocketBuffer Doc → List (Packet Doc) × SocketBuffer Doc
  flush q = (q.outbox, record q { outbox = []; reject_out_count = 0; out_firehose = [] })

  -- The count of the flush, a `uint16_t`.
  unfoldable pub out_count : SocketBuffer Doc → ℕ
  out_count q = (length q.outbox + q.reject_out_count) % 2 ^ 32 % 2 ^ 16

  -- The inner loop of `run`, `n` rounds of it: it ends at the first `read` that fails.
  unfoldable pub read_in : ℕ → List (Result (Packet Doc)) → SocketBuffer Doc → SocketBuffer Doc
  read_in zero reads q = q
  read_in (suc n) [] q = q
  read_in (suc n) (fail m c ∷ reads) q = q
  read_in (suc n) (ok p m c ∷ reads) q = read_in n reads (push_in q p)

  unfoldable pub pass_out : Bool → SocketBuffer Doc → List (Packet Doc) × SocketBuffer Doc
  unfolding flush
  pass_out true q = flush q
  pass_out false q = ([], q)

  unfoldable pub pass_in : Weather Doc → SocketBuffer Doc → SocketBuffer Doc
  unfolding read_in
  pass_in w q = if w.can_read then read_in 100 w.reads q else q

  -- One round of the outer loop of `run`, for one buffer.
  unfoldable pub pass : Weather Doc → SocketBuffer Doc → List (Packet Doc) × SocketBuffer Doc
  unfolding pass_out pass_in
  pass w q = let (wire, q') = pass_out w.can_write q in (wire, pass_in w q')

  unfoldable pub add_socket : Buffers Doc → ℕ → VoidResult × Buffers Doc
  unfolding lookup put ℕ_discrete
  add_socket bs s = elim (lookup ℕ_discrete s bs) [
    | some q ↦ (failed "Socket already watched by thread", bs)
    | none ↦ (done, put ℕ_discrete s fresh bs)
  ]

  unfoldable pub remove_socket : Buffers Doc → ℕ → VoidResult × Buffers Doc
  unfolding lookup remove ℕ_discrete
  remove_socket bs s = elim (lookup ℕ_discrete s bs) [
    | none ↦ (failed "Socket not found", bs)
    | some q ↦ (done, remove ℕ_discrete s bs)
  ]

  unfoldable pub next : Buffers Doc → ℕ → Option (Packet Doc) × Buffers Doc
  unfolding lookup put pop_in ℕ_discrete
  next bs s = elim (lookup ℕ_discrete s bs) [
    | none ↦ (none, bs)
    | some q ↦ let (p, q') = pop_in q in (p, put ℕ_discrete s q' bs)
  ]

  unfoldable pub send : Buffers Doc → ℕ → Packet Doc → VoidResult × Buffers Doc
  unfolding lookup put push_out ℕ_discrete
  send bs s p = elim (lookup ℕ_discrete s bs) [
    | none ↦ (failed "No such socket found", bs)
    | some q ↦ (done, put ℕ_discrete s (push_out q p) bs)
  ]

  unfoldable pub in_queue_count : Buffers Doc → ℕ
  in_queue_count [] = 0
  in_queue_count ((s, q) ∷ bs) = length q.inbox + in_queue_count bs

  unfoldable pub out_queue_count : Buffers Doc → ℕ
  out_queue_count [] = 0
  out_queue_count ((s, q) ∷ bs) = length q.outbox + out_queue_count bs

  -- One pass over all buffers, with what went out at each.
  unfoldable pub pass_all :
      (ℕ → Weather Doc) → Buffers Doc → List (ℕ × List (Packet Doc)) × Buffers Doc
  unfolding pass
  pass_all w [] = ([], [])
  pass_all w ((s, q) ∷ bs) =
      let (wires, bs') = pass_all w bs in
      ((s, (pass (w s) q).0) ∷ wires, (s, (pass (w s) q).1) ∷ bs')

  -- `in_packet_count` and `out_packet_count` after the pass: the last buffer's that sets them.
  unfoldable pub pass_counts : (ℕ → Weather Doc) → Buffers Doc → ℕ × ℕ → ℕ × ℕ
  unfolding pass out_count
  pass_counts w [] counts = counts
  pass_counts w ((s, q) ∷ bs) (i, o) =
      pass_counts w bs
        (length (pass (w s) q).1.inbox % 2 ^ 16, if (w s).can_write then out_count q else o)

-- The floating point of `update_sleep`: `blend a b` is a * 0.1 + b * 0.9 as a `uint16_t`. It is the
-- exact value rounded down, or one less where the exact value is whole.
pub record Blend : Type 0 where
  pub blend : ℕ → ℕ → ℕ
  pub blend_le : (a b : ℕ) → 10 * blend a b ≤ a + 9 * b
  pub lt_blend : (a b : ℕ) → a + 9 * b < 10 * blend a b + 20

-- tcp_thread::update_sleep, less the call of `usleep`.
unfoldable pub update_sleep : Blend → ℕ → ℕ → ℕ
update_sleep f sleep new_packet_count = f.blend (max temporal_packet_distance 1000) sleep
  where
    temporal_packet_distance : ℕ
    temporal_packet_distance = if new_packet_count == 0 then 5000 else sleep / new_packet_count
