-- ===== src/Thread/Tests.antt =====
-- The thread's queues at concrete inputs.
use daylite.Prelude.{
  ℕ, ◌+◌, ◌*◌, ◌/◌, ◌≡◌, ◌++◌, refl, Bool, true, false, none, some, List, [], ◌∷◌, String, arith,
  String-discrete, ℕ_discrete,
}
use daylite.Prelude.Assoc.{lookup}
use daylite.Outcome.{ok, fail}
use daylite.Packet.{Packet}
use daylite.Packet.Sample.{SampleDoc, meta_of}
use daylite.Thread.{
  Weather, Blend, fresh, contains, erase, pop_in, push_out, push_in, flush, read_in, pass_out,
  pass_in, pass,
}
use daylite.Thread.Firehose.{IsSound, fresh-IsSound}
use daylite.Thread.Delivery.{
  Move, sends, nexts, passes, flushes, reads_in, run, run-outbox, run-inbox, sent, arrived,
}
use daylite.Thread.Named
use daylite.Thread.Named.{NamedMove, move, run_named, run_named-IsSound}
use daylite.Thread.Reliable.{reliable}
use daylite.Thread.Loop.{
  TcpThread, Act, sends_on, takes_from, adds, removes, goes_round, flushes_to, reads_from, exits,
  watch, moves_of,
}
use daylite.Thread.Sockets.{watch-run}

abbrev packet : String → Bool → ℕ → Packet SampleDoc
packet topic droppable id = record {
  meta = meta_of topic droppable id [];
  msg = none;
  packed = none;
  local_only = false;
}

-- Two droppable packets of one topic arrive together, and then the connection breaks.
abbrev weather : Weather SampleDoc
weather = record {
  can_write = true;
  can_read = true;
  reads =
      ok (packet "a" true 1) "" 0
      ∷ ok (packet "b" false 2) "" 0
      ∷ ok (packet "a" true 3) "" 0
      ∷ fail "reset" 104
      ∷ [];
}

abbrev moves : List (Move SampleDoc)
moves =
    sends (packet "a" true 4)
    ∷ sends (packet "a" true 5)
    ∷ sends (packet "b" false 6)
    ∷ passes weather
    ∷ nexts
    ∷ sends (packet "a" true 7)
    ∷ []

-- The second droppable packet is lost each way, and the slots are free again after the pass.
run-moves : run fresh moves ≡ record {
  wire = packet "a" true 4 ∷ packet "b" false 6 ∷ [];
  popped = packet "a" true 1 ∷ [];
  buffer = record {
    inbox = packet "b" false 2 ∷ [];
    in_firehose = [];
    outbox = packet "a" true 7 ∷ [];
    out_firehose = "a" ∷ [];
    reject_out_count = 0;
  };
}
unfolding run push_out push_in pop_in pass pass_in pass_out flush read_in contains erase
    String-discrete
run-moves = refl

-- Droppable packets of a topic go both ways, and another one leaves the inward queue.
abbrev named_moves : List (NamedMove SampleDoc)
named_moves =
    Named.sends (packet "a" true 4) "a" "a"
    ∷ Named.reads_in (packet "a" true 1) "a" "a"
    ∷ Named.reads_in (packet "b" true 2) "b" "b"
    ∷ Named.flushes
    ∷ Named.nexts (λ p. p.meta.topic)
    ∷ Named.sends (packet "a" true 5) "a" "a"
    ∷ Named.sends (packet "a" true 6) "a" "a"
    ∷ []

run_named-named_moves : run_named fresh named_moves ≡ record {
  inbox = packet "b" true 2 ∷ [];
  in_firehose = "b" ∷ [];
  outbox = packet "a" true 5 ∷ [];
  out_firehose = "a" ∷ [];
  reject_out_count = 1;
}
unfolding run_named move flush contains erase String-discrete
run_named-named_moves = refl

run_named-IsSound_example : IsSound (run_named fresh named_moves)
run_named-IsSound_example =
    run_named-IsSound fresh named_moves
      (
        (refl, refl),
        ((refl, refl), ((refl, refl), (tt, ((λ p. refl), ((refl, refl), ((refl, refl), tt)))))),
      )
      fresh-IsSound

-- A name that is read after its memory was given back: two droppable packets of one topic are queued.
run_named_dangling :
    run_named fresh (
      Named.sends (packet "robot/telemetry/imu" true 4) "robot/telemetry/imu" ""
      ∷ Named.sends (packet "robot/telemetry/imu" true 5) "robot/telemetry/imu" ""
      ∷ [])
    ≡ record {
      inbox = [];
      in_firehose = [];
      outbox = packet "robot/telemetry/imu" true 4 ∷ packet "robot/telemetry/imu" true 5 ∷ [];
      out_firehose = "" ∷ "" ∷ [];
      reject_out_count = 0;
    }
unfolding run_named move contains String-discrete
run_named_dangling = refl

run-outbox_example :
    reliable fresh.outbox ++ reliable (sent moves)
    ≡ reliable (run fresh moves).wire ++ reliable (run fresh moves).buffer.outbox
run-outbox_example = run-outbox fresh moves

run-inbox_example :
    reliable fresh.inbox ++ reliable (arrived moves)
    ≡ reliable (run fresh moves).popped ++ reliable (run fresh moves).buffer.inbox
run-inbox_example = run-inbox fresh moves

-- The exact value, rounded down.
abbrev exact : Blend
exact = record {
  blend = λ a b. (a + 9 * b) / 10;
  blend_le = λ a b. omega arith;
  lt_blend = λ a b. omega arith;
}

-- Two sockets, of which the second is removed, a round with a call in between, and an exit before
-- the last round.
abbrev two_sockets : TcpThread SampleDoc
two_sockets = record { buffers = (1, fresh) ∷ (2, fresh) ∷ []; sleep = 10_000; is_exiting = false }

abbrev acts : List (Act SampleDoc)
acts =
    sends_on 1 (packet "a" true 4)
    ∷ sends_on 2 (packet "a" true 5)
    ∷ adds 3
    ∷ goes_round (λ s. weather)
    ∷ removes 2
    ∷ takes_from 1
    ∷ takes_from 2
    ∷ flushes_to 1
    ∷ sends_on 1 (packet "a" true 8)
    ∷ reads_from 1 (packet "a" true 9)
    ∷ exits
    ∷ sends_on 1 (packet "b" false 6)
    ∷ goes_round (λ s. weather)
    ∷ []

moves-acts :
    moves_of 1 false acts
    ≡ sends (packet "a" true 4)
      ∷ passes weather
      ∷ nexts
      ∷ flushes
      ∷ sends (packet "a" true 8)
      ∷ reads_in (packet "a" true 9)
      ∷ sends (packet "b" false 6)
      ∷ []
moves-acts = refl

watch-run_example :
    let seen = watch exact 1 acts two_sockets in
    let own = run fresh (moves_of 1 false acts) in
    (seen.wire ≡ own.wire)
    × (seen.popped ≡ own.popped)
    × (lookup ℕ_discrete 1 seen.after.buffers ≡ some own.buffer)
watch-run_example = watch-run exact 1 acts two_sockets fresh (unfold lookup ℕ_discrete in refl) refl
