-- ===== src/Thread/Parts.antt =====
-- A pass over a buffer that no call of the node interrupts, and its parts.
use daylite.Prelude.{ℕ, zero, suc, ◌≡◌, refl, true, List, [], ◌∷◌, map, arith}
use daylite.Outcome.{Result, ok, fail}
use daylite.Packet.{Packet}
use daylite.Thread.{SocketBuffer, Weather, push_in, flush, read_in, pass, pass_in, pass_out}
use daylite.Thread.Delivery.{passes, flushes, reads_in, run}
use daylite.Thread.Reliable.{readable}

module _ {Doc : Type 0} where
  parts-read_in :
      (n : ℕ) (reads : List (Result (Packet Doc))) (q : SocketBuffer Doc)
      → run q (map reads_in (readable n reads))
        ≡ record { wire = []; popped = []; buffer = read_in n reads q }
  unfolding run readable read_in
  parts-read_in zero reads q = refl
  parts-read_in (suc n) [] q = refl
  parts-read_in (suc n) (fail m c ∷ reads) q = refl
  parts-read_in (suc n) (ok p m c ∷ reads) q = parts-read_in n reads (push_in q p)

  -- Where both channels are there, a pass is a flush and the packets that it reads, one by one.
  pub pass-parts :
      (w : Weather Doc) (q : SocketBuffer Doc)
      → w.can_write ≡ true
      → w.can_read ≡ true
      → run q (passes w ∷ []) ≡ run q (flushes ∷ map reads_in (readable 100 w.reads))
  unfolding run pass pass_in pass_out
  pass-parts w q writes reads = ground (arith, parts-read_in 100 w.reads (flush q).1)
