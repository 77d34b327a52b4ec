-- ===== src/Thread/Reliable.antt =====
-- What the steps of a tcp_thread::buffer do to the packets in its queues that are not droppable.
use daylite.Prelude.{
  ℕ, zero, suc, ◌≡◌, refl, sym, Option, none, some, List, [], ◌∷◌, ◌++◌, if◌then◌else◌, arith,
  append_assoc, append-nil,
}
use daylite.Outcome.{Result, ok, fail}
use daylite.Packet.{Packet}
use daylite.Thread.{
  SocketBuffer, pop_in, push_out, push_in, flush, read_in, pass, pass_in, pass_out, Weather,
}

module _ {Doc : Type 0} where
  -- The packets that are not droppable.
  pub reliable : List (Packet Doc) → List (Packet Doc)
  reliable [] = []
  reliable (p ∷ ps) = if p.meta.droppable then reliable ps else p ∷ reliable ps

  abbrev pub listed : Option (Packet Doc) → List (Packet Doc)
  listed none = []
  listed (some p) = p ∷ []

  -- The packets that a pass reads: at most a hundred, up to the first failure.
  unfoldable pub readable : ℕ → List (Result (Packet Doc)) → List (Packet Doc)
  readable zero reads = []
  readable (suc n) [] = []
  readable (suc n) (fail m c ∷ reads) = []
  readable (suc n) (ok p m c ∷ reads) = p ∷ readable n reads

  pub reliable-append :
      (ps qs : List (Packet Doc)) → reliable (ps ++ qs) ≡ reliable ps ++ reliable qs
  unfolding reliable
  reliable-append [] qs = refl
  reliable-append (p ∷ ps) qs = ground (arith, reliable-append ps qs)

  pub reliable-nil : reliable [] ≡ []
  unfolding reliable
  reliable-nil = refl

  -- What a step does to the reliable packets of each queue.
  pub push_out-reliable :
      (q : SocketBuffer Doc) (p : Packet Doc)
      → (reliable (push_out q p).outbox ≡ reliable q.outbox ++ reliable (p ∷ []))
        × ((push_out q p).inbox ≡ q.inbox)
  unfolding push_out reliable
  push_out-reliable q p =
      ground (arith, reliable-append q.outbox (p ∷ []), append-nil (reliable q.outbox))

  pub push_in-reliable :
      (q : SocketBuffer Doc) (p : Packet Doc)
      → (reliable (push_in q p).inbox ≡ reliable q.inbox ++ reliable (p ∷ []))
        × ((push_in q p).outbox ≡ q.outbox)
  unfolding push_in reliable
  push_in-reliable q p =
      ground (arith, reliable-append q.inbox (p ∷ []), append-nil (reliable q.inbox))

  pub read_in-reliable :
      (n : ℕ) (reads : List (Result (Packet Doc))) (q : SocketBuffer Doc)
      → (reliable (read_in n reads q).inbox ≡ reliable q.inbox ++ reliable (readable n reads))
        × ((read_in n reads q).outbox ≡ q.outbox)
  unfolding read_in readable
  read_in-reliable zero reads q = (rw (reliable-nil, append-nil), refl)
  read_in-reliable (suc n) [] q = (rw (reliable-nil, append-nil), refl)
  read_in-reliable (suc n) (fail m c ∷ reads) q = (rw (reliable-nil, append-nil), refl)
  read_in-reliable (suc n) (ok p m c ∷ reads) q = ground (
    arith,
    push_in-reliable q p,
    read_in-reliable n reads (push_in q p),
    reliable-append (p ∷ []) (readable n reads),
    append_assoc (reliable q.inbox) (reliable (p ∷ [])) (reliable (readable n reads)),
  )

  pub pass-reliable :
      (w : Weather Doc) (q : SocketBuffer Doc)
      → (reliable (pass w q).0 ++ reliable (pass w q).1.outbox ≡ reliable q.outbox)
        × (reliable (pass w q).1.inbox
            ≡ reliable q.inbox ++ reliable (if w.can_read then readable 100 w.reads else []))
  unfolding pass pass_out pass_in flush
  pass-reliable w q = ground (
    arith,
    reliable-nil,
    append-nil (reliable q.outbox),
    append-nil (reliable q.inbox),
    read_in-reliable 100 w.reads q,
    read_in-reliable 100 w.reads (flush q).1,
  )

  pub flush-reliable :
      (q : SocketBuffer Doc)
      → (reliable (flush q).0 ++ reliable (flush q).1.outbox ≡ reliable q.outbox)
        × ((flush q).1.inbox ≡ q.inbox)
  unfolding flush
  flush-reliable q = (rw (reliable-nil, append-nil) refl, refl)

  pub pop_in-reliable :
      (q : SocketBuffer Doc)
      → (reliable (listed (pop_in q).0) ++ reliable (pop_in q).1.inbox ≡ reliable q.inbox)
        × ((pop_in q).1.outbox ≡ q.outbox)
  unfolding pop_in
  pop_in-reliable q = go q.inbox
    where
      go :
          (ps : List (Packet Doc))
          → let r = pop_in (record q { inbox = ps }) in
            (reliable (listed r.0) ++ reliable r.1.inbox ≡ reliable ps) × (r.1.outbox ≡ q.outbox)
      go [] = (rw reliable-nil, refl)
      go (p ∷ ps) = (sym (reliable-append (p ∷ []) ps), refl)
