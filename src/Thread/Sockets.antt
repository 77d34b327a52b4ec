-- ===== src/Thread/Sockets.antt =====
-- The sockets of a tcp_thread are apart: what one sees is a history of its own buffer.
use daylite.Prelude.{
  ℕ, ◌≡◌, refl, true, some, List, [], ◌∷◌, ◌++◌, ℕ_discrete, arith, inl, inr, Option-cases,
  append-nil, append_assoc,
}
use daylite.Prelude.Assoc.{lookup, put, lookup-put, lookup-remove}
use daylite.Outcome.{done}
use daylite.Packet.{Packet}
use daylite.Thread.{
  SocketBuffer, Buffers, Weather, Blend, flush, push_in, pop_in, push_out, pass, pass_all,
  add_socket, remove_socket, next, send, fresh,
}
use daylite.Thread.Delivery.{Move, sends, nexts, passes, flushes, reads_in, run}
use daylite.Thread.Reliable.{listed}
use daylite.Thread.Loop.{
  TcpThread, Act, sends_on, takes_from, adds, removes, goes_round, flushes_to, reads_from, exits,
  Step, round, flush_to, read_from, exit, act, watch, moves_at, moves_of, stops, keeps,
}

module _ {Doc : Type 0} where
  pub lookup-pass_all :
      (w : ℕ → Weather Doc) (s : ℕ) (q : SocketBuffer Doc) (bs : Buffers Doc)
      → lookup ℕ_discrete s bs ≡ some q
      → (lookup ℕ_discrete s (pass_all w bs).0 ≡ some (pass (w s) q).0)
        × (lookup ℕ_discrete s (pass_all w bs).1 ≡ some (pass (w s) q).1)
  unfolding lookup pass_all
  lookup-pass_all w s q [] e = cc
  lookup-pass_all w s q ((r, v) ∷ bs) e = ground (arith, lookup-pass_all w s q bs)

  -- A call on a socket leaves the others' buffers as they are.
  pub send-other :
      (bs : Buffers Doc) (r s : ℕ) (p : Packet Doc)
      → (r ≡ s → ⊥)
      → lookup ℕ_discrete s (send bs r p).1 ≡ lookup ℕ_discrete s bs
  unfolding send
  send-other bs r s p ne = elim (Option-cases (lookup ℕ_discrete r bs)) [
    | inl e ↦ ground (arith, e)
    | inr (v, e) ↦ ground (arith, ne, e, lookup-put ℕ_discrete r s (push_out v p) bs)
  ]

  pub send-watched :
      (bs : Buffers Doc) (s : ℕ) (q : SocketBuffer Doc) (p : Packet Doc)
      → lookup ℕ_discrete s bs ≡ some q
      → (send bs s p ≡ (done, put ℕ_discrete s (push_out q p) bs))
        × (lookup ℕ_discrete s (send bs s p).1 ≡ some (push_out q p))
  unfolding send
  send-watched bs s q p e =
      (rw (e, send), ground (arith, e, lookup-put ℕ_discrete s s (push_out q p) bs))

  pub next-watched :
      (bs : Buffers Doc) (s : ℕ) (q : SocketBuffer Doc)
      → lookup ℕ_discrete s bs ≡ some q
      → ((next bs s).0 ≡ (pop_in q).0) × (lookup ℕ_discrete s (next bs s).1 ≡ some (pop_in q).1)
  unfolding next
  next-watched bs s q e =
      (ground (arith, e), ground (arith, e, lookup-put ℕ_discrete s s (pop_in q).1 bs))

  pub next-other :
      (bs : Buffers Doc) (r s : ℕ)
      → (r ≡ s → ⊥)
      → lookup ℕ_discrete s (next bs r).1 ≡ lookup ℕ_discrete s bs
  unfolding next
  next-other bs r s ne = elim (Option-cases (lookup ℕ_discrete r bs)) [
    | inl e ↦ ground (arith, e)
    | inr (v, e) ↦ ground (arith, ne, e, lookup-put ℕ_discrete r s (pop_in v).1 bs)
  ]

  flush_to-other :
      (bs : Buffers Doc) (r s : ℕ)
      → (r ≡ s → ⊥)
      → lookup ℕ_discrete s (flush_to bs r).1 ≡ lookup ℕ_discrete s bs
  unfolding flush_to
  flush_to-other bs r s ne = elim (Option-cases (lookup ℕ_discrete r bs)) [
    | inl e ↦ ground (arith, e)
    | inr (v, e) ↦ ground (arith, ne, e, lookup-put ℕ_discrete r s (flush v).1 bs)
  ]

  read_from-other :
      (bs : Buffers Doc) (r s : ℕ) (p : Packet Doc)
      → (r ≡ s → ⊥)
      → lookup ℕ_discrete s (read_from bs r p) ≡ lookup ℕ_discrete s bs
  unfolding read_from
  read_from-other bs r s p ne = elim (Option-cases (lookup ℕ_discrete r bs)) [
    | inl e ↦ ground (arith, e)
    | inr (v, e) ↦ ground (arith, ne, e, lookup-put ℕ_discrete r s (push_in v p) bs)
  ]

  -- A socket that is watched keeps its buffer where one is added.
  pub add_socket-watched :
      (bs : Buffers Doc) (r s : ℕ) (q : SocketBuffer Doc)
      → lookup ℕ_discrete s bs ≡ some q
      → lookup ℕ_discrete s (add_socket bs r).1 ≡ some q
  unfolding add_socket
  add_socket-watched bs r s q e = ground (arith, e, lookup-put ℕ_discrete r s fresh bs)

  -- A step shows the socket what its part of it does to its buffer.
  abbrev Shows : ℕ → SocketBuffer Doc → List (Move Doc) → Step Doc → Type 0
  Shows s q moves r =
      (r.wire ≡ (run q moves).wire)
      × (r.popped ≡ (run q moves).popped)
      × (lookup ℕ_discrete s r.after.buffers ≡ some (run q moves).buffer)

  act-Shows :
      (f : Blend) (s : ℕ) (a : Act Doc) (t : TcpThread Doc) (q : SocketBuffer Doc)
      → lookup ℕ_discrete s t.buffers ≡ some q
      → keeps s (a ∷ []) ≡ true
      → Shows s q (moves_at s t.is_exiting a) (act f s a t)
        × ((act f s a t).after.is_exiting ≡ stops t.is_exiting a)
  unfolding act run send next add_socket remove_socket round flush_to read_from exit
  act-Shows f s (sends_on r p) t q e k =
      ground
        (arith, e, send-other t.buffers r s p, lookup-put ℕ_discrete s s (push_out q p) t.buffers)
  act-Shows f s (takes_from r) t q e k = ground (
    arith,
    e,
    next-other t.buffers r s,
    lookup-put ℕ_discrete s s (pop_in q).1 t.buffers,
    append-nil (listed (pop_in q).0),
  )
  act-Shows f s (adds r) t q e k = ((refl, refl, add_socket-watched t.buffers r s q e), refl)
  act-Shows f s (removes r) t q e k = ground (arith, e, lookup-remove ℕ_discrete r s t.buffers)
  act-Shows f s (goes_round w) t q e k =
      ground (arith, e, lookup-pass_all w s q t.buffers e, append-nil (pass (w s) q).0)
  act-Shows f s (flushes_to r) t q e k = ground (
    arith,
    e,
    flush_to-other t.buffers r s,
    lookup-put ℕ_discrete s s (flush q).1 t.buffers,
    append-nil (flush q).0,
  )
  act-Shows f s (reads_from r p) t q e k =
      ground (
        arith,
        e,
        read_from-other t.buffers r s p,
        lookup-put ℕ_discrete s s (push_in q p) t.buffers,
      )
  act-Shows f s exits t q e k = ((refl, refl, e), refl)

  -- A history of a buffer in two parts.
  run-append :
      (q : SocketBuffer Doc) (ms ns : List (Move Doc))
      → ((run q (ms ++ ns)).wire ≡ (run q ms).wire ++ (run (run q ms).buffer ns).wire)
        × ((run q (ms ++ ns)).popped ≡ (run q ms).popped ++ (run (run q ms).buffer ns).popped)
        × ((run q (ms ++ ns)).buffer ≡ (run (run q ms).buffer ns).buffer)
  unfolding run
  run-append q [] ns = (refl, refl, refl)
  run-append q (sends p ∷ ms) ns = run-append (push_out q p) ms ns
  run-append q (nexts ∷ ms) ns =
      let (e, f, g) = run-append (pop_in q).1 ms ns in
      (
        e,
        ground (
          arith,
          f,
          append_assoc (listed (pop_in q).0) (run (pop_in q).1 ms).popped
              (run (run (pop_in q).1 ms).buffer ns).popped,
        ),
        g,
      )
  run-append q (passes w ∷ ms) ns =
      let (e, f, g) = run-append (pass w q).1 ms ns in
      (
        ground (
          arith,
          e,
          append_assoc (pass w q).0 (run (pass w q).1 ms).wire
              (run (run (pass w q).1 ms).buffer ns).wire,
        ),
        f,
        g,
      )
  run-append q (flushes ∷ ms) ns =
      let (e, f, g) = run-append (flush q).1 ms ns in
      (
        ground (
          arith,
          e,
          append_assoc (flush q).0 (run (flush q).1 ms).wire
              (run (run (flush q).1 ms).buffer ns).wire,
        ),
        f,
        g,
      )
  run-append q (reads_in p ∷ ms) ns = run-append (push_in q p) ms ns

  keeps-split :
      (s : ℕ) (a : Act Doc) (acts : List (Act Doc))
      → keeps s (a ∷ acts) ≡ true
      → (keeps s (a ∷ []) ≡ true) × (keeps s acts ≡ true)
  keeps-split s (sends_on r p) acts k = (refl, k)
  keeps-split s (takes_from r) acts k = (refl, k)
  keeps-split s (adds r) acts k = (refl, k)
  keeps-split s (removes r) acts k = ground arith
  keeps-split s (goes_round w) acts k = (refl, k)
  keeps-split s (flushes_to r) acts k = (refl, k)
  keeps-split s (reads_from r p) acts k = (refl, k)
  keeps-split s exits acts k = (refl, k)

  -- Over any history of the thread, calls on other sockets, rounds and an exit among it, a socket that is
  -- watched and not removed sees its own buffer only: what it is given to write, what `next` gives for
  -- it and the buffer that it ends with are those of the moves that are about it.
  pub watch-run :
      (f : Blend) (s : ℕ) (acts : List (Act Doc)) (t : TcpThread Doc) (q : SocketBuffer Doc)
      → lookup ℕ_discrete s t.buffers ≡ some q
      → keeps s acts ≡ true
      → let seen = watch f s acts t in
        let own = run q (moves_of s t.is_exiting acts) in
        (seen.wire ≡ own.wire)
        × (seen.popped ≡ own.popped)
        × (lookup ℕ_discrete s seen.after.buffers ≡ some own.buffer)
  unfolding watch run
  watch-run f s [] t q e k = (refl, refl, e)
  watch-run f s (a ∷ acts) t q e k =
      let (kept, later) = keeps-split s a acts k in
      let ((wire, popped, buffer), stopped) = act-Shows f s a t q e kept in
      let now = (act f s a t).after in
      ground (
        arith,
        wire,
        popped,
        stopped,
        run-append q (moves_at s t.is_exiting a) (moves_of s (stops t.is_exiting a) acts),
        watch-run f s acts now (run q (moves_at s t.is_exiting a)).buffer buffer later,
      )
