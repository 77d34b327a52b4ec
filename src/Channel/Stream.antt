-- ===== src/Channel/Stream.antt =====
-- One call of tcp_input_channel::read where a peer has written whole documents.
use daylite.Prelude.{
  ℕ, ◌≤◌, ◌<◌, ◌≡◌, refl, ap, sym, ◌∙◌, ◌⊎◌, inl, inr, Option, some, List, [], ◌∷◌, ◌++◌, length,
  take, drop, ltb, if◌then◌else◌, get_or, arith, length-append, get_or-append_left, take-append_le,
  drop-append_le, take-append_left, drop-append_left, append_assoc, append-nil, Bool-cases, String,
}
use daylite.Outcome.{Result, ok, fail}
use daylite.Channel.Output.{eagain}
use daylite.Channel.Input.{
  State, Chunk, receive_from, fill, target_size, chop, read_body, read_size,
}

-- All bytes that the socket will still hand out.
abbrev pub joined : List Chunk → List ℕ
joined [] = []
joined (ok bytes m c ∷ rest) = bytes ++ joined rest
joined (fail m c ∷ rest) = joined rest

abbrev pub pending : State → List ℕ
pending s = s.buffer ++ joined s.socket

-- What a `fill` does where enough bytes are on their way: it succeeds with them, or it has used up
-- an answer of the socket, and no byte is lost.
record Filled (s : State) (n : ℕ) (r : Result (Unit {0})) (s' : State) : Type 0 where
  same : pending s' ≡ pending s
  used :
      (length s'.socket < length s.socket)
      ⊎ ((r ≡ ok tt "" 0) × (n ≤ length s'.buffer) × (length s'.socket ≤ length s.socket))

receive_from-Filled :
    (n : ℕ) (b : List ℕ) (k : List Chunk)
    → length b < n
    → n ≤ length (b ++ joined k)
    → Filled (record { buffer = b; socket = k }) n (receive_from b k).0 (receive_from b k).1
unfolding receive_from
receive_from-Filled n b [] lo hi = absurd (omega (arith, ap length (append-nil b)))
receive_from-Filled n b (fail m c ∷ k) lo hi = record { same = refl; used = inl (omega arith) }
receive_from-Filled n b (ok bytes m c ∷ k) lo hi = record {
  same = append_assoc b bytes (joined k);
  used = inl (omega arith);
}

fill-Filled : (n : ℕ) (s : State) → n ≤ length (pending s) → Filled s n (fill s n).0 (fill s n).1
unfolding fill
fill-Filled n s h = ground (arith, receive_from-Filled n s.buffer s.socket)

module _ {P : Type 0} (decode : List ℕ → Option P) where
  -- One `read` where the document `f`, which decodes to `p`, and `rest` are on their way.
  pub data Progress (s : State) (p : P) (rest : List ℕ) (out : Option (Result P × State))
      : Type 0 where
    got :
        (s' : State)
        → out ≡ some (ok p "" 0, s')
        → pending s' ≡ rest
        → length s'.socket ≤ length s.socket
        → Progress s p rest out
    waits :
        (m : String) (c : ℕ) (s' : State)
        → out ≡ some (fail m c, s')
        → pending s' ≡ pending s
        → length s'.socket < length s.socket
        → Progress s p rest out

  chop-got :
      (s s' : State) (f rest : List ℕ) (p : P)
      → decode f ≡ some p
      → pending s' ≡ f ++ rest
      → length f ≤ length s'.buffer
      → length s'.socket ≤ length s.socket
      → Progress s p rest (chop decode s' (length f))
  unfolding chop
  chop-got s s' f rest p d e le k =
      got (record s' { buffer = drop (length f) s'.buffer }) (rw (taken, chop, d)) left k
    where
      taken : take (length f) s'.buffer ≡ f
      taken =
          sym (take-append_le (length f) s'.buffer (joined s'.socket) le)
          ∙ ap (take (length f)) e
          ∙ take-append_left f rest

      left : drop (length f) s'.buffer ++ joined s'.socket ≡ rest
      left =
          sym (drop-append_le (length f) s'.buffer (joined s'.socket) le)
          ∙ ap (drop (length f)) e
          ∙ drop-append_left f rest

  -- What `read_body` does once the buffer was filled.
  body_after :
      (s s' : State) (f rest : List ℕ) (p : P) (r : Result (Unit {0}))
      → decode f ≡ some p
      → pending s ≡ f ++ rest
      → Filled s (length f) r s'
      → Progress s p rest (elim r [
        | fail m c ↦ some (fail m c, s')
        | ok _ m c ↦
            if ltb (length s'.buffer) (length f)
            then some (fail "Ran out of time" eagain, s')
            else chop decode s' (length f)
      ])
  body_after s s' f rest p (fail m c) d e h = waits m c s' refl h.same (ground (arith, h.used))
  body_after s s' f rest p (ok u m c) d e h =
      elim (Bool-cases (ltb (length s'.buffer) (length f))) [
        | inl short ↦ rw short (waits _ _ s' refl h.same (ground (arith, h.used)))
        | inr enough ↦
            rw enough
              (chop-got s s' f rest p d (h.same ∙ e) (ground arith) (ground (arith, h.used)))
      ]

  read_body-Progress :
      (s : State) (f rest : List ℕ) (p : P)
      → decode f ≡ some p
      → pending s ≡ f ++ rest
      → Progress s p rest (read_body decode s (length f))
  unfolding read_body
  read_body-Progress s f rest p d e =
      body_after s (fill s (length f)).1 f rest p (fill s (length f)).0 d e
        (fill-Filled (length f) s (omega (arith, ap length e, length-append f rest)))

  -- A document as it travels: it states its own size, and the BSON reader accepts it.
  pub record IsFrame (f : List ℕ) (p : P) : Type 0 where
    pub long : 4 ≤ length f
    pub sized : target_size f ≡ length f
    pub decoded : decode f ≡ some p

  Progress-later :
      (s s' : State) (p : P) (rest : List ℕ) (out : Option (Result P × State))
      → pending s' ≡ pending s
      → length s'.socket ≤ length s.socket
      → Progress s' p rest out
      → Progress s p rest out
  Progress-later s s' p rest out e k (got t o l m) = got t o l (omega arith)
  Progress-later s s' p rest out e k (waits m c t o l n) = waits m c t o (l ∙ e) (omega arith)

  target_size-prefix :
      (b k f rest : List ℕ)
      → 4 ≤ length b
      → 4 ≤ length f
      → b ++ k ≡ f ++ rest
      → target_size b ≡ target_size f
  unfolding target_size
  target_size-prefix b k f rest hb hf e = omega (
    arith,
    byte 0 (omega arith),
    byte 1 (omega arith),
    byte 2 (omega arith),
    byte 3 (omega arith),
  )
    where
      byte : (i : ℕ) → i < 4 → get_or b i 0 ≡ get_or f i 0
      byte i h =
          sym (get_or-append_left b k i 0 (omega arith))
          ∙ ap (λ l. get_or l i 0) e
          ∙ get_or-append_left f rest i 0 (omega arith)

  size_after :
      (s s' : State) (f rest : List ℕ) (p : P) (r : Result (Unit {0}))
      → IsFrame f p
      → pending s ≡ f ++ rest
      → Filled s 4 r s'
      → Progress s p rest (elim r [
        | fail m c ↦ some (fail m c, s')
        | ok _ m c ↦
            if ltb (length s'.buffer) 4
            then some (fail "Ran out of time" eagain, s')
            else read_body decode s' (target_size s'.buffer)
      ])
  size_after s s' f rest p (fail m c) v e h = waits m c s' refl h.same (ground (arith, h.used))
  size_after s s' f rest p (ok u m c) v e h = elim (Bool-cases (ltb (length s'.buffer) 4)) [
    | inl short ↦ rw short (waits _ _ s' refl h.same (ground (arith, h.used)))
    | inr enough ↦
        rw
          (
            enough,
            target_size-prefix s'.buffer (joined s'.socket) f rest (ground arith) v.long
                (h.same ∙ e),
            v.sized,
          )
          (Progress-later s s' p rest _ h.same (ground (arith, h.used))
            (read_body-Progress s' f rest p v.decoded (h.same ∙ e)))
  ]

  pub read_size-Progress :
      (s : State) (f rest : List ℕ) (p : P)
      → IsFrame f p
      → pending s ≡ f ++ rest
      → Progress s p rest (read_size decode s)
  unfolding read_size
  read_size-Progress s f rest p v e =
      size_after s (fill s 4).1 f rest p (fill s 4).0 v e
        (fill-Filled 4 s (omega (arith, ap length e, length-append f rest, v.long)))
