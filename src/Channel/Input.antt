-- ===== src/Channel/Input.antt =====
-- tcp_input_channel::read. A chunk is what one call of `tcp_socket::recv` returns; a socket that
-- has no more answers EAGAIN, as a non-blocking one does. `decode` stands for the BSON reader and
-- the packet's constructor over exactly one document; `none` means that they abort.
use daylite.Prelude.{
  ℕ, ◌+◌, ◌*◌, ◌^◌, Option, none, some, List, [], ◌∷◌, ◌++◌, Bool, true, false, length, take, drop,
  ltb, if◌then◌else◌, get_or,
}
use daylite.Outcome.{Result, ok, fail}
use daylite.Channel.Output.{eagain}

abbrev pub Chunk : Type 0
Chunk = Result (List ℕ)

-- The buffer of the channel, and what the socket has still to answer.
pub record State : Type 0 where
  pub buffer : List ℕ
  pub socket : List Chunk

-- recv(tmp, sizeof(tmp)), and the insertion of what it returned at the buffer's end.
unfoldable pub receive_from : List ℕ → List Chunk → Result (Unit {0}) × State
receive_from b [] =
    (fail "Resource temporarily unavailable" eagain, record { buffer = b; socket = [] })
receive_from b (fail m c ∷ rest) = (fail m c, record { buffer = b; socket = rest })
receive_from b (ok bytes m c ∷ rest) = (ok tt m c, record { buffer = b ++ bytes; socket = rest })

-- Both of the reads stand under the same test of the buffer's size.
unfoldable pub fill : State → ℕ → Result (Unit {0}) × State
unfolding receive_from
fill s n = if ltb (length s.buffer) n then receive_from s.buffer s.socket else (ok tt "" 0, s)

-- *reinterpret_cast<uint32_t *>(_buffer.data()) on a little-endian machine
unfoldable pub target_size : List ℕ → ℕ
target_size b = get_or b 0 0 + 2 ^ 8 * get_or b 1 0 + 2 ^ 16 * get_or b 2 0 + 2 ^ 24 * get_or b 3 0

module _ {P : Type 0} (decode : List ℕ → Option P) where
  -- The packet is chopped off the buffer.
  unfoldable pub chop : State → ℕ → Option (Result P × State)
  chop s n = elim (decode (take n s.buffer)) [
    | none ↦ none
    | some p ↦ some (ok p "" 0, record s { buffer = drop n s.buffer })
  ]

  -- From the point where the size is known.
  unfoldable pub read_body : State → ℕ → Option (Result P × State)
  unfolding fill chop
  read_body s n =
      let (r, s') = fill s n in
      elim r [
        | fail m c ↦ some (fail m c, s')
        | ok _ m c ↦
            if ltb (length s'.buffer) n then some (fail "Ran out of time" eagain, s') else chop s' n
      ]

  unfoldable pub read_size : State → Option (Result P × State)
  unfolding fill read_body target_size
  read_size s =
      let (r, s') = fill s 4 in
      elim r [
        | fail m c ↦ some (fail m c, s')
        | ok _ m c ↦
            if ltb (length s'.buffer) 4
            then some (fail "Ran out of time" eagain, s')
            else read_body s' (target_size s'.buffer)
      ]

  -- `blocking` is what the socket answers about its mode: all but `false` aborts.
  unfoldable pub read : Result Bool → State → Option (Result P × State)
  read (ok false m c) s = read_size s
  read (ok true m c) s = none
  read (fail m c) s = none
