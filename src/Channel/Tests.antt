-- ===== src/Channel/Tests.antt =====
-- The channels at concrete inputs.
use daylite.Prelude.{ℕ, ◌≡◌, refl, Option, none, some, List, [], ◌∷◌, false, arith}
use daylite.Outcome.{Result, ok, fail, done, to_void_result}
use daylite.Channel.Output.{eagain, write, write_loop, write_complete}
use daylite.Channel.Input.{State, Chunk, receive_from, fill, target_size, read_size, read}
use daylite.Channel.Stream.{pending, IsFrame}
use daylite.Channel.Drain.{drain, drain_lem}

-- A send of 2 bytes, one that would block, and a send of the third.
abbrev sends : List (Result ℕ)
sends = ok 2 "" 0 ∷ fail "busy" eagain ∷ ok 1 "" 0 ∷ []

write_complete_example : write sends (7 ∷ 8 ∷ 9 ∷ []) ≡ some (done, 7 ∷ 8 ∷ 9 ∷ [])
write_complete_example =
    write_complete sends (7 ∷ 8 ∷ 9 ∷ []) (omega arith)
      (refl, omega arith, (refl, (refl, omega arith, refl)))

-- The peer resets the connection after 2 bytes.
abbrev reset : List (Result ℕ)
reset = ok 2 "" 0 ∷ fail "Connection reset by peer" 104 ∷ []

write-reset :
    write reset (7 ∷ 8 ∷ 9 ∷ []) ≡ some (ok false "Connection reset by peer" 0, 7 ∷ 8 ∷ [])
unfolding write write_loop to_void_result
write-reset = refl

-- Documents of 5 bytes, read as their last byte.
abbrev decode : List ℕ → Option ℕ
decode (a ∷ b ∷ c ∷ d ∷ e ∷ []) = some e
decode _ = none

abbrev first : List ℕ
first = 5 ∷ 0 ∷ 0 ∷ 0 ∷ 41 ∷ []

abbrev second : List ℕ
second = 5 ∷ 0 ∷ 0 ∷ 0 ∷ 42 ∷ []

-- The first document in three pieces with a failure between, the second one behind it.
abbrev pieces : List Chunk
pieces =
    ok (0 ∷ 0 ∷ []) "" 0
    ∷ fail "busy" eagain
    ∷ ok (0 ∷ []) "" 0
    ∷ ok (41 ∷ 5 ∷ 0 ∷ 0 ∷ 0 ∷ 42 ∷ []) "" 0
    ∷ []

abbrev start : State
start = record { buffer = 5 ∷ []; socket = pieces }

drain_lem_example : (t : State) × (drain decode 6 start ≡ some (41 ∷ 42 ∷ [], t)) × (pending t ≡ [])
drain_lem_example =
    drain_lem decode start ((first, 41) ∷ (second, 42) ∷ []) (first-IsFrame, (second-IsFrame, tt))
      refl
  where
    first-IsFrame : IsFrame decode first 41
    first-IsFrame = record {
      long = omega arith;
      sized = unfold target_size in omega arith;
      decoded = refl;
    }

    second-IsFrame : IsFrame decode second 42
    second-IsFrame = record {
      long = omega arith;
      sized = unfold target_size in omega arith;
      decoded = refl;
    }

-- The second read still waits for the size.
read-short :
    read decode (ok false "" 0) start
    ≡ some (
      fail "Ran out of time" eagain,
      record {
        buffer = 5 ∷ 0 ∷ 0 ∷ [];
        socket =
            fail "busy" eagain ∷ ok (0 ∷ []) "" 0 ∷ ok (41 ∷ 5 ∷ 0 ∷ 0 ∷ 0 ∷ 42 ∷ []) "" 0 ∷ [];
      },
    )
unfolding read read_size fill receive_from
read-short = refl
