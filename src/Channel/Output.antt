-- ===== src/Channel/Output.antt =====
-- tcp_output_channel::write. `events` are the results of the calls of `tcp_socket::send`; when they
-- are used up and bytes remain, the loop still runs: `none`.
use mathlib.Core.Path.{subst}
use daylite.Prelude.{
  ℕ, ◌+◌, ◌-◌, ◌%◌, ◌^◌, ◌≤◌, ◌<◌, ◌≡◌, refl, Option, none, some, List, [], ◌∷◌, ◌++◌, true, false,
  length, take, drop, drop_all, drop-drop, take-append-drop, Bool-cases, inl, inr, ltb, ◌==◌,
  if◌then◌else◌, arith,
}
use daylite.Outcome.{Result, ok, fail, VoidResult, success, code, to_void_result, done}

abbrev pub eagain : ℕ
eagain = 11

-- The result, and the bytes that went out.
abbrev pub Written : Type 0
Written = VoidResult × List ℕ

abbrev pub with_bytes : List ℕ → Option Written → Option Written
with_bytes bytes none = none
with_bytes bytes (some (r, rest)) = some (r, bytes ++ rest)

-- The loop from `written` on. Each entry of `events` is what the next `send` of the rest returns.
unfoldable pub write_loop : List (Result ℕ) → ℕ → List ℕ → Option Written
unfolding to_void_result
write_loop [] written bytes = if ltb written (length bytes) then none else some (done, [])
write_loop (e ∷ events) written bytes = elim (ltb written (length bytes)) [
  | false ↦ some (done, [])
  | true ↦ elim (code e == eagain) [
    | true ↦ write_loop events written bytes
    | false ↦ elim e [
      | fail m c ↦ some (to_void_result {A = ℕ} (fail m c), [])
      | ok n m c ↦
          with_bytes (take n (drop written bytes))
            (write_loop events ((written + n) % 2 ^ 32) bytes)
    ]
  ]
]

unfoldable pub write : List (Result ℕ) → List ℕ → Option Written
unfolding write_loop
write events bytes = write_loop events 0 bytes

-- What `send` promises: a success counts at most the bytes that it was given, and has no code; here
-- no call fails but by EAGAIN, and the successes add up to all that was left.
abbrev pub Delivers : List (Result ℕ) → ℕ → Type 0
Delivers [] left = left ≡ 0
Delivers (ok n m c ∷ events) left = (c ≡ 0) × (n ≤ left) × Delivers events (left - n)
Delivers (fail m c ∷ events) left = (c ≡ eagain) × Delivers events left

left_none : (l : ℕ) → l - 0 ≡ l
left_none l = omega arith

left_after : (a b l : ℕ) → l - (a + b) ≡ l - a - b
left_after a b l = omega arith

write_loop_complete :
    (events : List (Result ℕ)) (written : ℕ) (bytes : List ℕ)
    → written ≤ length bytes
    → length bytes < 2 ^ 32
    → Delivers events (length bytes - written)
    → write_loop events written bytes ≡ some (done, drop written bytes)
unfolding write_loop
write_loop_complete [] written bytes h s d = ground (arith, drop_all written bytes)
write_loop_complete (ok n m c ∷ events) written bytes h s d = ground (
  arith,
  drop_all written bytes,
  same_left,
  write_loop_complete events (written + n) bytes,
  take-append-drop n (drop written bytes),
  drop-drop n written (written + n) bytes,
)
  where
    same_left : Delivers events (length bytes - (written + n))
    same_left = rw (left_after written n (length bytes)) d.2
write_loop_complete (fail m c ∷ events) written bytes h s d =
    ground (arith, drop_all written bytes, write_loop_complete events written bytes)

-- If the packet is shorter than 2^32 bytes, every failure is EAGAIN, and the successful sends have no
-- code and add up to the packet's size, `write` returns a
-- success and exactly the packet's bytes have gone out, in order.
pub write_complete :
    (events : List (Result ℕ)) (bytes : List ℕ)
    → length bytes < 2 ^ 32
    → Delivers events (length bytes)
    → write events bytes ≡ some (done, bytes)
unfolding write
write_complete events bytes s d =
    write_loop_complete events 0 bytes (omega arith) s (rw (left_none (length bytes)) d)

abbrev Reports : Option Written → Type 0
Reports none = Unit {0}
Reports (some (r, wire)) = success r ≡ true

with_bytes-Reports : (sent : List ℕ) (o : Option Written) → Reports o → Reports (with_bytes sent o)
with_bytes-Reports sent none h = h
with_bytes-Reports sent (some (r, rest)) h = h

write_loop-Reports :
    (events : List (Result ℕ)) (written : ℕ) (bytes : List ℕ)
    → Reports (write_loop events written bytes)
unfolding write_loop to_void_result
write_loop-Reports [] written bytes = elim (Bool-cases (ltb written (length bytes))) [
  | inl more ↦ rw (more, write_loop) tt
  | inr all ↦ rw (all, write_loop) refl
]
write_loop-Reports (fail m c ∷ events) written bytes =
    elim (Bool-cases (ltb written (length bytes))) [
      | inr all ↦ rw (all, write_loop) refl
      | inl more ↦ elim (Bool-cases (c == eagain)) [
        | inl again ↦ rw (more, again, write_loop) (write_loop-Reports events written bytes)
        | inr hard ↦ rw (more, hard, write_loop) refl
      ]
    ]
write_loop-Reports (ok n m c ∷ events) written bytes =
    elim (Bool-cases (ltb written (length bytes))) [
      | inr all ↦ rw (all, write_loop) refl
      | inl more ↦ elim (Bool-cases (c == eagain)) [
        | inl again ↦ rw (more, again, write_loop) (write_loop-Reports events written bytes)
        | inr hard ↦
            rw (more, hard, write_loop)
              (with_bytes-Reports (take n (drop written bytes)) _
                (write_loop-Reports events ((written + n) % 2 ^ 32) bytes))
      ]
    ]

-- Whatever the socket answers, a `write` that returns reports a success: `to_void_result` turns the
-- failure of a `send` into one.
pub write_hides_failure :
    (events : List (Result ℕ)) (bytes wire : List ℕ) (r : VoidResult)
    → write events bytes ≡ some (r, wire)
    → success r ≡ true
unfolding write
write_hides_failure events bytes wire r h = subst Reports h (write_loop-Reports events 0 bytes)
