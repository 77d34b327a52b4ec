-- ===== src/Clock/Windows.antt =====
-- libdaylite/src_win/win_sys_time.c: timeradd and timersub, by which the clock is kept on Windows. The
-- fields of a `timeval` are signed; here they do not leave the range of `long`.
use daylite.Prelude.{
  ltb, ◌*◌, ◌/◌, ◌%◌, ◌^◌, ℕ, ◌-◌, dec_lt, ◌+◌, ◌<◌, ◌≤◌, ◌≡◌, refl, ap, ◌∙◌, if◌then◌else◌, arith,
}
use daylite.Prelude.Int.{
  ℤ, pos, negsuc, ◌+ℤ◌, ◌-ℤ◌, ◌≤ℤ◌, ltb_ℤ, sum_parts, difference_parts, parts-injective,
}
use daylite.Packet.{NetworkTime}
use daylite.Clock.{time_sub, time_add}
use daylite.Clock.Progress.{micros, IsNormal}

pub record Timeval : Type 0 where
  pub tv_sec : ℤ
  pub tv_usec : ℤ

unfoldable pub timeradd : Timeval → Timeval → Timeval
timeradd a b =
    let sec = a.tv_sec +ℤ b.tv_sec in
    let usec = a.tv_usec +ℤ b.tv_usec in
    if ltb_ℤ (pos 999_999) usec
    then record { tv_sec = sec +ℤ pos 1; tv_usec = usec -ℤ pos 1_000_000 }
    else record { tv_sec = sec; tv_usec = usec }

unfoldable pub timersub : Timeval → Timeval → Timeval
timersub a b =
    let sec = a.tv_sec -ℤ b.tv_sec in
    let usec = a.tv_usec -ℤ b.tv_usec in
    if ltb_ℤ usec (pos 0)
    then record { tv_sec = sec -ℤ pos 1; tv_usec = usec +ℤ pos 1_000_000 }
    else record { tv_sec = sec; tv_usec = usec }

-- FILETIME of Jan 1 1970.
abbrev epoch : ℕ
epoch = 116_444_736_000_000_000

-- The cast to `long`, of 32 bits.
abbrev to_long : ℕ → ℤ
to_long n = if ltb (n % 2 ^ 32) (2 ^ 31) then pos (n % 2 ^ 32) else negsuc (2 ^ 32 - n % 2 ^ 32 - 1)

-- gettimeofday, where the system gives the time since 1601 in units of 100 ns, and its milliseconds.
unfoldable pub gettimeofday : ℕ → ℕ → Timeval
gettimeofday quad_part milliseconds = record {
  tv_sec = to_long ((quad_part + 2 ^ 64 - epoch) % 2 ^ 64 / 10_000_000);
  tv_usec = pos (milliseconds * 1000);
}

-- The microseconds are less than a second, and not negative.
abbrev pub IsNormalised : Timeval → Type 0
IsNormalised t = (pos 0 ≤ℤ t.tv_usec) × (t.tv_usec ≤ℤ pos 999_999)

abbrev pub of_time : NetworkTime → Timeval
of_time t = record { tv_sec = pos t.seconds; tv_usec = pos t.microseconds }

-- Of normalised times, the second not after the first, the difference and the sum are what the clock's
-- arithmetic on other systems gives.
pub timersub-of_time :
    (a b : NetworkTime)
    → IsNormal a
    → IsNormal b
    → micros b ≤ micros a
    → (timersub (of_time a) (of_time b) ≡ of_time (time_sub a b))
      × (timeradd (of_time a) (of_time b) ≡ of_time (time_add a b))
unfolding timersub timeradd time_sub time_add ◌+ℤ◌ ◌-ℤ◌
timersub-of_time a b p q h = ground arith

sub_sub_add : (s t : ℤ) → s -ℤ t -ℤ pos 1 +ℤ t +ℤ pos 1 ≡ s
sub_sub_add s t = parts-injective _ _ (
    omega (
      arith,
      difference_parts s t,
      difference_parts (s -ℤ t) (pos 1),
      sum_parts (s -ℤ t -ℤ pos 1) t,
      sum_parts (s -ℤ t -ℤ pos 1 +ℤ t) (pos 1),
    ))

sub_add : (s t : ℤ) → s -ℤ t +ℤ t ≡ s
sub_add s t = parts-injective _ _ (omega (arith, difference_parts s t, sum_parts (s -ℤ t) t))

sum_pos : (u v : ℕ) → pos u +ℤ pos v ≡ pos (u + v)
unfolding ◌+ℤ◌
sum_pos u v = ground arith

difference_pos : (u v : ℕ) → v ≤ u → pos u -ℤ pos v ≡ pos (u - v)
unfolding ◌-ℤ◌
difference_pos u v h = ground arith

borrow :
    (u v : ℕ) → u < v → v ≤ 1_000_000 → pos u -ℤ pos v +ℤ pos 1_000_000 ≡ pos (u + 1_000_000 - v)
unfolding ◌+ℤ◌ ◌-ℤ◌
borrow u v h k = ground arith

-- The two cases of a difference.
module _ (s t : ℤ) (u v : ℕ) where
  abbrev at : ℤ → ℕ → Timeval
  at sec usec = record { tv_sec = sec; tv_usec = pos usec }

  timersub_borrows :
      u < v → v < 1_000_000 → timersub (at s u) (at t v) ≡ at (s -ℤ t -ℤ pos 1) (u + 1_000_000 - v)
  unfolding timersub
  timersub_borrows h k =
      ground (arith, borrow u v h (omega arith), difference_parts (pos u) (pos v))

  timersub_plain : v ≤ u → timersub (at s u) (at t v) ≡ at (s -ℤ t) (u - v)
  unfolding timersub
  timersub_plain h = ground (arith, difference_pos u v h)

  borrowed_back :
      u < v
      → u < 1_000_000
      → v < 1_000_000
      → timeradd (at (s -ℤ t -ℤ pos 1) (u + 1_000_000 - v)) (at t v) ≡ at s u
  unfolding timeradd
  borrowed_back h p q = ground (
    arith,
    sum_pos (u + 1_000_000 - v) v,
    difference_pos (u + 1_000_000) 1_000_000,
    sub_sub_add s t,
  )

  plain_back : v ≤ u → u < 1_000_000 → timeradd (at (s -ℤ t) (u - v)) (at t v) ≡ at s u
  unfolding timeradd
  plain_back h p = ground (arith, sum_pos (u - v) v, sub_add s t)

  add_back : u < 1_000_000 → v < 1_000_000 → timeradd (timersub (at s u) (at t v)) (at t v) ≡ at s u
  add_back p q = elim (dec_lt u v) [
    | yes h ↦ ap (λ r. timeradd r (at t v)) (timersub_borrows h q) ∙ borrowed_back h p q
    | no h ↦
        ap (λ r. timeradd r (at t v)) (timersub_plain (omega arith)) ∙ plain_back (omega arith) p
  ]

  difference_normal : u < 1_000_000 → v < 1_000_000 → IsNormalised (timersub (at s u) (at t v))
  difference_normal p q = elim (dec_lt u v) [
    | yes h ↦ rw (timersub_borrows h q) (omega arith)
    | no h ↦ rw (timersub_plain (omega arith)) (omega arith)
  ]

micros_of : (z : ℤ) → pos 0 ≤ℤ z → z ≤ℤ pos 999_999 → (n : ℕ) × (z ≡ pos n) × (n < 1_000_000)
micros_of (pos n) p q = (n, refl, omega arith)
micros_of (negsuc n) p q = absurd (omega arith)

-- The difference of normalised times, whichever is later, is normalised, and the second time added to
-- it gives the first.
pub timeradd-timersub :
    (a b : Timeval)
    → IsNormalised a
    → IsNormalised b
    → (timeradd (timersub a b) b ≡ a) × IsNormalised (timersub a b)
timeradd-timersub a b p q =
    let (u, e, h) = micros_of a.tv_usec p.0 p.1 in
    let (v, f, k) = micros_of b.tv_usec q.0 q.1 in
    rw (e, f) (add_back a.tv_sec b.tv_sec u v h k, difference_normal a.tv_sec b.tv_sec u v h k)

-- Before 2038, of a time with its milliseconds, the seconds are those since 1970, and it is normalised.
gettimeofday_lem :
    (seconds milliseconds units : ℕ)
    → seconds < 2 ^ 31
    → milliseconds < 1000
    → units < 10_000
    → (gettimeofday
          (116_444_736_000_000_000 + 10_000_000 * seconds + 10_000 * milliseconds + units)
          milliseconds
        ≡ record { tv_sec = pos seconds; tv_usec = pos (milliseconds * 1000) })
      × IsNormalised (
          gettimeofday
            (116_444_736_000_000_000 + 10_000_000 * seconds + 10_000 * milliseconds + units)
            milliseconds)
unfolding gettimeofday
gettimeofday_lem seconds milliseconds units p q r = ground arith
