-- ===== src/Clock/Progress.antt =====
-- How the network time goes on.
use daylite.Prelude.{
  ℕ, ◌+◌, ◌-◌, ◌^◌, ◌*◌, ◌≤◌, ◌<◌, ◌≡◌, refl, ap, Bool, true, false, List, [], ◌∷◌, ltb,
  if◌then◌else◌, arith, max,
}
use daylite.Packet.{NetworkTime}
use daylite.Clock.{Clock, later, time_sub, time_add, stored, update_time, receive_stamp}

-- The time in microseconds.
abbrev pub micros : NetworkTime → ℕ
micros t = 1_000_000 * t.seconds + t.microseconds

abbrev pub IsNormal : NetworkTime → Type 0
IsNormal t = t.microseconds < 1_000_000

pub later_lem :
    (l r : NetworkTime) → IsNormal l → IsNormal r → later l r ≡ ltb (micros r) (micros l)
unfolding later
later_lem l r p q = ground arith

time_sub_lem :
    (a b : NetworkTime)
    → IsNormal a
    → IsNormal b
    → micros b ≤ micros a
    → (micros (time_sub a b) ≡ micros a - micros b) × IsNormal (time_sub a b)
unfolding time_sub
time_sub_lem a b p q h = ground arith

time_add_lem :
    (a b : NetworkTime)
    → IsNormal a
    → IsNormal b
    → (micros (time_add a b) ≡ micros a + micros b) × IsNormal (time_add a b)
unfolding time_add
time_add_lem a b p q = ground arith

-- Both times of the clock are normalised.
pub record IsKept (c : Clock) : Type 0 where
  pub network : IsNormal c.network_time
  pub last : IsNormal c.last_time

-- A reading of the system's clock: it is normalised, the clock did not go back, and the network time
-- does not outgrow its 32 bits of seconds.
pub record Reads (c : Clock) (now : NetworkTime) : Type 0 where
  pub normal : IsNormal now
  pub forward : micros c.last_time ≤ micros now
  pub fits : micros c.network_time + (micros now - micros c.last_time) < 1_000_000 * 2 ^ 32

stored_lem :
    (t : NetworkTime)
    → IsNormal t
    → micros t < 1_000_000 * 2 ^ 32
    → (micros (stored t) ≡ micros t) × IsNormal (stored t)
unfolding stored
stored_lem t p h = omega arith

-- `update_time` on a normalised clock moves the network time on by exactly what has passed on the
-- system's clock since the last reading, in microseconds, if that clock did not go back and the seconds
-- stay below 2^32, and keeps both times normalised.
pub update_time_lem :
    (now : NetworkTime) (c : Clock)
    → IsKept c
    → Reads c now
    → (micros (update_time now c).network_time
        ≡ micros c.network_time + (micros now - micros c.last_time))
      × IsKept (update_time now c)
unfolding update_time
update_time_lem now c v r =
    let gone = time_sub_lem now c.last_time r.normal v.last r.forward in
    let sum = time_add_lem c.network_time (time_sub now c.last_time) v.network gone.1 in
    let kept =
      stored_lem (time_add c.network_time (time_sub now c.last_time)) sum.1
        (omega (arith, gone.0, sum.0, r.fits)) in
    (omega (arith, gone.0, sum.0, kept.0), record { network = kept.1; last = r.normal })

-- What happens to a clock: the system's time is read, or a packet with a stamp arrives.
pub data Tick : Type 0 where
  reads : NetworkTime → Tick
  stamps : NetworkTime → NetworkTime → Tick

unfoldable pub tick : Clock → List Tick → Clock
tick c [] = c
tick c (reads now ∷ ts) = tick (update_time now c) ts
tick c (stamps now stamp ∷ ts) = tick (receive_stamp now stamp c) ts

abbrev pub Runs : Clock → List Tick → Type 0
Runs c [] = Unit {0}
Runs c (reads now ∷ ts) = Reads c now × Runs (update_time now c) ts
Runs c (stamps now stamp ∷ ts) = Reads c now × IsNormal stamp × Runs (receive_stamp now stamp c) ts

update_time-last : (now : NetworkTime) (c : Clock) → (update_time now c).last_time ≡ now
unfolding update_time
update_time-last now c = refl

receive_stamp_lem :
    (now stamp : NetworkTime) (c : Clock)
    → IsKept c
    → Reads c now
    → IsNormal stamp
    → (micros (receive_stamp now stamp c).network_time
        ≡ max (micros (update_time now c).network_time) (micros stamp))
      × IsKept (receive_stamp now stamp c)
      × ((receive_stamp now stamp c).last_time ≡ now)
unfolding receive_stamp
receive_stamp_lem now stamp c v r m = go (later stamp (update_time now c).network_time) refl
  where
    moved : IsKept (update_time now c)
    moved = (update_time_lem now c v r).1

    go :
        (b : Bool)
        → later stamp (update_time now c).network_time ≡ b
        → let c' =
            if b then record (update_time now c) { network_time = stamp } else update_time now c in
          (micros c'.network_time ≡ max (micros (update_time now c).network_time) (micros stamp))
          × IsKept c'
          × (c'.last_time ≡ now)
    go true e = (
      ground (arith, later_lem stamp (update_time now c).network_time m moved.network),
      record { network = m; last = moved.last },
      update_time-last now c,
    )
    go false e = (
      ground (arith, later_lem stamp (update_time now c).network_time m moved.network),
      moved,
      update_time-last now c,
    )

-- Over any history from a normalised clock in which the readings of the system's clock are normalised and
-- do not go back, the seconds stay below 2^32, and the stamps that arrive are normalised, the network
-- time moves on by at least what passes on the system's clock, however the stamps compare with it, and
-- stays normalised.
pub tick-advances :
    (c : Clock) (ts : List Tick)
    → IsKept c
    → Runs c ts
    → (micros c.network_time + micros (tick c ts).last_time
        ≤ micros (tick c ts).network_time + micros c.last_time)
      × IsKept (tick c ts)
unfolding tick
tick-advances c [] v r = (omega arith, v)
tick-advances c (reads now ∷ ts) v r =
    let step = update_time_lem now c v r.0 in
    let rest = tick-advances (update_time now c) ts step.1 r.1 in
    (omega (arith, step.0, rest.0, r.0.forward, ap micros (update_time-last now c)), rest.1)
tick-advances c (stamps now stamp ∷ ts) v r =
    let read = update_time_lem now c v r.0 in
    let step = receive_stamp_lem now stamp c v r.0 r.1 in
    let rest = tick-advances (receive_stamp now stamp c) ts step.1 r.2 in
    (omega (arith, read.0, step.0, rest.0, r.0.forward, ap micros step.2), rest.1)
