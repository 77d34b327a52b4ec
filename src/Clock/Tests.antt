-- ===== src/Clock/Tests.antt =====
-- The network time at concrete inputs.
use daylite.Prelude.Int.{pos, negsuc, ◌+ℤ◌, ◌-ℤ◌}
use daylite.Clock.Windows.{Timeval, timersub, timeradd, IsNormalised, timeradd-timersub}
use daylite.Prelude.{ℕ, ◌+◌, ◌≤◌, ◌≡◌, refl, List, [], ◌∷◌, arith}
use daylite.Packet.{NetworkTime}
use daylite.Clock.{Clock, later, time_sub, time_add, stored, update_time, receive_stamp}
use daylite.Clock.Progress.{IsKept, Tick, reads, stamps, tick, micros, tick-advances}

abbrev at : ℕ → ℕ → NetworkTime
at s u = record { seconds = s; microseconds = u }

abbrev clock : Clock
clock = record { network_time = at 10 600_000; last_time = at 1000 900_000 }

-- A reading 0.5 s later, and a packet 0.5 s after that from a node whose time is ahead.
abbrev ticks : List Tick
ticks = reads (at 1001 400_000) ∷ stamps (at 1001 900_000) (at 20 0) ∷ []

tick-ticks : tick clock ticks ≡ record { network_time = at 20 0; last_time = at 1001 900_000 }
unfolding tick update_time receive_stamp time_sub time_add stored later
tick-ticks = refl

tick-advances_example :
    (micros clock.network_time + micros (tick clock ticks).last_time
      ≤ micros (tick clock ticks).network_time + micros clock.last_time)
    × IsKept (tick clock ticks)
unfolding update_time receive_stamp time_sub time_add stored later
tick-advances_example = tick-advances clock ticks (omega arith) (
  record { normal = omega arith; forward = omega arith; fits = omega arith },
  (record { normal = omega arith; forward = omega arith; fits = omega arith }, omega arith, tt),
)

abbrev early : Timeval
early = record { tv_sec = pos 5; tv_usec = pos 400_000 }

abbrev late : Timeval
late = record { tv_sec = pos 7; tv_usec = pos 300_000 }

timersub_runs : timersub early late ≡ record { tv_sec = negsuc 1; tv_usec = pos 100_000 }
unfolding timersub ◌+ℤ◌ ◌-ℤ◌
timersub_runs = refl

timeradd-timersub_example :
    (timeradd (timersub early late) late ≡ early) × IsNormalised (timersub early late)
timeradd-timersub_example = timeradd-timersub early late (omega arith) (omega arith)
