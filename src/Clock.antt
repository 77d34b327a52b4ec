-- ===== src/Clock.antt =====
-- The network time of libdaylite/src/node_impl.cpp. A `timeval` is kept normalised by timersub and
-- timeradd, whose seconds are those of the arithmetic on time_t; the clock does not go back.
pub mod Progress
pub mod Windows
mod Tests
use daylite.Prelude.{
  ℕ, ◌+◌, ◌-◌, ◌%◌, ◌^◌, Bool, true, List, [], ◌∷◌, ltb, ◌==◌, ◌&&◌, ◌||◌, if◌then◌else◌, leb,
}
use daylite.Packet.{NetworkTime}

-- operator >
unfoldable pub later : NetworkTime → NetworkTime → Bool
later l r = ltb r.seconds l.seconds || (l.seconds == r.seconds && ltb r.microseconds l.microseconds)

-- timersub: one second is borrowed where the microseconds would be negative.
unfoldable pub time_sub : NetworkTime → NetworkTime → NetworkTime
time_sub a b =
    if ltb a.microseconds b.microseconds
    then record {
      seconds = a.seconds - b.seconds - 1;
      microseconds = a.microseconds + 1_000_000 - b.microseconds;
    }
    else record { seconds = a.seconds - b.seconds; microseconds = a.microseconds - b.microseconds }

-- timeradd
unfoldable pub time_add : NetworkTime → NetworkTime → NetworkTime
time_add a b =
    if leb 1_000_000 (a.microseconds + b.microseconds)
    then record {
      seconds = a.seconds + b.seconds + 1;
      microseconds = a.microseconds + b.microseconds - 1_000_000;
    }
    else record { seconds = a.seconds + b.seconds; microseconds = a.microseconds + b.microseconds }

-- `_network_time` and `_last_time`.
pub record Clock : Type 0 where
  pub network_time : NetworkTime
  pub last_time : NetworkTime

-- The assignment to `_network_time`, whose fields are `uint32_t`.
unfoldable pub stored : NetworkTime → NetworkTime
stored t = record { seconds = t.seconds % 2 ^ 32; microseconds = t.microseconds % 2 ^ 32 }

-- node_impl::update_time, where gettimeofday gives `now`.
unfoldable pub update_time : NetworkTime → Clock → Clock
unfolding time_sub time_add stored
update_time now c = record {
  network_time = stored (time_add c.network_time (time_sub now c.last_time));
  last_time = now;
}

-- What the callback of the node's mailbox does with the time of a packet that has the stamp given.
unfoldable pub receive_stamp : NetworkTime → NetworkTime → Clock → Clock
unfolding later update_time
receive_stamp now stamp c =
    if later stamp c'.network_time then record c' { network_time = stamp } else c'
  where
    c' : Clock
    c' = update_time now c
