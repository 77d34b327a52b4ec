-- ===== src/Thread/Sleep.antt =====
-- tcp_thread::update_sleep: the pause between two passes.
use daylite.Prelude.{ℕ, ◌/◌, ◌≤◌, arith, max}
use daylite.Thread.{Blend, update_sleep}

-- From a pause of 980 to 10000 microseconds, where it starts, the next one is in that range too,
-- whatever the number of packets; and it is at most the larger of the last one and 5000.
pub update_sleep_bounds :
    (f : Blend) (sleep packets : ℕ)
    → 980 ≤ sleep
    → sleep ≤ 10_000
    → (980 ≤ update_sleep f sleep packets) × (update_sleep f sleep packets ≤ max sleep 5000)
unfolding update_sleep
update_sleep_bounds f sleep packets lo hi = ground (
  arith,
  f.blend_le 5000 sleep,
  f.lt_blend 5000 sleep,
  f.blend_le (max (sleep / packets) 1000) sleep,
  f.lt_blend (max (sleep / packets) 1000) sleep,
)
