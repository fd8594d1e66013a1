-- ===== src/Breakdown/Parts.antt =====
-- The parts of the breakdown and the whole.
use kino.Prelude.{ℕ, ◌+◌, ◌≡◌, max, arith}
use kino.Breakdown.{Timing, kino_time}

-- The three parts add up to the total, or to Ruby's and the queue's share where those exceed it.
pub kino_time_lem :
    (total : ℕ) (timing : Timing)
    → timing.ruby + kino_time total timing + timing.wait ≡ max total (timing.ruby + timing.wait)
unfolding kino_time
kino_time_lem total timing = omega arith
