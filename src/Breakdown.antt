-- ===== src/Breakdown.antt =====
-- ext/kino/src/access_log.rs: the breakdown of a request's time, in nanoseconds.
-- Records has the texts that they are printed into.
pub mod Parts
pub mod Records
mod Tests
use kino.Prelude.{ℕ, ◌-◌, ◌/◌, ltb, if◌then◌else◌, Option}

-- `gc` is the pause and the objects allocated, if measured.
pub record Timing : Type 0 where
  pub wait : ℕ
  pub ruby : ℕ
  pub gc : Option (ℕ × ℕ)

-- The share that is neither Ruby's nor the queue's floors at zero.
pub kino_time : ℕ → Timing → ℕ
kino_time total timing = total - timing.ruby - timing.wait

-- `523`, `1.5k` as a count of which one decimal is printed in thousands, `52k`.
pub data Count : Type 0 where
  plain decimal thousands : ℕ → Count

pub write_count : ℕ → Count
write_count n =
    if ltb n 1000 then plain n else if ltb n 10000 then decimal n else thousands (n / 1000)
