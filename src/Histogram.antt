-- ===== src/Histogram.antt =====
-- The queue-wait histogram: ext/kino/src/registry.rs (recording) and the cumulative buckets that
-- ext/kino/src/control.rs prints for Prometheus.
pub mod Record
mod Tests
use mathlib.Core.Option
use kino.Prelude.{
  ℕ, zero, suc, ◌+◌, leb, if◌then◌else◌, Option, none, some, List, [], ◌∷◌, get_or, set, length,
  replicate, sum, word,
}

-- Bucket boundaries in microseconds, ascending.
abbrev pub queue_bounds_us : List ℕ
queue_bounds_us =
    500 ∷ 1_000 ∷ 2_500 ∷ 5_000 ∷ 10_000 ∷ 25_000 ∷ 50_000 ∷ 100_000 ∷ 250_000 ∷ 500_000 ∷ 1_000_000
    ∷ 2_500_000 ∷ 5_000_000 ∷ 10_000_000 ∷ []

pub record QueueHistogram : Type 0 where
  pub buckets : List ℕ
  pub overflow : ℕ
  pub sum_us : ℕ
  pub count : ℕ

unfoldable pub new : QueueHistogram
new = record { buckets = replicate (length queue_bounds_us) 0; overflow = 0; sum_us = 0; count = 0 }

-- The index of the first bound that is no less than the wait.
pub position : List ℕ → ℕ → Option ℕ
position [] wait_us = none
position (bound ∷ bounds) wait_us =
    let later = Option.map suc (position bounds wait_us) in
    if leb wait_us bound then some zero else later

-- The counters are 64-bit atomics, which wrap.
pub record_wait : QueueHistogram → ℕ → QueueHistogram
unfolding position
record_wait h wait_us =
    let placed : QueueHistogram = elim (position queue_bounds_us wait_us) [
      | some i ↦ record h { buckets = set h.buckets i (word (get_or h.buckets i 0 + 1)) }
      | none ↦ record h { overflow = word (h.overflow + 1) }
    ] in
    record placed { sum_us = word (h.sum_us + wait_us); count = word (h.count + 1) }

-- What the exposition prints for the buckets: running totals, then the total with the overflow.
unfoldable pub cumulative_from : ℕ → List ℕ → List ℕ
cumulative_from cumulative [] = []
cumulative_from cumulative (bucket ∷ buckets) =
    (cumulative + bucket) ∷ cumulative_from (cumulative + bucket) buckets

unfoldable pub cumulative : QueueHistogram → List ℕ
unfolding cumulative_from
cumulative h = cumulative_from 0 h.buckets

unfoldable pub total : QueueHistogram → ℕ
unfolding sum
total h = sum h.buckets + h.overflow
