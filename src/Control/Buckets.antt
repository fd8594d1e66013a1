-- ===== src/Control/Buckets.antt =====
-- The histogram that Prometheus reads, against the waits themselves.
use kino.Prelude.{
  ℕ, suc, ◌+◌, ◌^◌, ◌<◌, ◌≡◌, refl, ap, ◌∙◌, List, [], ◌∷◌, length, get_or, sum, codes, word, arith,
  map,
}
use kino.Histogram.{QueueHistogram, queue_bounds_us, new, cumulative, cumulative_from, total}
use kino.Histogram.Record.{record_all, count_covered, cumulative-record_all, length-record_all}
use kino.Control.Figures.{number, put, bucket_line, buckets_text}

module _ (seconds : ℕ → List ℕ) where
  -- A line for each bound and its count.
  pub lines_of : List ℕ → List ℕ → List ℕ → List ℕ
  lines_of [] counts rest = rest
  lines_of (bound ∷ bounds) [] rest = rest
  lines_of (bound ∷ bounds) (count ∷ counts) rest =
      bucket_line (seconds bound) count (lines_of bounds counts rest)

  abbrev pub totals_text : ℕ → ℕ → List ℕ
  totals_text sum_us count = bucket_line (codes "+Inf") count (
      put "kino_request_queue_seconds_sum " (seconds sum_us)
        (put "\nkino_request_queue_seconds_count " (number count) (codes "\n")))

  buckets_text-lines_of :
      (c : ℕ) (bounds buckets : List ℕ) (h : QueueHistogram)
      → length buckets ≡ length bounds
      → c + sum buckets + h.overflow < 2 ^ 64
      → buckets_text seconds c bounds buckets h
        ≡ lines_of bounds
            (cumulative_from c buckets)
            (totals_text h.sum_us (c + sum buckets + h.overflow))
  unfolding buckets_text lines_of cumulative_from sum
  buckets_text-lines_of c [] [] h same room = ap (totals_text h.sum_us) (omega (arith, room))
  buckets_text-lines_of c [] (bucket ∷ buckets) h same room = absurd (omega (arith, same))
  buckets_text-lines_of c (bound ∷ bounds) [] h same room = absurd (omega (arith, same))
  buckets_text-lines_of c (bound ∷ bounds) (bucket ∷ buckets) h same room =
      let small : word (c + bucket) ≡ c + bucket = omega (arith, room) in
      ap (λ n. bucket_line (seconds bound) n (buckets_text seconds n bounds buckets h)) small
      ∙ ap (bucket_line (seconds bound) (c + bucket)) (
          buckets_text-lines_of (c + bucket) bounds buckets h (omega (arith, same))
            (omega (arith, room))
          ∙ ap
              (λ (n : ℕ).
                lines_of bounds (cumulative_from (c + bucket) buckets) (totals_text h.sum_us n))
              (omega arith))

length-cumulative_from :
    (c : ℕ) (buckets : List ℕ) → length (cumulative_from c buckets) ≡ length buckets
unfolding cumulative_from
length-cumulative_from c [] = refl
length-cumulative_from c (bucket ∷ buckets) = ap suc (length-cumulative_from (c + bucket) buckets)

-- Counts that are, at each bound, what `f` says of it.
map_of_get_or :
    (f : ℕ → ℕ) (bounds counts : List ℕ)
    → length counts ≡ length bounds
    → ((i : ℕ) → i < length bounds → get_or counts i 0 ≡ f (get_or bounds i 0))
    → counts ≡ map f bounds
map_of_get_or f [] [] same each = refl
map_of_get_or f [] (count ∷ counts) same each = absurd (omega (arith, same))
map_of_get_or f (bound ∷ bounds) [] same each = absurd (omega (arith, same))
map_of_get_or f (bound ∷ bounds) (count ∷ counts) same each =
    let rest =
      map_of_get_or f bounds counts (omega (arith, same))
        (λ i lt. each (suc i) (omega (arith, lt))) in
    λ i. each 0 (omega arith) i ∷ rest i

-- After any waits, fewer than 2^64, the histogram that is printed has for each bound the number of
-- the waits that the bound covers, and the number of all waits at `+Inf` and as the count.
pub buckets_text-record_all :
    (seconds : ℕ → List ℕ) (waits : List ℕ)
    → length waits < 2 ^ 64
    → let h = record_all new waits in
      buckets_text seconds 0 queue_bounds_us h.buckets h
      ≡ lines_of seconds queue_bounds_us
          (map (λ bound. count_covered bound waits) queue_bounds_us)
          (totals_text seconds h.sum_us (length waits))
unfolding cumulative total new
buckets_text-record_all seconds waits room =
    let h = record_all new waits in
    let sized : length h.buckets ≡ 14 = length-record_all new waits in
    let counts : cumulative h ≡ map (λ bound. count_covered bound waits) queue_bounds_us =
      map_of_get_or (λ bound. count_covered bound waits) queue_bounds_us (cumulative h)
        (length-cumulative_from 0 h.buckets ∙ sized)
        (λ i lt. (cumulative-record_all waits i room lt).0) in
    let all : 0 + sum h.buckets + h.overflow ≡ length waits =
      omega (arith, (cumulative-record_all waits 0 room (omega arith)).1) in
    buckets_text-lines_of seconds 0 queue_bounds_us h.buckets h sized (omega (arith, all, room))
    ∙ (λ i. lines_of seconds queue_bounds_us (counts i) (totals_text seconds h.sum_us (all i)))
