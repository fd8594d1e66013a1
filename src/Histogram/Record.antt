-- ===== src/Histogram/Record.antt =====
-- Where a wait is counted, and what the printed totals are.
use mathlib.Core.Option.{none-ne-some}
use kino.Prelude.{
  word, ℕ, zero, suc, ◌+◌, ◌^◌, ◌≤◌, ◌<◌, ◌≡◌, refl, inl, inr, leb, none, some, Option-cases,
  Bool-cases, List, [], ◌∷◌, get_or, set, length, length-set, if◌then◌else◌, arith, ap, ◌∙◌,
  replicate, sum, All,
}
use kino.Histogram.{
  QueueHistogram, queue_bounds_us, new, position, record_wait, cumulative, cumulative_from, total,
}

first-cons :
    (b : ℕ) (bounds : List ℕ) (wait i j : ℕ)
    → b < wait
    → ((k : ℕ) → k < i → get_or bounds k 0 < wait)
    → j < suc i
    → get_or (b ∷ bounds) j 0 < wait
first-cons b bounds wait i zero h later lt = h
first-cons b bounds wait i (suc j) h later lt = later j (omega arith)

-- The bound at the position is the first one that the wait does not exceed.
position-first :
    (bounds : List ℕ) (wait i : ℕ)
    → position bounds wait ≡ some i
    → (i < length bounds)
      × (wait ≤ get_or bounds i 0)
      × ((j : ℕ) → j < i → get_or bounds j 0 < wait)
unfolding position
position-first [] wait i e = absurd (none-ne-some i e)
position-first (b ∷ bounds) wait zero e = (omega arith, ground arith, λ j h. absurd (omega arith))
position-first (b ∷ bounds) wait (suc i) e =
    let found = position-first bounds wait i (ground arith) in
    (omega (arith, found.0), found.1, λ j h. first-cons b bounds wait i j (ground arith) found.2 h)

-- With no position every bound is below the wait.
position-none :
    (bounds : List ℕ) (wait j : ℕ)
    → position bounds wait ≡ none
    → j < length bounds
    → get_or bounds j 0 < wait
unfolding position
position-none [] wait j e h = absurd (omega arith)
position-none (b ∷ bounds) wait zero e h = ground arith
position-none (b ∷ bounds) wait (suc j) e h =
    position-none bounds wait j (ground arith) (omega arith)

abbrev Ascending : List ℕ → Type 0
Ascending [] = Unit {0}
Ascending (b ∷ bounds) = All (λ c. b ≤ c) bounds × Ascending bounds

All-get_or :
    (b : ℕ) (bounds : List ℕ) (i : ℕ)
    → All (λ c. b ≤ c) bounds
    → i < length bounds
    → b ≤ get_or bounds i 0
All-get_or b [] i h lt = absurd (omega arith)
All-get_or b (c ∷ bounds) zero h lt = h.0
All-get_or b (c ∷ bounds) (suc i) h lt = All-get_or b bounds i h.1 (omega arith)

Ascending-get_or :
    (bounds : List ℕ) (p i : ℕ)
    → Ascending bounds
    → p ≤ i
    → i < length bounds
    → get_or bounds p 0 ≤ get_or bounds i 0
Ascending-get_or [] p i a h lt = absurd (omega arith)
Ascending-get_or (b ∷ bounds) zero zero a h lt = omega arith
Ascending-get_or (b ∷ bounds) zero (suc i) a h lt = All-get_or b bounds i a.0 (omega arith)
Ascending-get_or (b ∷ bounds) (suc p) zero a h lt = absurd (omega arith)
Ascending-get_or (b ∷ bounds) (suc p) (suc i) a h lt =
    Ascending-get_or bounds p i a.1 (omega arith) (omega arith)

-- 1 for a wait that the bound covers.
abbrev pub covered : ℕ → ℕ → ℕ
covered bound wait = if leb wait bound then 1 else 0

abbrev from : ℕ → ℕ → ℕ
from p i = if leb p i then 1 else 0

position-covered :
    (bounds : List ℕ) (wait p i : ℕ)
    → Ascending bounds
    → position bounds wait ≡ some p
    → i < length bounds
    → covered (get_or bounds i 0) wait ≡ from p i
position-covered bounds wait p i a e lt = elim (Bool-cases (leb p i)) [
  | inl le ↦ ground (arith, first.1, Ascending-get_or bounds p i a (ground arith) lt)
  | inr gt ↦ ground (arith, first.2 i (ground arith))
]
  where
    first :
        (p < length bounds)
        × (wait ≤ get_or bounds p 0)
        × ((j : ℕ) → j < p → get_or bounds j 0 < wait)
    first = position-first bounds wait p e

cumulative_from-suc :
    (c : ℕ) (buckets : List ℕ) (i : ℕ)
    → i < length buckets
    → get_or (cumulative_from (c + 1) buckets) i 0 ≡ get_or (cumulative_from c buckets) i 0 + 1
unfolding cumulative_from
cumulative_from-suc c [] i h = absurd (omega arith)
cumulative_from-suc c (b ∷ buckets) zero h = omega arith
cumulative_from-suc c (b ∷ buckets) (suc i) h =
    ap (λ (t : ℕ). get_or (cumulative_from t buckets) i 0) (omega arith)
    ∙ cumulative_from-suc (c + b) buckets i (omega arith)

-- One more in bucket `p` raises the running totals from `p` on.
cumulative_from-set :
    (c : ℕ) (buckets : List ℕ) (p i : ℕ)
    → p < length buckets
    → i < length buckets
    → get_or (cumulative_from c (set buckets p (get_or buckets p 0 + 1))) i 0
      ≡ get_or (cumulative_from c buckets) i 0 + from p i
unfolding cumulative_from
cumulative_from-set c [] p i hp hi = absurd (omega arith)
cumulative_from-set c (b ∷ buckets) zero zero hp hi = omega arith
cumulative_from-set c (b ∷ buckets) zero (suc i) hp hi =
    ap (λ (t : ℕ). get_or (cumulative_from t buckets) i 0) (omega arith)
    ∙ cumulative_from-suc (c + b) buckets i (omega arith)
    ∙ ap (◌+◌ (get_or (cumulative_from (c + b) buckets) i 0)) (ground arith)
cumulative_from-set c (b ∷ buckets) (suc p) zero hp hi = ground arith
cumulative_from-set c (b ∷ buckets) (suc p) (suc i) hp hi =
    ground (arith, cumulative_from-set (c + b) buckets p i (omega arith) (omega arith))

sum-set :
    (buckets : List ℕ) (p : ℕ)
    → p < length buckets
    → sum (set buckets p (get_or buckets p 0 + 1)) ≡ sum buckets + 1
unfolding sum
sum-set [] p h = absurd (omega arith)
sum-set (b ∷ buckets) zero h = omega arith
sum-set (b ∷ buckets) (suc p) h = omega (arith, sum-set buckets p (omega arith))

get_or-le-sum : (buckets : List ℕ) (p : ℕ) → get_or buckets p 0 ≤ sum buckets
unfolding sum
get_or-le-sum [] p = omega arith
get_or-le-sum (b ∷ buckets) zero = omega arith
get_or-le-sum (b ∷ buckets) (suc p) = omega (arith, get_or-le-sum buckets p)

-- The counters agree, and the next wait does not wrap them.
record IsCounted (h : QueueHistogram) : Type 0 where
  sized : length h.buckets ≡ 14
  agrees : h.count ≡ total h

module _ (h : QueueHistogram) (wait : ℕ) (v : IsCounted h) (room : h.count + 1 < 2 ^ 64) where
  fits : (p : ℕ) → get_or h.buckets p 0 + 1 < 2 ^ 64
  unfolding total
  fits p = omega (arith, get_or-le-sum h.buckets p, v.agrees)

  record_wait-IsCounted :
      IsCounted (record_wait h wait) × ((record_wait h wait).count ≡ h.count + 1)
  unfolding record_wait total
  record_wait-IsCounted = elim (Option-cases (position queue_bounds_us wait)) [
    | inl e ↦ ground (arith, e)
    | inr (p, e) ↦ ground (
      arith,
      e,
      fits p,
      sum-set h.buckets p,
      length-set h.buckets p (get_or h.buckets p 0 + 1),
      position-first queue_bounds_us wait p e,
    )
  ]

  cumulative-record_wait :
      (i : ℕ)
      → i < 14
      → get_or (cumulative (record_wait h wait)) i 0
        ≡ get_or (cumulative h) i 0 + covered (get_or queue_bounds_us i 0) wait
  unfolding record_wait cumulative
  cumulative-record_wait i lt = elim (Option-cases (position queue_bounds_us wait)) [
    | inl e ↦ ground (arith, e, position-none queue_bounds_us wait i e lt)
    | inr (p, e) ↦ ground (
      arith,
      e,
      fits p,
      v.sized,
      position-first queue_bounds_us wait p e,
      position-covered queue_bounds_us wait p i (omega arith) e lt,
      cumulative_from-set 0 h.buckets p i,
    )
  ]

unfoldable pub record_all : QueueHistogram → List ℕ → QueueHistogram
record_all h [] = h
record_all h (wait ∷ waits) = record_all (record_wait h wait) waits

-- How many of the waits the bound covers.
pub count_covered : ℕ → List ℕ → ℕ
count_covered bound [] = 0
count_covered bound (wait ∷ waits) = covered bound wait + count_covered bound waits

record_all_lem :
    (h : QueueHistogram) (waits : List ℕ) (i : ℕ)
    → IsCounted h
    → h.count + length waits < 2 ^ 64
    → i < 14
    → (get_or (cumulative (record_all h waits)) i 0
        ≡ get_or (cumulative h) i 0 + count_covered (get_or queue_bounds_us i 0) waits)
      × (total (record_all h waits) ≡ h.count + length waits)
      × ((record_all h waits).count ≡ h.count + length waits)
unfolding record_all count_covered
record_all_lem h [] i v room lt = (omega arith, omega (arith, v.agrees), omega arith)
record_all_lem h (wait ∷ waits) i v room lt =
    let (v', counted) = record_wait-IsCounted h wait v (omega arith) in
    let (bucket, all, count) = record_all_lem (record_wait h wait) waits i v' (omega arith) lt in
    (omega (arith, cumulative-record_wait h wait v (omega arith) i lt), omega arith, omega arith)

cumulative_from-replicate : (n i : ℕ) → get_or (cumulative_from 0 (replicate n 0)) i 0 ≡ 0
unfolding cumulative_from
cumulative_from-replicate zero i = refl
cumulative_from-replicate (suc n) zero = refl
cumulative_from-replicate (suc n) (suc i) = cumulative_from-replicate n i

cumulative-new : (i : ℕ) → get_or (cumulative new) i 0 ≡ 0
unfolding cumulative new
cumulative-new i = cumulative_from-replicate 14 i

new-IsCounted : IsCounted new × (new.count ≡ 0)
unfolding new total sum
new-IsCounted = (record { sized = refl; agrees = refl }, refl)

-- After any waits, fewer than 2^64, the printed bucket of a bound counts the waits that the bound
-- covers, and the printed total and the `count` field are the number of waits.
pub cumulative-record_all :
    (waits : List ℕ) (i : ℕ)
    → length waits < 2 ^ 64
    → i < 14
    → (get_or (cumulative (record_all new waits)) i 0
        ≡ count_covered (get_or queue_bounds_us i 0) waits)
      × (total (record_all new waits) ≡ length waits)
      × ((record_all new waits).count ≡ length waits)
cumulative-record_all waits i room lt = omega (
  arith,
  record_all_lem new waits i new-IsCounted.0 (omega (arith, new-IsCounted.1)) lt,
  cumulative-new i,
  new-IsCounted.1,
)

pub length-record_all :
    (h : QueueHistogram) (waits : List ℕ) → length (record_all h waits).buckets ≡ length h.buckets
unfolding record_all record_wait
length-record_all h [] = refl
length-record_all h (wait ∷ waits) =
    length-record_all (record_wait h wait) waits
    ∙ elim (Option-cases (position queue_bounds_us wait)) [
      | inl e ↦ ground (arith, e)
      | inr (p, e) ↦ ground (arith, e, length-set h.buckets p (word (get_or h.buckets p 0 + 1)))
    ]
