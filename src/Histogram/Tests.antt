-- ===== src/Histogram/Tests.antt =====
-- Waits that fall on, between and past the bounds.
use kino.Prelude.{ℕ, ◌≡◌, refl, List, [], ◌∷◌}
use kino.Histogram.{new, record_wait}
use kino.Histogram.Record.{record_all}

abbrev waits : List ℕ
waits = 400 ∷ 500 ∷ 600 ∷ 20_000_000 ∷ []

buckets_by_wait :
    (record_all new waits).buckets ≡ 2 ∷ 1 ∷ 0 ∷ 0 ∷ 0 ∷ 0 ∷ 0 ∷ 0 ∷ 0 ∷ 0 ∷ 0 ∷ 0 ∷ 0 ∷ 0 ∷ []
unfolding record_all record_wait new
buckets_by_wait = refl
