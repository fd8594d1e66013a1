-- ===== src/Control/Tests.antt =====
-- Requests to the control endpoint of a server that has just booted.
use kino.Prelude.{
  map, subst, eq_of_some, ℕ, ◌≡◌, ◌↔◌, ◌++◌, ◌||◌, ◌⊎◌, true, none, some, List, [], ◌∷◌, codes,
  arith, refl, inl,
}
use kino.Flume.{fifo}
use kino.Sample.{awake, server_with}
use kino.Control.{
  StatsSnapshot, take_snapshot, presented, strip_prefix, token_ok, same_text, before_query, route,
  authorized, data_answer, differ, xor, or,
}
use kino.Histogram
use kino.Histogram.{queue_bounds_us}
use kino.Histogram.Record.{record_all, count_covered}
use kino.Control.Buckets.{lines_of, totals_text, buckets_text-record_all}
use kino.Control.Figures.{buckets_text, number, series, stats_json}
use kino.Control.Json.{print, stats_tree, stats_json-print}
use kino.Control.Token.{AreBytes, bearer, token_ok_iff}
use kino.Control.Route.{IsData, route-IsData}

abbrev secret : List ℕ
secret = 7 ∷ 9 ∷ []

token_ok_iff_example : (token_ok secret (bearer secret) ≡ true) ↔ (bearer secret ≡ bearer secret)
unfolding presented strip_prefix
token_ok_iff_example =
    token_ok_iff 7 (9 ∷ []) (bearer secret) (omega arith, (omega arith, _))
      (omega arith, (omega arith, _))

abbrev booting : StatsSnapshot
booting = take_snapshot fifo 5 (server_with (awake [] ∷ []))

shows_figures :
    IsData (route (codes "GET") (codes "/stats?pretty") (bearer secret) (some secret) booting).2
unfolding route before_query same_text authorized data_answer token_ok presented strip_prefix differ
    xor or
shows_figures = inl refl

presented_bytes : AreBytes (presented (bearer secret))
unfolding presented strip_prefix
presented_bytes = (omega arith, (omega arith, _))

secret_bytes : (expected : List ℕ) → secret ≡ expected → AreBytes expected
secret_bytes expected e = subst (λ t. AreBytes t) e (omega arith, (omega arith, _))

route-IsData_example :
    ((route (codes "GET") (codes "/stats?pretty") (bearer secret) (some secret) booting).0 ≡ 200)
    × ((same_text (codes "GET") (codes "GET") || same_text (codes "GET") (codes "HEAD")) ≡ true)
    × ((some secret ≡ none)
        ⊎ (some secret ≡ some [])
        ⊎ ((expected : List ℕ) × (some secret ≡ some expected) × (bearer secret ≡ bearer expected)))
route-IsData_example =
    route-IsData (codes "GET") (codes "/stats?pretty") (bearer secret) (some secret) booting
      presented_bytes (λ expected e. secret_bytes expected (eq_of_some e)) shows_figures

-- A stand-in for how an `f64` is printed.
abbrev micros : ℕ → List ℕ
micros us = number us ++ codes "e-6"

stats_json-print_example :
    stats_json micros (codes "0.2.0") booting ≡ print (stats_tree micros (codes "0.2.0") booting) []
unfolding take_snapshot
stats_json-print_example =
    stats_json-print micros (codes "0.2.0") booting (omega arith) (omega arith)

worker_rows_text :
    series "kino_worker_busy_ms" "gauge" "Age." "worker" ((0, 12) ∷ []) []
    ≡ codes
        "# HELP kino_worker_busy_ms Age.\n# TYPE kino_worker_busy_ms gauge\nkino_worker_busy_ms{worker=\"0\"} 12\n"
unfolding series number
worker_rows_text = refl

abbrev waits : List ℕ
waits = 400 ∷ 600 ∷ 20_000_000 ∷ []

buckets_text-record_all_example :
    let h = record_all Histogram.new waits in
    buckets_text micros 0 queue_bounds_us h.buckets h
    ≡ lines_of micros queue_bounds_us
        (map (λ bound. count_covered bound waits) queue_bounds_us)
        (totals_text micros h.sum_us 3)
buckets_text-record_all_example = buckets_text-record_all micros waits (omega arith)
