-- ===== src/Control/Figures.antt =====
-- ext/kino/src/control.rs: the texts of the figures, as JSON and for Prometheus.
-- Each function takes the text that follows what it writes. `seconds` is how Rust prints a number of
-- microseconds divided by a million as an `f64`, and `version` is the crate's.
use kino.Prelude.{
  ℕ, ◌+◌, ◌==◌, if◌then◌else◌, Bool, true, false, Option, none, some, List, [], ◌∷◌, ◌++◌, String,
  codes, word,
}
use kino.Env.Decimal.{digits}
use kino.Registry.{state_ready}
use kino.Histogram.{QueueHistogram, queue_bounds_us}
use kino.Control.{WorkerStat, StatsSnapshot, state_name, RouteBody}

-- A u64 has twenty digits at most.
unfoldable pub number : ℕ → List ℕ
unfolding digits
number n = digits 19 n

abbrev pub truth : Bool → List ℕ
truth b = if b then codes "true" else codes "false"

-- A fixed text, and a value after it.
abbrev pub put : String → List ℕ → List ℕ → List ℕ
put key value rest = codes key ++ (value ++ rest)

-- `join(",")`, 44.
unfoldable pub join : List ℕ → List ℕ → List ℕ
join [] rest = rest
join (d ∷ []) rest = number d ++ rest
join (d ∷ (e ∷ depths)) rest = number d ++ (44 ∷ join (e ∷ depths) rest)

unfoldable pub depths_text : Option (List ℕ) → List ℕ → List ℕ
unfolding join
depths_text none rest = rest
depths_text (some depths) rest = codes ",\"lane_depths\":[" ++ join depths (codes "]" ++ rest)

abbrev pub worker_text : WorkerStat → List ℕ → List ℕ
worker_text w rest = put "{\"index\":" (number w.index) (
    put ",\"served\":" (number w.served) (
      put ",\"in_flight\":" (number w.in_flight) (
        put ",\"busy_ms\":" (number w.busy_ms) (
          put ",\"quarantined\":" (truth w.quarantined)
            (put ",\"retired\":" (truth w.retired) (codes "}" ++ rest))))))

-- A comma before each but the first.
unfoldable pub workers_text : Bool → List WorkerStat → List ℕ → List ℕ
workers_text first [] rest = rest
workers_text true (w ∷ workers) rest = worker_text w (workers_text false workers rest)
workers_text false (w ∷ workers) rest = 44 ∷ worker_text w (workers_text false workers rest)

module _ (seconds : ℕ → List ℕ) (version : List ℕ) where
  unfoldable pub stats_json : StatsSnapshot → List ℕ
  unfolding depths_text workers_text
  stats_json s = put "{\"mode\":\"" (codes s.mode) (
      put "\",\"lanes\":" (truth s.lanes) (
        put ",\"workers\":" (number s.workers) (
          put ",\"threads\":" (number s.threads) (
            put ",\"batch\":" (number s.batch) (
              put ",\"respawns\":" (number s.respawns) (
                put ",\"queued\":" (number s.queued) (
                  put ",\"in_flight\":" (number s.in_flight) (
                    put ",\"served\":" (number s.served) (
                      put ",\"rejected\":" (number s.rejected) (
                        put ",\"timeouts\":" (number s.timeouts) (
                          put ",\"max_workers\":" (number s.max_workers) (
                            put ",\"active_workers\":" (number s.active_workers) (
                              put ",\"scale_ups\":" (number s.scale_ups) (
                                put ",\"scale_downs\":" (number s.scale_downs) (
                                  depths_text s.lane_depths (
                                    codes ",\"worker_status\":["
                                    ++ workers_text true s.worker_status (
                                        put "],\"queue_time\":{\"count\":"
                                          (number s.queue_histogram.count)
                                          (put ",\"sum_seconds\":"
                                            (seconds s.queue_histogram.sum_us)
                                            (put "},\"quarantined\":" (number s.quarantined_count) (
                                              put ",\"state\":\"" (codes (state_name s)) (
                                                put "\",\"version\":\"" version
                                                  (codes "\"}"))))))))))))))))))))))

-- HELP and TYPE, and for a single value its line; 10 is a newline.
abbrev pub heading : String → String → String → List ℕ → List ℕ
heading name kind help rest =
    put "# HELP " (codes name)
      (put " " (codes help) (put "\n# TYPE " (codes name) (put " " (codes kind) (10 ∷ rest))))

pub metric : String → String → String → List ℕ → List ℕ → List ℕ
metric name kind help value rest =
    heading name kind help (codes name ++ (32 ∷ (value ++ (10 ∷ rest))))

pub rows_text : String → String → List (ℕ × ℕ) → List ℕ → List ℕ
rows_text name label [] rest = rest
rows_text name label ((key, value) ∷ rows) rest =
    codes name
    ++ (123
        ∷ put label (codes "=\"") (
            number key
            ++ (codes "\"} " ++ (number value ++ (10 ∷ rows_text name label rows rest)))))

unfoldable pub series : String → String → String → String → List (ℕ × ℕ) → List ℕ → List ℕ
unfolding rows_text
series name kind help label rows rest = heading name kind help (rows_text name label rows rest)

-- `enumerate`, from an index on.
pub enumerate : ℕ → List ℕ → List (ℕ × ℕ)
enumerate i [] = []
enumerate i (x ∷ xs) = (i, x) ∷ enumerate (i + 1) xs

pub worker_rows : (WorkerStat → ℕ) → List WorkerStat → List (ℕ × ℕ)
worker_rows value [] = []
worker_rows value (w ∷ workers) = (w.index, value w) ∷ worker_rows value workers

pub depth_series : Option (List ℕ) → List ℕ → List ℕ
unfolding series enumerate
depth_series none rest = rest
depth_series (some depths) rest =
    series "kino_lane_depth" "gauge" "Queued requests in each worker lane." "lane"
      (enumerate 0 depths) rest

abbrev pub bucket_line : List ℕ → ℕ → List ℕ → List ℕ
bucket_line le count rest =
    put "kino_request_queue_seconds_bucket{le=\"" le (put "\"} " (number count) (10 ∷ rest))

module _ (seconds : ℕ → List ℕ) where
  -- The loop over the bounds, and what follows it.
  unfoldable pub buckets_text : ℕ → List ℕ → List ℕ → QueueHistogram → List ℕ
  buckets_text cumulative (bound ∷ bounds) (bucket ∷ buckets) h =
      bucket_line (seconds bound) (word (cumulative + bucket))
        (buckets_text (word (cumulative + bucket)) bounds buckets h)
  buckets_text cumulative _ _ h =
      let total = word (cumulative + h.overflow) in
      bucket_line (codes "+Inf") total (
        put "kino_request_queue_seconds_sum " (seconds h.sum_us)
          (put "\nkino_request_queue_seconds_count " (number total) (codes "\n")))

  pub metrics_text : StatsSnapshot → List ℕ
  unfolding metric series depth_series worker_rows buckets_text
  metrics_text s =
      metric "kino_requests_served_total" "counter" "Requests handed to Ruby workers."
        (number s.served)
        (metric "kino_requests_rejected_total" "counter" "Requests rejected with a 503."
          (number s.rejected)
          (metric "kino_request_timeouts_total" "counter"
            "Responses past the request timeout (client got a 504)." (number s.timeouts)
            (metric "kino_worker_respawns_total" "counter"
              "Crashed workers respawned by the supervisor." (number s.respawns)
              (metric "kino_queue_depth" "gauge" "Requests waiting for a worker." (number s.queued)
                (metric "kino_requests_in_flight" "gauge" "Requests currently inside Ruby workers."
                  (number s.in_flight)
                  (metric "kino_workers" "gauge" "Configured worker count." (number s.workers) (
                    metric "kino_threads_per_worker" "gauge" "Configured threads per worker."
                      (number s.threads)
                      (metric "kino_max_workers" "gauge"
                        "Worker pool ceiling (equals kino_workers for a fixed pool)."
                        (number s.max_workers)
                        (metric "kino_active_workers" "gauge" "Workers currently alive and serving."
                          (number s.active_workers)
                          (metric "kino_scale_ups_total" "counter"
                            "Workers added by the pool scaler." (number s.scale_ups)
                            (metric "kino_scale_downs_total" "counter"
                              "Idle workers retired by the pool scaler." (number s.scale_downs)
                              (metric "kino_ready" "gauge"
                                "1 when serving, 0 while booting or draining."
                                (codes (if s.state == state_ready then "1" else "0"))
                                (depth_series s.lane_depths (
                                  series "kino_worker_requests_served_total" "counter"
                                    "Requests handed to each dispatch slot." "worker"
                                    (worker_rows (λ w. w.served) s.worker_status)
                                    (series "kino_worker_in_flight" "gauge"
                                      "Requests executing in each dispatch slot." "worker"
                                      (worker_rows (λ w. w.in_flight) s.worker_status)
                                      (series "kino_worker_busy_ms" "gauge"
                                        "Age in ms of the current in-flight request per slot (0 when idle)."
                                        "worker" (worker_rows (λ w. w.busy_ms) s.worker_status)
                                        (metric "kino_quarantined_workers" "gauge"
                                          "Dispatch slots abandoned as wedged."
                                          (number s.quarantined_count)
                                          (metric "kino_quarantine_replacements_total" "counter"
                                            "Replacement workers spawned after a wedge."
                                            (number s.quarantine_replacements)
                                            (heading "kino_request_queue_seconds" "histogram"
                                              "Seconds requests waited in the queue before a worker admitted them."
                                              (buckets_text 0 queue_bounds_us
                                                s.queue_histogram.buckets
                                                s.queue_histogram))))))))))))))))))))

-- The bytes of an answer's body.
unfoldable pub body_text : (ℕ → List ℕ) → List ℕ → StatsSnapshot → RouteBody → List ℕ
unfolding stats_json metrics_text
body_text seconds version s (RouteBody.text t) = t
body_text seconds version s RouteBody.stats_json = stats_json seconds version s
body_text seconds version s RouteBody.metrics_text = metrics_text seconds s
