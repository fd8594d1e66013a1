-- ===== src/Control.antt =====
-- ext/kino/src/control.rs: what the control endpoint reports and whom it answers.
-- Texts are lists of bytes. A body names the figures that it shows, whose texts are in Figures.
pub mod Token
pub mod Route
pub mod Head
pub mod Figures
pub mod Json
pub mod Buckets
pub mod Serve
mod Tests
use kino.Prelude.{
  ℕ, zero, suc, ◌+◌, ◌-◌, ◌*◌, ◌/◌, ◌%◌, ◌==◌, max, if◌then◌else◌, Bool, true, false, not, ◌&&◌,
  ◌||◌, Option, none, some, List, [], ◌∷◌, ◌++◌, length, String, codes,
}
use kino.Flume.{Flume}
use kino.Slot.{WorkerSlot}
use kino.Histogram.{QueueHistogram}
use kino.Registry.{ServerInner, queued, lane_depths, state_ready, state_draining}

pub record WorkerStat : Type 0 where
  pub index : ℕ
  pub served : ℕ
  pub in_flight : ℕ
  pub busy_ms : ℕ
  pub quarantined : Bool
  pub retired : Bool

abbrev pub worker_stat : {C : Type 0} → ℕ → ℕ → WorkerSlot C → WorkerStat
worker_stat now index slot = record {
  index = index;
  served = slot.served;
  in_flight = slot.in_flight;
  busy_ms = if slot.quarantined || (slot.in_flight == 0) then 0 else now - slot.last_started_ms;
  quarantined = slot.quarantined;
  retired = slot.retired;
}

pub worker_stats_from : {C : Type 0} → ℕ → ℕ → List (WorkerSlot C) → List WorkerStat
worker_stats_from now index [] = []
worker_stats_from now index (slot ∷ slots) =
    worker_stat now index slot ∷ worker_stats_from now (index + 1) slots

-- `now` is the clock's reading.
unfoldable pub collect_worker_status : {C : Type 0} → ℕ → ServerInner C → List WorkerStat
unfolding worker_stats_from
collect_worker_status now server = worker_stats_from now 0 server.slots

unfoldable pub count_quarantined : List WorkerStat → ℕ
count_quarantined [] = 0
count_quarantined (w ∷ ws) =
    let rest = count_quarantined ws in if w.quarantined then suc rest else rest

pub record StatsSnapshot : Type 0 where
  pub mode : String
  pub lanes : Bool
  pub workers : ℕ
  pub threads : ℕ
  pub batch : ℕ
  pub respawns : ℕ
  pub queued : ℕ
  pub in_flight : ℕ
  pub served : ℕ
  pub rejected : ℕ
  pub timeouts : ℕ
  pub lane_depths : Option (List ℕ)
  pub state : ℕ
  pub worker_status : List WorkerStat
  pub quarantined_count : ℕ
  pub quarantine_replacements : ℕ
  pub max_workers : ℕ
  pub active_workers : ℕ
  pub scale_ups : ℕ
  pub scale_downs : ℕ
  pub queue_histogram : QueueHistogram

-- One pass over the server.
pub take_snapshot : (F : Flume) {A : Type 0} → ℕ → ServerInner (F.Chan A) → StatsSnapshot
take_snapshot F now server = record {
  mode = server.topology.mode;
  lanes = server.lanes;
  workers = server.topology.workers;
  threads = server.topology.threads;
  batch = server.topology.batch;
  respawns = server.respawns;
  queued = queued F server;
  in_flight = server.in_flight;
  served = server.served;
  rejected = server.rejected;
  timeouts = server.timeouts;
  lane_depths = lane_depths F server;
  state = server.state;
  worker_status = collect_worker_status now server;
  quarantined_count = count_quarantined (collect_worker_status now server);
  quarantine_replacements = server.quarantine_replacements;
  max_workers = server.topology.max_workers;
  active_workers = server.active_workers;
  scale_ups = server.scale_ups;
  scale_downs = server.scale_downs;
  queue_histogram = server.queue_histogram;
}

pub state_name : StatsSnapshot → String
state_name s =
    if s.state == state_ready
    then "ready"
    else if s.state == state_draining
    then "draining"
    else "booting"

-- Bits of bytes: `^` and `|` on `w` bits.
pub xor : ℕ → ℕ → ℕ → ℕ
xor zero a b = 0
xor (suc w) a b = (a % 2 + b % 2) % 2 + 2 * xor w (a / 2) (b / 2)

pub or : ℕ → ℕ → ℕ → ℕ
or zero a b = 0
or (suc w) a b = max (a % 2) (b % 2) + 2 * or w (a / 2) (b / 2)

unfoldable pub strip_prefix : List ℕ → List ℕ → Option (List ℕ)
strip_prefix [] text = some text
strip_prefix (p ∷ prefix) [] = none
strip_prefix (p ∷ prefix) (c ∷ text) = if p == c then strip_prefix prefix text else none

-- The loop of `token_ok` over the bytes of both.
pub differ : ℕ → List ℕ → List ℕ → ℕ
differ diff [] p = diff
differ diff (x ∷ e) [] = diff
differ diff (x ∷ e) (y ∷ p) = differ (or 8 diff (xor 8 x y)) e p

pub presented : Option (List ℕ) → List ℕ
presented none = []
presented (some header) = elim (strip_prefix (codes "Bearer ") header) [
  | none ↦ []
  | some token ↦ token
]

pub token_ok : List ℕ → Option (List ℕ) → Bool
unfolding presented
token_ok expected authorization =
    let p = presented authorization in
    if not (length expected == length p) then false else differ 0 expected p == 0

pub data RouteBody : Type 0 where
  text : List ℕ → RouteBody
  stats_json metrics_text : RouteBody

unfoldable pub same_text : List ℕ → List ℕ → Bool
same_text [] [] = true
same_text [] (y ∷ ys) = false
same_text (x ∷ xs) [] = false
same_text (x ∷ xs) (y ∷ ys) = (x == y) && same_text xs ys

-- `path.split('?').next()`; 63 is '?'.
pub before_query : List ℕ → List ℕ
before_query [] = []
before_query (c ∷ path) = if c == 63 then [] else c ∷ before_query path

pub ready_answer : StatsSnapshot → ℕ × String × RouteBody
ready_answer s =
    if s.state == state_ready
    then (200, "text/plain", text (codes "ok\n"))
    else (503, "text/plain", text (codes (state_name s) ++ 10 ∷ []))

pub authorized : Option (List ℕ) → Option (List ℕ) → Bool
authorized authorization none = true
authorized authorization (some expected) = token_ok expected authorization

pub data_answer : List ℕ → Bool → ℕ × String × RouteBody
data_answer path allowed =
    if not allowed
    then (401, "text/plain", text (codes "unauthorized\n"))
    else if same_text path (codes "/stats")
    then (200, "application/json", stats_json)
    else (200, "text/plain; version=0.0.4", metrics_text)

pub route :
    List ℕ → List ℕ → Option (List ℕ) → Option (List ℕ) → StatsSnapshot → ℕ × String × RouteBody
route method target authorization token snapshot =
    let path = before_query target in
    if not (same_text method (codes "GET") || same_text method (codes "HEAD"))
    then (405, "text/plain", text (codes "method not allowed\n"))
    else if same_text path (codes "/live")
    then (200, "text/plain", text (codes "ok\n"))
    else if same_text path (codes "/ready")
    then ready_answer snapshot
    else if same_text path (codes "/stats") || same_text path (codes "/metrics")
    then data_answer path (authorized authorization token)
    else (404, "text/plain", text (codes "not found\n"))

-- `handle`: the answer to one request, on one snapshot of the server.
pub record Answer : Type 0 where
  pub status : ℕ
  pub content_type : String
  pub asks_bearer : Bool
  pub body : RouteBody

pub handle : List ℕ → List ℕ → Option (List ℕ) → Option (List ℕ) → StatsSnapshot → Answer
unfolding route
handle method target authorization token snapshot =
    let (status, content_type, body) = route method target authorization token snapshot in
    record {
      status = status;
      content_type = content_type;
      asks_bearer = status == 401;
      body = if same_text method (codes "HEAD") then text [] else body;
    }
