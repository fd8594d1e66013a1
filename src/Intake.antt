-- ===== src/Intake.antt =====
-- ext/kino/src/server.rs, `handle_request`: from an HTTP request to its response.
-- What the client sends and when deadlines pass is given: the frames of the body, the ticks of the
-- other threads that fit before a deadline, and how the waits end, the client's abort included.
pub mod Forward
pub mod Enqueue
mod Tests
use kino.Prelude.{
  ℕ, zero, suc, ◌+◌, ◌-◌, ◌*◌, ◌^◌, ◌==◌, ltb, min, max, if◌then◌else◌, Bool, true, false, not,
  ◌&&◌, ◌||◌, Option, none, some, List, [], ◌∷◌, ◌++◌, length, String, codes, word,
}
use kino.Flume.{Flume, TrySend, sent, full}
use kino.Response.{BodyAbandon, oversize, timed_out, HyperResponse, plain_response}
use kino.Registry.{ServerInner, Topology}
use kino.Dispatch.{Dispatch, dispatched, retry, closed, try_dispatch}

-- `advertised_streams`: the product saturates at the largest `usize`.
pub advertised_streams : ℕ → ℕ → ℕ
advertised_streams workers threads =
    let slots = min (workers * threads) (2 ^ 64 - 1) in
    if slots == 0 then 200 else min (max slots 8) 1024

unfoldable pub stream_capacity : Topology → ℕ
unfolding advertised_streams
stream_capacity topology = advertised_streams topology.max_workers topology.threads

pub unavailable : {C : Type 0} → ServerInner C → ServerInner C × HyperResponse
unavailable server = (
  record server { rejected = word (server.rejected + 1) },
  plain_response 503 (codes "Service Unavailable\n"),
)

-- Header names are compared as texts of bytes.
pub same_name : String → String → Bool
same_name a b = go (codes a) (codes b)
  where
    go : List ℕ → List ℕ → Bool
    go [] [] = true
    go [] (y ∷ ys) = false
    go (x ∷ xs) [] = false
    go (x ∷ xs) (y ∷ ys) = (x == y) && go xs ys

pub has_header : String → List (String × List ℕ) → Bool
has_header name [] = false
has_header name ((key, value) ∷ headers) = same_name key name || has_header name headers

pub branded : HyperResponse → HyperResponse
branded response =
    if has_header "server" response.headers
    then response
    else record response { headers = response.headers ++ ("server", codes "Kino") ∷ [] }

-- The single exit, which a future that is dropped does not reach.
pub branded_response : Option HyperResponse → Option HyperResponse
branded_response none = none
branded_response (some response) = some (branded response)

-- What the forwarder meets: a data frame, with whether the request handle still takes it, another
-- frame, the end or an error, or silence past the deadline.
pub data Frame : Type 0 where
  data_frame : List ℕ → Bool → Frame
  other_frame ended stalled : Frame

-- What went to the body channel, and whether the body was abandoned.
pub record Forwarded : Type 0 where
  pub chunks : List (List ℕ)
  pub abandoned : Option BodyAbandon

abbrev pub stop : Option BodyAbandon → Forwarded
stop why = record { chunks = []; abandoned = why }

-- The forwarder's loop; `max_body` 0 is no cap.
pub forward : ℕ → ℕ → List Frame → Forwarded
forward max_body total [] = stop none
forward max_body total (ended ∷ frames) = stop none
forward max_body total (stalled ∷ frames) = stop (some timed_out)
forward max_body total (other_frame ∷ frames) = forward max_body total frames
forward max_body total (data_frame bytes taken ∷ frames) =
    let total' = word (total + length bytes) in
    let rest = forward max_body total' frames in
    if ltb 0 max_body && ltb max_body total'
    then stop (some oversize)
    else if taken
    then record rest { chunks = bytes ∷ rest.chunks }
    else stop none

-- `oversize`: the declared length, if one parses.
unfoldable pub is_oversize : ℕ → Option ℕ → Bool
is_oversize max_body content_length =
    ltb 0 max_body && elim content_length [ none ↦ false | some len ↦ ltb max_body len ]

-- How the wait for the response head ends; at the last, hyper drops the future of the request, since
-- the client aborts.
pub data Head : Type 0 where
  answered : HyperResponse → Head
  dropped elapsed aborted : Head

-- How a wait for room ends when nothing else ends it: its deadline, or the client aborts and hyper
-- drops the future at this await.
pub data Lapse : Type 0 where
  timeout client_gone : Lapse

-- Whether the request is with a worker's queue; none where the future is dropped first.
unfoldable pub lapsed : Lapse → Option Bool
lapsed timeout = some false
lapsed client_gone = none

abbrev pub Ticks : Type 0 → Type 0
Ticks C = List (ServerInner C → ServerInner C)

module _ (F : Flume) {A : Type 0} where
  open F use {Chan, try_send}

  -- Each tick is what happens in one of the sleeps that fit before the lapse.
  pub after_attempt :
      Lapse
      → Ticks (Chan A)
      → A
      → ServerInner (Chan A) × Dispatch
      → ServerInner (Chan A) × Option Bool
  unfolding lapsed
  after_attempt lapse ticks ctx (server', dispatched) = (server', some true)
  after_attempt lapse ticks ctx (server', closed) = (server', some false)
  after_attempt lapse [] ctx (server', retry) = (server', lapsed lapse)
  after_attempt lapse (tick ∷ ticks) ctx (server', retry) =
      after_attempt lapse ticks ctx (try_dispatch F (tick server') ctx)

  pub dispatch_to_lane :
      Lapse → Ticks (Chan A) → ServerInner (Chan A) → A → ServerInner (Chan A) × Option Bool
  unfolding after_attempt
  dispatch_to_lane lapse ticks server ctx =
      after_attempt lapse ticks ctx (try_dispatch F server ctx)

  -- `send_async` under the queue timeout: room may come with any tick.
  unfoldable pub send_async :
      Lapse → Ticks (Chan A) → ServerInner (Chan A) → A → ServerInner (Chan A) × Option Bool
  unfolding lapsed
  send_async lapse [] server ctx = (server, lapsed lapse)
  send_async lapse (tick ∷ ticks) server ctx = elim (try_send (tick server).req_rx ctx) [
    | sent rx ↦ (record (tick server) { req_rx = rx }, some true)
    | full ↦ send_async lapse ticks (tick server) ctx
    | TrySend.disconnected ↦ (tick server, some false)
  ]

  unfoldable pub send_shared :
      Lapse → Ticks (Chan A) → ServerInner (Chan A) → A → ServerInner (Chan A) × Option Bool
  send_shared lapse ticks server ctx =
      if not server.req_tx then (server, some false) else elim (try_send server.req_rx ctx) [
        | sent rx ↦ (record server { req_rx = rx }, some true)
        | full ↦ send_async lapse ticks server ctx
        | TrySend.disconnected ↦ (server, some false)
      ]

  pub enqueue :
      Lapse → Ticks (Chan A) → ServerInner (Chan A) → A → ServerInner (Chan A) × Option Bool
  enqueue lapse ticks server ctx =
      if server.lanes
      then dispatch_to_lane lapse ticks server ctx
      else send_shared lapse ticks server ctx

  -- A head that is awaited without a deadline never elapses.
  pub await_head : ServerInner (Chan A) → Head → ServerInner (Chan A) × Option HyperResponse
  await_head server (answered response) = (server, some response)
  await_head server dropped = (server, some (plain_response 500 (codes "Internal Server Error\n")))
  await_head server elapsed = (
    record server { timeouts = word (server.timeouts + 1) },
    some (plain_response 504 (codes "Gateway Timeout\n")),
  )
  await_head server aborted = (server, none)

  pub after_enqueue :
      Head → ServerInner (Chan A) × Option Bool → ServerInner (Chan A) × Option HyperResponse
  after_enqueue head (server', none) = (server', none)
  after_enqueue head (server', some true) = await_head server' head
  after_enqueue head (server', some false) =
      let (server'', response) = unavailable server' in (server'', some response)

  -- The response; none where the future is dropped at an await.
  pub respond :
      Bool
      → Lapse
      → Ticks (Chan A)
      → ServerInner (Chan A)
      → A
      → Head
      → ServerInner (Chan A) × Option HyperResponse
  unfolding after_enqueue
  respond too_large lapse ticks server ctx head =
      if too_large
      then (server, some (plain_response 413 (codes "Payload Too Large\n")))
      else after_enqueue head (enqueue lapse ticks server ctx)

  -- The guard counts the request in, and is dropped with the future whichever way that ends.
  pub handle_request :
      Option ℕ
      → Lapse
      → Ticks (Chan A)
      → ServerInner (Chan A)
      → A
      → Head
      → ServerInner (Chan A) × Option HyperResponse
  handle_request content_length lapse ticks server ctx head =
      let entered : ServerInner (Chan A) = record server {
        in_flight = word (server.in_flight + 1);
      } in
      let (server', response) =
        respond (is_oversize server.max_body_size content_length) lapse ticks entered ctx head in
      (
        record server' { in_flight = word (server'.in_flight + (2 ^ 64 - 1)) },
        branded_response response,
      )
