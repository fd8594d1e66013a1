-- ===== src/Worker.antt =====
-- ext/kino/src/queue.rs: how a worker takes a request.
-- A worker knows its slot by index: a slot is never removed, so the index stands for the `Arc`.
-- `recv_timeout` is one element of `ticks`: the other threads act, then the channel is read; an
-- empty channel is the timeout. Building the Ruby objects of a request is not modelled.
pub mod Steal
pub mod Take
pub mod Batch
mod Tests
use mathlib.Core.Option
use kino.Prelude.{
  ℕ, zero, suc, ◌+◌, ◌-◌, ◌==◌, if◌then◌else◌, Bool, true, false, Option, none, some, List, [], ◌∷◌,
  ◌++◌, get_elem?, set, word,
}
use kino.Flume.{Flume, TryRecv, received, empty}
use kino.Slot.{WorkerSlot}
use kino.Registry.{ServerInner}
use kino.Histogram.{record_wait}
use kino.Gvl.{Wait, interrupted, finished, pending, interruptible}

module _ (F : Flume) {A : Type 0} where
  open F use {Chan, try_recv}

  -- `rx.try_recv().ok()` on the slot's lane.
  unfoldable pub recv_lane : WorkerSlot (Chan A) → Option A × WorkerSlot (Chan A)
  recv_lane slot = elim slot.lane_rx [
    | none ↦ (none, slot)
    | some rx ↦ elim (try_recv rx) [
      | received ctx rx' ↦ (some ctx, record slot { lane_rx = some rx' })
      | _ ↦ (none, slot)
    ]
  ]

  -- None is "keep waiting".
  unfoldable pub after_timeout : WorkerSlot (Chan A) → Option (Option A) × WorkerSlot (Chan A)
  unfolding recv_lane
  after_timeout slot =
      if slot.retired
      then (let (ctx, slot') = recv_lane slot in (some ctx, slot'))
      else (none, slot)

  -- The closure `steal`: the first sibling lane, in slot order, that has a request.
  pub steal : ℕ → ℕ → List (WorkerSlot (Chan A)) → Option A × List (WorkerSlot (Chan A))
  steal self j [] = (none, [])
  steal self j (other ∷ slots) =
      let (later, slots') = steal self (j + 1) slots in
      let (own, other') = recv_lane other in
      if j == self
      then (later, other ∷ slots')
      else elim own [ some ctx ↦ (some ctx, other' ∷ slots) | none ↦ (later, other ∷ slots') ]

  -- The worker's slot is written back.
  abbrev pub write : ServerInner (Chan A) → ℕ → WorkerSlot (Chan A) → ServerInner (Chan A)
  write server i slot = record server { slots = set server.slots i slot }

  unfoldable pub steal_step : ℕ → ServerInner (Chan A) → Option (Option A) × ServerInner (Chan A)
  steal_step i server =
      let (ctx, slots) = steal i 0 server.slots in
      (Option.map some ctx, record server { slots = slots })

  unfoldable pub timeout_step : ℕ → ServerInner (Chan A) → Option (Option A) × ServerInner (Chan A)
  timeout_step i server = elim (get_elem? server.slots i) [
    | none ↦ (none, server)
    | some slot ↦ let (taken, slot') = after_timeout slot in (taken, write server i slot')
  ]

  -- One attempt on the shared queue, and one on the worker's own lane.
  unfoldable pub shared_attempt :
      ℕ → ServerInner (Chan A) → Option (Option A) × ServerInner (Chan A)
  shared_attempt i server = elim (try_recv server.req_rx) [
    | received ctx rx ↦ (some (some ctx), record server { req_rx = rx })
    | empty ↦ timeout_step i server
    | TryRecv.disconnected ↦ (some none, server)
  ]

  unfoldable pub lane_attempt : ℕ → ServerInner (Chan A) → Option (Option A) × ServerInner (Chan A)
  lane_attempt i server = elim (get_elem? server.slots i) [
    | none ↦ (none, server)
    | some slot ↦ elim slot.lane_rx [
      | none ↦ (none, server)
      | some rx ↦ elim (try_recv rx) [
        | received ctx rx' ↦ (some (some ctx), write server i (record slot { lane_rx = some rx' }))
        | TryRecv.disconnected ↦ (some none, server)
        | empty ↦
            let (taken, server') = timeout_step i server in
            elim taken [ some ctx ↦ (some ctx, server') | none ↦ steal_step i server' ]
      ]
    ]
  ]

  pub interrupted_flag : ℕ → ServerInner (Chan A) → Bool
  interrupted_flag i server = elim (get_elem? server.slots i) [
    | none ↦ false
    | some slot ↦ slot.interrupted
  ]

  -- What a take that went to wait comes to: `flatten` makes an interruption a shutdown.
  pub flatten : Wait (ServerInner (Chan A)) (Option A) → Wait (ServerInner (Chan A)) (Option A)
  flatten (interrupted server) = finished none server
  flatten (finished taken server) = finished taken server
  flatten (pending server) = pending server

  -- The flag goes up with the next number of the park sequence; it comes down once the wait ends.
  unfoldable pub park : ℕ → ServerInner (Chan A) → ServerInner (Chan A)
  park i server = elim (get_elem? server.slots i) [
    | none ↦ server
    | some slot ↦
        let seq = word (server.park_seq + 1) in
        write (record server { park_seq = seq }) i (record slot { parked_at = seq; parked = true })
  ]

  unfoldable pub unpark : ℕ → ServerInner (Chan A) → ServerInner (Chan A)
  unpark i server = elim (get_elem? server.slots i) [
    | none ↦ server
    | some slot ↦ write server i (record slot { parked = false })
  ]

  pub unpark_after :
      ℕ → Wait (ServerInner (Chan A)) (Option A) → Wait (ServerInner (Chan A)) (Option A)
  unpark_after i (interrupted server) = interrupted (unpark i server)
  unpark_after i (finished taken server) = finished taken (unpark i server)
  unpark_after i (pending server) = pending server

  -- The wait of a parked worker.
  pub parked_wait :
      ℕ
      → List (ServerInner (Chan A) → ServerInner (Chan A))
      → ServerInner (Chan A)
      → Wait (ServerInner (Chan A)) (Option A)
  parked_wait i ticks server =
      flatten
        (unpark_after i (interruptible (interrupted_flag i) (lane_attempt i) ticks (park i server)))

  -- `lane_take`: the own lane, then a steal, then the wait.
  pub lane_take :
      ℕ
      → Chan A
      → WorkerSlot (Chan A)
      → List (ServerInner (Chan A) → ServerInner (Chan A))
      → ServerInner (Chan A)
      → Wait (ServerInner (Chan A)) (Option A)
  lane_take i rx slot ticks server = elim (try_recv rx) [
    | received ctx rx' ↦ finished (some ctx) (write server i (record slot { lane_rx = some rx' }))
    | TryRecv.disconnected ↦ finished none server
    | empty ↦
        let (stolen, server') = steal_step i server in
        elim stolen [ some taken ↦ finished taken server' | none ↦ parked_wait i ticks server ]
  ]

  unfoldable pub shared_take :
      ℕ
      → List (ServerInner (Chan A) → ServerInner (Chan A))
      → ServerInner (Chan A)
      → Wait (ServerInner (Chan A)) (Option A)
  shared_take i ticks server = elim (try_recv server.req_rx) [
    | received ctx rx ↦ finished (some ctx) (record server { req_rx = rx })
    | TryRecv.disconnected ↦ finished none server
    | empty ↦ flatten (interruptible (interrupted_flag i) (shared_attempt i) ticks server)
  ]

  unfoldable pub block_take :
      ℕ
      → WorkerSlot (Chan A)
      → List (ServerInner (Chan A) → ServerInner (Chan A))
      → ServerInner (Chan A)
      → Wait (ServerInner (Chan A)) (Option A)
  block_take i slot ticks server = elim slot.lane_rx [
    | some rx ↦ lane_take i rx slot ticks server
    | none ↦ shared_take i ticks server
  ]

  -- `checkout`: the previous batch is over. A worker whose slot is not there does not exist.
  unfoldable pub checked_in : WorkerSlot (Chan A) → WorkerSlot (Chan A)
  checked_in slot = record slot { current = []; in_flight = 0; interrupted = false }

  unfoldable pub checkout :
      ℕ
      → List (ServerInner (Chan A) → ServerInner (Chan A))
      → ServerInner (Chan A)
      → Wait (ServerInner (Chan A)) (Option A)
  checkout i ticks server = elim (get_elem? server.slots i) [
    | none ↦ finished none server
    | some slot ↦ block_take i (checked_in slot) ticks (write server i (checked_in slot))
  ]

  abbrev pub admitted : WorkerSlot (Chan A) → ℕ → ℕ → WorkerSlot (Chan A)
  admitted slot responder now = record slot {
    served = word (slot.served + 1);
    last_started_ms = now;
    in_flight = word (slot.in_flight + 1);
    current = slot.current ++ responder ∷ [];
  }

  -- `admit`: `responder` is the request's responder, `now` the clock, `wait` the time since the
  -- request was queued.
  pub admit : ServerInner (Chan A) → ℕ → ℕ → ℕ → ℕ → ServerInner (Chan A)
  admit server i responder now wait = elim (get_elem? server.slots i) [
    | none ↦ server
    | some slot ↦
        write
          (record server {
            served = word (server.served + 1);
            queue_histogram = record_wait server.queue_histogram wait;
          })
          i (admitted slot responder now)
  ]

  -- One request into the batch.
  abbrev pub admit_ctx : (A → ℕ) → (A → ℕ) → ℕ → ServerInner (Chan A) → ℕ → A → ServerInner (Chan A)
  admit_ctx responder wait now server i ctx = admit server i (responder ctx) now (wait ctx)

  -- `for _ in 1..max`: the rest of the batch, while the shared queue has requests.
  pub drain_batch :
      (A → ℕ) → (A → ℕ) → ℕ → ℕ → ℕ → ServerInner (Chan A) → List A × ServerInner (Chan A)
  drain_batch responder wait now i zero server = ([], server)
  drain_batch responder wait now i (suc n) server = elim (try_recv server.req_rx) [
    | received ctx rx ↦
        let (rest, server') =
          drain_batch responder wait now i n
            (admit_ctx responder wait now (record server { req_rx = rx }) i ctx) in
        (ctx ∷ rest, server')
    | _ ↦ ([], server)
  ]

  -- `take_batch`, once `checkout` gave its first request.
  pub take_batch :
      (A → ℕ) → (A → ℕ) → ℕ → ℕ → ℕ → A → ServerInner (Chan A) → List A × ServerInner (Chan A)
  take_batch responder wait now i limit first server =
      let (rest, server') =
        drain_batch responder wait now i (limit - 1)
          (admit_ctx responder wait now server i first) in
      (first ∷ rest, server')
