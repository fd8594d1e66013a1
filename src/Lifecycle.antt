-- ===== src/Lifecycle.antt =====
-- ext/kino/src/server.rs: the natives that Ruby calls on a server by its id.
-- `try_get` shares the server; a call changes it in place, so the table holds the server after the
-- call. An id that names no server is a no-op, or zeros. A worker id that names no slot is the error
-- "unknown worker".
pub mod Gone
pub mod Abort
pub mod Close
mod Tests
use kino.Prelude.{
  ℕ, zero, suc, ◌+◌, ◌==◌, if◌then◌else◌, Bool, true, false, Option, none, some, List, [], ◌∷◌,
  length, get_or, set, sum, map, word,
}
use kino.Flume.{Flume, TryRecv, received, empty}
use kino.Slot
use kino.Slot.{WorkerSlot}
use kino.Response.{Backstop, returned, waiting, Shared, respond_500_if_unsent}
use kino.Registry.{
  Registry, ServerInner, RuntimeHandle, stopped, state_ready, state_draining, try_get, remove, slot,
  register_worker, queued, lane_depths,
}
use kino.Control.{WorkerStat, collect_worker_status}

-- `Result<T, Error>`: the error is "unknown worker", or of `registry::get`, "unknown server".
pub data Native (T : Type 0) : Type 0 where
  ok : T → Native T
  unknown_worker unknown_server : Native T

-- The fields that `server_stats` reports.
pub record ServerStats : Type 0 where
  pub queued : ℕ
  pub in_flight : ℕ
  pub served : ℕ
  pub rejected : ℕ
  pub timeouts : ℕ
  pub respawns : ℕ
  pub lane_depths : Option (List ℕ)

abbrev pub no_stats : ServerStats
no_stats = record {
  queued = 0;
  in_flight = 0;
  served = 0;
  rejected = 0;
  timeouts = 0;
  respawns = 0;
  lane_depths = none;
}

module _ {C : Type 0} where
  unfoldable pub replace : ℕ → ServerInner C → List (ℕ × ServerInner C) → List (ℕ × ServerInner C)
  replace id server [] = []
  replace id server ((key, old) ∷ servers) =
      let rest = replace id server servers in
      if key == id then (key, server) ∷ servers else (key, old) ∷ rest

  -- `if let Some(server) = try_get(id) { change(server) }`.
  pub on_server : (ServerInner C → ServerInner C) → Registry C → ℕ → Registry C
  on_server change r id = elim (try_get r id) [
    | none ↦ r
    | some server ↦ record r { servers = replace id (change server) r.servers }
  ]

  -- The same on one slot of the server.
  pub on_slot : (WorkerSlot C → WorkerSlot C) → Registry C → ℕ → ℕ → Native (Registry C)
  on_slot change r id worker_id = elim (try_get r id) [
    | none ↦ ok r
    | some server ↦ elim (slot server worker_id) [
      | none ↦ unknown_worker
      | some s ↦ ok (record r {
        servers =
            replace id (record server { slots = set server.slots worker_id (change s) }) r.servers;
      })
    ]
  ]

  -- A watch channel takes a value only while it has a receiver: `watched`.
  pub stop_accepting : Bool → Registry C → ℕ → Registry C
  stop_accepting watched = on_server (λ server. record server {
    state = state_draining;
    shutdown = if watched then true else server.shutdown;
  })

  pub control_ready : Registry C → ℕ → Registry C
  control_ready = on_server (λ server. record server { state = state_ready })

  pub record_respawn : Registry C → ℕ → Registry C
  record_respawn = on_server (λ server. record server { respawns = word (server.respawns + 1) })

  pub interrupt_all_workers : Registry C → ℕ → Registry C
  interrupt_all_workers = on_server (λ server. record server {
    slots = map (λ (s : WorkerSlot C). record s { interrupted = true }) server.slots;
  })

  pub quarantine_slot : Registry C → ℕ → ℕ → Native (Registry C)
  quarantine_slot = on_slot (λ s. record s { quarantined = true })

  pub retire_slot : Registry C → ℕ → ℕ → Native (Registry C)
  retire_slot = on_slot Slot.retire

  pub reset_slot : Registry C → ℕ → ℕ → Native (Registry C)
  reset_slot = on_slot Slot.reset

  pub set_active_workers : Registry C → ℕ → ℕ → Registry C
  set_active_workers r id count =
      on_server (λ server. record server { active_workers = count }) r id

  pub record_scale_up : Registry C → ℕ → Registry C
  record_scale_up = on_server (λ server. record server { scale_ups = word (server.scale_ups + 1) })

  pub record_scale_down : Registry C → ℕ → Registry C
  record_scale_down =
      on_server (λ server. record server { scale_downs = word (server.scale_downs + 1) })

  pub record_quarantine_replacement : Registry C → ℕ → Registry C
  record_quarantine_replacement = on_server (λ server. record server {
    quarantine_replacements = word (server.quarantine_replacements + 1);
  })

  pub pool_stats : Registry C → ℕ → ℕ × ℕ × ℕ × ℕ
  pool_stats r id = elim (try_get r id) [
    | none ↦ (0, 0, 0, 0)
    | some server ↦
        (server.active_workers, server.topology.max_workers, server.scale_ups, server.scale_downs)
  ]

  -- The count of waits and their sum, here in microseconds.
  pub queue_time : Registry C → ℕ → ℕ × ℕ
  queue_time r id = elim (try_get r id) [
    | none ↦ (0, 0)
    | some server ↦ (server.queue_histogram.count, server.queue_histogram.sum_us)
  ]

  pub worker_stats : ℕ → Registry C → ℕ → List WorkerStat
  worker_stats now r id = elim (try_get r id) [
    | none ↦ []
    | some server ↦ collect_worker_status now server
  ]

  -- The server leaves the table; what was running is stopped, and a socket file is to be unlinked.
  pub shutdown_runtime : Registry C → ℕ → Registry C × Option (ServerInner C × Option (List ℕ))
  shutdown_runtime r id =
      let (r', removed) = remove r id in
      elim removed [
        | none ↦ (r', none)
        | some server ↦
            (r', some (record server { shutdown = true; runtime = stopped }, server.unix_path))
      ]

module _ (F : Flume) where
  -- The responders that a slot's list names are held weakly: an entry of the store is none once its
  -- responder is gone.
  pub abort_current : List ℕ → List (Option (Shared F)) → Backstop (List (Option (Shared F)))
  abort_current [] store = returned store
  abort_current (id ∷ ids) store = elim (get_or store id none) [
    | none ↦ abort_current ids store
    | some r ↦ elim (respond_500_if_unsent F r) [
      | returned r' ↦ abort_current ids (set store id (some r'))
      | waiting r' ↦ waiting (set store id (some r'))
    ]
  ]

module _ (F : Flume) {A : Type 0} where
  open F use {Chan, items, try_recv}

  unfoldable pub close_lanes : List (WorkerSlot (Chan A)) → List (WorkerSlot (Chan A))
  close_lanes [] = []
  close_lanes (s ∷ slots) = Slot.close_lane F s ∷ close_lanes slots

  -- `close_queue` on a server.
  unfoldable pub close : ServerInner (Chan A) → ServerInner (Chan A)
  close server = record server {
    req_tx = false;
    req_rx = if server.req_tx then F.drop_sender server.req_rx else server.req_rx;
    slots = close_lanes server.slots;
  }

  pub close_queue : Registry (Chan A) → ℕ → Registry (Chan A)
  close_queue = on_server close

  pub queue_stats : Registry (Chan A) → ℕ → ℕ × ℕ
  queue_stats r id = elim (try_get r id) [
    | none ↦ (0, 0)
    | some server ↦ (queued F server, server.in_flight)
  ]

  pub server_stats : Registry (Chan A) → ℕ → ServerStats
  server_stats r id = elim (try_get r id) [
    | none ↦ no_stats
    | some server ↦ record {
      queued = queued F server;
      in_flight = server.in_flight;
      served = server.served;
      rejected = server.rejected;
      timeouts = server.timeouts;
      respawns = server.respawns;
      lane_depths = lane_depths F server;
    }
  ]

  -- `while rx.try_recv().is_ok() {}`: `n` receives are left.
  unfoldable pub drain_lane : ℕ → Chan A → List A × Chan A
  drain_lane zero rx = ([], rx)
  drain_lane (suc n) rx = elim (try_recv rx) [
    | received ctx rx' ↦ let (rest, rx'') = drain_lane n rx' in (ctx ∷ rest, rx'')
    | _ ↦ ([], rx)
  ]

  -- The requests dropped, and the slot without them.
  unfoldable pub drain_slot : WorkerSlot (Chan A) → List A × WorkerSlot (Chan A)
  drain_slot s = elim s.lane_rx [
    | none ↦ ([], s)
    | some rx ↦
        let (dropped, rx') = drain_lane (length (items rx)) rx in
        (dropped, record s { lane_rx = some rx' })
  ]

  abbrev pub quiet : WorkerSlot (Chan A) → WorkerSlot (Chan A)
  quiet s = record (Slot.close_lane F (record s { current = []; in_flight = 0 })) { parked = true }

  -- `abort_slot`: none while it waits in a backstop. `responder_of` is a request's responder; a
  -- request that is dropped fires its backstop.
  pub abort_slot :
      (A → ℕ)
      → WorkerSlot (Chan A)
      → List (Option (Shared F))
      → Option (WorkerSlot (Chan A) × List (Option (Shared F)))
  abort_slot responder_of s store = elim (abort_current F s.current store) [
    | waiting _ ↦ none
    | returned store' ↦
        let (dropped, s') = drain_slot (quiet s) in
        elim (abort_current F (map responder_of dropped) store') [
          | waiting _ ↦ none
          | returned store'' ↦ some (s', store'')
        ]
  ]
