-- ===== src/Lifecycle/Gone.antt =====
-- Calls that come after a server is gone.
use kino.Prelude.{ℕ, ◌≡◌, none, [], Bool, arith}
use kino.Flume.{Flume}
use kino.Registry.{Registry, try_get}
use kino.Registry.Ids.{try_get-remove, remove-missing}
use kino.Lifecycle.{
  ok, no_stats, on_server, on_slot, stop_accepting, control_ready, record_respawn,
  interrupt_all_workers, quarantine_slot, retire_slot, reset_slot, set_active_workers,
  record_scale_up, record_scale_down, record_quarantine_replacement, pool_stats, queue_time,
  worker_stats, shutdown_runtime, close_queue, queue_stats, server_stats,
}

module _ (F : Flume) {A : Type 0} where
  open F use {Chan}

  -- The table after each call that changes a server.
  abbrev pub Unchanged : Bool → ℕ → Registry (Chan A) → ℕ → Type 0
  Unchanged watched worker r id =
      (stop_accepting watched r id ≡ r)
      × (control_ready r id ≡ r)
      × (record_respawn r id ≡ r)
      × (interrupt_all_workers r id ≡ r)
      × (quarantine_slot r id worker ≡ ok r)
      × (retire_slot r id worker ≡ ok r)
      × (reset_slot r id worker ≡ ok r)
      × (set_active_workers r id worker ≡ r)
      × (record_scale_up r id ≡ r)
      × (record_scale_down r id ≡ r)
      × (record_quarantine_replacement r id ≡ r)
      × (close_queue F r id ≡ r)

  abbrev pub AllZero : ℕ → Registry (Chan A) → ℕ → Type 0
  AllZero now r id =
      (pool_stats r id ≡ (0, 0, 0, 0))
      × (queue_time r id ≡ (0, 0))
      × (worker_stats now r id ≡ [])
      × (queue_stats F r id ≡ (0, 0))
      × (server_stats F r id ≡ no_stats)
      × ((shutdown_runtime r id).1 ≡ none)

  missing-Unchanged :
      (watched : Bool) (worker id : ℕ) (r : Registry (Chan A))
      → try_get r id ≡ none
      → Unchanged watched worker r id
  unfolding stop_accepting control_ready record_respawn interrupt_all_workers quarantine_slot
      retire_slot reset_slot set_active_workers record_scale_up record_scale_down
      record_quarantine_replacement close_queue on_server on_slot
  missing-Unchanged watched worker id r e = ground (arith, e)

  missing-AllZero : (now id : ℕ) (r : Registry (Chan A)) → try_get r id ≡ none → AllZero now r id
  unfolding pool_stats queue_time worker_stats queue_stats server_stats shutdown_runtime
  missing-AllZero now id r e = ground (arith, e, remove-missing r id e)

  removed-missing : (r : Registry (Chan A)) (id : ℕ) → try_get (shutdown_runtime r id).0 id ≡ none
  unfolding shutdown_runtime
  removed-missing r id = ground (arith, try_get-remove r id)

  -- Shutdown is idempotent and late calls are harmless: once `shutdown_runtime` has run, every
  -- native leaves the table as it is, every figure is zero, and a second shutdown finds nothing.
  shutdown_runtime-Unchanged :
      (watched : Bool) (worker now id : ℕ) (r : Registry (Chan A))
      → let r' = (shutdown_runtime r id).0 in Unchanged watched worker r' id × AllZero now r' id
  shutdown_runtime-Unchanged watched worker now id r = (
    missing-Unchanged watched worker id (shutdown_runtime r id).0 (removed-missing r id),
    missing-AllZero now id (shutdown_runtime r id).0 (removed-missing r id),
  )
