-- ===== src/Sample.antt =====
-- Concrete servers for the witnesses: requests are numbers, channels are `Fifo`s.
use kino.Prelude.{ℕ, true, false, none, some, List, []}
use kino.Flume.{Fifo}
use kino.Slot.{WorkerSlot}
use kino.Registry.{ServerInner, stopped, state_booting}

abbrev pub lane_of : List ℕ → Fifo ℕ
lane_of items = record { items = items; capacity = 4; senders = 1; receivers = 1 }

-- A worker awake, with the given lane.
abbrev pub awake : List ℕ → WorkerSlot (Fifo ℕ)
awake items = record {
  interrupted = false;
  current = [];
  lane_tx = true;
  lane_rx = some (lane_of items);
  parked = false;
  parked_at = 0;
  served = 0;
  in_flight = 0;
  last_started_ms = 0;
  quarantined = false;
  retired = false;
}

abbrev pub idle_since : ℕ → WorkerSlot (Fifo ℕ)
idle_since seq = record (awake []) { parked = true; parked_at = seq }

abbrev pub server_with : List (WorkerSlot (Fifo ℕ)) → ServerInner (Fifo ℕ)
server_with slots = record {
  id = 1;
  req_tx = true;
  req_rx = record (lane_of []) { capacity = 8 };
  shutdown = false;
  runtime = stopped;
  slots = slots;
  in_flight = 0;
  served = 0;
  rejected = 0;
  queue_timeout_ms = 10;
  request_timeout_ms = 0;
  max_body_size = 0;
  timeouts = 0;
  state = state_booting;
  respawns = 0;
  quarantine_replacements = 0;
  active_workers = 0;
  scale_ups = 0;
  scale_downs = 0;
  topology = record { mode = "threaded"; workers = 0; max_workers = 0; threads = 0; batch = 1 };
  https = false;
  http2 = true;
  unix_path = none;
  access_log = false;
  lanes = true;
  lane_cursor = 0;
  park_seq = 0;
  pin_slab = record { slots = []; cursor = 0; shareable_only = false };
  queue_histogram = record { buckets = []; overflow = 0; sum_us = 0; count = 0 };
}
