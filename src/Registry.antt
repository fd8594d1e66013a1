-- ===== src/Registry.antt =====
-- ext/kino/src/registry.rs: one server's state, and the table of servers.
-- `A` stands for a boxed request; `C` for the channels that carry requests.
pub mod Ids
mod Tests
use mathlib.Core.Option
use kino.Prelude.{
  ℕ, zero, suc, ◌+◌, ◌-◌, ◌==◌, if◌then◌else◌, Bool, true, false, Option, none, some, List, [], ◌∷◌,
  ◌++◌, length, sum, get_elem?, map, String, word,
}
use kino.Flume.{Flume}
use kino.Histogram.{QueueHistogram}
use kino.Slot
use kino.Slot.{WorkerSlot}
use kino.Pin.{PinSlab}

abbrev pub state_booting : ℕ
state_booting = 0

abbrev pub state_ready : ℕ
state_ready = 1

abbrev pub state_draining : ℕ
state_draining = 2

pub record Topology : Type 0 where
  pub mode : String
  pub workers : ℕ
  pub max_workers : ℕ
  pub threads : ℕ
  pub batch : ℕ

-- What runs the I/O; a thread is known by its number.
pub data RuntimeHandle : Type 0 where
  stopped : RuntimeHandle
  multi_thread : RuntimeHandle
  shards : List ℕ → RuntimeHandle

-- `req_tx` is whether the server still holds the queue's sender, and `req_rx` the queue;
-- `shutdown` is the value of the watch channel.
pub record ServerInner (C : Type 0) : Type 0 where
  pub id : ℕ
  pub req_tx : Bool
  pub req_rx : C
  pub shutdown : Bool
  pub runtime : RuntimeHandle
  pub slots : List (WorkerSlot C)
  pub in_flight : ℕ
  pub served : ℕ
  pub rejected : ℕ
  pub queue_timeout_ms : ℕ
  pub request_timeout_ms : ℕ
  pub max_body_size : ℕ
  pub timeouts : ℕ
  pub state : ℕ
  pub respawns : ℕ
  pub quarantine_replacements : ℕ
  pub active_workers : ℕ
  pub scale_ups : ℕ
  pub scale_downs : ℕ
  pub topology : Topology
  pub https : Bool
  pub http2 : Bool
  pub unix_path : Option (List ℕ)
  pub access_log : Bool
  pub lanes : Bool
  pub lane_cursor : ℕ
  pub park_seq : ℕ
  pub pin_slab : PinSlab
  pub queue_histogram : QueueHistogram

module _ (F : Flume) {A : Type 0} where
  open F use {Chan, items}

  abbrev pub len : Chan A → ℕ
  len c = length (items c)

  unfoldable pub slot_depths : List (WorkerSlot (Chan A)) → List ℕ
  slot_depths [] = []
  slot_depths (s ∷ slots) =
      let depths = slot_depths slots in elim s.lane_rx [ none ↦ depths | some rx ↦ len rx ∷ depths ]

  unfoldable pub lane_depths : ServerInner (Chan A) → Option (List ℕ)
  unfolding slot_depths
  lane_depths server = if server.lanes then some (slot_depths server.slots) else none

  unfoldable pub queued : ServerInner (Chan A) → ℕ
  unfolding lane_depths sum
  queued server = len server.req_rx + elim (lane_depths server) [ none ↦ 0 | some d ↦ sum d ]

  -- The new slot goes to the end; its index is its id.
  unfoldable pub register_worker : ServerInner (Chan A) → ServerInner (Chan A) × ℕ
  register_worker server =
      let slots = server.slots ++ Slot.new F server.lanes ∷ [] in
      (record server { slots = slots }, length slots - 1)

-- `ServerInner::slot`: none is the error "unknown worker".
pub slot : {C : Type 0} → ServerInner C → ℕ → Option (WorkerSlot C)
slot server worker_id = get_elem? server.slots worker_id

-- The table of servers, and the counter that numbers them. A `HashMap` is an association list
-- that holds a key once.
pub record Registry (C : Type 0) : Type 0 where
  pub servers : List (ℕ × ServerInner C)
  pub next_id : ℕ

module _ {C : Type 0} where
  unfoldable pub next_server_id : Registry C → Registry C × ℕ
  next_server_id r = (record r { next_id = word (r.next_id + 1) }, r.next_id)

  lookup : ℕ → List (ℕ × ServerInner C) → Option (ServerInner C)
  lookup id [] = none
  lookup id ((key, server) ∷ servers) = if key == id then some server else lookup id servers

  remove_key : ℕ → List (ℕ × ServerInner C) → List (ℕ × ServerInner C)
  remove_key id [] = []
  remove_key id ((key, server) ∷ servers) =
      let rest = remove_key id servers in if key == id then rest else (key, server) ∷ rest

  pub try_get : Registry C → ℕ → Option (ServerInner C)
  unfolding lookup
  try_get r id = lookup id r.servers

  unfoldable pub insert : Registry C → ServerInner C → Registry C
  unfolding remove_key
  insert r server = record r { servers = (server.id, server) ∷ remove_key server.id r.servers }

  pub remove : Registry C → ℕ → Registry C × Option (ServerInner C)
  unfolding remove_key lookup
  remove r id = (record r { servers = remove_key id r.servers }, lookup id r.servers)
