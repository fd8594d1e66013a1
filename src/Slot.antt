-- ===== src/Slot.antt =====
-- ext/kino/src/registry.rs, `WorkerSlot`: the state of one worker thread.
-- `C` is the type of the lane's channel. `lane_tx` is whether the slot still holds the lane's sender,
-- `lane_rx` the channel (in lane mode), and `current` the responders of the batch in hand, by number.
-- The flags are atomics: a call here is one atomic action, under the lane lock where the code takes
-- it.
use mathlib.Core.Option
use kino.Prelude.{ℕ, if◌then◌else◌, Bool, true, false, Option, none, some, List, []}
use kino.Flume.{Flume}

pub record WorkerSlot (C : Type 0) : Type 0 where
  pub interrupted : Bool
  pub current : List ℕ
  pub lane_tx : Bool
  pub lane_rx : Option C
  pub parked : Bool
  pub parked_at : ℕ
  pub served : ℕ
  pub in_flight : ℕ
  pub last_started_ms : ℕ
  pub quarantined : Bool
  pub retired : Bool

abbrev pub lane_depth : ℕ
lane_depth = 4

-- `WorkerSlot::new`.
unfoldable pub new : (F : Flume) {A : Type 0} → Bool → WorkerSlot (F.Chan A)
new F lanes = record {
  interrupted = false;
  current = [];
  lane_tx = lanes;
  lane_rx = if lanes then some (F.bounded lane_depth) else none;
  parked = false;
  parked_at = 0;
  served = 0;
  in_flight = 0;
  last_started_ms = 0;
  quarantined = false;
  retired = false;
}

module _ {C : Type 0} where
  unfoldable pub retire : WorkerSlot C → WorkerSlot C
  retire s = record s { retired = true }

  unfoldable pub reset : WorkerSlot C → WorkerSlot C
  reset s = record s {
    current = [];
    retired = false;
    parked = false;
    parked_at = 0;
    interrupted = false;
    served = 0;
    in_flight = 0;
    last_started_ms = 0;
  }

-- `slot.lane_tx.lock().take()`: the sender is dropped.
unfoldable pub close_lane : (F : Flume) {A : Type 0} → WorkerSlot (F.Chan A) → WorkerSlot (F.Chan A)
close_lane F s =
    if s.lane_tx
    then record s { lane_tx = false; lane_rx = Option.map F.drop_sender s.lane_rx }
    else s
