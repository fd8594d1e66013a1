-- ===== src/Pool.antt =====
-- The requests that wait in a server, in the shared queue (registry.rs, req_rx) and in the lanes, under
-- every action that moves them: server.rs puts them in and aborts workers, queue.rs takes them out.
-- A run is any sequence of such actions by any workers.
pub mod Moves
pub mod Lanes
pub mod Acts
pub mod Natives
pub mod Refines
mod Tests
use mathlib.Core.Option
use kino.Prelude.{
  ℕ, if◌then◌else◌, Bool, true, false, Option, none, some, List, [], ◌∷◌, ◌++◌, get_elem?, set, map,
}
use kino.Flume.{Flume}
use kino.Slot
use kino.Slot.{WorkerSlot}
use kino.Registry.{ServerInner, register_worker}
use kino.Dispatch.{try_dispatch, Dispatch, dispatched, retry, closed}
use kino.Intake.{timeout, send_shared}
use kino.Worker.{write, recv_lane, steal_step, lane_attempt, shared_attempt, park, unpark}
use kino.Lifecycle.{close, drain_slot, quiet}
use kino.Lifecycle.Abort.{lane_items}

-- One action: of the intake on a request, of the worker with this number, or of a native.
pub data Event (A : Type 0) : Type 0 where
  dispatch share : A → Event A
  receive attempt_lane attempt_shared steal_one : ℕ → Event A
  park_one unpark_one retire_one reset_one abort_one : ℕ → Event A
  interrupt_all close_all register : Event A

-- What the action did to the requests.
pub data Label (A : Type 0) : Type 0 where
  accepts takes : A → Label A
  drops : List A → Label A
  moves_none : Label A

module _ {A : Type 0} where
  pub accepted_by : Label A → List A
  accepted_by (accepts ctx) = ctx ∷ []
  accepted_by (takes ctx) = []
  accepted_by (drops ctxs) = []
  accepted_by moves_none = []

  pub taken_by : Label A → List A
  taken_by (accepts ctx) = []
  taken_by (takes ctx) = ctx ∷ []
  taken_by (drops ctxs) = []
  taken_by moves_none = []

  pub dropped_by : Label A → List A
  dropped_by (accepts ctx) = []
  dropped_by (takes ctx) = []
  dropped_by (drops ctxs) = ctxs
  dropped_by moves_none = []

  -- An attempt took a request, saw that the server is closed, or goes on waiting.
  abbrev pub took_one : Option (Option A) → Label A
  took_one none = moves_none
  took_one (some none) = moves_none
  took_one (some (some ctx)) = takes ctx

  abbrev pub received_one : Option A → Label A
  received_one none = moves_none
  received_one (some ctx) = takes ctx

  abbrev pub dispatch_label : A → Dispatch → Label A
  dispatch_label ctx dispatched = accepts ctx
  dispatch_label ctx retry = moves_none
  dispatch_label ctx closed = moves_none

  abbrev pub share_label : A → Option Bool → Label A
  share_label ctx none = moves_none
  share_label ctx (some true) = accepts ctx
  share_label ctx (some false) = moves_none

-- A server with what became of the requests so far.
pub record Pool (F : Flume) (A : Type 0) : Type 0 where
  pub server : ServerInner (F.Chan A)
  pub accepted : List A
  pub taken : List A
  pub dropped : List A

module _ (F : Flume) {A : Type 0} where
  open F use {Chan, items}

  -- The requests in the lanes, and all that wait.
  abbrev pub lanes_items : List (WorkerSlot (Chan A)) → List A
  lanes_items [] = []
  lanes_items (slot ∷ slots) = lane_items F slot ++ lanes_items slots

  abbrev pub waiting : ServerInner (Chan A) → List A
  waiting server = items server.req_rx ++ lanes_items server.slots

  -- One slot is changed, if the worker exists.
  pub change_slot :
      (WorkerSlot (Chan A) → WorkerSlot (Chan A)) → ServerInner (Chan A) → ℕ → ServerInner (Chan A)
  change_slot change server i = elim (get_elem? server.slots i) [
    | none ↦ server
    | some slot ↦ write F server i (change slot)
  ]

  pub receive_from : ServerInner (Chan A) → ℕ → ServerInner (Chan A) × Label A
  receive_from server i = elim (get_elem? server.slots i) [
    | none ↦ (server, moves_none)
    | some slot ↦ let (ctx, slot') = recv_lane F slot in (write F server i slot', received_one ctx)
  ]

  -- `abort_slot`'s part on the slot: the requests dropped from its lane fire their backstops.
  pub abort_from : ServerInner (Chan A) → ℕ → ServerInner (Chan A) × Label A
  abort_from server i = elim (get_elem? server.slots i) [
    | none ↦ (server, moves_none)
    | some slot ↦
        let (dropped, slot') = drain_slot F (quiet F slot) in
        (write F server i slot', drops dropped)
  ]

  pub act : Event A → ServerInner (Chan A) → ServerInner (Chan A) × Label A
  unfolding receive_from abort_from change_slot
  act (dispatch ctx) server =
      let (server', d) = try_dispatch F server ctx in (server', dispatch_label ctx d)
  act (share ctx) server =
      let (server', sent) = send_shared F timeout [] server ctx in (server', share_label ctx sent)
  act (receive i) server = receive_from server i
  act (attempt_lane i) server =
      let (taken, server') = lane_attempt F i server in (server', took_one taken)
  act (attempt_shared i) server =
      let (taken, server') = shared_attempt F i server in (server', took_one taken)
  act (steal_one i) server =
      let (taken, server') = steal_step F i server in (server', took_one taken)
  act (park_one i) server = (park F i server, moves_none)
  act (unpark_one i) server = (unpark F i server, moves_none)
  act (retire_one i) server = (change_slot Slot.retire server i, moves_none)
  act (reset_one i) server = (change_slot Slot.reset server i, moves_none)
  act (abort_one i) server = abort_from server i
  act interrupt_all server = (
    record server {
      slots = map (λ (s : WorkerSlot (Chan A)). record s { interrupted = true }) server.slots;
    },
    moves_none,
  )
  act close_all server = (close F server, moves_none)
  act register server = ((register_worker F server).0, moves_none)

  unfoldable pub step : Event A → Pool F A → Pool F A
  unfolding act accepted_by taken_by dropped_by
  step event pool =
      let (server', label) = act event pool.server in
      record {
        server = server';
        accepted = pool.accepted ++ accepted_by label;
        taken = pool.taken ++ taken_by label;
        dropped = pool.dropped ++ dropped_by label;
      }

  pub steps : List (Event A) → Pool F A → Pool F A
  unfolding step
  steps [] pool = pool
  steps (event ∷ events) pool = steps events (step event pool)
