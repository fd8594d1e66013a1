-- ===== src/Pool/Refines.antt =====
-- The server, under any actions of any workers, loses no request.
use kino.Prelude.{◌≡◌, refl, List, [], ◌∷◌, ◌++◌, arith}
use kino.Flume.{Flume}
use kino.Lru.{weigh-append, SameItems}
use kino.Slot
use kino.Slot.{WorkerSlot}
use kino.Registry.{ServerInner}
use kino.Pool.{
  Pool, Event, dispatch, share, receive, attempt_lane, attempt_shared, steal_one, park_one,
  unpark_one, retire_one, reset_one, abort_one, interrupt_all, close_all, register, accepted_by,
  taken_by, dropped_by, waiting, act, step, steps,
}
use kino.Pool.Moves.{IsPool, Moves}
use kino.Pool.Lanes.{change_slot-Moves, receive_from-Moves, dispatch-Moves}
use kino.Pool.Acts.{share-Moves, lane_attempt-Attempt, shared_attempt-Attempt, steal_step-Attempt}
use kino.Pool.Natives.{
  abort_from-Moves, interrupt_all-Moves, close-Moves, register_worker-Moves, park-Moves,
  unpark-Moves,
}

module _ (F : Flume) {A : Type 0} where
  open F use {Chan, items}

  retire_lane : (slot : WorkerSlot (Chan A)) → (Slot.retire slot).lane_rx ≡ slot.lane_rx
  unfolding Slot.retire
  retire_lane slot = refl

  reset_lane : (slot : WorkerSlot (Chan A)) → (Slot.reset slot).lane_rx ≡ slot.lane_rx
  unfolding Slot.reset
  reset_lane slot = refl

  act-Moves :
      (event : Event A) (server : ServerInner (Chan A))
      → IsPool F server
      → Moves F server (act F event server).1 (act F event server).0
  unfolding act
  act-Moves (dispatch ctx) server p = dispatch-Moves F server ctx p
  act-Moves (share ctx) server p = share-Moves F server ctx p
  act-Moves (receive i) server p = receive_from-Moves F server i p
  act-Moves (attempt_lane i) server p = lane_attempt-Attempt F server i p
  act-Moves (attempt_shared i) server p = shared_attempt-Attempt F server i p
  act-Moves (steal_one i) server p = steal_step-Attempt F server i p
  act-Moves (park_one i) server p = park-Moves F server i p
  act-Moves (unpark_one i) server p = unpark-Moves F server i p
  act-Moves (retire_one i) server p =
      change_slot-Moves F Slot.retire server i p (λ slot. retire_lane slot)
  act-Moves (reset_one i) server p =
      change_slot-Moves F Slot.reset server i p (λ slot. reset_lane slot)
  act-Moves (abort_one i) server p = abort_from-Moves F server i p
  act-Moves interrupt_all server p = interrupt_all-Moves F server p
  act-Moves close_all server p = close-Moves F server p
  act-Moves register server p = register_worker-Moves F server p

  -- Nothing is lost: what waits, with what was taken and dropped, is what was accepted.
  pub record IsConserved (pool : Pool F A) : Type 0 where
    pub all : SameItems (waiting F pool.server ++ (pool.taken ++ pool.dropped)) pool.accepted
    pub is_pool : IsPool F pool.server

  step-IsConserved :
      (event : Event A) (pool : Pool F A) → IsConserved pool → IsConserved (step F event pool)
  unfolding step
  step-IsConserved event pool v =
      let m = act-Moves event pool.server v.is_pool in
      let server' = (act F event pool.server).0 in
      let label = (act F event pool.server).1 in
      record {
        all = λ w. omega (
          arith,
          v.all w,
          m.conserved w,
          weigh-append w (waiting F server') (taken_by label ++ dropped_by label),
          weigh-append w (taken_by label) (dropped_by label),
          weigh-append w (waiting F pool.server) (accepted_by label),
          weigh-append w (waiting F pool.server) (pool.taken ++ pool.dropped),
          weigh-append w pool.taken pool.dropped,
          weigh-append w (waiting F server')
              ((pool.taken ++ taken_by label) ++ (pool.dropped ++ dropped_by label)),
          weigh-append w (pool.taken ++ taken_by label) (pool.dropped ++ dropped_by label),
          weigh-append w pool.taken (taken_by label),
          weigh-append w pool.dropped (dropped_by label),
          weigh-append w pool.accepted (accepted_by label),
        );
        is_pool = m.is_pool;
      }

  -- No request is lost or served twice: whatever the intake, the workers and the natives do, and in
  -- whatever order, each request that was accepted waits in the shared queue or in one lane, or was
  -- taken by a worker, or was dropped by an abort, and only once; and every lane stays within its
  -- depth.
  pub steps-IsConserved :
      (events : List (Event A)) (pool : Pool F A)
      → IsConserved pool
      → IsConserved (steps F events pool)
  unfolding steps
  steps-IsConserved [] pool v = v
  steps-IsConserved (event ∷ events) pool v =
      steps-IsConserved events (step F event pool) (step-IsConserved event pool v)
