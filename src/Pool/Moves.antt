-- ===== src/Pool/Moves.antt =====
-- What an action that touches one slot or the shared queue does to the requests that wait.
use kino.Prelude.{
  ℕ, zero, suc, ◌+◌, ◌<◌, ◌≡◌, ap, some, eq_of_some, List, [], ◌∷◌, ◌++◌, get_elem?, set, arith,
}
use mathlib.Core.Option.{none-ne-some}
use kino.Flume.{Flume}
use kino.Lru.{weigh, weigh-append, SameItems}
use kino.Slot.{WorkerSlot}
use kino.Registry.{ServerInner}
use kino.Worker.{write}
use kino.Dispatch.Lane.{IsLane}
use kino.Dispatch.Outcome.{AllSlots}
use kino.Dispatch.Accounts.{AllSlots-set}
use kino.Lifecycle.Abort.{lane_items}
use kino.Pool.{Label, accepted_by, taken_by, dropped_by, lanes_items, waiting}

module _ (F : Flume) {A : Type 0} where
  open F use {Chan, items, capacity}

  -- The shared queue has a capacity, and every lane is bounded with its receiver there.
  pub record IsPool (server : ServerInner (Chan A)) : Type 0 where
    pub room : 0 < capacity server.req_rx
    pub lanes : AllSlots F (IsLane F) server.slots

  -- The requests that wait after an action, with those taken and dropped, are those that waited
  -- before it with those accepted; and the bounds are kept.
  pub record Moves (server : ServerInner (Chan A)) (label : Label A)
      (server' : ServerInner (Chan A)) : Type 0 where
    pub conserved :
        SameItems
          (waiting F server' ++ (taken_by label ++ dropped_by label))
          (waiting F server ++ accepted_by label)
    pub is_pool : IsPool server'

  pub weigh-lanes_items-set :
      (w : A → ℕ) (slots : List (WorkerSlot (Chan A))) (i : ℕ) (slot slot' : WorkerSlot (Chan A))
      → get_elem? slots i ≡ some slot
      → weigh w (lanes_items F (set slots i slot')) + weigh w (lane_items F slot)
        ≡ weigh w (lanes_items F slots) + weigh w (lane_items F slot')
  weigh-lanes_items-set w [] i slot slot' here = absurd (none-ne-some slot here)
  weigh-lanes_items-set w (s ∷ slots) zero slot slot' here = omega (
    arith,
    ap (λ t. weigh w (lane_items F t)) (eq_of_some here),
    weigh-append w (lane_items F s) (lanes_items F slots),
    weigh-append w (lane_items F slot') (lanes_items F slots),
  )
  weigh-lanes_items-set w (s ∷ slots) (suc i) slot slot' here = omega (
    arith,
    weigh-append w (lane_items F s) (lanes_items F slots),
    weigh-append w (lane_items F s) (lanes_items F (set slots i slot')),
    weigh-lanes_items-set w slots i slot slot' here,
  )

  -- A slot that is written back moves the requests that its lane gained or lost.
  pub write-Moves :
      (server : ServerInner (Chan A)) (label : Label A) (i : ℕ) (slot slot' : WorkerSlot (Chan A))
      → IsPool server
      → get_elem? server.slots i ≡ some slot
      → IsLane F slot'
      → SameItems
          (lane_items F slot' ++ (taken_by label ++ dropped_by label))
          (lane_items F slot ++ accepted_by label)
      → Moves server label (write F server i slot')
  write-Moves server label i slot slot' p here lane moved = record {
    conserved = λ w. omega (
      arith,
      moved w,
      weigh-lanes_items-set w server.slots i slot slot' here,
      weigh-append w (lane_items F slot') (taken_by label ++ dropped_by label),
      weigh-append w (lane_items F slot) (accepted_by label),
      weigh-append w (items server.req_rx) (lanes_items F server.slots),
      weigh-append w (items server.req_rx) (lanes_items F (set server.slots i slot')),
      weigh-append w (waiting F server) (accepted_by label),
      weigh-append w (waiting F (write F server i slot')) (taken_by label ++ dropped_by label),
    );
    is_pool = record {
      room = p.room;
      lanes = AllSlots-set F (IsLane F) server.slots i slot' p.lanes lane;
    };
  }

  -- The queue after a send or a receive.
  pub queue-Moves :
      (server : ServerInner (Chan A)) (label : Label A) (rx : Chan A)
      → IsPool server
      → 0 < capacity rx
      → SameItems
          (items rx ++ (taken_by label ++ dropped_by label))
          (items server.req_rx ++ accepted_by label)
      → Moves server label (record server { req_rx = rx })
  queue-Moves server label rx p room moved = record {
    conserved = λ w. omega (
      arith,
      moved w,
      weigh-append w (items rx) (taken_by label ++ dropped_by label),
      weigh-append w (items server.req_rx) (accepted_by label),
      weigh-append w (items server.req_rx) (lanes_items F server.slots),
      weigh-append w (items rx) (lanes_items F server.slots),
      weigh-append w (waiting F server) (accepted_by label),
      weigh-append w (waiting F (record server { req_rx = rx }))
          (taken_by label ++ dropped_by label),
    );
    is_pool = record { room = room; lanes = p.lanes };
  }
