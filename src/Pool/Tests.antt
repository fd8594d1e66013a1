-- ===== src/Pool/Tests.antt =====
-- A run on two workers, one of them awake.
use kino.Prelude.{
  ℕ, zero, suc, ◌≤◌, ◌<◌, ◌≡◌, refl, sym, ap, subst, ◌∙◌, some, eq_of_some, List, [], ◌∷◌, length,
  arith,
}
use mathlib.Core.Option.{none-ne-some}
use kino.Flume.{Fifo, fifo}
use kino.Slot.{WorkerSlot}
use kino.Registry.{ServerInner}
use kino.Sample.{lane_of, awake, idle_since, server_with}
use kino.Dispatch.Lane.{IsLane}
use kino.Dispatch.Outcome.{AllSlots}
use kino.Worker.{recv_lane}
use kino.Pool.{
  Pool, Event, dispatch, receive, steal_one, abort_one, close_all, register, takes, receive_from,
  steps,
}
use kino.Pool.Moves.{IsPool}
use kino.Pool.Refines.{IsConserved, steps-IsConserved}

abbrev two : ServerInner (Fifo ℕ)
two = server_with (awake (1 ∷ 2 ∷ []) ∷ idle_since 7 ∷ [])

-- A request comes in, the idle worker steals one, the server closes, the first worker dies, and
-- another is registered.
abbrev events : List (Event ℕ)
events = dispatch 9 ∷ steal_one 1 ∷ close_all ∷ abort_one 0 ∷ register ∷ receive 1 ∷ []

receives_oldest : (receive_from fifo two 0).1 ≡ takes 1
unfolding receive_from recv_lane
receives_oldest = refl

lane_of-IsLane :
    (items : List ℕ) (slot : WorkerSlot (Fifo ℕ))
    → length items ≤ 4
    → slot.lane_rx ≡ some (lane_of items)
    → IsLane fifo slot
lane_of-IsLane items slot short has lane e =
    subst (λ (c : Fifo ℕ). (c.capacity ≡ 4) × (length c.items ≤ 4) × (0 < c.receivers))
      (eq_of_some (sym has ∙ e)) (refl, short, omega arith)

lanes-two : AllSlots fifo (IsLane fifo) two.slots
lanes-two zero slot here =
    lane_of-IsLane (1 ∷ 2 ∷ []) slot (omega arith)
      (ap (λ (s : WorkerSlot (Fifo ℕ)). s.lane_rx) (sym (eq_of_some here)))
lanes-two (suc zero) slot here =
    lane_of-IsLane [] slot (omega arith)
      (ap (λ (s : WorkerSlot (Fifo ℕ)). s.lane_rx) (sym (eq_of_some here)))
lanes-two (suc (suc i)) slot here = absurd (none-ne-some slot here)

two-IsPool : IsPool fifo two
two-IsPool = record { room = omega arith; lanes = lanes-two }

abbrev start : Pool fifo ℕ
start = record { server = two; accepted = 1 ∷ 2 ∷ []; taken = []; dropped = [] }

start-IsConserved : IsConserved fifo start
start-IsConserved = record { all = λ w. refl; is_pool = two-IsPool }

steps-IsConserved_example : IsConserved fifo (steps fifo events start)
steps-IsConserved_example = steps-IsConserved fifo events start start-IsConserved
