-- ===== src/Lifecycle/Tests.antt =====
-- Calls on a small server, and a worker that died with two requests.
use kino.Prelude.{
  ℕ, zero, suc, ◌≡◌, ◌≤◌, ◌<◌, refl, ap, ◌∙◌, subst, none, some, eq_of_some, Option, List, [], ◌∷◌,
  length, All, arith,
}
use mathlib.Core.Option.{none-ne-some}
use kino.Flume.{Fifo, fifo}
use kino.Slot
use kino.Slot.{WorkerSlot}
use kino.Response.{Shared, new, respond_500_if_unsent}
use kino.Sample.{awake, server_with}
use kino.Registry.{Registry, ServerInner}
use kino.Dispatch.{try_dispatch, closed}
use kino.Dispatch.Lane.{IsLane}
use kino.Dispatch.Outcome.{AllSlots}
use kino.Lifecycle.{close, abort_slot, abort_current, drain_slot, drain_lane}
use kino.Lifecycle.Close.{close-closed}
use kino.Lifecycle.Abort.{Answered, IsQuiescent, abort_slot-Answered}

abbrev one : ServerInner (Fifo ℕ)
one = server_with (awake (1 ∷ []) ∷ [])

abbrev table : Registry (Fifo ℕ)
table = record { servers = (1, one) ∷ []; next_id = 2 }

lanes-one : AllSlots fifo (IsLane fifo) one.slots
lanes-one zero slot here lane e =
    subst (λ (c : Fifo ℕ). (c.capacity ≡ 4) × (length c.items ≤ 4) × (0 < c.receivers))
      (eq_of_some (ap (λ (s : WorkerSlot (Fifo ℕ)). s.lane_rx) (eq_of_some here) ∙ e))
      (refl, omega arith, omega arith)
lanes-one (suc i) slot here lane e = absurd (none-ne-some slot here)

close-closed_example :
    let (server', d) = try_dispatch fifo (close fifo one) 9 in
    (d ≡ closed) × (server'.slots ≡ (close fifo one).slots)
close-closed_example = close-closed fifo one 9 (omega arith) (omega arith) lanes-one

abbrev dead : WorkerSlot (Fifo ℕ)
dead = record (awake (1 ∷ [])) { current = 0 ∷ []; in_flight = 1 }

abbrev store : List (Option (Shared fifo))
store = some new ∷ some new ∷ []

abbrev quiet_slot : WorkerSlot (Fifo ℕ)
quiet_slot = (elim (abort_slot fifo (λ c. c) dead store) [ some (s, _) ↦ s | none ↦ dead ])

abbrev answered : List (Option (Shared fifo))
answered = (elim (abort_slot fifo (λ c. c) dead store) [ some (_, s) ↦ s | none ↦ store ])

aborts : abort_slot fifo (λ c. c) dead store ≡ some (quiet_slot, answered)
unfolding abort_slot abort_current drain_slot drain_lane Slot.close_lane new respond_500_if_unsent
aborts = refl

abort_slot-Answered_example :
    All (λ (id : ℕ). Answered fifo answered id) (0 ∷ [])
    × All (λ (id : ℕ). Answered fifo answered id) (1 ∷ [])
    × IsQuiescent fifo quiet_slot
abort_slot-Answered_example =
    abort_slot-Answered fifo (λ c. c) dead quiet_slot store answered aborts
