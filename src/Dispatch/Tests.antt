-- ===== src/Dispatch/Tests.antt =====
-- Dispatch on small servers.
use kino.Prelude.{
  ℕ, zero, suc, subst, ◌≤◌, ◌<◌, ◌≡◌, ◌≢◌, refl, ap, sym, ◌∙◌, true, false, some, none, List, [],
  ◌∷◌, length, get_elem?, eq_of_some, arith,
}
use mathlib.Core.Option.{none-ne-some}
use kino.Flume.{fifo, Fifo}
use kino.Slot.{WorkerSlot}
use kino.Sample.{lane_of, awake, idle_since, server_with}
use kino.Registry.{ServerInner}
use kino.Dispatch.{
  try_dispatch, try_lane, phases, awake_phase, idle_phase, any_phase, try_hottest, hottest,
  later_max, is_idle_lane, sweep, outcome,
}
use kino.Dispatch.Lane.{IsLane}
use kino.Dispatch.Outcome.{AllSlots, Meets, try_dispatch-Meets}
use kino.Dispatch.Preference.{Accepts, Chose, awake_first, Hottest-second}
use kino.Dispatch.Hottest.{Hottest}

-- A full awake lane, then two idle workers, the first of which parked last.
abbrev busy : ServerInner (Fifo ℕ)
busy = server_with (awake (1 ∷ 2 ∷ 3 ∷ 4 ∷ []) ∷ idle_since 7 ∷ idle_since 5 ∷ [])

abbrev one_awake : ServerInner (Fifo ℕ)
one_awake = server_with (idle_since 9 ∷ awake (1 ∷ []) ∷ [])

wakes_hottest :
    (try_dispatch fifo busy 9).0.slots
    ≡ awake (1 ∷ 2 ∷ 3 ∷ 4 ∷ [])
      ∷ record (idle_since 7) { lane_rx = some (lane_of (9 ∷ [])) }
      ∷ idle_since 5
      ∷ []
unfolding try_dispatch phases awake_phase idle_phase any_phase try_hottest hottest later_max
    is_idle_lane sweep outcome try_lane
wakes_hottest = refl

lane_of-IsLane :
    (items : List ℕ) (slot : WorkerSlot (Fifo ℕ))
    → length items ≤ 4
    → slot.lane_rx ≡ some (lane_of items)
    → IsLane fifo slot
lane_of-IsLane items slot short has lane e =
    subst (λ (c : Fifo ℕ). (c.capacity ≡ 4) × (length c.items ≤ 4) × (0 < c.receivers))
      (eq_of_some (sym has ∙ e)) (refl, short, omega arith)

lanes-busy : AllSlots fifo (IsLane fifo) busy.slots
lanes-busy zero slot here =
    lane_of-IsLane (1 ∷ 2 ∷ 3 ∷ 4 ∷ []) slot (omega arith)
      (ap (λ (s : WorkerSlot (Fifo ℕ)). s.lane_rx) (sym (eq_of_some here)))
lanes-busy (suc zero) slot here =
    lane_of-IsLane [] slot (omega arith)
      (ap (λ (s : WorkerSlot (Fifo ℕ)). s.lane_rx) (sym (eq_of_some here)))
lanes-busy (suc (suc zero)) slot here =
    lane_of-IsLane [] slot (omega arith)
      (ap (λ (s : WorkerSlot (Fifo ℕ)). s.lane_rx) (sym (eq_of_some here)))
lanes-busy (suc (suc (suc i))) slot here = absurd (none-ne-some slot here)

try_dispatch-Meets_example :
    let (server', d) = try_dispatch fifo busy 9 in Meets fifo 9 busy.slots server'.slots d
try_dispatch-Meets_example = try_dispatch-Meets fifo busy 9 (omega arith) lanes-busy

Accepts-one_awake : Accepts fifo 9 one_awake.slots 1 (awake (1 ∷ [])) (awake (1 ∷ 9 ∷ []))
unfolding try_lane
Accepts-one_awake = record { at_index = refl; accepted = refl }

awake_first_example :
    (j : ℕ) × (slot : WorkerSlot (Fifo ℕ)) × (slot.parked ≡ false)
    × Chose fifo 9 one_awake (omega arith) j slot
awake_first_example =
    awake_first fifo 9 one_awake (omega arith) 1 (awake (1 ∷ [])) (awake (1 ∷ 9 ∷ []))
      Accepts-one_awake refl

refuses-busy :
    (k : ℕ) (other : WorkerSlot (Fifo ℕ))
    → get_elem? busy.slots k ≡ some other
    → other.parked ≡ false
    → try_lane fifo 9 other ≡ none
unfolding try_lane
refuses-busy zero other here up = subst (λ s. try_lane fifo 9 s ≡ none) (eq_of_some here) refl
refuses-busy (suc zero) other here up =
    absurd (ground (arith, ap (λ (s : WorkerSlot (Fifo ℕ)). s.parked) (eq_of_some here), up))
refuses-busy (suc (suc zero)) other here up =
    absurd (ground (arith, ap (λ (s : WorkerSlot (Fifo ℕ)). s.parked) (eq_of_some here), up))
refuses-busy (suc (suc (suc k))) other here up = absurd (none-ne-some other here)

accepts-busy :
    (k : ℕ) (other : WorkerSlot (Fifo ℕ))
    → get_elem? busy.slots k ≡ some other
    → is_idle_lane fifo other ≡ true
    → try_lane fifo 9 other ≢ none
unfolding try_lane is_idle_lane
accepts-busy zero other here idle =
    absurd (ground (arith, ap (λ (s : WorkerSlot (Fifo ℕ)). s.parked) (eq_of_some here), idle))
accepts-busy (suc zero) other here idle =
    subst (λ s. try_lane fifo 9 s ≢ none) (eq_of_some here) (λ e. none-ne-some _ (sym e))
accepts-busy (suc (suc zero)) other here idle =
    subst (λ s. try_lane fifo 9 s ≢ none) (eq_of_some here) (λ e. none-ne-some _ (sym e))
accepts-busy (suc (suc (suc k))) other here idle = absurd (none-ne-some other here)

Hottest-accepts :
    (k : ℕ) (other : WorkerSlot (Fifo ℕ))
    → Hottest fifo 0 busy.slots k other
    → try_lane fifo 9 other ≢ none
Hottest-accepts k other h = accepts-busy h.at_index.0 other h.at_index.2 h.idle

Hottest-second_example :
    (j : ℕ) × (slot : WorkerSlot (Fifo ℕ)) × Hottest fifo 0 busy.slots j slot
    × Chose fifo 9 busy (omega arith) j slot
unfolding is_idle_lane
Hottest-second_example =
    Hottest-second fifo 9 busy (omega arith) 1 (idle_since 7) refuses-busy refl refl Hottest-accepts
