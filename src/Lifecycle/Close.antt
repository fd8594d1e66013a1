-- ===== src/Lifecycle/Close.antt =====
-- After the queue is closed, no request is dispatched.
use kino.Prelude.{
  ℕ, zero, suc, ◌+◌, ◌^◌, ◌≤◌, ◌<◌, ◌≡◌, ◌≢◌, refl, ap, sym, subst, ◌∙◌, inl, inr, false,
  Bool-cases, some, Option-cases, eq_of_some, List, [], ◌∷◌, length, get_elem?, arith,
}
use mathlib.Core.Option.{none-ne-some}
use kino.Flume.{Flume}
use kino.Slot
use kino.Slot.{WorkerSlot}
use kino.Registry.{ServerInner}
use kino.Dispatch.{Dispatch, dispatched, retry, closed, try_dispatch}
use kino.Dispatch.Lane.{IsLane}
use kino.Dispatch.Outcome.{AllSlots, Meets, try_dispatch-Meets}
use kino.Lifecycle.{close, close_lanes}

module _ (F : Flume) {A : Type 0} where
  open F use {Chan}

  close_lane-IsLane : (s : WorkerSlot (Chan A)) → IsLane F s → IsLane F (Slot.close_lane F s)
  unfolding Slot.close_lane
  close_lane-IsLane s v lane e = elim (Bool-cases s.lane_tx) [
    | inr shut ↦ v lane (ground (arith, shut, e))
    | inl up ↦ elim (Option-cases s.lane_rx) [
      | inl n ↦ absurd (ground (arith, up, n, e))
      | inr (rx, h) ↦
          let same : F.drop_sender rx ≡ lane = ground (arith, up, h, e) in
          let (cap, len, rcv) = v rx h in
          let (items, capacity, _, receivers) = F.drop_sender_lem rx in
          omega (
            arith,
            cap,
            len,
            rcv,
            ap (λ c. length (F.items c)) same,
            ap F.capacity same,
            ap F.receivers same,
            ap length items,
            capacity,
            receivers,
          )
    ]
  ]

  close_lanes_at :
      (slots : List (WorkerSlot (Chan A))) (i : ℕ) (slot : WorkerSlot (Chan A))
      → get_elem? (close_lanes F slots) i ≡ some slot
      → (before : WorkerSlot (Chan A)) × (get_elem? slots i ≡ some before)
        × (slot ≡ Slot.close_lane F before)
  unfolding close_lanes
  close_lanes_at [] i slot e = absurd (none-ne-some slot e)
  close_lanes_at (s ∷ slots) zero slot e = (s, refl, sym (eq_of_some e))
  close_lanes_at (s ∷ slots) (suc i) slot e = close_lanes_at slots i slot e

  closed_lane : (s : WorkerSlot (Chan A)) → (Slot.close_lane F s).lane_tx ≡ false
  unfolding Slot.close_lane
  closed_lane s = ground arith

  length-close_lanes :
      (slots : List (WorkerSlot (Chan A))) → length (close_lanes F slots) ≡ length slots
  unfolding close_lanes
  length-close_lanes [] = refl
  length-close_lanes (s ∷ slots) = ap suc (length-close_lanes slots)

  all_shut :
      (slots : List (WorkerSlot (Chan A)))
      → AllSlots F (λ s. s.lane_tx ≡ false) (close_lanes F slots)
  all_shut slots i slot here =
      let (before, at, same) = close_lanes_at slots i slot here in
      ap (λ (s : WorkerSlot (Chan A)). s.lane_tx) same ∙ closed_lane before

  all_lanes :
      (slots : List (WorkerSlot (Chan A)))
      → AllSlots F (IsLane F) slots
      → AllSlots F (IsLane F) (close_lanes F slots)
  all_lanes slots v i slot here =
      let (before, at, same) = close_lanes_at slots i slot here in
      subst (IsLane F) (sym same) (close_lane-IsLane before (v i before at))

  no_dispatch :
      (ctx : A) (slots slots' : List (WorkerSlot (Chan A))) (d : Dispatch)
      → AllSlots F (λ s. s.lane_tx ≡ false) slots
      → slots ≢ []
      → Meets F ctx slots slots' d
      → (d ≡ closed) × (slots' ≡ slots)
  no_dispatch ctx slots slots' dispatched shut some_slots m =
      absurd (ground (arith, shut m.index m.slot m.at_index, m.took_it.open_lane))
  no_dispatch ctx slots slots' retry shut some_slots (same, refuse, inl nil) =
      absurd (some_slots nil)
  no_dispatch ctx slots slots' retry shut some_slots (same, refuse, inr (i, slot, here, up)) =
      absurd (ground (arith, shut i slot here, up))
  no_dispatch ctx slots slots' closed shut some_slots (same, _, _) = (refl, same)

  -- Once `close_queue` has closed a server that has workers, every dispatch is told that the server
  -- is closed, and no lane takes a request.
  pub close-closed :
      (server : ServerInner (Chan A)) (ctx : A)
      → server.lane_cursor + length server.slots ≤ 2 ^ 64
      → 0 < length server.slots
      → AllSlots F (IsLane F) server.slots
      → let (server', d) = try_dispatch F (close F server) ctx in
        (d ≡ closed) × (server'.slots ≡ (close F server).slots)
  unfolding close
  close-closed server ctx room workers lanes =
      no_dispatch ctx (close_lanes F server.slots) (try_dispatch F (close F server) ctx).0.slots
        (try_dispatch F (close F server) ctx).1 (all_shut server.slots)
        (λ nil. absurd (omega (arith, workers, length-close_lanes server.slots, ap length nil)))
        (try_dispatch-Meets F (close F server) ctx
          (omega (arith, room, length-close_lanes server.slots)) (all_lanes server.slots lanes))
