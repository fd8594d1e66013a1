-- ===== src/Dispatch/Accounts.antt =====
-- A dispatch keeps the lanes' bounds, and loses or doubles no request.
use kino.Prelude.{
  ℕ, zero, suc, ◌+◌, ◌^◌, ◌≤◌, ◌<◌, ◌≡◌, ap, subst, sym, ◌∙◌, true, some, eq_of_some, List, [], ◌∷◌,
  length, length-snoc, sum, get_elem?, set, arith,
}
use mathlib.Core.Option.{none-ne-some}
use kino.Flume.{Flume}
use kino.Slot.{WorkerSlot, lane_depth}
use kino.Registry.{ServerInner, len, slot_depths, lane_depths, queued}
use kino.Dispatch.{try_dispatch, Dispatch, dispatched, retry, closed, outcome}
use kino.Dispatch.Lane.{IsLane, Took}
use kino.Dispatch.Outcome.{AllSlots, Meets, try_dispatch-Meets}

-- How many requests an outcome adds to the lanes.
abbrev pub added : Dispatch → ℕ
added dispatched = 1
added retry = 0
added closed = 0

module _ (F : Flume) {A : Type 0} where
  open F use {Chan}

  pub Took-IsLane :
      (ctx : A) (slot slot' : WorkerSlot (Chan A)) → Took F ctx slot slot' → IsLane F slot'
  Took-IsLane ctx slot slot' t lane e = subst Bounded same after_bounded
    where
      Bounded : Chan A → Type 0
      Bounded c =
          (F.capacity c ≡ lane_depth) × (length (F.items c) ≤ lane_depth) × (0 < F.receivers c)

      same : t.after ≡ lane
      same = eq_of_some (ap (λ (s : WorkerSlot (Chan A)). s.lane_rx) (sym t.replaced) ∙ e)

      after_bounded : Bounded t.after
      after_bounded = (
        t.bounded.0,
        omega (arith, t.room, ap length t.appended, length-snoc (F.items t.before) ctx),
        t.bounded.1,
      )

  pub AllSlots-set :
      (P : WorkerSlot (Chan A) → Type 0) (slots : List (WorkerSlot (Chan A))) (i : ℕ)
      (slot' : WorkerSlot (Chan A))
      → AllSlots F P slots
      → P slot'
      → AllSlots F P (set slots i slot')
  AllSlots-set P [] i slot' h p k s e = absurd (none-ne-some s e)
  AllSlots-set P (x ∷ slots) zero slot' h p zero s e = subst P (eq_of_some e) p
  AllSlots-set P (x ∷ slots) zero slot' h p (suc k) s e = h (suc k) s e
  AllSlots-set P (x ∷ slots) (suc i) slot' h p zero s e = h zero s e
  AllSlots-set P (x ∷ slots) (suc i) slot' h p (suc k) s e =
      AllSlots-set P slots i slot' (λ j t here. h (suc j) t here) p k s e

  Meets-IsLane :
      (ctx : A) (slots slots' : List (WorkerSlot (Chan A))) (d : Dispatch)
      → AllSlots F (IsLane F) slots
      → Meets F ctx slots slots' d
      → AllSlots F (IsLane F) slots'
  Meets-IsLane ctx slots slots' dispatched lanes m = subst (AllSlots F (IsLane F)) (sym m.written) (
      AllSlots-set (IsLane F) slots m.index m.slot' lanes
        (Took-IsLane ctx m.slot m.slot' m.took_it))
  Meets-IsLane ctx slots slots' retry lanes m = subst (AllSlots F (IsLane F)) (sym m.0) lanes
  Meets-IsLane ctx slots slots' closed lanes m = subst (AllSlots F (IsLane F)) (sym m.0) lanes

  -- Every lane stays within its depth, whatever the outcome.
  pub try_dispatch-IsLane :
      (server : ServerInner (Chan A)) (ctx : A)
      → server.lane_cursor + length server.slots ≤ 2 ^ 64
      → AllSlots F (IsLane F) server.slots
      → AllSlots F (IsLane F) (try_dispatch F server ctx).0.slots
  try_dispatch-IsLane server ctx room lanes =
      Meets-IsLane ctx server.slots (try_dispatch F server ctx).0.slots
        (try_dispatch F server ctx).1 lanes (try_dispatch-Meets F server ctx room lanes)

  sum-slot_depths-set :
      (slots : List (WorkerSlot (Chan A))) (i : ℕ) (slot slot' : WorkerSlot (Chan A))
      (before after : Chan A)
      → get_elem? slots i ≡ some slot
      → slot.lane_rx ≡ some before
      → slot'.lane_rx ≡ some after
      → len F after ≡ len F before + 1
      → sum (slot_depths F (set slots i slot')) ≡ sum (slot_depths F slots) + 1
  unfolding slot_depths sum
  sum-slot_depths-set [] i slot slot' before after here b a e = absurd (none-ne-some slot here)
  sum-slot_depths-set (s ∷ slots) zero slot slot' before after here b a e =
      ground (arith, eq_of_some here)
  sum-slot_depths-set (s ∷ slots) (suc i) slot slot' before after here b a e =
      ground (arith, sum-slot_depths-set slots i slot slot' before after here b a e)

  Meets-sum :
      (ctx : A) (slots slots' : List (WorkerSlot (Chan A))) (d : Dispatch)
      → Meets F ctx slots slots' d
      → sum (slot_depths F slots') ≡ sum (slot_depths F slots) + added d
  Meets-sum ctx slots slots' dispatched m = rw m.written (
      sum-slot_depths-set slots m.index m.slot m.slot' m.took_it.before m.took_it.after m.at_index
        m.took_it.has_lane (ap (λ (s : WorkerSlot (Chan A)). s.lane_rx) m.took_it.replaced)
        (ap length m.took_it.appended ∙ length-snoc (F.items m.took_it.before) ctx))
  Meets-sum ctx slots slots' retry m = omega (arith, ap (λ l. sum (slot_depths F l)) m.0)
  Meets-sum ctx slots slots' closed m = omega (arith, ap (λ l. sum (slot_depths F l)) m.0)

  pub try_dispatch-in_flight :
      (server : ServerInner (Chan A)) (ctx : A)
      → (try_dispatch F server ctx).0.in_flight ≡ server.in_flight
  unfolding try_dispatch outcome
  try_dispatch-in_flight server ctx = ground arith

  pub try_dispatch-same :
      (server : ServerInner (Chan A)) (ctx : A)
      → ((try_dispatch F server ctx).0.req_rx ≡ server.req_rx)
        × ((try_dispatch F server ctx).0.lanes ≡ server.lanes)
  unfolding try_dispatch outcome
  try_dispatch-same server ctx = ground arith

  queued-lanes :
      (server : ServerInner (Chan A))
      → server.lanes ≡ true
      → queued F server ≡ len F server.req_rx + sum (slot_depths F server.slots)
  unfolding queued lane_depths
  queued-lanes server on = ground arith

  -- The requests that wait grow by one when one is dispatched, and by none otherwise.
  pub queued-try_dispatch :
      (server : ServerInner (Chan A)) (ctx : A)
      → server.lane_cursor + length server.slots ≤ 2 ^ 64
      → AllSlots F (IsLane F) server.slots
      → server.lanes ≡ true
      → let (server', d) = try_dispatch F server ctx in queued F server' ≡ queued F server + added d
  queued-try_dispatch server ctx room lanes on =
      let m =
        Meets-sum ctx server.slots (try_dispatch F server ctx).0.slots (try_dispatch F server ctx).1
          (try_dispatch-Meets F server ctx room lanes) in
      let (same_queue, same_lanes) = try_dispatch-same server ctx in
      omega (
        arith,
        m,
        ap (len F) same_queue,
        queued-lanes server on,
        queued-lanes (try_dispatch F server ctx).0 (same_lanes ∙ on),
      )
