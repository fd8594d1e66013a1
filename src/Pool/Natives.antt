-- ===== src/Pool/Natives.antt =====
-- What closing, aborting, registering and flagging workers do to the requests that wait.
use kino.Prelude.{
  ℕ, zero, suc, ◌+◌, ◌≤◌, ◌<◌, ◌≡◌, refl, sym, ap, subst, ◌∙◌, inl, inr, Bool, Bool-cases, true,
  false, some, Option-cases, eq_of_some, List, [], ◌∷◌, ◌++◌, get_elem?, set, length, map, word,
  arith,
}
use mathlib.Core.Option.{none-ne-some}
use kino.Flume.{Flume}
use kino.Lru.{weigh, weigh-append}
use kino.Slot
use kino.Slot.{WorkerSlot, lane_depth}
use kino.Registry.{ServerInner, register_worker}
use kino.Worker.{write, park, unpark}
use kino.Dispatch.Lane.{IsLane}
use kino.Dispatch.Outcome.{AllSlots}
use kino.Lifecycle.{close, close_lanes, drain_slot, drain_lane, quiet}
use kino.Lifecycle.Abort.{lane_items, drain_lane_lem, drain_slot_lem, quiet_items}
use kino.Pool.{
  drops, moves_none, accepted_by, taken_by, dropped_by, lanes_items, waiting, abort_from,
}
use kino.Pool.Moves.{IsPool, Moves, write-Moves}
use kino.Pool.Lanes.{still-Moves, same_lane-Moves}

module _ (F : Flume) {A : Type 0} where
  open F use {Chan, items, capacity, receivers}

  -- A lane within its bounds.
  abbrev Bounded : Chan A → Type 0
  Bounded c = (capacity c ≡ lane_depth) × (length (items c) ≤ lane_depth) × (0 < receivers c)

  Bounded-IsLane :
      (s : WorkerSlot (Chan A)) (rx : Chan A) → s.lane_rx ≡ some rx → Bounded rx → IsLane F s
  Bounded-IsLane s rx here b lane e = subst Bounded (eq_of_some (sym here ∙ e)) b

  drop_sender-Bounded : (rx : Chan A) → Bounded rx → Bounded (F.drop_sender rx)
  drop_sender-Bounded rx (cap_eq, depth, live) =
      let (same, cap_same, _, live_same) = F.drop_sender_lem rx in
      (cap_same ∙ cap_eq, omega (arith, ap length same, depth), omega (arith, live_same, live))

  close_lane-IsLane : (s : WorkerSlot (Chan A)) → IsLane F s → IsLane F (Slot.close_lane F s)
  unfolding Slot.close_lane
  close_lane-IsLane s v = elim (Bool-cases s.lane_tx) [
    | inr shut ↦ let eq : s ≡ Slot.close_lane F s = ground (arith, shut) in subst (IsLane F) eq v
    | inl up ↦ elim (Option-cases s.lane_rx) [
      | inl e ↦ λ lane here. absurd (none-ne-some lane (ground (arith, up, e, here)))
      | inr (rx, e) ↦
          Bounded-IsLane (Slot.close_lane F s) (F.drop_sender rx) (ground (arith, up, e))
            (drop_sender-Bounded rx (v rx e))
    ]
  ]

  close_lane_items : (s : WorkerSlot (Chan A)) → lane_items F (Slot.close_lane F s) ≡ lane_items F s
  unfolding Slot.close_lane
  close_lane_items s = elim (Option-cases s.lane_rx) [
    | inl e ↦ ground (arith, e)
    | inr (rx, e) ↦ ground (arith, e, (F.drop_sender_lem rx).0)
  ]

  quiet-IsLane : (s : WorkerSlot (Chan A)) → IsLane F s → IsLane F (quiet F s)
  quiet-IsLane s v lane e = close_lane-IsLane (record s { current = []; in_flight = 0 }) v lane e

  drain_lane_bounds :
      (n : ℕ) (rx : Chan A)
      → (capacity (drain_lane F n rx).1 ≡ capacity rx)
        × (receivers (drain_lane F n rx).1 ≡ receivers rx)
  unfolding drain_lane
  drain_lane_bounds zero rx = (refl, refl)
  drain_lane_bounds (suc n) rx = elim (F.try_recv_cases rx) [
    | inl (ctx, rx', r, _, cap_same, _, live_same) ↦
        ground (arith, r, drain_lane_bounds n rx', cap_same, live_same)
    | inr (inl (r, _, _)) ↦ ground (arith, r)
    | inr (inr (r, _, _)) ↦ ground (arith, r)
  ]

  drain_slot-IsLane : (s : WorkerSlot (Chan A)) → IsLane F s → IsLane F (drain_slot F s).1
  unfolding drain_slot
  drain_slot-IsLane s v = elim (Option-cases s.lane_rx) [
    | inl e ↦ let eq : s ≡ (drain_slot F s).1 = ground (arith, e) in subst (IsLane F) eq v
    | inr (rx, e) ↦
        let n = length (items rx) in
        let (cap_eq, depth, live) = v rx e in
        let (cap_same, live_same) = drain_lane_bounds n rx in
        let (_, none_left) = drain_lane_lem F n rx (omega arith) in
        Bounded-IsLane (drain_slot F s).1 (drain_lane F n rx).1 (ground (arith, e))
          (cap_same ∙ cap_eq, omega (arith, ap length none_left), omega (arith, live_same, live))
  ]

  pub abort_from-Moves :
      (server : ServerInner (Chan A)) (i : ℕ)
      → IsPool F server
      → Moves F server (abort_from F server i).1 (abort_from F server i).0
  unfolding abort_from accepted_by taken_by dropped_by
  abort_from-Moves server i p = elim (Option-cases (get_elem? server.slots i)) [
    | inl e ↦
        let eq : (server, moves_none) ≡ abort_from F server i = ground (arith, e) in
        subst (λ r. Moves F server r.1 r.0) eq (still-Moves F server server p refl refl)
    | inr (slot, e) ↦
        let q = quiet F slot in
        let dropped = (drain_slot F q).0 in
        let slot' = (drain_slot F q).1 in
        let (all, none_left, _, _, _, _) = drain_slot_lem F q in
        let eq : (write F server i slot', drops dropped) ≡ abort_from F server i =
          ground (arith, e) in
        subst (λ r. Moves F server r.1 r.0) eq
          (write-Moves F server (drops dropped) i slot slot' p e
            (drain_slot-IsLane q (quiet-IsLane slot (p.lanes i slot e)))
            (λ w. omega (
              arith,
              ap (weigh w) all,
              ap (weigh w) none_left,
              ap (weigh w) (quiet_items F slot),
              weigh-append w (lane_items F slot') dropped,
              weigh-append w (lane_items F slot) [],
            )))
  ]

  -- A change of every slot that keeps its lane's requests and bounds.
  AllSlots-map :
      (change : WorkerSlot (Chan A) → WorkerSlot (Chan A)) (slots : List (WorkerSlot (Chan A)))
      → ((s : WorkerSlot (Chan A)) → IsLane F s → IsLane F (change s))
      → AllSlots F (IsLane F) slots
      → AllSlots F (IsLane F) (map change slots)
  AllSlots-map change [] keeps v i slot here = absurd (none-ne-some slot here)
  AllSlots-map change (s ∷ slots) keeps v zero slot here =
      subst (IsLane F) (eq_of_some here) (keeps s (v 0 s refl))
  AllSlots-map change (s ∷ slots) keeps v (suc i) slot here =
      AllSlots-map change slots keeps (λ j t e. v (suc j) t e) i slot here

  lanes_items-map :
      (change : WorkerSlot (Chan A) → WorkerSlot (Chan A)) (slots : List (WorkerSlot (Chan A)))
      → ((s : WorkerSlot (Chan A)) → lane_items F (change s) ≡ lane_items F s)
      → lanes_items F (map change slots) ≡ lanes_items F slots
  lanes_items-map change [] same = refl
  lanes_items-map change (s ∷ slots) same =
      ap (λ l. l ++ lanes_items F (map change slots)) (same s)
      ∙ ap (λ l. lane_items F s ++ l) (lanes_items-map change slots same)

  -- Every slot and the queue changed, and no request moved.
  kept-Moves :
      (server server' : ServerInner (Chan A))
      → IsPool F server
      → items server'.req_rx ≡ items server.req_rx
      → capacity server'.req_rx ≡ capacity server.req_rx
      → lanes_items F server'.slots ≡ lanes_items F server.slots
      → AllSlots F (IsLane F) server'.slots
      → Moves F server moves_none server'
  unfolding accepted_by taken_by dropped_by
  kept-Moves server server' p queue room same lanes = record {
    conserved = λ w. omega (
      arith,
      ap (weigh w) queue,
      ap (weigh w) same,
      weigh-append w (items server'.req_rx) (lanes_items F server'.slots),
      weigh-append w (items server.req_rx) (lanes_items F server.slots),
      weigh-append w (waiting F server') [],
      weigh-append w (waiting F server) [],
    );
    is_pool = record { room = omega (arith, room, p.room); lanes = lanes };
  }

  pub interrupt_all-Moves :
      (server : ServerInner (Chan A))
      → IsPool F server
      → Moves F server moves_none (record server {
        slots = map (λ (s : WorkerSlot (Chan A)). record s { interrupted = true }) server.slots;
      })
  interrupt_all-Moves server p =
      let change : WorkerSlot (Chan A) → WorkerSlot (Chan A) =
        λ s. record s { interrupted = true } in
      kept-Moves server (record server { slots = map change server.slots }) p refl refl
        (lanes_items-map change server.slots (λ s. refl))
        (AllSlots-map change server.slots (λ s v lane e. v lane e) p.lanes)

  close_lanes-map :
      (slots : List (WorkerSlot (Chan A))) → map (Slot.close_lane F) slots ≡ close_lanes F slots
  unfolding close_lanes
  close_lanes-map [] = refl
  close_lanes-map (s ∷ slots) = ap (◌∷◌ (Slot.close_lane F s)) (close_lanes-map slots)

  pub close-Moves :
      (server : ServerInner (Chan A)) → IsPool F server → Moves F server moves_none (close F server)
  unfolding close
  close-Moves server p =
      let (same, cap_same, _, _) = F.drop_sender_lem server.req_rx in
      kept-Moves server (close F server) p (ground (arith, same)) (ground (arith, cap_same))
        (sym (ap (lanes_items F) (close_lanes-map server.slots))
          ∙ lanes_items-map (Slot.close_lane F) server.slots close_lane_items)
        (subst (AllSlots F (IsLane F)) (close_lanes-map server.slots)
          (AllSlots-map (Slot.close_lane F) server.slots close_lane-IsLane p.lanes))

  AllSlots-snoc :
      (slots : List (WorkerSlot (Chan A))) (s : WorkerSlot (Chan A))
      → AllSlots F (IsLane F) slots
      → IsLane F s
      → AllSlots F (IsLane F) (slots ++ s ∷ [])
  AllSlots-snoc [] s v here zero slot e = subst (IsLane F) (eq_of_some e) here
  AllSlots-snoc [] s v here (suc i) slot e = absurd (none-ne-some slot e)
  AllSlots-snoc (x ∷ slots) s v here zero slot e = v 0 slot e
  AllSlots-snoc (x ∷ slots) s v here (suc i) slot e =
      AllSlots-snoc slots s (λ j t f. v (suc j) t f) here i slot e

  lanes_items-snoc :
      (slots : List (WorkerSlot (Chan A))) (s : WorkerSlot (Chan A))
      → lane_items F s ≡ []
      → lanes_items F (slots ++ s ∷ []) ≡ lanes_items F slots
  lanes_items-snoc [] s e = ap (λ l. l ++ []) e
  lanes_items-snoc (x ∷ slots) s e = ap (λ l. lane_items F x ++ l) (lanes_items-snoc slots s e)

  new-IsLane : (lanes : Bool) → IsLane F (Slot.new F {A = A} lanes)
  unfolding Slot.new
  new-IsLane false lane e = absurd (none-ne-some lane e)
  new-IsLane true lane e =
      let (cap_eq, _, live) = F.bounded_lem {A = A} lane_depth in
      Bounded-IsLane (Slot.new F true) (F.bounded lane_depth) refl
        (cap_eq, omega (arith, ap length (F.items-bounded {A = A} lane_depth)), omega (arith, live))
        lane e

  new_items : (lanes : Bool) → lane_items F (Slot.new F {A = A} lanes) ≡ []
  unfolding Slot.new
  new_items false = refl
  new_items true = F.items-bounded lane_depth

  pub register_worker-Moves :
      (server : ServerInner (Chan A))
      → IsPool F server
      → Moves F server moves_none (register_worker F server).0
  unfolding register_worker
  register_worker-Moves server p =
      kept-Moves server (register_worker F server).0 p refl refl
        (lanes_items-snoc server.slots (Slot.new F server.lanes) (new_items server.lanes))
        (AllSlots-snoc server.slots (Slot.new F server.lanes) p.lanes (new-IsLane server.lanes))

  pub park-Moves :
      (server : ServerInner (Chan A)) (i : ℕ)
      → IsPool F server
      → Moves F server moves_none (park F i server)
  unfolding park
  park-Moves server i p = elim (Option-cases (get_elem? server.slots i)) [
    | inl e ↦
        let eq : server ≡ park F i server = ground (arith, e) in
        subst (Moves F server moves_none) eq (still-Moves F server server p refl refl)
    | inr (slot, e) ↦
        let seq = word (server.park_seq + 1) in
        let slots' = set server.slots i (record slot { parked_at = seq; parked = true }) in
        let there =
          same_lane-Moves F server i slot (record slot { parked_at = seq; parked = true }) p e
            refl in
        let eq : record server { park_seq = seq; slots = slots' } ≡ park F i server =
          ground (arith, e) in
        subst (Moves F server moves_none) eq (record {
          conserved = there.conserved;
          is_pool = record { room = p.room; lanes = there.is_pool.lanes };
        })
  ]

  pub unpark-Moves :
      (server : ServerInner (Chan A)) (i : ℕ)
      → IsPool F server
      → Moves F server moves_none (unpark F i server)
  unfolding unpark
  unpark-Moves server i p = elim (Option-cases (get_elem? server.slots i)) [
    | inl e ↦
        let eq : server ≡ unpark F i server = ground (arith, e) in
        subst (Moves F server moves_none) eq (still-Moves F server server p refl refl)
    | inr (slot, e) ↦
        let eq : write F server i (record slot { parked = false }) ≡ unpark F i server =
          ground (arith, e) in
        subst (Moves F server moves_none) eq
          (same_lane-Moves F server i slot (record slot { parked = false }) p e refl)
  ]
