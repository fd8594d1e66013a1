-- ===== src/Pool/Lanes.antt =====
-- What the actions on one slot do to the requests that wait.
use kino.Prelude.{
  ℕ, ◌≤◌, ◌<◌, ◌≡◌, refl, sym, ap, subst, ◌∙◌, inl, inr, Option, none, some, Option-cases,
  eq_of_some, [], ◌∷◌, ◌++◌, get_elem?, set, length, arith,
}
use kino.Flume.{Flume}
use kino.Lru.{weigh, weigh-append, SameItems}
use kino.Slot.{WorkerSlot, lane_depth}
use kino.Registry.{ServerInner}
use kino.Worker.{write}
use kino.Worker.Steal.{Received, recv_lane_cases}
use kino.Dispatch.{try_dispatch, Dispatch, dispatched, retry, closed}
use kino.Dispatch.Lane.{IsLane}
use kino.Dispatch.Outcome.{AllSlots, try_dispatch_cases}
use kino.Dispatch.Accounts.{Took-IsLane, try_dispatch-same}
use kino.Lifecycle.Abort.{lane_items}
use kino.Pool.{
  accepts, takes, moves_none, accepted_by, taken_by, dropped_by, dispatch_label, lanes_items,
  waiting, receive_from, change_slot,
}
use kino.Pool.Moves.{IsPool, Moves, write-Moves}

module _ (F : Flume) {A : Type 0} where
  open F use {Chan, items, capacity, receivers}

  -- Nothing moved: another server with the same queue and lanes.
  pub still-Moves :
      (server server' : ServerInner (Chan A))
      → IsPool F server
      → server'.req_rx ≡ server.req_rx
      → server'.slots ≡ server.slots
      → Moves F server moves_none server'
  unfolding accepted_by taken_by dropped_by
  still-Moves server server' p same_queue same_slots = record {
    conserved = λ w. omega (
      arith,
      ap (λ c. weigh w (items c)) same_queue,
      ap (λ l. weigh w (lanes_items F l)) same_slots,
      weigh-append w (items server'.req_rx) (lanes_items F server'.slots),
      weigh-append w (items server.req_rx) (lanes_items F server.slots),
      weigh-append w (waiting F server') [],
      weigh-append w (waiting F server) [],
    );
    is_pool = record {
      room = subst (λ c. 0 < capacity c) (sym same_queue) p.room;
      lanes = subst (AllSlots F (IsLane F)) (sym same_slots) p.lanes;
    };
  }

  -- A slot whose lane is as it was.
  pub same_lane-Moves :
      (server : ServerInner (Chan A)) (i : ℕ) (slot slot' : WorkerSlot (Chan A))
      → IsPool F server
      → get_elem? server.slots i ≡ some slot
      → slot'.lane_rx ≡ slot.lane_rx
      → Moves F server moves_none (write F server i slot')
  unfolding accepted_by taken_by dropped_by
  same_lane-Moves server i slot slot' p here same =
      write-Moves F server moves_none i slot slot' p here
        (λ lane e. p.lanes i slot here lane (sym same ∙ e))
        (λ w.
          ap (λ (o : Option (Chan A)). weigh w ((elim o [ none ↦ [] | some rx ↦ items rx ]) ++ []))
            same)

  pub change_slot-Moves :
      (change : WorkerSlot (Chan A) → WorkerSlot (Chan A)) (server : ServerInner (Chan A)) (i : ℕ)
      → IsPool F server
      → ((slot : WorkerSlot (Chan A)) → (change slot).lane_rx ≡ slot.lane_rx)
      → Moves F server moves_none (change_slot F change server i)
  unfolding change_slot
  change_slot-Moves change server i p same = elim (Option-cases (get_elem? server.slots i)) [
    | inl e ↦
        subst (Moves F server moves_none) (ground (arith, e))
          (still-Moves server server p refl refl)
    | inr (slot, e) ↦
        let eq : write F server i (change slot) ≡ change_slot F change server i =
          ground (arith, e) in
        subst (Moves F server moves_none) eq
          (same_lane-Moves server i slot (change slot) p e (same slot))
  ]

  -- The slot after its oldest request was received.
  pub Received-Moves :
      (server : ServerInner (Chan A)) (i : ℕ) (slot slot' : WorkerSlot (Chan A)) (ctx : A)
      → IsPool F server
      → get_elem? server.slots i ≡ some slot
      → Received F slot ctx slot'
      → Moves F server (takes ctx) (write F server i slot')
  unfolding accepted_by taken_by dropped_by
  Received-Moves server i slot slot' ctx p here got =
      write-Moves F server (takes ctx) i slot slot' p here bounded moved
    where
      after_lane : slot'.lane_rx ≡ some got.after
      after_lane = ap (λ (s : WorkerSlot (Chan A)). s.lane_rx) got.replaced

      bounded : IsLane F slot'
      bounded lane e =
          let (cap, depth, live) = p.lanes i slot here got.before got.has_lane in
          let same : got.after ≡ lane = eq_of_some (sym after_lane ∙ e) in
          subst
            (λ c. (capacity c ≡ lane_depth) × (length (items c) ≤ lane_depth) × (0 < receivers c))
            same
            (
              got.bounds.0 ∙ cap,
              omega (arith, ap length got.oldest, depth),
              omega (arith, got.bounds.1, live),
            )

      moved : SameItems (lane_items F slot' ++ (ctx ∷ [])) (lane_items F slot ++ [])
      moved w =
          let now : lane_items F slot' ≡ items got.after = ground (arith, after_lane) in
          let was : lane_items F slot ≡ ctx ∷ items got.after =
            ground (arith, got.has_lane, got.oldest) in
          omega (
            arith,
            ap (weigh w) now,
            ap (weigh w) was,
            weigh-append w (lane_items F slot') (ctx ∷ []),
            weigh-append w (lane_items F slot) [],
          )

  pub receive_from-Moves :
      (server : ServerInner (Chan A)) (i : ℕ)
      → IsPool F server
      → Moves F server (receive_from F server i).1 (receive_from F server i).0
  unfolding receive_from
  receive_from-Moves server i p = elim (Option-cases (get_elem? server.slots i)) [
    | inl e ↦
        let eq : (server, moves_none) ≡ receive_from F server i = ground (arith, e) in
        subst (λ r. Moves F server r.1 r.0) eq (still-Moves server server p refl refl)
    | inr (slot, e) ↦ elim (recv_lane_cases F slot) [
      | inl (r, _) ↦
          let eq : (write F server i slot, moves_none) ≡ receive_from F server i =
            ground (arith, e, r) in
          subst (λ r. Moves F server r.1 r.0) eq (same_lane-Moves server i slot slot p e refl)
      | inr (ctx, slot', r, got) ↦
          let eq : (write F server i slot', takes ctx) ≡ receive_from F server i =
            ground (arith, e, r) in
          subst (λ r. Moves F server r.1 r.0) eq (Received-Moves server i slot slot' ctx p e got)
    ]
  ]

  pub dispatch-Moves :
      (server : ServerInner (Chan A)) (ctx : A)
      → IsPool F server
      → Moves F server
          (dispatch_label ctx (try_dispatch F server ctx).1)
          (try_dispatch F server ctx).0
  unfolding accepted_by taken_by dropped_by
  dispatch-Moves server ctx p =
      let server' = (try_dispatch F server ctx).0 in
      let d = (try_dispatch F server ctx).1 in
      let (same_queue, _) = try_dispatch-same F server ctx in
      elim (try_dispatch_cases F server ctx p.lanes) [
        | inl (e, a) ↦
            let label : accepts ctx ≡ dispatch_label ctx d = ground (arith, e) in
            let was : lane_items F a.slot ≡ items a.took_it.before =
              ground (arith, a.took_it.has_lane) in
            let now : lane_items F a.slot' ≡ items a.took_it.before ++ ctx ∷ [] = ground (
              arith,
              ap (λ (s : WorkerSlot (Chan A)). s.lane_rx) a.took_it.replaced,
              a.took_it.appended,
            ) in
            let there =
              write-Moves F server (accepts ctx) a.index a.slot a.slot' p a.at_index
                (Took-IsLane F ctx a.slot a.slot' a.took_it)
                (λ w. omega (
                  arith,
                  ap (weigh w) was,
                  ap (weigh w) now,
                  weigh-append w (lane_items F a.slot') [],
                  weigh-append w (lane_items F a.slot) (ctx ∷ []),
                  weigh-append w (items a.took_it.before) (ctx ∷ []),
                )) in
            subst (λ l. Moves F server l server') label
              (record {
                conserved = λ w. omega (
                  arith,
                  there.conserved w,
                  ap (λ c. weigh w (items c)) same_queue,
                  ap (λ l. weigh w (lanes_items F l)) a.written,
                  weigh-append w (waiting F server') [],
                  weigh-append w (items server'.req_rx) (lanes_items F server'.slots),
                  weigh-append w (waiting F (write F server a.index a.slot')) [],
                  weigh-append w (items server.req_rx)
                      (lanes_items F (set server.slots a.index a.slot')),
                );
                is_pool = record {
                  room = subst (λ c. 0 < capacity c) (sym same_queue) p.room;
                  lanes = subst (AllSlots F (IsLane F)) (sym a.written) there.is_pool.lanes;
                };
              })
        | inr (ne, same) ↦
            subst (λ l. Moves F server l server') (none_label d ne)
              (still-Moves server server' p same_queue same)
      ]
    where
      none_label : (d : Dispatch) → (d ≡ dispatched → ⊥) → moves_none ≡ dispatch_label ctx d
      none_label dispatched ne = absurd (ne refl)
      none_label retry ne = refl
      none_label closed ne = refl
