-- ===== src/Pool/Acts.antt =====
-- Every action moves the requests that its label names, and no other.
use kino.Prelude.{
  ℕ, ◌≡◌, refl, ap, subst, ◌⊎◌, inl, inr, Bool, Bool-cases, true, false, Option, none, some,
  Option-cases, [], ◌∷◌, get_elem?, arith,
}
use kino.Flume.{Flume}
use kino.Lru.{weigh, weigh-append}
use kino.Slot.{WorkerSlot}
use kino.Registry.{ServerInner}
use kino.Worker.{write, after_timeout, timeout_step, steal_step, lane_attempt, shared_attempt}
use kino.Worker.Steal.{recv_lane_cases, steal_cases}
use kino.Intake.{timeout, lapsed, send_shared, send_async}
use kino.Pool.{
  Label, accepts, takes, moves_none, accepted_by, taken_by, dropped_by, took_one, waiting,
  share_label,
}
use kino.Pool.Moves.{IsPool, Moves, queue-Moves}
use kino.Pool.Lanes.{still-Moves, same_lane-Moves, Received-Moves}

module _ (F : Flume) {A : Type 0} where
  open F use {Chan, items, capacity, receivers, try_recv, try_send}

  -- What an attempt on the server does.
  abbrev pub Attempt : ServerInner (Chan A) → Option (Option A) × ServerInner (Chan A) → Type 0
  Attempt server r = Moves F server (took_one r.0) r.1

  pub steal_step-Attempt :
      (server : ServerInner (Chan A)) (i : ℕ)
      → IsPool F server
      → Attempt server (steal_step F i server)
  unfolding steal_step
  steal_step-Attempt server i p = elim (steal_cases F i 0 server.slots) [
    | inl (e, _) ↦
        let eq : (none, record server { slots = server.slots }) ≡ steal_step F i server =
          ground (arith, e) in
        subst (Attempt server) eq (still-Moves F server server p refl refl)
    | inr (ctx, slots', e, s) ↦
        let eq : (some (some ctx), write F server s.index s.slot') ≡ steal_step F i server =
          ground (arith, e, s.written) in
        subst (Attempt server) eq
          (Received-Moves F server s.index s.slot s.slot' ctx p s.at_index s.from_lane)
  ]

  timeout_step-Attempt :
      (server : ServerInner (Chan A)) (i : ℕ)
      → IsPool F server
      → Attempt server (timeout_step F i server)
  unfolding timeout_step after_timeout
  timeout_step-Attempt server i p = elim (Option-cases (get_elem? server.slots i)) [
    | inl e ↦
        let eq : (none, server) ≡ timeout_step F i server = ground (arith, e) in
        subst (Attempt server) eq (still-Moves F server server p refl refl)
    | inr (slot, e) ↦ elim (Bool-cases slot.retired) [
      | inr r ↦
          let eq : (none, write F server i slot) ≡ timeout_step F i server = ground (arith, e, r) in
          subst (Attempt server) eq (same_lane-Moves F server i slot slot p e refl)
      | inl r ↦ elim (recv_lane_cases F slot) [
        | inl (g, _) ↦
            let eq : (some none, write F server i slot) ≡ timeout_step F i server =
              ground (arith, e, r, g) in
            subst (Attempt server) eq (same_lane-Moves F server i slot slot p e refl)
        | inr (ctx, slot', g, got) ↦
            let eq : (some (some ctx), write F server i slot') ≡ timeout_step F i server =
              ground (arith, e, r, g) in
            subst (Attempt server) eq (Received-Moves F server i slot slot' ctx p e got)
      ]
    ]
  ]

  option_cases : (t : Option (Option A)) → (t ≡ none) ⊎ ((o : Option A) × (t ≡ some o))
  option_cases none = inl refl
  option_cases (some o) = inr (o, refl)

  recv_queue-Moves :
      (server : ServerInner (Chan A)) (ctx : A) (rx : Chan A)
      → IsPool F server
      → items server.req_rx ≡ ctx ∷ items rx
      → capacity rx ≡ capacity server.req_rx
      → Moves F server (takes ctx) (record server { req_rx = rx })
  unfolding accepted_by taken_by dropped_by
  recv_queue-Moves server ctx rx p oldest cap =
      queue-Moves F server (takes ctx) rx p (omega (arith, cap, p.room)) (λ w. omega (
        arith,
        ap (weigh w) oldest,
        weigh-append w (items rx) (ctx ∷ []),
        weigh-append w (items server.req_rx) [],
      ))

  pub shared_attempt-Attempt :
      (server : ServerInner (Chan A)) (i : ℕ)
      → IsPool F server
      → Attempt server (shared_attempt F i server)
  unfolding shared_attempt
  shared_attempt-Attempt server i p = elim (F.try_recv_cases server.req_rx) [
    | inl (ctx, rx, r, oldest, cap, _, _) ↦
        let eq : (some (some ctx), record server { req_rx = rx }) ≡ shared_attempt F i server =
          ground (arith, r) in
        subst (Attempt server) eq (recv_queue-Moves server ctx rx p oldest cap)
    | inr (inl (r, _, _)) ↦
        let eq : timeout_step F i server ≡ shared_attempt F i server = ground (arith, r) in
        subst (Attempt server) eq (timeout_step-Attempt server i p)
    | inr (inr (r, _, _)) ↦
        let eq : (some none, server) ≡ shared_attempt F i server = ground (arith, r) in
        subst (Attempt server) eq (still-Moves F server server p refl refl)
  ]

  after_none :
      (server s1 s2 : ServerInner (Chan A)) (label : Label A)
      → Moves F server moves_none s1
      → Moves F s1 label s2
      → Moves F server label s2
  unfolding accepted_by taken_by dropped_by
  after_none server s1 s2 label m n = record {
    conserved = λ w. omega (
      arith,
      m.conserved w,
      n.conserved w,
      weigh-append w (waiting F s1) [],
      weigh-append w (waiting F server) [],
      weigh-append w (waiting F s1) (accepted_by label),
      weigh-append w (waiting F server) (accepted_by label),
    );
    is_pool = n.is_pool;
  }

  pub lane_attempt-Attempt :
      (server : ServerInner (Chan A)) (i : ℕ)
      → IsPool F server
      → Attempt server (lane_attempt F i server)
  unfolding lane_attempt
  lane_attempt-Attempt server i p = elim (Option-cases (get_elem? server.slots i)) [
    | inl e ↦
        let eq : (none, server) ≡ lane_attempt F i server = ground (arith, e) in
        subst (Attempt server) eq (still-Moves F server server p refl refl)
    | inr (slot, e) ↦ elim (Option-cases slot.lane_rx) [
      | inl none_left ↦
          let eq : (none, server) ≡ lane_attempt F i server = ground (arith, e, none_left) in
          subst (Attempt server) eq (still-Moves F server server p refl refl)
      | inr (rx, here) ↦ elim (F.try_recv_cases rx) [
        | inl (ctx, rx', r, oldest, cap_same, _, live_same) ↦
            let slot' : WorkerSlot (Chan A) = record slot { lane_rx = some rx' } in
            let eq : (some (some ctx), write F server i slot') ≡ lane_attempt F i server =
              ground (arith, e, here, r) in
            subst (Attempt server) eq (
              Received-Moves F server i slot slot' ctx p e (record {
                before = rx;
                after = rx';
                has_lane = here;
                replaced = refl;
                oldest = oldest;
                bounds = (cap_same, live_same);
              }))
        | inr (inl (r, _, _)) ↦
            let timed = timeout_step-Attempt server i p in
            let t = timeout_step F i server in
            elim (option_cases t.0) [
              | inl none_taken ↦
                  let first = subst (λ o. Moves F server (took_one o) t.1) none_taken timed in
                  let eq : steal_step F i t.1 ≡ lane_attempt F i server =
                    ground (arith, e, here, r, none_taken) in
                  subst (Attempt server) eq (
                    after_none server t.1 (steal_step F i t.1).1 (took_one (steal_step F i t.1).0)
                      first (steal_step-Attempt t.1 i first.is_pool))
              | inr (o, taken) ↦
                  let eq : t ≡ lane_attempt F i server = ground (arith, e, here, r, taken) in
                  subst (Attempt server) eq timed
            ]
        | inr (inr (r, _, _)) ↦
            let eq : (some none, server) ≡ lane_attempt F i server = ground (arith, e, here, r) in
            subst (Attempt server) eq (still-Moves F server server p refl refl)
      ]
    ]
  ]

  pub share-Moves :
      (server : ServerInner (Chan A)) (ctx : A)
      → IsPool F server
      → Moves F server
          (share_label ctx (send_shared F timeout [] server ctx).1)
          (send_shared F timeout [] server ctx).0
  unfolding send_shared send_async lapsed accepted_by taken_by dropped_by
  share-Moves server ctx p =
      let Shared : ServerInner (Chan A) × Option Bool → Type 0 =
        λ r. Moves F server (share_label ctx r.1) r.0 in
      elim (Bool-cases server.req_tx) [
        | inr shut ↦
            let eq : (server, some false) ≡ send_shared F timeout [] server ctx =
              ground (arith, shut) in
            subst Shared eq (still-Moves F server server p refl refl)
        | inl open_queue ↦ elim (F.try_send_cases server.req_rx ctx p.room) [
          | inl (rx, r, _, appended, cap_same, _, _) ↦
              let eq : (record server { req_rx = rx }, some true)
                  ≡ send_shared F timeout [] server ctx =
                ground (arith, open_queue, r) in
              subst Shared eq (
                queue-Moves F server (accepts ctx) rx p (omega (arith, cap_same, p.room)) (λ w.
                  omega (
                    arith,
                    ap (weigh w) appended,
                    weigh-append w (items server.req_rx) (ctx ∷ []),
                    weigh-append w (items rx) [],
                  )))
          | inr (inl (r, _)) ↦
              let eq : (server, some false) ≡ send_shared F timeout [] server ctx =
                ground (arith, open_queue, r) in
              subst Shared eq (still-Moves F server server p refl refl)
          | inr (inr (r, _)) ↦
              let eq : (server, some false) ≡ send_shared F timeout [] server ctx =
                ground (arith, open_queue, r) in
              subst Shared eq (still-Moves F server server p refl refl)
        ]
      ]
