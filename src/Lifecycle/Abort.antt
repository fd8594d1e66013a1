-- ===== src/Lifecycle/Abort.antt =====
-- Aborting a worker answers every client that it held.
use kino.Prelude.{
  ℕ, zero, suc, ◌≤◌, ◌≡◌, ◌≢◌, refl, ap, sym, subst, ◌∙◌, ◌⊎◌, inl, inr, true, false, Option, none,
  some, Option-cases, eq_of_some, List, [], ◌∷◌, map, length, get_or, set, All, arith,
}
use mathlib.Core.Option.{none-ne-some}
use kino.Flume.{Flume}
use kino.Slot
use kino.Slot.{WorkerSlot}
use kino.Response.{Shared, Backstop, returned, waiting, respond_500_if_unsent}
use kino.Response.Claim.{respond_500-responded}
use kino.Lifecycle.{abort_current, drain_lane, drain_slot, quiet, abort_slot}

Backstop-cases :
    {R : Type 0} (b : Backstop R) → ((r : R) × (b ≡ returned r)) ⊎ ((r : R) × (b ≡ waiting r))
Backstop-cases (returned r) = inl (r, refl)
Backstop-cases (waiting r) = inr (r, refl)

module _ (F : Flume) where
  open F use {Chan, items, try_recv, try_recv_cases}

  -- The responder of that number is answered, or gone.
  abbrev pub Answered : List (Option (Shared F)) → ℕ → Type 0
  Answered store id = (r : Shared F) → get_or store id none ≡ some r → r.responded ≡ true

  set_cases :
      (store : List (Option (Shared F))) (id k : ℕ) (r s : Shared F) (v : Option (Shared F))
      → get_or store id none ≡ some r
      → get_or (set store id v) k none ≡ some s
      → (v ≡ some s) ⊎ ((id ≢ k) × (get_or store k none ≡ some s))
  set_cases [] id k r s v here e = absurd (none-ne-some r here)
  set_cases (x ∷ store) zero zero r s v here e = inl e
  set_cases (x ∷ store) zero (suc k) r s v here e = inr (λ z. absurd (omega (arith, z)), e)
  set_cases (x ∷ store) (suc id) zero r s v here e = inr (λ z. absurd (omega (arith, z)), e)
  set_cases (x ∷ store) (suc id) (suc k) r s v here e = elim (set_cases store id k r s v here e) [
    | inl same ↦ inl same
    | inr (ne, old) ↦ inr (λ z. ne (omega (arith, z)), old)
  ]

  set-Answered :
      (store : List (Option (Shared F))) (id k : ℕ) (r r' : Shared F)
      → get_or store id none ≡ some r
      → r'.responded ≡ true
      → (id ≡ k) ⊎ Answered store k
      → Answered (set store id (some r')) k
  set-Answered store id k r r' here done why s e =
      elim (set_cases store id k r s (some r') here e) [
        | inl same ↦ subst (λ (t : Shared F). t.responded ≡ true) (eq_of_some same) done
        | inr (ne, old) ↦ elim why [ inl same ↦ absurd (ne same) | inr a ↦ a s old ]
      ]

  no_items : {A : Type 0} (xs : List A) → length xs ≤ 0 → xs ≡ []
  no_items [] h = refl
  no_items (x ∷ xs) h = absurd (omega (arith, h))

  -- A list of aborts answers its responders, and un-answers none.
  abort_current-Answered :
      (ids : List ℕ) (store store' : List (Option (Shared F)))
      → abort_current F ids store ≡ returned store'
      → All (λ (id : ℕ). Answered store' id) ids × ((k : ℕ) → Answered store k → Answered store' k)
  unfolding abort_current
  abort_current-Answered [] store store' e =
      let same : store ≡ store' = ground (arith, e) in (_, λ k a. subst (λ t. Answered t k) same a)
  abort_current-Answered (id ∷ ids) store store' e = elim (Option-cases (get_or store id none)) [
    | inl gone ↦
        let (rest, kept) = abort_current-Answered ids store store' (ground (arith, gone, e)) in
        ((kept id (λ r here. absurd (none-ne-some r (sym gone ∙ here))), rest), kept)
    | inr (r, here) ↦ elim (Backstop-cases (respond_500_if_unsent F r)) [
      | inr (r', f) ↦ absurd (ground (arith, here, f, e))
      | inl (r', f) ↦
          let done = respond_500-responded F r r' f in
          let (rest, kept) =
            abort_current-Answered ids (set store id (some r')) store'
              (ground (arith, here, f, e)) in
          (
            (kept id (set-Answered store id id r r' here done (inl refl)), rest),
            λ k a. kept k (set-Answered store id k r r' here done (inr a)),
          )
    ]
  ]

  All-Answered :
      (ids : List ℕ) (store store' : List (Option (Shared F)))
      → ((k : ℕ) → Answered store k → Answered store' k)
      → All (λ (id : ℕ). Answered store id) ids
      → All (λ (id : ℕ). Answered store' id) ids
  All-Answered [] store store' kept a = _
  All-Answered (id ∷ ids) store store' kept a =
      (kept id a.0, All-Answered ids store store' kept a.1)

  module _ {A : Type 0} where
    pub drain_lane_lem :
        (n : ℕ) (rx : Chan A)
        → length (items rx) ≤ n
        → ((drain_lane F n rx).0 ≡ items rx) × (items (drain_lane F n rx).1 ≡ [])
    unfolding drain_lane
    drain_lane_lem zero rx h = let e = no_items (items rx) h in (sym e, e)
    drain_lane_lem (suc n) rx h = elim (try_recv_cases rx) [
      | inl (ctx, rx', r, oldest, _, _, _) ↦
          let (all, none_left) = drain_lane_lem n rx' (omega (arith, h, ap length oldest)) in
          (ground (arith, r, all, oldest), ground (arith, r, none_left))
      | inr (inl (r, e, _)) ↦ (ground (arith, r, e), ground (arith, r, e))
      | inr (inr (r, e, _)) ↦ (ground (arith, r, e), ground (arith, r, e))
    ]

    -- The requests in a slot's lane.
    abbrev pub lane_items : WorkerSlot (Chan A) → List A
    lane_items s = elim s.lane_rx [ none ↦ [] | some rx ↦ items rx ]

    pub drain_slot_lem :
        (s : WorkerSlot (Chan A))
        → ((drain_slot F s).0 ≡ lane_items s)
          × (lane_items (drain_slot F s).1 ≡ [])
          × ((drain_slot F s).1.lane_tx ≡ s.lane_tx)
          × ((drain_slot F s).1.in_flight ≡ s.in_flight)
          × ((drain_slot F s).1.current ≡ s.current)
          × ((drain_slot F s).1.parked ≡ s.parked)
    unfolding drain_slot
    drain_slot_lem s = elim (Option-cases s.lane_rx) [
      | inl e ↦ ground (arith, e)
      | inr (rx, e) ↦ ground (arith, e, drain_lane_lem (length (items rx)) rx (omega arith))
    ]

    pub quiet_items : (s : WorkerSlot (Chan A)) → lane_items (quiet F s) ≡ lane_items s
    unfolding Slot.close_lane
    quiet_items s = elim (Option-cases s.lane_rx) [
      | inl e ↦ ground (arith, e)
      | inr (rx, e) ↦ ground (arith, e, (F.drop_sender_lem rx).0)
    ]

    pub quiet_lem :
        (s : WorkerSlot (Chan A))
        → ((quiet F s).lane_tx ≡ false) × ((quiet F s).in_flight ≡ 0) × ((quiet F s).current ≡ [])
    unfolding Slot.close_lane
    quiet_lem s = ground arith

    -- The slot of a dead worker: it holds nothing, its lane is closed and empty, and the dispatcher
    -- passes it over.
    abbrev pub IsQuiescent : WorkerSlot (Chan A) → Type 0
    IsQuiescent s =
        (s.current ≡ [])
        × (s.in_flight ≡ 0)
        × (s.lane_tx ≡ false)
        × (s.parked ≡ true)
        × (lane_items s ≡ [])

    -- When `abort_slot` returns, each request that the worker held and each that waited in its lane
    -- is answered, or its responder is gone, and the slot is quiescent.
    pub abort_slot-Answered :
        (responder_of : A → ℕ) (s s' : WorkerSlot (Chan A))
        (store store' : List (Option (Shared F)))
        → abort_slot F responder_of s store ≡ some (s', store')
        → All (λ (id : ℕ). Answered store' id) s.current
          × All (λ (id : ℕ). Answered store' id) (map responder_of (lane_items s))
          × IsQuiescent s'
    unfolding abort_slot
    abort_slot-Answered responder_of s s' store store' e =
        elim (Backstop-cases (abort_current F s.current store)) [
          | inr (_, w) ↦ absurd (ground (arith, w, e))
          | inl (st, f) ↦
              elim (Backstop-cases
                (abort_current F (map responder_of (drain_slot F (quiet F s)).0) st)) [
                  | inr (_, w) ↦ absurd (ground (arith, f, w, e))
                  | inl (st', g) ↦
                      let both : some ((drain_slot F (quiet F s)).1, st') ≡ some (s', store') =
                        ground (arith, f, g, e) in
                      let pair = eq_of_some both in
                      let (held, _) = abort_current-Answered s.current store st f in
                      let (waited, kept) =
                        abort_current-Answered (map responder_of (drain_slot F (quiet F s)).0) st
                          st' g in
                      let (all, none_left, tx, fl, cur, up) = drain_slot_lem (quiet F s) in
                      let (shut, zero_now, cleared) = quiet_lem s in
                      subst
                        (λ (p : WorkerSlot (Chan A) × List (Option (Shared F))).
                          All (λ (id : ℕ). Answered p.1 id) s.current
                          × All (λ (id : ℕ). Answered p.1 id) (map responder_of (lane_items s))
                          × IsQuiescent p.0)
                        pair
                        (
                          All-Answered s.current st st' kept held,
                          subst (λ xs. All (λ (id : ℕ). Answered st' id) (map responder_of xs))
                              (all ∙ quiet_items s) waited,
                          (cur ∙ cleared, fl ∙ zero_now, tx ∙ shut, up, none_left),
                        )
                ]
        ]
