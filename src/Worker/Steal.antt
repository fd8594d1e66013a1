-- ===== src/Worker/Steal.antt =====
-- What a worker takes from a lane, from its own once retired, and from a sibling's.
use kino.Prelude.{
  ℕ, zero, suc, ◌+◌, ◌<◌, ◌≡◌, ◌≢◌, ◌==◌, ==_iff, refl, ap, sym, subst, ◌∙◌, ◌⊎◌, inl, inr, true,
  Bool-cases, Option, none, some, Option-cases, eq_of_some, List, [], ◌∷◌, map, ◌++◌, length,
  get_elem?, set, arith,
}
use mathlib.Core.Option.{none-ne-some}
use kino.Flume.{Flume}
use kino.Slot.{WorkerSlot}
use kino.Worker.{recv_lane, after_timeout, steal}

module _ (F : Flume) {A : Type 0} where
  open F use {Chan, items, try_recv, try_recv_cases}

  -- A slot with nothing to receive.
  abbrev pub IsDrained : WorkerSlot (Chan A) → Type 0
  IsDrained slot = (rx : Chan A) → slot.lane_rx ≡ some rx → items rx ≡ []

  -- The oldest request of the slot's lane, and the slot without it.
  pub record Received (slot : WorkerSlot (Chan A)) (ctx : A) (slot' : WorkerSlot (Chan A))
      : Type 0 where
    pub before : Chan A
    pub after : Chan A
    pub has_lane : slot.lane_rx ≡ some before
    pub replaced : slot' ≡ record slot { lane_rx = some after }
    pub oldest : items before ≡ ctx ∷ items after
    pub bounds : (F.capacity after ≡ F.capacity before) × (F.receivers after ≡ F.receivers before)

  pub recv_lane_cases :
      (slot : WorkerSlot (Chan A))
      → ((recv_lane F slot ≡ (none, slot)) × IsDrained slot)
        ⊎ ((ctx : A) × (slot' : WorkerSlot (Chan A)) × (recv_lane F slot ≡ (some ctx, slot'))
            × Received slot ctx slot')
  unfolding recv_lane
  recv_lane_cases slot = elim (Option-cases slot.lane_rx) [
    | inl e ↦ inl (ground (arith, e), λ rx here. absurd (none-ne-some rx (sym e ∙ here)))
    | inr (rx, e) ↦ elim (try_recv_cases rx) [
      | inl (ctx, rx', r, oldest, cap, _, rcv) ↦ inr (
        ctx,
        record slot { lane_rx = some rx' },
        ground (arith, e, r),
        record {
          before = rx;
          after = rx';
          has_lane = e;
          replaced = refl;
          oldest = oldest;
          bounds = (cap, rcv);
        },
      )
      | inr (inl (r, none_left, _)) ↦ inl (
        ground (arith, e, r),
        λ other here. subst (λ c. items c ≡ []) (eq_of_some (sym e ∙ here)) none_left,
      )
      | inr (inr (r, none_left, _)) ↦ inl (
        ground (arith, e, r),
        λ other here. subst (λ c. items c ≡ []) (eq_of_some (sym e ∙ here)) none_left,
      )
    ]
  ]

  -- The waits of one slot that time out one after the other.
  pub timeouts : ℕ → WorkerSlot (Chan A) → List (Option (Option A))
  timeouts zero slot = []
  timeouts (suc n) slot = let (taken, slot') = after_timeout F slot in taken ∷ timeouts n slot'

  timeouts_retired :
      (slot : WorkerSlot (Chan A)) (rx : Chan A) (xs : List A)
      → slot.lane_rx ≡ some rx
      → items rx ≡ xs
      → slot.retired ≡ true
      → timeouts (length xs + 1) slot ≡ map (λ ctx. some (some ctx)) xs ++ some none ∷ []
  unfolding timeouts after_timeout
  timeouts_retired slot rx [] lane here up = elim (recv_lane_cases slot) [
    | inl (r, _) ↦ ground (arith, r)
    | inr (ctx, slot', r, got) ↦
        absurd (ground (arith, eq_of_some (sym lane ∙ got.has_lane), got.oldest, here))
  ]
  timeouts_retired slot rx (x ∷ xs) lane here up = elim (recv_lane_cases slot) [
    | inl (r, drained) ↦ absurd (ground (arith, drained rx lane, here))
    | inr (ctx, slot', r, got) ↦
        let same : x ∷ xs ≡ ctx ∷ items got.after =
          sym here ∙ ap items (eq_of_some (sym lane ∙ got.has_lane)) ∙ got.oldest in
        let rest =
          timeouts_retired slot' got.after xs
            (ap (λ (s : WorkerSlot (Chan A)). s.lane_rx) got.replaced) (ground (arith, same))
            (ap (λ (s : WorkerSlot (Chan A)). s.retired) got.replaced ∙ up) in
        ground (arith, r, same, rest)
  ]

  -- A retired worker gives out its lane's requests in order, one per timeout, and then leaves.
  timeouts-retired :
      (slot : WorkerSlot (Chan A)) (rx : Chan A)
      → slot.lane_rx ≡ some rx
      → slot.retired ≡ true
      → timeouts (length (items rx) + 1) slot
        ≡ map (λ ctx. some (some ctx)) (items rx) ++ some none ∷ []
  timeouts-retired slot rx lane up = timeouts_retired slot rx (items rx) lane refl up

  -- The sweep took the oldest request of one sibling's lane, the first in slot order with any.
  pub record Stole (self j : ℕ) (slots : List (WorkerSlot (Chan A))) (ctx : A)
      (slots' : List (WorkerSlot (Chan A))) : Type 0 where
    pub index : ℕ
    pub slot : WorkerSlot (Chan A)
    pub slot' : WorkerSlot (Chan A)
    pub at_index : get_elem? slots index ≡ some slot
    pub sibling : j + index ≢ self
    pub from_lane : Received slot ctx slot'
    pub written : slots' ≡ set slots index slot'
    pub earlier :
        (k : ℕ) (other : WorkerSlot (Chan A))
        → k < index
        → get_elem? slots k ≡ some other
        → j + k ≢ self
        → IsDrained other

  abbrev pub Drained : ℕ → ℕ → List (WorkerSlot (Chan A)) → Type 0
  Drained self j slots =
      (k : ℕ) (other : WorkerSlot (Chan A))
      → get_elem? slots k ≡ some other
      → j + k ≢ self
      → IsDrained other

  Drained-cons :
      (self j : ℕ) (slot : WorkerSlot (Chan A)) (slots : List (WorkerSlot (Chan A)))
      → ((j ≡ self) ⊎ IsDrained slot)
      → Drained self (j + 1) slots
      → Drained self j (slot ∷ slots)
  Drained-cons self j slot slots (inl e) rest zero other here ne = absurd (ne (omega arith))
  Drained-cons self j slot slots (inr d) rest zero other here ne =
      subst IsDrained (eq_of_some here) d
  Drained-cons self j slot slots h rest (suc k) other here ne =
      rest k other here (λ e. ne (omega arith))

  Stole-cons :
      (self j : ℕ) (slot : WorkerSlot (Chan A)) (slots : List (WorkerSlot (Chan A))) (ctx : A)
      (slots' : List (WorkerSlot (Chan A)))
      → ((j ≡ self) ⊎ IsDrained slot)
      → Stole self (j + 1) slots ctx slots'
      → Stole self j (slot ∷ slots) ctx (slot ∷ slots')
  Stole-cons self j slot slots ctx slots' h s = record {
    index = suc s.index;
    slot = s.slot;
    slot' = s.slot';
    at_index = s.at_index;
    sibling = λ e. s.sibling (omega arith);
    from_lane = s.from_lane;
    written = ap (◌∷◌ slot) s.written;
    earlier = first;
  }
    where
      first :
          (k : ℕ) (other : WorkerSlot (Chan A))
          → k < suc s.index
          → get_elem? (slot ∷ slots) k ≡ some other
          → j + k ≢ self
          → IsDrained other
      first zero other lt here ne = elim h [
        | inl e ↦ absurd (ne (omega arith))
        | inr d ↦ subst IsDrained (eq_of_some here) d
      ]
      first (suc k) other lt here ne = s.earlier k other (omega arith) here (λ e. ne (omega arith))

  -- How the sweep ends.
  abbrev pub Sweep : ℕ → ℕ → List (WorkerSlot (Chan A)) → Type 0
  Sweep self j slots =
      ((steal F self j slots ≡ (none, slots)) × Drained self j slots)
      ⊎ ((ctx : A) × (slots' : List (WorkerSlot (Chan A))) × (steal F self j slots
            ≡ (some ctx, slots'))
          × Stole self j slots ctx slots')

  skipping :
      (self j : ℕ) (slot : WorkerSlot (Chan A)) (slots : List (WorkerSlot (Chan A)))
      → ((j ≡ self) ⊎ (j ≢ self) × IsDrained slot × (recv_lane F slot ≡ (none, slot)))
      → Sweep self (j + 1) slots
      → Sweep self j (slot ∷ slots)
  unfolding steal
  skipping self j slot slots (inl e) (inl (none_left, d)) =
      inl (ground (arith, none_left, e), Drained-cons self j slot slots (inl e) d)
  skipping self j slot slots (inl e) (inr (ctx, slots', got, s)) = inr (
    ctx,
    slot ∷ slots',
    ground (arith, got, e),
    Stole-cons self j slot slots ctx slots' (inl e) s,
  )
  skipping self j slot slots (inr (ne, d0, r)) (inl (none_left, d)) =
      inl (ground (arith, none_left, r, ne), Drained-cons self j slot slots (inr d0) d)
  skipping self j slot slots (inr (ne, d0, r)) (inr (ctx, slots', got, s)) = inr (
    ctx,
    slot ∷ slots',
    ground (arith, got, r, ne),
    Stole-cons self j slot slots ctx slots' (inr d0) s,
  )

  stole_first :
      (self j : ℕ) (slot : WorkerSlot (Chan A)) (slots : List (WorkerSlot (Chan A))) (ctx : A)
      (slot' : WorkerSlot (Chan A))
      → j ≢ self
      → recv_lane F slot ≡ (some ctx, slot')
      → Received slot ctx slot'
      → Sweep self j (slot ∷ slots)
  unfolding steal
  stole_first self j slot slots ctx slot' ne r got = inr (
    ctx,
    slot' ∷ slots,
    ground (arith, r, ne),
    record {
      index = 0;
      slot = slot;
      slot' = slot';
      at_index = refl;
      sibling = λ e. ne (omega arith);
      from_lane = got;
      written = refl;
      earlier = λ k other lt. absurd (omega (arith, lt));
    },
  )

  -- A steal takes the oldest request of the first sibling lane, in slot order, that has one, and
  -- changes no other slot; it takes none only if every sibling's lane is empty, and then no slot changes.
  pub steal_cases : (self j : ℕ) (slots : List (WorkerSlot (Chan A))) → Sweep self j slots
  unfolding steal
  steal_cases self j [] = inl (refl, λ k other here. absurd (none-ne-some other here))
  steal_cases self j (slot ∷ slots) = elim (Bool-cases (j == self)) [
    | inl same ↦
        skipping self j slot slots (inl ((==_iff j self).0 same)) (steal_cases self (j + 1) slots)
    | inr other ↦ elim (recv_lane_cases slot) [
      | inl (r, d) ↦
          skipping self j slot slots (inr (ground arith, d, r)) (steal_cases self (j + 1) slots)
      | inr (ctx, slot', r, got) ↦ stole_first self j slot slots ctx slot' (ground arith) r got
    ]
  ]
