-- ===== src/Worker/Take.antt =====
-- What a take returns, and how its wait ends.
use kino.Prelude.{
  ℕ, zero, suc, ◌+◌, ◌<◌, ◌≡◌, refl, ap, sym, subst, ◌∙◌, ◌⊎◌, inl, inr, Bool, true, false, Option,
  none, some, Option-cases, eq_of_some, List, [], ◌∷◌, ◌++◌, length, length-set, word, get_elem?,
  set, All, arith,
}
use mathlib.Core.Option.{none-ne-some}
use kino.Flume.{Flume, empty}
use kino.Slot.{WorkerSlot}
use kino.Registry.{ServerInner}
use kino.Gvl.{Wait, interrupted, finished, pending, interruptible}
use kino.Gvl.Raised.{Ended, raised-Ended}
use kino.Worker.{
  after_timeout, write, steal_step, timeout_step, lane_attempt, interrupted_flag, flatten, park,
  unpark, unpark_after, parked_wait, lane_take,
}
use kino.Worker.Steal.{steal_cases, Drained, Stole, recv_lane_cases}

module _ (F : Flume) {A : Type 0} where
  open F use {Chan, items, senders, try_recv, try_recv_cases}

  get_elem?-set :
      (slots : List (WorkerSlot (Chan A))) (i : ℕ) (v slot : WorkerSlot (Chan A))
      → get_elem? (set slots i v) i ≡ some slot
      → slot ≡ v
  get_elem?-set [] i v slot e = absurd (none-ne-some slot e)
  get_elem?-set (x ∷ slots) zero v slot e = sym (eq_of_some e)
  get_elem?-set (x ∷ slots) (suc i) v slot e = get_elem?-set slots i v slot e

  unpark-parked :
      (i : ℕ) (server : ServerInner (Chan A)) (slot : WorkerSlot (Chan A))
      → get_elem? (unpark F i server).slots i ≡ some slot
      → slot.parked ≡ false
  unfolding unpark
  unpark-parked i server slot here = elim (Option-cases (get_elem? server.slots i)) [
    | inl e ↦ absurd (none-ne-some slot (ground (arith, e, here)))
    | inr (before, e) ↦
        ap (λ (s : WorkerSlot (Chan A)). s.parked)
          (get_elem?-set server.slots i (record before { parked = false }) slot
            (ground (arith, e, here)))
  ]

  -- A worker that waited is unparked when its take returns, whatever the wait came to.
  parked_wait-parked :
      (i : ℕ) (ticks : List (ServerInner (Chan A) → ServerInner (Chan A)))
      (server server' : ServerInner (Chan A)) (taken : Option A) (slot : WorkerSlot (Chan A))
      → parked_wait F i ticks server ≡ finished taken server'
      → get_elem? server'.slots i ≡ some slot
      → slot.parked ≡ false
  unfolding parked_wait flatten unpark_after
  parked_wait-parked i ticks server server' taken slot e here =
      back (interruptible (interrupted_flag F i) (lane_attempt F i) ticks (park F i server)) e
    where
      back :
          (w : Wait (ServerInner (Chan A)) (Option A))
          → flatten F (unpark_after F i w) ≡ finished taken server'
          → slot.parked ≡ false
      back (interrupted s) f =
          let same : unpark F i s ≡ server' = ground (arith, f) in
          unpark-parked i s slot
            (ap (λ (t : ServerInner (Chan A)). get_elem? t.slots i) same ∙ here)
      back (finished t s) f =
          let same : unpark F i s ≡ server' = ground (arith, f) in
          unpark-parked i s slot
            (ap (λ (t : ServerInner (Chan A)). get_elem? t.slots i) same ∙ here)
      back (pending s) f = absurd (ground (arith, f))

  flag_at : List (WorkerSlot (Chan A)) → ℕ → Bool
  flag_at slots i = elim (get_elem? slots i) [ none ↦ false | some slot ↦ slot.interrupted ]

  flag_at-set :
      (slots : List (WorkerSlot (Chan A))) (k i : ℕ) (slot slot' : WorkerSlot (Chan A))
      → get_elem? slots k ≡ some slot
      → slot'.interrupted ≡ slot.interrupted
      → flag_at (set slots k slot') i ≡ flag_at slots i
  unfolding flag_at
  flag_at-set [] k i slot slot' here same = refl
  flag_at-set (x ∷ slots) zero zero slot slot' here same =
      same ∙ ap (λ (s : WorkerSlot (Chan A)). s.interrupted) (sym (eq_of_some here))
  flag_at-set (x ∷ slots) zero (suc i) slot slot' here same = refl
  flag_at-set (x ∷ slots) (suc k) zero slot slot' here same = refl
  flag_at-set (x ∷ slots) (suc k) (suc i) slot slot' here same =
      flag_at-set slots k i slot slot' here same

  -- Two servers whose slots agree in number and in the flag of worker `i`.
  Alike : ℕ → ServerInner (Chan A) → ServerInner (Chan A) → Type 0
  Alike i server server' =
      (length server'.slots ≡ length server.slots)
      × (flag_at server'.slots i ≡ flag_at server.slots i)

  write-Alike :
      (server : ServerInner (Chan A)) (i k : ℕ) (slot slot' : WorkerSlot (Chan A))
      → get_elem? server.slots k ≡ some slot
      → slot'.interrupted ≡ slot.interrupted
      → Alike i server (write F server k slot')
  unfolding Alike
  write-Alike server i k slot slot' here same =
      (length-set server.slots k slot', flag_at-set server.slots k i slot slot' here same)

  steal_step-Alike :
      (i : ℕ) (server : ServerInner (Chan A)) → Alike i server (steal_step F i server).1
  unfolding steal_step Alike
  steal_step-Alike i server = elim (steal_cases F i 0 server.slots) [
    | inl (e, _) ↦ rw e (refl, refl)
    | inr (ctx, slots', e, s) ↦ rw e (
        rw s.written (
          length-set server.slots s.index s.slot',
          flag_at-set server.slots s.index i s.slot s.slot' s.at_index
              (ap (λ (t : WorkerSlot (Chan A)). t.interrupted) s.from_lane.replaced),
        ))
  ]

  after_timeout-interrupted :
      (slot : WorkerSlot (Chan A)) → (after_timeout F slot).1.interrupted ≡ slot.interrupted
  unfolding after_timeout
  after_timeout-interrupted slot = elim (recv_lane_cases F slot) [
    | inl (r, _) ↦ ground (arith, r)
    | inr (ctx, slot', r, got) ↦
        ground (arith, r, ap (λ (t : WorkerSlot (Chan A)). t.interrupted) got.replaced)
  ]

  Alike-refl :
      (i : ℕ) (server server' : ServerInner (Chan A)) → server' ≡ server → Alike i server server'
  unfolding Alike
  Alike-refl i server server' e = (
    ap (λ (t : ServerInner (Chan A)). length t.slots) e,
    ap (λ (t : ServerInner (Chan A)). flag_at t.slots i) e,
  )

  write_lem :
      (server server' : ServerInner (Chan A)) (i : ℕ) (slot slot' : WorkerSlot (Chan A))
      → get_elem? server.slots i ≡ some slot
      → slot'.interrupted ≡ slot.interrupted
      → server' ≡ write F server i slot'
      → Alike i server server'
  write_lem server server' i slot slot' here same e =
      subst (Alike i server) (sym e) (write-Alike server i i slot slot' here same)

  timeout_step-Alike :
      (i : ℕ) (server : ServerInner (Chan A)) → Alike i server (timeout_step F i server).1
  unfolding timeout_step
  timeout_step-Alike i server = elim (Option-cases (get_elem? server.slots i)) [
    | inl e ↦ Alike-refl i server (timeout_step F i server).1 (ground (arith, e))
    | inr (slot, e) ↦
        write_lem server (timeout_step F i server).1 i slot (after_timeout F slot).1 e
          (after_timeout-interrupted slot) (ground (arith, e))
  ]

  Alike-trans : (i : ℕ) (a b c : ServerInner (Chan A)) → Alike i a b → Alike i b c → Alike i a c
  unfolding Alike
  Alike-trans i a b c f g = (g.0 ∙ f.0, g.1 ∙ f.1)

  waited-Alike :
      (i : ℕ) (server : ServerInner (Chan A)) (slot : WorkerSlot (Chan A)) (rx : Chan A)
      → get_elem? server.slots i ≡ some slot
      → slot.lane_rx ≡ some rx
      → try_recv rx ≡ empty
      → Alike i server (lane_attempt F i server).1
  unfolding lane_attempt
  waited-Alike i server slot rx here lane r = elim (Option-cases (timeout_step F i server).0) [
    | inl e ↦ subst (Alike i server) (ground (arith, here, lane, r, e)) (
        Alike-trans i server (timeout_step F i server).1
          (steal_step F i (timeout_step F i server).1).1 (timeout_step-Alike i server)
          (steal_step-Alike i (timeout_step F i server).1))
    | inr (taken, e) ↦
        subst (Alike i server) (ground (arith, here, lane, r, e)) (timeout_step-Alike i server)
  ]

  lane_attempt-Alike :
      (i : ℕ) (server : ServerInner (Chan A)) → Alike i server (lane_attempt F i server).1
  unfolding lane_attempt
  lane_attempt-Alike i server = elim (Option-cases (get_elem? server.slots i)) [
    | inl e ↦ Alike-refl i server (lane_attempt F i server).1 (ground (arith, e))
    | inr (slot, e) ↦ elim (Option-cases slot.lane_rx) [
      | inl l ↦ Alike-refl i server (lane_attempt F i server).1 (ground (arith, e, l))
      | inr (rx, l) ↦ elim (try_recv_cases rx) [
        | inl (ctx, rx', r, _, _, _, _) ↦
            write_lem server (lane_attempt F i server).1 i slot (record slot { lane_rx = some rx' })
              e refl (ground (arith, e, l, r))
        | inr (inl (r, _, _)) ↦ waited-Alike i server slot rx e l r
        | inr (inr (r, _, _)) ↦
            Alike-refl i server (lane_attempt F i server).1 (ground (arith, e, l, r))
      ]
    ]
  ]

  interrupted_flag_lem :
      (i : ℕ) (server : ServerInner (Chan A)) → interrupted_flag F i server ≡ flag_at server.slots i
  unfolding interrupted_flag flag_at
  interrupted_flag_lem i server = refl

  -- The worker's slot exists.
  abbrev pub IsWorker : ℕ → ServerInner (Chan A) → Type 0
  IsWorker i server = i < length server.slots

  flatten-Ended :
      (i : ℕ) (w : Wait (ServerInner (Chan A)) (Option A))
      → Ended w
      → Ended (flatten F (unpark_after F i w))
  unfolding flatten unpark_after
  flatten-Ended i (interrupted u) ended s e = ground (arith, e)
  flatten-Ended i (finished t u) ended s e = ground (arith, e)
  flatten-Ended i (pending u) ended s e = absurd (ended u refl)

  park-IsWorker :
      (i : ℕ) (server : ServerInner (Chan A)) → IsWorker i server → IsWorker i (park F i server)
  unfolding park
  park-IsWorker i server there = elim (Option-cases (get_elem? server.slots i)) [
    | inl e ↦ ground (arith, e)
    | inr (slot, e) ↦
        let slot' : WorkerSlot (Chan A) = record slot {
          parked_at = word (server.park_seq + 1);
          parked = true;
        } in
        ground (arith, e, length-set server.slots i slot')
  ]

  lane_attempt-IsWorker :
      (i : ℕ) (server : ServerInner (Chan A))
      → IsWorker i server
      → IsWorker i (lane_attempt F i server).1
  unfolding Alike
  lane_attempt-IsWorker i server there = omega (arith, (lane_attempt-Alike i server).0)

  lane_attempt-flag :
      (i : ℕ) (server : ServerInner (Chan A))
      → interrupted_flag F i (lane_attempt F i server).1 ≡ interrupted_flag F i server
  unfolding Alike
  lane_attempt-flag i server =
      interrupted_flag_lem i (lane_attempt F i server).1
      ∙ (lane_attempt-Alike i server).1
      ∙ sym (interrupted_flag_lem i server)

  -- A parked worker is woken: once its flag is raised, its take returns within one attempt, whatever
  -- the other threads did before and do after.
  pub parked_wait-Ended :
      (i : ℕ) (before after : List (ServerInner (Chan A) → ServerInner (Chan A)))
      (raise next : ServerInner (Chan A) → ServerInner (Chan A)) (server : ServerInner (Chan A))
      → IsWorker i server
      → All
          (λ (tick : ServerInner (Chan A) → ServerInner (Chan A)).
            (u : ServerInner (Chan A)) → IsWorker i u → IsWorker i (tick u))
          before
      → ((u : ServerInner (Chan A)) → IsWorker i u → interrupted_flag F i (raise u) ≡ true)
      → Ended (parked_wait F i (before ++ raise ∷ next ∷ after) server)
  unfolding parked_wait
  parked_wait-Ended i before after raise next server there ticks raises =
      flatten-Ended i
        (interruptible (interrupted_flag F i) (lane_attempt F i) (before ++ raise ∷ next ∷ after)
          (park F i server))
        (raised-Ended (interrupted_flag F i) (lane_attempt F i) (IsWorker i) before after raise next
          (park F i server) (lane_attempt-IsWorker i) ticks
          (λ u p. lane_attempt-flag i (raise u) ∙ raises u p) (park-IsWorker i server there))

  -- A take gives the oldest request of the worker's own lane, without a wait, if there is one.
  pub lane_take-own :
      (i : ℕ) (rx : Chan A) (slot : WorkerSlot (Chan A))
      (ticks : List (ServerInner (Chan A) → ServerInner (Chan A))) (server : ServerInner (Chan A))
      (ctx : A) (rest : List A)
      → items rx ≡ ctx ∷ rest
      → (rx' : Chan A) × (items rx' ≡ rest)
        × (lane_take F i rx slot ticks server
            ≡ finished (some ctx) (write F server i (record slot { lane_rx = some rx' })))
  unfolding lane_take
  lane_take-own i rx slot ticks server x rest e = elim (try_recv_cases rx) [
    | inl (ctx, rx', r, oldest, _, _, _) ↦
        (rx', ground (arith, oldest, e), ground (arith, r, oldest, e))
    | inr (inl (r, e0, s0)) ↦ absurd (ground (arith, e0, e))
    | inr (inr (r, e0, s0)) ↦ absurd (ground (arith, e0, e))
  ]

  -- A take whose own lane is empty and open gives the oldest request of the first sibling lane, in
  -- slot order, that has one, and changes no other slot; if every sibling's lane is empty it waits.
  pub lane_take-Stole :
      (i : ℕ) (rx : Chan A) (slot : WorkerSlot (Chan A))
      (ticks : List (ServerInner (Chan A) → ServerInner (Chan A))) (server : ServerInner (Chan A))
      → items rx ≡ []
      → 0 < senders rx
      → (Drained F i 0 server.slots
          × (lane_take F i rx slot ticks server ≡ parked_wait F i ticks server))
        ⊎ ((ctx : A) × (slots' : List (WorkerSlot (Chan A))) × Stole F i 0 server.slots ctx slots'
            × (lane_take F i rx slot ticks server
                ≡ finished (some ctx) (record server { slots = slots' })))
  unfolding lane_take steal_step
  lane_take-Stole i rx slot ticks server e s = elim (try_recv_cases rx) [
    | inl (ctx, rx', r, oldest, _, _, _) ↦ absurd (ground (arith, oldest, e))
    | inr (inl (r, _, _)) ↦ elim (steal_cases F i 0 server.slots) [
      | inl (st, d) ↦ inl (d, ground (arith, r, st))
      | inr (ctx, slots', st, got) ↦ inr (ctx, slots', got, ground (arith, r, st))
    ]
    | inr (inr (r, _, s0)) ↦ absurd (omega (arith, s0, s))
  ]
