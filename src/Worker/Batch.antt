-- ===== src/Worker/Batch.antt =====
-- The batch that a worker takes from the shared queue.
use kino.Prelude.{
  ℕ, zero, suc, ◌-◌, ◌≤◌, ◌<◌, ◌≡◌, refl, subst, ap, sym, ◌∙◌, ◌⊎◌, inl, inr, some, List, [], ◌∷◌,
  ◌++◌, map, length, get_elem?, set, arith,
}
use mathlib.Core.Option.{none-ne-some}
use kino.Flume.{Flume}
use kino.Slot.{WorkerSlot}
use kino.Registry.{ServerInner}
use kino.Worker.{admit, admitted, admit_ctx, drain_batch, take_batch}

module _ (F : Flume) {A : Type 0} (responder wait : A → ℕ) (now i : ℕ) where
  open F use {Chan, items, try_recv, try_recv_cases}

  -- The batch left the front of the queue in order, and the slot lists its responders.
  pub record Batched (server : ServerInner (Chan A)) (slot : WorkerSlot (Chan A)) (batch : List A)
      (server' : ServerInner (Chan A)) : Type 0 where
    pub from_queue : items server.req_rx ≡ batch ++ items server'.req_rx
    pub slot' : WorkerSlot (Chan A)
    pub at_index : get_elem? server'.slots i ≡ some slot'
    pub registered : slot'.current ≡ slot.current ++ map responder batch

  get_elem?-set_self :
      (slots : List (WorkerSlot (Chan A))) (k : ℕ) (slot slot' : WorkerSlot (Chan A))
      → get_elem? slots k ≡ some slot
      → get_elem? (set slots k slot') k ≡ some slot'
  get_elem?-set_self [] k slot slot' e = absurd (none-ne-some slot e)
  get_elem?-set_self (x ∷ slots) zero slot slot' e = refl
  get_elem?-set_self (x ∷ slots) (suc k) slot slot' e = get_elem?-set_self slots k slot slot' e

  admit_ctx_lem :
      (server : ServerInner (Chan A)) (slot : WorkerSlot (Chan A)) (ctx : A)
      → get_elem? server.slots i ≡ some slot
      → (slot' : WorkerSlot (Chan A)) × (get_elem?
            (admit_ctx F responder wait now server i ctx).slots
            i
          ≡ some slot')
        × (slot'.current ≡ slot.current ++ responder ctx ∷ [])
        × ((admit_ctx F responder wait now server i ctx).req_rx ≡ server.req_rx)
  unfolding admit
  admit_ctx_lem server slot ctx here =
      let slot' : WorkerSlot (Chan A) = admitted F slot (responder ctx) now in
      (
        slot',
        ground (arith, here, get_elem?-set_self server.slots i slot slot' here),
        refl,
        ground (arith, here),
      )

  append-singleton : (xs : List ℕ) (x : ℕ) (ys : List ℕ) → (xs ++ x ∷ []) ++ ys ≡ xs ++ x ∷ ys
  append-singleton [] x ys = refl
  append-singleton (y ∷ xs) x ys = ap (◌∷◌ y) (append-singleton xs x ys)

  append-empty : (xs : List ℕ) → xs ≡ xs ++ []
  append-empty [] = refl
  append-empty (x ∷ xs) = ap (◌∷◌ x) (append-empty xs)

  -- How draining ends.
  Drain : ℕ → ServerInner (Chan A) → WorkerSlot (Chan A) → List A × ServerInner (Chan A) → Type 0
  Drain n server slot (batch, server') =
      Batched server slot batch server'
      × (length batch ≤ n)
      × ((length batch ≡ n) ⊎ (items server'.req_rx ≡ []))

  none_taken :
      (n : ℕ) (server : ServerInner (Chan A)) (slot : WorkerSlot (Chan A))
      → get_elem? server.slots i ≡ some slot
      → ((0 ≡ n) ⊎ (items server.req_rx ≡ []))
      → Drain n server slot ([], server)
  unfolding Drain
  none_taken n server slot here why = (
    record {
      from_queue = refl;
      slot' = slot;
      at_index = here;
      registered = append-empty slot.current;
    },
    omega arith,
    why,
  )

  one_more :
      (n : ℕ) (server admitted' : ServerInner (Chan A)) (slot slot' : WorkerSlot (Chan A)) (ctx : A)
      (r : List A × ServerInner (Chan A))
      → items server.req_rx ≡ ctx ∷ items admitted'.req_rx
      → slot'.current ≡ slot.current ++ responder ctx ∷ []
      → Drain n admitted' slot' r
      → Drain (suc n) server slot (ctx ∷ r.0, r.1)
  unfolding Drain
  one_more n server admitted' slot slot' ctx (batch, server') head cur (b, short, why) = (
    record {
      from_queue = head ∙ ap (◌∷◌ ctx) b.from_queue;
      slot' = b.slot';
      at_index = b.at_index;
      registered =
          b.registered
          ∙ ap (λ l. l ++ map responder batch) cur
          ∙ append-singleton slot.current (responder ctx) (map responder batch);
    },
    omega (arith, short),
    elim why [ inl e ↦ inl (omega (arith, e)) | inr e ↦ inr e ],
  )

  drain_batch-Drain :
      (n : ℕ) (server : ServerInner (Chan A)) (slot : WorkerSlot (Chan A))
      → get_elem? server.slots i ≡ some slot
      → Drain n server slot (drain_batch F responder wait now i n server)
  unfolding drain_batch
  drain_batch-Drain zero server slot here = none_taken zero server slot here (inl refl)
  drain_batch-Drain (suc n) server slot here = elim (try_recv_cases server.req_rx) [
    | inl (ctx, rx, r, oldest, _, _, _) ↦
        let taken : ServerInner (Chan A) = record server { req_rx = rx } in
        let next : ServerInner (Chan A) = admit_ctx F responder wait now taken i ctx in
        let (slot', at, cur, same) = admit_ctx_lem taken slot ctx here in
        subst (Drain (suc n) server slot) (ground (arith, r)) (
          one_more n server next slot slot' ctx (drain_batch F responder wait now i n next)
            (oldest ∙ ap (λ c. ctx ∷ items c) (sym same)) cur (drain_batch-Drain n next slot' at))
    | inr (inl (r, e, _)) ↦
        subst (Drain (suc n) server slot) (ground (arith, r))
          (none_taken (suc n) server slot here (inr e))
    | inr (inr (r, e, _)) ↦
        subst (Drain (suc n) server slot) (ground (arith, r))
          (none_taken (suc n) server slot here (inr e))
  ]

  -- A batch holds the request in hand and then requests from the front of the queue, in order. It
  -- is at most as long as the limit, stops short only at an empty queue, and the worker's slot lists
  -- the responder of each of its requests.
  pub take_batch_lem :
      (limit : ℕ) (first : A) (server : ServerInner (Chan A)) (slot : WorkerSlot (Chan A))
      → get_elem? server.slots i ≡ some slot
      → 0 < limit
      → let (batch, server') = take_batch F responder wait now i limit first server in
        (rest : List A) × (batch ≡ first ∷ rest)
        × (items server.req_rx ≡ rest ++ items server'.req_rx)
        × (length batch ≤ limit)
        × ((length batch ≡ limit) ⊎ (items server'.req_rx ≡ []))
        × (slot' : WorkerSlot (Chan A)) × (get_elem? server'.slots i ≡ some slot')
        × (slot'.current ≡ slot.current ++ map responder batch)
  unfolding take_batch Drain
  take_batch_lem limit first server slot here pos =
      let (slot', at, cur, same) = admit_ctx_lem server slot first here in
      let next : ServerInner (Chan A) = admit_ctx F responder wait now server i first in
      let (b, short, why) = drain_batch-Drain (limit - 1) next slot' at in
      (
        (drain_batch F responder wait now i (limit - 1) next).0,
        refl,
        ap items (sym same) ∙ b.from_queue,
        omega (arith, short),
        elim why [ inl e ↦ inl (omega (arith, e)) | inr e ↦ inr e ],
        b.slot',
        b.at_index,
        b.registered
            ∙ ap (λ l. l ++ map responder (drain_batch F responder wait now i (limit - 1) next).0)
                cur
            ∙ append-singleton slot.current (responder first)
                (map responder (drain_batch F responder wait now i (limit - 1) next).0),
      )
