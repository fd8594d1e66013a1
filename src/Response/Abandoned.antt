-- ===== src/Response/Abandoned.antt =====
-- The backstop of a request that the app never answers.
use kino.Prelude.{
  ◌-◌, ◌<◌, ◌≤◌, ◌≡◌, refl, subst, ◌∙◌, ◌⊎◌, inl, inr, Bool-cases, true, false, some, none,
  Option-cases, [], ◌∷◌, ◌++◌, length, codes, arith,
}
use kino.Flume.{Flume}
use kino.Response.{
  FrameResult, abandoned_mid_stream, Backstop, returned, waiting, Shared, claim,
  respond_500_if_unsent, send_abandoned, body_sender, drop_body_tx, plain_response,
}
use kino.Response.Claim.{IsOnce}

module _ (F : Flume) where
  open F use {Chan, items, capacity, senders, receivers, drop_sender, drop_sender_lem}

  -- What becomes of an open stream: its sender is given up, after the error frame, which is left
  -- out only if the client has gone; or the call waits with the sender, as the frame channel is
  -- full.
  abbrev pub Cut : Shared F → Chan FrameResult → Backstop (Shared F) → Type 0
  Cut r c (returned r') =
      (body_sender F r' ≡ none)
      × (c' : Chan FrameResult) × (r'.frames ≡ some c')
      × (senders c' ≡ senders c - 1)
      × ((items c' ≡ items c ++ abandoned_mid_stream ∷ [])
          ⊎ (items c' ≡ items c) × (receivers c ≡ 0))
  Cut r c (waiting r') =
      (body_sender F r' ≡ none) × (r'.frames ≡ some c) × (capacity c ≤ length (items c))

  -- How the backstop ends for a responder that is not claimed, one that is and has no open stream,
  -- and one that is and has one.
  abbrev pub Ends : Shared F → Backstop (Shared F) → Type 0
  Ends r b =
      (r.responded ≡ false)
        × (b
            ≡ returned (record r {
              responded = true;
              head_tx = false;
              heads = plain_response 500 (codes "Internal Server Error\n") ∷ [];
            }))
      ⊎ (r.responded ≡ true) × (body_sender F r ≡ none) × (b ≡ returned r)
      ⊎ (r.responded ≡ true) × ((c : Chan FrameResult) × (body_sender F r ≡ some c) × Cut r c b)

  send_abandoned-Cut :
      (r : Shared F) (c : Chan FrameResult)
      → r.frames ≡ some c
      → 0 < capacity c
      → Cut r c (send_abandoned F r c)
  unfolding send_abandoned drop_body_tx body_sender
  send_abandoned-Cut r c here room = elim (F.try_send_cases c abandoned_mid_stream room) [
    | inl (c', sent_to, _, appended, _, same, _) ↦
        let (kept, _, fewer, _) = drop_sender_lem c' in
        let eq : returned (record r { body_tx = false; frames = some (drop_sender c') })
            ≡ send_abandoned F r c =
          ground (arith, sent_to) in
        subst (Cut r c) eq
          (refl, drop_sender c', refl, omega (arith, fewer, same), inl (kept ∙ appended))
    | inr (inl (is_full, at_cap)) ↦
        let eq : waiting (record r { body_tx = false }) ≡ send_abandoned F r c =
          ground (arith, is_full) in
        subst (Cut r c) eq (refl, here, at_cap)
    | inr (inr (gone, unread)) ↦
        let (kept, _, fewer, _) = drop_sender_lem c in
        let eq : returned (record r { body_tx = false; frames = some (drop_sender c) })
            ≡ send_abandoned F r c =
          ground (arith, gone, here) in
        subst (Cut r c) eq (refl, drop_sender c, refl, fewer, inr (kept, unread))
  ]

  -- The backstop answers each responder that claims its right to respond at most once, and whose
  -- frame channel has a capacity: with a 500 if nobody has claimed it; if somebody has, the stream
  -- that is open is cut, with the error frame unless the client has gone and without its sender, or
  -- the call waits for room in the full frame channel to do so; and without an open stream nothing
  -- is changed.
  pub backstop_answers :
      (r : Shared F)
      → IsOnce F r
      → ((c : Chan FrameResult) → r.frames ≡ some c → 0 < capacity c)
      → Ends r (respond_500_if_unsent F r)
  unfolding respond_500_if_unsent claim body_sender
  backstop_answers r v room = elim (Bool-cases r.responded) [
    | inr unclaimed ↦ inl (unclaimed, ground (arith, unclaimed, v.unclaimed unclaimed))
    | inl claimed ↦ elim (Option-cases (body_sender F r)) [
      | inl shut ↦ inr (inl (claimed, shut, ground (arith, claimed, shut)))
      | inr (c, up) ↦
          let here : r.frames ≡ some c = ground (arith, up) in
          let eq : send_abandoned F r c ≡ respond_500_if_unsent F r = ground (arith, claimed, up) in
          inr
            (inr (claimed, (c, up, subst (Cut r c) eq (send_abandoned-Cut r c here (room c here)))))
    ]
  ]
