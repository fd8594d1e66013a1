-- ===== src/Response/Claim.antt =====
-- Who answers the client: the calls of all parties on one responder, in any order.
use kino.Prelude.{
  ◌≤◌, ◌≡◌, refl, Bool, true, false, List, [], ◌∷◌, length, length-append, arith, ◌∙◌, codes,
}
use kino.Flume.{Flume}
use kino.Response.{
  HyperResponse, BodyAbandon, Builder, Backstop, returned, waiting, Shared, new, abandon_body,
  claim, send_response, send_stream_head, finish_stream, respond_500_if_unsent, send_abandoned,
  body_sender, drop_body_tx, FrameResult, oversize, timed_out, plain_response, stream_body,
}

pub data Call : Type 0 where
  respond : HyperResponse → Bool → Call
  start : Builder → Call
  finish : Call
  abandon : BodyAbandon → Call
  backstop : Call

module _ (F : Flume) where
  pub after_backstop : Backstop (Shared F) → Shared F
  after_backstop (returned r) = r
  after_backstop (waiting r) = r

  unfoldable pub call : Shared F → Call → Shared F
  unfolding after_backstop
  call r (respond response listening) = (send_response r response listening).0
  call r (start builder) = (send_stream_head F r builder).0
  call r finish = finish_stream F r
  call r (abandon why) = abandon_body r why
  call r backstop = after_backstop (respond_500_if_unsent F r)

  unfoldable pub calls : Shared F → List Call → Shared F
  unfolding call
  calls r [] = r
  calls r (c ∷ cs) = calls (call r c) cs

  -- The head's sender is there until the claim, and at most one head is handed to it.
  pub record IsOnce (r : Shared F) : Type 0 where
    pub unclaimed : r.responded ≡ false → (r.head_tx ≡ true) × (r.body_tx ≡ false) × (r.heads ≡ [])
    pub claimed : r.responded ≡ true → r.head_tx ≡ false
    pub at_most_one : length r.heads ≤ 1

  send_abandoned-heads :
      (r : Shared F) (frames : F.Chan FrameResult)
      → let r' = after_backstop (send_abandoned F r frames) in
        (r'.responded ≡ r.responded) × (r'.head_tx ≡ r.head_tx) × (r'.heads ≡ r.heads)
  unfolding after_backstop send_abandoned drop_body_tx
  send_abandoned-heads r frames = ground arith

  respond_500-IsOnce :
      (r : Shared F) → IsOnce r → IsOnce (after_backstop (respond_500_if_unsent F r))
  unfolding respond_500_if_unsent claim after_backstop body_sender send_abandoned drop_body_tx
  respond_500-IsOnce r v =
      ground
        (arith, length-append r.heads (plain_response 500 (codes "Internal Server Error\n") ∷ []))

  call-IsOnce : (r : Shared F) (c : Call) → IsOnce r → IsOnce (call r c)
  unfolding call send_response claim send_stream_head finish_stream abandon_body drop_body_tx
  call-IsOnce r (respond response listening) v =
      ground (arith, length-append r.heads (response ∷ []))
  call-IsOnce r (start builder) v =
      ground (arith, length-append r.heads (record builder.head { body = stream_body } ∷ []))
  call-IsOnce r finish v = ground arith
  call-IsOnce r (abandon oversize) v = ground arith
  call-IsOnce r (abandon timed_out) v = ground arith
  call-IsOnce r backstop v = respond_500-IsOnce r v

  pub calls-IsOnce : (r : Shared F) (cs : List Call) → IsOnce r → IsOnce (calls r cs)
  unfolding calls
  calls-IsOnce r [] v = v
  calls-IsOnce r (c ∷ cs) v = calls-IsOnce (call r c) cs (call-IsOnce r c v)

  pub new-IsOnce : IsOnce new
  unfolding new
  new-IsOnce = ground arith

  -- Whatever the parties call, and in whatever order, the client gets at most one response head.
  pub heads-calls-new : (cs : List Call) → length (calls new cs).heads ≤ 1
  heads-calls-new cs = (calls-IsOnce new cs new-IsOnce).at_most_one

  call_responded :
      (r : Shared F) (c : Call)
      → r.responded ≡ true
      → ((call r c).responded ≡ true) × ((call r c).heads ≡ r.heads)
  unfolding call send_response claim send_stream_head finish_stream abandon_body drop_body_tx
      respond_500_if_unsent body_sender send_abandoned
  call_responded r (respond response listening) e = ground arith
  call_responded r (start builder) e = ground arith
  call_responded r finish e = ground arith
  call_responded r (abandon oversize) e = ground arith
  call_responded r (abandon timed_out) e = ground arith
  call_responded r backstop e = ground arith

  -- The first claimant wins: once the right to respond is claimed, no later call changes the head.
  heads-calls_responded :
      (r : Shared F) (cs : List Call) → r.responded ≡ true → (calls r cs).heads ≡ r.heads
  unfolding calls
  heads-calls_responded r [] e = refl
  heads-calls_responded r (c ∷ cs) e =
      let (kept, same) = call_responded r c e in heads-calls_responded (call r c) cs kept ∙ same

  pub respond_500-responded :
      (r r' : Shared F) → respond_500_if_unsent F r ≡ returned r' → r'.responded ≡ true
  unfolding respond_500_if_unsent claim send_abandoned body_sender drop_body_tx
  respond_500-responded r r' e = ground (arith, e)
