-- ===== src/Stream.antt =====
-- ext/kino/src/request.rs: a response that the app writes, whole or chunk by chunk.
-- `delivered` is what the client's side of the frame channel has received. `accepts` is what http
-- says of a status and headers; a Ruby value of a header is the text that `to_s` gives.
pub mod Once
mod Tests
use kino.Prelude.{
  ℕ, if◌then◌else◌, Bool, true, false, Option, none, some, List, [], ◌∷◌, ◌++◌, map, length, String,
}
use kino.Flume.{Flume, TrySend, sent, full}
use kino.Pin.{PinSlab, pinned_bytes}
use kino.Gvl.{Wait, interrupted, finished, pending, interruptible}
use kino.Response.{
  FrameResult, frame, HyperResponse, full_body, Builder, Backstop, HeadSent, Shared, send_response,
  send_stream_head, body_sender, finish_stream, respond_500_if_unsent,
}

-- A header's value: a String, or an Array of Strings.
pub data RackValue : Type 0 where
  one : List ℕ → RackValue
  many : List (List ℕ) → RackValue

pub values_of : RackValue → List (List ℕ)
values_of (one value) = value ∷ []
values_of (many values) = values

-- Each element of an Array is a header of its own.
pub head_lines : List (String × RackValue) → List (String × List ℕ)
unfolding values_of
head_lines [] = []
head_lines ((name, value) ∷ headers) = map (λ v. (name, v)) (values_of value) ++ head_lines headers

pub build_head : (ℕ → List (String × List ℕ) → Bool) → ℕ → List (String × RackValue) → Builder
unfolding head_lines
build_head accepts status headers = record {
  head = record { status = status; headers = head_lines headers; body = full_body [] };
  valid = accepts status (head_lines headers);
}

-- The body's bytes, pinned in a slot of the slab or copied: the same bytes. `tmp` and `flagged` are
-- what Ruby gives for the string.
pub body_bytes : PinSlab → List ℕ → ℕ → Bool → PinSlab × List ℕ
body_bytes slab body tmp flagged = ((pinned_bytes slab (length body) tmp flagged).0, body)

-- `Ok(sent)` or the error "invalid response".
pub data Responded : Type 0 where
  answered : Bool → Responded
  invalid_response : Responded

-- `Ok(())`, and the two errors.
pub data ChunkResult : Type 0 where
  ok not_started interrupted_error : ChunkResult

module _ (F : Flume) where
  open F use {Chan, items, try_send}

  pub record Stream : Type 0 where
    pub responder : Shared F
    pub interrupted : Bool
    pub delivered : List FrameResult
    pub pin_slab : PinSlab

  -- The response is built before the right to respond is claimed.
  unfoldable pub respond_simple :
      (ℕ → List (String × List ℕ) → Bool)
      → Stream
      → ℕ
      → List (String × RackValue)
      → List ℕ
      → ℕ
      → Bool
      → Bool
      → Stream × Responded
  unfolding build_head body_bytes
  respond_simple accepts s status headers body tmp flagged listening =
      let builder = build_head accepts status headers in
      let (slab, bytes) = body_bytes s.pin_slab body tmp flagged in
      let (responder, went) =
        send_response s.responder (record builder.head { body = full_body bytes }) listening in
      if builder.valid
      then (record s { responder = responder; pin_slab = slab }, answered went)
      else (record s { pin_slab = slab }, invalid_response)

  unfoldable pub send_headers :
      (ℕ → List (String × List ℕ) → Bool)
      → Stream
      → ℕ
      → List (String × RackValue)
      → Stream × HeadSent
  unfolding build_head
  send_headers accepts s status headers =
      let (responder, went) = send_stream_head F s.responder (build_head accepts status headers) in
      (record s { responder = responder }, went)

  -- `send_timeout` for one tick: true once the frame is in the channel, false once the client went
  -- away, none to keep waiting with the same frame.
  pub write_attempt : FrameResult → Stream → Option Bool × Stream
  write_attempt chunk s = elim s.responder.frames [
    | none ↦ (some false, s)
    | some frames ↦ elim (try_send frames chunk) [
      | sent frames' ↦
          (some true, record s { responder = record s.responder { frames = some frames' } })
      | full ↦ (none, s)
      | TrySend.disconnected ↦ (some false, s)
    ]
  ]

  pub after_write : Wait Stream Bool → Wait Stream ChunkResult
  after_write (interrupted s) = finished interrupted_error s
  after_write (finished went s) = finished ok s
  after_write (pending s) = pending s

  pub write_chunk : List ℕ → ℕ → Bool → List (Stream → Stream) → Stream → Wait Stream ChunkResult
  unfolding after_write body_bytes
  write_chunk bytes tmp flagged ticks s = elim (body_sender F s.responder) [
    | none ↦ finished not_started s
    | some frames ↦ after_write (
        interruptible (λ t. t.interrupted) (write_attempt (frame bytes)) ticks
          (record s { pin_slab = (body_bytes s.pin_slab bytes tmp flagged).0 }))
  ]

  unfoldable pub finish : Stream → Stream
  finish s = record s { responder = finish_stream F s.responder }

  unfoldable pub abort : Stream → Backstop (Shared F)
  abort s = respond_500_if_unsent F s.responder
