-- ===== src/Response.antt =====
-- ext/kino/src/response.rs: the response half of a request's lifecycle.
-- A `Responder` is shared by the app's handle, the supervisor and the drop backstop; each function
-- is one call by one of them, and returns the responder after it. The head goes out through a
-- tokio oneshot: `head_tx` is whether its sender is still there, `sent` lists what was handed to
-- it, and `listening` is whether the intake still holds the receiving end.
pub mod Claim
pub mod Abandoned
mod Tests
use kino.Prelude.{
  ℕ, ◌==◌, if◌then◌else◌, Bool, true, false, Option, none, some, List, [], ◌∷◌, ◌++◌, String, codes,
}
use mathlib.Core.Option
use kino.Flume.{Flume, TrySend, sent, full}

-- A body frame for hyper: bytes, or the error that makes hyper abort the connection.
pub data FrameResult : Type 0 where
  frame : List ℕ → FrameResult
  abandoned_mid_stream : FrameResult

pub data BodyAbandon : Type 0 where
  oversize timed_out : BodyAbandon

-- `Either<Full, StreamBody>`: a stream's frames come through the responder's frame channel.
pub data ResponseBody : Type 0 where
  full_body : List ℕ → ResponseBody
  stream_body : ResponseBody

pub record HyperResponse : Type 0 where
  pub status : ℕ
  pub headers : List (String × List ℕ)
  pub body : ResponseBody

abbrev pub stream_buffer : ℕ
stream_buffer = 8

-- `C` is the type of the frame channel.
pub record Responder (C : Type 0) : Type 0 where
  pub responded : Bool
  pub body_abandoned_code : ℕ
  pub head_tx : Bool
  pub body_tx : Bool
  pub frames : Option C
  pub heads : List HyperResponse

unfoldable pub new : {C : Type 0} → Responder C
new = record {
  responded = false;
  body_abandoned_code = 0;
  head_tx = true;
  body_tx = false;
  frames = none;
  heads = [];
}

module _ {C : Type 0} where
  unfoldable pub abandon_body : Responder C → BodyAbandon → Responder C
  abandon_body r oversize = record r { body_abandoned_code = 1 }
  abandon_body r timed_out = record r { body_abandoned_code = 2 }

  unfoldable pub body_abandoned : Responder C → Option BodyAbandon
  body_abandoned r =
      if r.body_abandoned_code == 1
      then some oversize
      else if r.body_abandoned_code == 2
      then some timed_out
      else none

  -- The swap of `responded`, then the take of the sender: true if the caller got it.
  unfoldable pub claim : Responder C → Responder C × Bool
  claim r =
      if r.responded
      then (r, false)
      else (record r { responded = true; head_tx = false }, r.head_tx)

  -- `tx.send(response)` on a claimed sender.
  abbrev send_head : Responder C → HyperResponse → Responder C
  send_head r response = record r { heads = r.heads ++ response ∷ [] }

  pub send_response : Responder C → HyperResponse → Bool → Responder C × Bool
  unfolding claim
  send_response r response listening =
      let (r', claimed) = claim r in
      if claimed then (send_head r' response, listening) else (r', false)

-- `plain_response`: the message's bytes as the body.
unfoldable pub plain_response : ℕ → List ℕ → HyperResponse
plain_response status message = record {
  status = status;
  headers = ("content-type", codes "text/plain") ∷ [];
  body = full_body message;
}

-- What `StatusCode` and `HeaderName` make of a prepared head is http's: a builder carries the head,
-- or the error that `body` reports.
pub record Builder : Type 0 where
  pub head : HyperResponse
  pub valid : Bool

pub data HeadSent : Type 0 where
  started : Bool → HeadSent
  invalid : HeadSent

-- The backstop returns, or it waits in `send` for room in the frame channel.
pub data Backstop (R : Type 0) : Type 0 where
  returned waiting : R → Backstop R

module _ (F : Flume) where
  open F use {Chan, bounded, try_send, drop_sender}

  abbrev pub Shared : Type 0
  Shared = Responder (Chan FrameResult)

  -- The claim is taken before the head is built, so a head that http refuses leaves it taken.
  pub send_stream_head : Shared → Builder → Shared × HeadSent
  unfolding claim
  send_stream_head r builder =
      let (r', claimed) = claim r in
      if claimed
      then (if builder.valid
          then (
            send_head (record r' { body_tx = true; frames = some (bounded stream_buffer) })
                (record builder.head { body = stream_body }),
            started true,
          )
          else (r', invalid))
      else (r', started false)

  drop_body_tx : Shared → Shared
  drop_body_tx r = record r { body_tx = false; frames = Option.map drop_sender r.frames }

  -- The frame channel, while its sender is there for a writer to clone.
  unfoldable pub body_sender : Shared → Option (Chan FrameResult)
  body_sender r = if r.body_tx then r.frames else none

  pub finish_stream : Shared → Shared
  unfolding drop_body_tx
  finish_stream r = if r.body_tx then drop_body_tx r else r

  -- The error frame of an abandoned stream: `send` waits while the channel is full.
  send_abandoned : Shared → Chan FrameResult → Backstop (Shared)
  unfolding drop_body_tx
  send_abandoned r frames = elim (try_send frames abandoned_mid_stream) [
    | sent frames' ↦ returned (drop_body_tx (record r { frames = some frames' }))
    | full ↦ waiting (record r { body_tx = false })
    | TrySend.disconnected ↦ returned (drop_body_tx r)
  ]

  unfoldable pub respond_500_if_unsent : Shared → Backstop Shared
  unfolding claim send_abandoned body_sender
  respond_500_if_unsent r =
      let (r', claimed) = claim r in
      if claimed
      then returned (send_head r' (plain_response 500 (codes "Internal Server Error\n")))
      else elim (body_sender r') [ some frames ↦ send_abandoned r' frames | none ↦ returned r' ]
