-- ===== src/Response/Tests.antt =====
-- A request that the app, the supervisor and the backstop all answer.
use kino.Prelude.{◌<◌, subst, eq_of_some, some, arith, ◌≤◌, ◌≡◌, true, List, [], ◌∷◌, length, codes}
use kino.Flume.{fifo, Fifo}
use kino.Response.{
  Shared, FrameResult, claim, send_stream_head, HyperResponse, new, plain_response,
  respond_500_if_unsent, timed_out,
}
use kino.Response.Abandoned.{Ends, backstop_answers}
use kino.Response.Claim.{
  Call, respond, start, abandon, backstop, call, calls, calls-IsOnce, new-IsOnce, heads-calls-new,
}

abbrev ok : HyperResponse
ok = plain_response 200 (codes "ok\n")

abbrev race : List Call
race =
    start (record { head = ok; valid = true }) ∷ respond ok true ∷ abandon timed_out ∷ backstop ∷ []

heads-calls-new_example : length (calls fifo new race).heads ≤ 1
heads-calls-new_example = heads-calls-new fifo race

-- A stream that the app leaves in the middle.
abbrev open_stream : Shared fifo
open_stream = calls fifo new (start (record { head = ok; valid = true }) ∷ [])

has_room : (c : Fifo FrameResult) → open_stream.frames ≡ some c → 0 < c.capacity
unfolding calls call send_stream_head claim new
has_room c e = subst (λ (b : Fifo FrameResult). 0 < b.capacity) (eq_of_some e) (omega arith)

backstop_answers_example : Ends fifo open_stream (respond_500_if_unsent fifo open_stream)
backstop_answers_example =
    backstop_answers fifo open_stream
      (calls-IsOnce fifo new (start (record { head = ok; valid = true }) ∷ []) (new-IsOnce fifo))
      has_room
