-- ===== src/Stream/Tests.antt =====
-- A chunk written to a full channel, while the client reads.
use kino.Prelude.{◌<◌, ◌≡◌, subst, refl, false, true, some, [], ◌∷◌, All, eq_of_some, arith}
use kino.Flume.{Fifo, fifo}
use kino.Gvl.{interruptible, state_of}
use kino.Response.{FrameResult, frame, body_sender}
use kino.Stream.{Stream, one, many, head_lines, values_of, write_chunk, write_attempt, after_write}
use kino.Stream.Once.{IsReader, HasRoom, Once, deliver, deliver-IsReader, write_chunk-Once, written}

abbrev frames : Fifo FrameResult
frames = record { items = frame (1 ∷ []) ∷ []; capacity = 1; senders = 1; receivers = 1 }

abbrev open_stream : Stream fifo
open_stream = record {
  responder = record {
    responded = true;
    body_abandoned_code = 0;
    head_tx = false;
    body_tx = true;
    frames = some frames;
    heads = [];
  };
  interrupted = false;
  delivered = [];
  pin_slab = record { slots = []; cursor = 0; shareable_only = false };
}

abbrev still : Stream fifo → Stream fifo
still s = s

-- The second attempt finds room.
waits_for_room :
    written fifo
      (state_of (write_chunk fifo (2 ∷ []) 0 false (still ∷ deliver fifo ∷ []) open_stream))
    ≡ frame (1 ∷ []) ∷ frame (2 ∷ []) ∷ []
unfolding write_chunk write_attempt after_write interruptible body_sender deliver state_of
waits_for_room = refl

repeated_header :
    head_lines (("a", many ((1 ∷ []) ∷ (2 ∷ []) ∷ [])) ∷ ("b", one (3 ∷ [])) ∷ [])
    ≡ ("a", 1 ∷ []) ∷ ("a", 2 ∷ []) ∷ ("b", 3 ∷ []) ∷ []
unfolding head_lines values_of
repeated_header = refl

open_stream-HasRoom : HasRoom fifo open_stream
open_stream-HasRoom other here =
    subst (λ (c : Fifo FrameResult). 0 < c.capacity) (eq_of_some here) (omega arith)

readers : All (IsReader fifo) (still ∷ deliver fifo ∷ [])
readers = (λ s room. (refl, room), (deliver-IsReader fifo, tt))

write_chunk-Once_example :
    Once fifo
      (2 ∷ [])
      open_stream
      (write_chunk fifo (2 ∷ []) 0 false (still ∷ deliver fifo ∷ []) open_stream)
write_chunk-Once_example =
    write_chunk-Once fifo (2 ∷ []) 0 false (still ∷ deliver fifo ∷ []) open_stream readers
      open_stream-HasRoom
