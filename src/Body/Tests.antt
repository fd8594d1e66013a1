-- ===== src/Body/Tests.antt =====
-- A body of two chunks, read five bytes at a time.
use kino.Prelude.{ℕ, ◌≡◌, refl, false, true, none, some, List, [], ◌∷◌}
use kino.Flume.{Fifo, fifo}
use kino.Gvl.{finished, interruptible}
use kino.Response.{Responder, timed_out, abandon_body}
use kino.Body.{
  Ctx, chunk, body_timeout, body_attempt, keep_rest, piece, drain, waiting_chunks, assemble,
  received_read, after_recv, read_body,
}
use kino.Body.Drain.{unread}
use kino.Body.Read.{Gave, read_body-Gave, read_body-ended}

abbrev rx : Fifo (List ℕ)
rx = record {
  items = (1 ∷ 2 ∷ 3 ∷ []) ∷ (4 ∷ 5 ∷ 6 ∷ []) ∷ [];
  capacity = 8;
  senders = 1;
  receivers = 1;
}

abbrev fresh : Ctx fifo
fresh = record { leftover = none; body_rx = some rx; interrupted = false; abandoned_code = 0 }

abbrev cut : Ctx fifo
cut = record fresh { leftover = some (6 ∷ []); body_rx = some (record rx { items = [] }) }

reads_five : read_body fifo 5 ((λ c. c) ∷ []) fresh ≡ finished (chunk (1 ∷ 2 ∷ 3 ∷ 4 ∷ 5 ∷ [])) cut
unfolding read_body interruptible body_attempt after_recv received_read assemble drain
    waiting_chunks keep_rest piece
reads_five = refl

read_body-Gave_example : Gave fifo 5 (unread fifo fresh) (read_body fifo 5 ((λ c. c) ∷ []) fresh)
read_body-Gave_example =
    read_body-Gave fifo 5 (λ c. c) [] fresh rx rx (1 ∷ 2 ∷ 3 ∷ []) ((4 ∷ 5 ∷ 6 ∷ []) ∷ []) refl refl
      refl refl refl refl

-- The client stalled, and the forwarder hangs up.
abbrev hang_up : Ctx fifo → Ctx fifo
hang_up ctx = record ctx {
  body_rx = some (record rx { items = []; senders = 0 });
  abandoned_code = 2;
}

abbrev intact : Responder (Fifo ℕ)
intact = record {
  responded = false;
  body_abandoned_code = 0;
  head_tx = true;
  body_tx = false;
  frames = none;
  heads = [];
}

read_body-ended_example :
    read_body fifo 5 (hang_up ∷ []) fresh ≡ finished body_timeout (hang_up fresh)
unfolding abandon_body
read_body-ended_example =
    read_body-ended fifo intact (some timed_out) 5 hang_up [] fresh rx
      (record rx { items = []; senders = 0 }) refl refl refl refl refl refl refl refl
