-- ===== src/Intake/Tests.antt =====
-- Uploads under a cap, and a request that is answered.
use kino.Prelude.{ℕ, ◌≡◌, refl, inr, true, none, some, List, [], ◌∷◌, arith}
use kino.Flume.{Fifo, fifo}
use kino.Sample.{awake, server_with}
use kino.Registry.{ServerInner}
use kino.Response.{oversize}
use kino.Intake.{Frame, data_frame, other_frame, ended, forward, handle_request, timeout, aborted}
use kino.Intake.Forward.{Handed, data_of, bytes_in, forward-data_of}
use kino.Intake.Enqueue.{Ended, handle_request-in_flight}

abbrev upload : List Frame
upload =
    data_frame (1 ∷ 2 ∷ []) true
    ∷ other_frame
    ∷ data_frame (3 ∷ []) true
    ∷ data_frame (4 ∷ 5 ∷ []) true
    ∷ ended
    ∷ []

stops_at_cap :
    forward 4 0 upload ≡ record { chunks = (1 ∷ 2 ∷ []) ∷ (3 ∷ []) ∷ []; abandoned = some oversize }
unfolding forward
stops_at_cap = refl

forward-data_of_example : Handed 4 0 upload (forward 4 0 upload)
unfolding data_of bytes_in
forward-data_of_example = forward-data_of 4 0 upload (omega arith) (inr (omega arith))

abbrev one : ServerInner (Fifo ℕ)
one = server_with (awake [] ∷ [])

-- The client aborts in the wait for the head.
handle_request-in_flight_example :
    let (server', response) = handle_request fifo none timeout ((λ u. u) ∷ []) one 9 aborted in
    (server'.in_flight ≡ one.in_flight) × Ended timeout aborted response
handle_request-in_flight_example =
    handle_request-in_flight fifo none timeout ((λ u. u) ∷ []) one 9 aborted (omega arith)
      ((λ u. refl), _)
