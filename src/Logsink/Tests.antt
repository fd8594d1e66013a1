-- ===== src/Logsink/Tests.antt =====
-- A sink with room for two lines.
use kino.Prelude.{◌≡◌, refl, false, List, [], ◌∷◌, arith}
use kino.Flume.{fifo}
use kino.Logsink.{dropped_sink, LineSink, trim_end, write_line, drain_lines, flusher_round}
use kino.Logsink.Order.{Event, writes, flushes, run, all_lines, run-all_lines}
use kino.Logsink.Closed.{Finished, dropped_sink-Finished}

abbrev small : LineSink fifo
small = record {
  rx = record { items = []; capacity = 2; senders = 1; receivers = 1 };
  out = [];
  flushed = [];
  exited = false;
}

abbrev events : List Event
events = writes (1 ∷ []) ∷ writes (2 ∷ []) ∷ writes (3 ∷ []) ∷ flushes ∷ writes (4 ∷ []) ∷ []

trims : trim_end (65 ∷ 10 ∷ 66 ∷ 10 ∷ 10 ∷ []) ≡ 65 ∷ 10 ∷ 66 ∷ []
unfolding trim_end
trims = refl

third_is_dropped : (run fifo events (small, [])).1 ≡ (1 ∷ []) ∷ (2 ∷ []) ∷ (4 ∷ []) ∷ []
unfolding run write_line flusher_round drain_lines
third_is_dropped = refl

run-all_lines_example :
    let (s', queued') = run fifo events (small, []) in all_lines fifo s' ≡ queued'
run-all_lines_example = run-all_lines fifo events small [] (omega arith) refl

abbrev closing : LineSink fifo
closing = record small {
  rx = record { items = (5 ∷ []) ∷ (6 ∷ []) ∷ []; capacity = 2; senders = 1; receivers = 1 };
  out = (4 ∷ []) ∷ [];
}

dropped_sink-Finished_example :
    Finished fifo closing (flusher_round fifo (flusher_round fifo (dropped_sink fifo closing)))
dropped_sink-Finished_example = dropped_sink-Finished fifo closing refl
