-- ===== src/Conn/Drain.antt =====
-- No connection misses the drain signal, and none is shut down without it.
use kino.Prelude.{◌≡◌, sym, Bool, false, List}
use kino.Conn.{
  Watch, Transport, Phase, handshaking, subscribed, waits, graceful, closed, Event, poll_phase, run,
  accepted,
}
use kino.Conn.Told.{Told, IsOpen, is_graceful, has_stop, drain_signal-Told, changed-Told}
use kino.Conn.Kept.{run-IsTold, accepted-IsTold}

module _ (W : Watch) where
  open W use {Sender, value}

  graceful_iff :
      (d : Bool) (s : Sender) (phase : Phase W)
      → value s ≡ d
      → Told W d s phase
      → IsOpen W phase
      → is_graceful W (poll_phase W false s phase).1 ≡ d
  unfolding poll_phase
  graceful_iff d s handshaking same told past_handshake = absurd past_handshake
  graceful_iff d s (subscribed r) same told past_handshake = (drain_signal-Told W d s r same told).2
  graceful_iff d s (waits r) same (known, quiet) past_handshake =
      (changed-Told W d s r known quiet).2
  graceful_iff d s (graceful r) same (known, drains) past_handshake = sym drains
  graceful_iff d s closed same told past_handshake = absurd past_handshake

  -- However a connection comes in, before or after the server's stop, and in whatever order the
  -- stops, the end of the accept loop, the handshake and the polls of its task come: of a connection
  -- whose handshake is over and which is not, the next poll that does not finish it leaves it in a
  -- graceful shutdown exactly if the server was stopped, though a stop that finds no receiver
  -- changes nothing.
  pub run-is_graceful :
      (transport : Transport) (tls draining : Bool) (events : List (Event W))
      → IsOpen W (run W events (accepted W transport tls draining)).phase
      → let c = run W events (accepted W transport tls draining) in
        is_graceful W (poll_phase W false c.shutdown_tx c.phase).1 ≡ has_stop W draining events
  run-is_graceful transport tls draining events past_handshake =
      let c = run W events (accepted W transport tls draining) in
      let ok =
        run-IsTold W events draining (accepted W transport tls draining)
          (accepted-IsTold W transport tls draining) in
      graceful_iff (has_stop W draining events) c.shutdown_tx c.phase ok.same ok.told past_handshake
