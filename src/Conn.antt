-- ===== src/Conn.antt =====
-- ext/kino/src/server.rs: one connection, from `serve_conn` to its end, and the drain signal.
-- tokio's watch channel is an interface, with what its documentation says. hyper's part is a
-- `finished` for each poll of the task: whether the connection is done by then. Where it is done and
-- the signal is there, the graceful shutdown is of a connection that is done, so the order in which
-- `select!` looks at its branches does not matter.
pub mod Told
pub mod Kept
pub mod Drain
mod Tests
use kino.Prelude.{
  ℕ, ◌+◌, ◌-◌, ◌<◌, ◌≡◌, if◌then◌else◌, Bool, true, false, Option, none, some, List, [], ◌∷◌,
}

-- `receivers` counts the receivers that are not dropped; `Known s r`: the receiver comes from this
-- sender, and from no later state of it. A send that finds no receiver fails and changes nothing.
pub record Watch : Type 1 where
  pub Sender : Type 0
  pub Receiver : Type 0
  pub channel : Sender × Receiver
  pub value : Sender → Bool
  pub receivers : Sender → ℕ
  pub subscribe : Sender → Sender × Receiver
  pub unsubscribe : Sender → Receiver → Sender
  pub send : Sender → Bool → Sender
  pub borrow_and_update : Sender → Receiver → Bool × Receiver
  pub has_changed : Sender → Receiver → Bool
  pub Known : Sender → Receiver → Type 0
  pub channel_lem :
      (value channel.0 ≡ false)
      × (receivers channel.0 ≡ 1)
      × Known channel.0 channel.1
      × (has_changed channel.0 channel.1 ≡ false)
  pub subscribe_lem :
      (s : Sender)
      → (value (subscribe s).0 ≡ value s)
        × (receivers (subscribe s).0 ≡ receivers s + 1)
        × Known (subscribe s).0 (subscribe s).1
  pub subscribe-Known :
      (s : Sender) (r : Receiver)
      → Known s r
      → Known (subscribe s).0 r × (has_changed (subscribe s).0 r ≡ has_changed s r)
  pub unsubscribe_lem :
      (s : Sender) (q : Receiver)
      → (value (unsubscribe s q) ≡ value s) × (receivers (unsubscribe s q) ≡ receivers s - 1)
  pub unsubscribe-Known :
      (s : Sender) (q r : Receiver)
      → Known s r
      → Known (unsubscribe s q) r × (has_changed (unsubscribe s q) r ≡ has_changed s r)
  pub send_refused : (s : Sender) (b : Bool) → receivers s ≡ 0 → send s b ≡ s
  pub send_lem :
      (s : Sender) (b : Bool)
      → 0 < receivers s
      → (value (send s b) ≡ b) × (receivers (send s b) ≡ receivers s)
  pub send-Known :
      (s : Sender) (r : Receiver) (b : Bool)
      → 0 < receivers s
      → Known s r
      → Known (send s b) r × (has_changed (send s b) r ≡ true)
  pub borrow_lem :
      (s : Sender) (r : Receiver)
      → Known s r
      → ((borrow_and_update s r).0 ≡ value s)
        × Known s (borrow_and_update s r).1
        × (has_changed s (borrow_and_update s r).1 ≡ false)

pub data Transport : Type 0 where
  tcp unix : Transport

module _ (W : Watch) where
  open W use {
    Sender, Receiver, channel, subscribe, unsubscribe, send, borrow_and_update, has_changed,
  }

  -- In the TLS handshake; subscribed, with the drain signal not polled yet or waited for; in a
  -- graceful shutdown; closed. The receiver lives as long as the connection.
  pub data Phase : Type 0 where
    handshaking closed : Phase
    subscribed waits graceful : Receiver → Phase

  -- `shutdown_rx` is the accept loop's receiver, until the loop ends.
  pub record Served : Type 0 where
    pub shutdown_tx : Sender
    pub shutdown_rx : Option Receiver
    pub phase : Phase

  -- The server drains; the accept loop is polled; a handshake ends, well or not in time; the task of
  -- the connection is polled.
  pub data Event : Type 0 where
    stop_accepting accept_loop : Event
    handshake poll : Bool → Event

  pub serve_connection : Sender → Sender × Phase
  serve_connection s = let (s', r) = subscribe s in (s', subscribed r)

  -- `tls` is whether there is an acceptor, which a unix socket does not use.
  pub serve_conn : Transport → Bool → Sender → Sender × Phase
  unfolding serve_connection
  serve_conn tcp true s = (s, handshaking)
  serve_conn tcp false s = serve_connection s
  serve_conn unix tls s = serve_connection s

  -- `rx.changed()`.
  abbrev pub changed : Sender → Receiver → Phase
  changed s r = if has_changed s r then graceful r else waits r

  -- The first poll looks at the value before it waits for a change.
  pub drain_signal : Sender → Receiver → Phase
  drain_signal s r =
      let (draining, r') = borrow_and_update s r in if draining then graceful r' else changed s r'

  -- A connection that is done drops its receiver.
  abbrev pub unless : Bool → Sender → Receiver → Phase → Sender × Phase
  unless finished s r phase = if finished then (unsubscribe s r, closed) else (s, phase)

  pub poll_phase : Bool → Sender → Phase → Sender × Phase
  unfolding drain_signal
  poll_phase finished s handshaking = (s, handshaking)
  poll_phase finished s (subscribed r) = unless finished s r (drain_signal s r)
  poll_phase finished s (waits r) = unless finished s r (changed s r)
  poll_phase finished s (graceful r) = unless finished s r (graceful r)
  poll_phase finished s closed = (s, closed)

  pub after_handshake : Bool → Sender → Phase → Sender × Phase
  unfolding serve_connection
  after_handshake true s handshaking = serve_connection s
  after_handshake false s handshaking = (s, closed)
  after_handshake ok s phase = (s, phase)

  -- The accept loop ends at a change, and drops its receiver.
  pub poll_accept_loop : Sender → Option Receiver → Sender × Option Receiver
  poll_accept_loop s none = (s, none)
  poll_accept_loop s (some r) = if has_changed s r then (unsubscribe s r, none) else (s, some r)

  unfoldable pub step : Event → Served → Served
  unfolding poll_phase after_handshake poll_accept_loop
  step stop_accepting c = record c { shutdown_tx = send c.shutdown_tx true }
  step accept_loop c =
      let (s, rx) = poll_accept_loop c.shutdown_tx c.shutdown_rx in
      record c { shutdown_tx = s; shutdown_rx = rx }
  step (handshake ok) c =
      let (s, phase) = after_handshake ok c.shutdown_tx c.phase in
      record c { shutdown_tx = s; phase = phase }
  step (poll finished) c =
      let (s, phase) = poll_phase finished c.shutdown_tx c.phase in
      record c { shutdown_tx = s; phase = phase }

  unfoldable pub run : List Event → Served → Served
  unfolding step
  run [] c = c
  run (e ∷ events) c = run events (step e c)

  -- A connection that the accept loop takes before or after the server drains.
  pub accepted : Transport → Bool → Bool → Served
  unfolding serve_conn
  accepted transport tls draining =
      let s = if draining then send channel.0 true else channel.0 in
      let (s', phase) = serve_conn transport tls s in
      record { shutdown_tx = s'; shutdown_rx = some channel.1; phase = phase }
