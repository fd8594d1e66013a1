-- ===== src/Conn/Tests.antt =====
-- A connection that subscribes just after the signal, and one that waits for it.
use kino.Prelude.{
  ℕ, zero, suc, ◌<◌, ◌-◌, ◌+◌, ◌≤◌, ◌==◌, not, arith, ◌≡◌, refl, Bool, true, false, List, [], ◌∷◌,
}
use kino.Conn.{
  Watch, tcp, unix, graceful, Event, stop_accepting, accept_loop, handshake, poll, poll_phase, run,
  accepted,
}
use kino.Conn.Told.{IsOpen, is_graceful}
use kino.Conn.Drain.{run-is_graceful}

not_same : (n : ℕ) → not (n == n) ≡ false
not_same n = ground arith

not_newer : (n r : ℕ) → r ≤ n → not ((n + 1) == r) ≡ true
not_newer n r h = ground (arith, h)

-- A sender is its version, its value and the number of its receivers; a receiver is the version that
-- it has seen.
abbrev sent : ℕ × Bool × ℕ → Bool → ℕ × Bool × ℕ
sent (v, b, zero) new = (v, b, zero)
sent (v, b, suc n) new = (v + 1, new, suc n)

sent_refused : (s : ℕ × Bool × ℕ) (b : Bool) → s.2 ≡ 0 → sent s b ≡ s
sent_refused (v, c, zero) b e = refl
sent_refused (v, c, suc n) b e = absurd (omega (arith, e))

sent_lem : (s : ℕ × Bool × ℕ) (b : Bool) → 0 < s.2 → ((sent s b).1 ≡ b) × ((sent s b).2 ≡ s.2)
sent_lem (v, c, zero) b h = absurd (omega (arith, h))
sent_lem (v, c, suc n) b h = (refl, refl)

sent_newer :
    (s : ℕ × Bool × ℕ) (r : ℕ) (b : Bool)
    → 0 < s.2
    → r ≤ s.0
    → (r ≤ (sent s b).0) × (not ((sent s b).0 == r) ≡ true)
sent_newer (v, c, zero) r b h k = absurd (omega (arith, h))
sent_newer (v, c, suc n) r b h k = (omega (arith, k), not_newer v r k)

abbrev versioned : Watch
versioned = record {
  Sender = ℕ × Bool × ℕ;
  Receiver = ℕ;
  channel = ((0, false, 1), 0);
  value = λ s. s.1;
  receivers = λ s. s.2;
  subscribe = λ s. ((s.0, s.1, s.2 + 1), s.0);
  unsubscribe = λ s r. (s.0, s.1, s.2 - 1);
  send = sent;
  borrow_and_update = λ s r. (s.1, s.0);
  has_changed = λ s r. not (s.0 == r);
  Known = λ s r. r ≤ s.0;
  channel_lem = (refl, refl, omega arith, refl);
  subscribe_lem = λ s. (refl, refl, omega arith);
  subscribe-Known = λ s r h. (h, refl);
  unsubscribe_lem = λ s q. (refl, refl);
  unsubscribe-Known = λ s q r h. (h, refl);
  send_refused = sent_refused;
  send_lem = sent_lem;
  send-Known = λ s r b h k. sent_newer s r b h k;
  borrow_lem = λ s r h. (refl, omega arith, not_same s.0);
}

abbrev events : List (Event versioned)
events = poll false ∷ handshake true ∷ poll false ∷ stop_accepting ∷ accept_loop ∷ []

late_subscriber :
    (run versioned (handshake true ∷ poll false ∷ []) (accepted versioned tcp true true)).phase
    ≡ graceful 1
unfolding run accepted
late_subscriber = refl

told_in_wait :
    (run versioned
      (poll false ∷ stop_accepting ∷ poll false ∷ [])
      (accepted versioned unix true false)).phase
    ≡ graceful 0
unfolding run accepted
told_in_wait = refl

past_handshake : IsOpen versioned (run versioned events (accepted versioned tcp true false)).phase
unfolding run accepted
past_handshake = tt

run-is_graceful_example :
    let c = run versioned events (accepted versioned tcp true false) in
    is_graceful versioned (poll_phase versioned false c.shutdown_tx c.phase).1 ≡ true
run-is_graceful_example = run-is_graceful versioned tcp true false events past_handshake
