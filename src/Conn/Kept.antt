-- ===== src/Conn/Kept.antt =====
-- Every event keeps what the receivers know of the server's stop.
use kino.Prelude.{
  ℕ, zero, suc, ◌<◌, ◌≡◌, refl, sym, ◌∙◌, subst, ◌⊎◌, inl, inr, Bool, true, false, Bool-cases, ◌||◌,
  if◌then◌else◌, Option, none, some, List, [], ◌∷◌, arith,
}
use kino.Conn.{
  Watch, Transport, tcp, unix, Phase, handshaking, subscribed, waits, graceful, closed, Served,
  Event, stop_accepting, accept_loop, handshake, poll, serve_conn, serve_connection, changed,
  drain_signal, unless, poll_phase, after_handshake, poll_accept_loop, step, run, accepted,
}
use kino.Conn.Told.{
  of_loop, of_phase, LoopTold, Told, IsTold, LoopTold-Keeps, Told-Keeps, drain_signal-Told,
  changed-Told, is_stop, has_stop,
}

module _ (W : Watch) where
  open W use {
    Sender, Receiver, channel, value, receivers, subscribe, unsubscribe, send, borrow_and_update,
    has_changed, Known,
  }

  abbrev with : Served W → Sender × Phase W → Served W
  with c (s, phase) = record c { shutdown_tx = s; phase = phase }

  unless-IsTold :
      (finished d : Bool) (c : Served W) (r : Receiver) (phase : Phase W)
      → IsTold W d c
      → of_phase W c.phase ≡ 1
      → Told W d c.shutdown_tx phase
      → of_phase W phase ≡ 1
      → IsTold W d (with c (unless W finished c.shutdown_tx r phase))
  unless-IsTold false d c r phase ok held told one = record {
    same = ok.same;
    counted = omega (arith, ok.counted, held, one);
    loop = ok.loop;
    told = told;
  }
  unless-IsTold true d c r phase ok held told one =
      let (same, fewer) = W.unsubscribe_lem c.shutdown_tx r in
      record {
        same = same ∙ ok.same;
        counted = omega (arith, ok.counted, held, fewer);
        loop =
            LoopTold-Keeps W d c.shutdown_tx (unsubscribe c.shutdown_tx r) c.shutdown_rx
              (λ q known. W.unsubscribe-Known c.shutdown_tx r q known) ok.loop;
        told = tt;
      }

  subscribed-IsTold :
      (d : Bool) (c : Served W)
      → IsTold W d c
      → of_phase W c.phase ≡ 0
      → IsTold W d (with c (serve_connection W c.shutdown_tx))
  unfolding serve_connection
  subscribed-IsTold d c ok none_held =
      let (same, more, known) = W.subscribe_lem c.shutdown_tx in
      record {
        same = same ∙ ok.same;
        counted = omega (arith, ok.counted, none_held, more);
        loop =
            LoopTold-Keeps W d c.shutdown_tx (subscribe c.shutdown_tx).0 c.shutdown_rx
              (λ q old. W.subscribe-Known c.shutdown_tx q old) ok.loop;
        told = known;
      }

  poll_phase-IsTold :
      (finished d : Bool) (s : Sender) (rx : Option Receiver) (phase : Phase W)
      → let c : Served W = record { shutdown_tx = s; shutdown_rx = rx; phase = phase } in
        IsTold W d c → IsTold W d (with c (poll_phase W finished s phase))
  unfolding poll_phase
  poll_phase-IsTold finished d s rx handshaking ok = ok
  poll_phase-IsTold finished d s rx (subscribed r) ok =
      let (told, one, _) = drain_signal-Told W d s r ok.same ok.told in
      unless-IsTold finished d _ r (drain_signal W s r) ok refl told one
  poll_phase-IsTold finished d s rx (waits r) ok =
      let (told, one, _) = changed-Told W d s r ok.told.0 ok.told.1 in
      unless-IsTold finished d _ r (changed W s r) ok refl told one
  poll_phase-IsTold finished d s rx (graceful r) ok =
      unless-IsTold finished d _ r (graceful r) ok refl ok.told refl
  poll_phase-IsTold finished d s rx closed ok = ok

  after_handshake-IsTold :
      (done d : Bool) (s : Sender) (rx : Option Receiver) (phase : Phase W)
      → let c : Served W = record { shutdown_tx = s; shutdown_rx = rx; phase = phase } in
        IsTold W d c → IsTold W d (with c (after_handshake W done s phase))
  unfolding after_handshake
  after_handshake-IsTold true d s rx handshaking ok = subscribed-IsTold d _ ok refl
  after_handshake-IsTold true d s rx (subscribed r) ok = ok
  after_handshake-IsTold true d s rx (waits r) ok = ok
  after_handshake-IsTold true d s rx (graceful r) ok = ok
  after_handshake-IsTold true d s rx closed ok = ok
  after_handshake-IsTold false d s rx handshaking ok = record {
    same = ok.same;
    counted = ok.counted;
    loop = ok.loop;
    told = tt;
  }
  after_handshake-IsTold false d s rx (subscribed r) ok = ok
  after_handshake-IsTold false d s rx (waits r) ok = ok
  after_handshake-IsTold false d s rx (graceful r) ok = ok
  after_handshake-IsTold false d s rx closed ok = ok

  accept_loop-IsTold :
      (d : Bool) (s : Sender) (rx : Option Receiver) (phase : Phase W)
      → IsTold W d (record { shutdown_tx = s; shutdown_rx = rx; phase = phase })
      → IsTold W d (record {
        shutdown_tx = (poll_accept_loop W s rx).0;
        shutdown_rx = (poll_accept_loop W s rx).1;
        phase = phase;
      })
  unfolding poll_accept_loop
  accept_loop-IsTold d s none phase ok = ok
  accept_loop-IsTold d s (some r) phase ok = elim (Bool-cases (has_changed s r)) [
    | inr calm ↦ rw calm ok
    | inl told ↦
        let (same, fewer) = W.unsubscribe_lem s r in
        rw told (record {
          same = same ∙ ok.same;
          counted = omega (arith, ok.counted, fewer);
          loop = sym ok.loop.1 ∙ told;
          told =
              Told-Keeps W d s (unsubscribe s r) phase (λ q known. W.unsubscribe-Known s r q known)
                ok.told;
        })
  ]

  send-LoopTold :
      (d : Bool) (s : Sender) (rx : Option Receiver)
      → 0 < receivers s
      → LoopTold W d s rx
      → LoopTold W true (send s true) rx
  send-LoopTold d s none some_rx told = refl
  send-LoopTold d s (some r) some_rx (known, same) = W.send-Known s r true some_rx known

  send-Told :
      (d : Bool) (s : Sender) (phase : Phase W)
      → 0 < receivers s
      → Told W d s phase
      → Told W true (send s true) phase
  send-Told d s handshaking some_rx told = tt
  send-Told d s (subscribed r) some_rx told = (W.send-Known s r true some_rx told).0
  send-Told d s (waits r) some_rx (known, same) = W.send-Known s r true some_rx known
  send-Told d s (graceful r) some_rx (known, drains) =
      ((W.send-Known s r true some_rx known).0, refl)
  send-Told d s closed some_rx told = tt

  -- A stop that finds a receiver is told to all; one that finds none is not the first.
  stop-IsTold :
      (d : Bool) (s : Sender) (rx : Option Receiver) (phase : Phase W)
      → IsTold W d (record { shutdown_tx = s; shutdown_rx = rx; phase = phase })
      → IsTold W true (record { shutdown_tx = send s true; shutdown_rx = rx; phase = phase })
  stop-IsTold d s rx phase ok = elim (zero_or_more (receivers s)) [
    | inr some_rx ↦
        let (same, count) = W.send_lem s true some_rx in
        record {
          same = same;
          counted = omega (arith, count, ok.counted);
          loop = send-LoopTold d s rx some_rx ok.loop;
          told = send-Told d s phase some_rx ok.told;
        }
    | inl none_left ↦
        subst (λ t. IsTold W true (record { shutdown_tx = t; shutdown_rx = rx; phase = phase }))
          (sym (W.send_refused s true none_left))
          (subst (λ b. IsTold W b (record { shutdown_tx = s; shutdown_rx = rx; phase = phase }))
            (ended rx ok.loop (omega (arith, none_left, ok.counted))) ok)
  ]
    where
      zero_or_more : (n : ℕ) → (n ≡ 0) ⊎ (0 < n)
      zero_or_more zero = inl refl
      zero_or_more (suc n) = inr (omega arith)

      ended : (o : Option Receiver) → LoopTold W d s o → of_loop W o ≡ 0 → d ≡ true
      ended none told gone = told
      ended (some r) told gone = absurd (omega (arith, gone))

  step-IsTold :
      (e : Event W) (d : Bool) (c : Served W)
      → IsTold W d c
      → IsTold W (d || is_stop W e) (step W e c)
  unfolding step
  step-IsTold stop_accepting true c ok = stop-IsTold true c.shutdown_tx c.shutdown_rx c.phase ok
  step-IsTold stop_accepting false c ok = stop-IsTold false c.shutdown_tx c.shutdown_rx c.phase ok
  step-IsTold accept_loop true c ok = accept_loop-IsTold true c.shutdown_tx c.shutdown_rx c.phase ok
  step-IsTold accept_loop false c ok =
      accept_loop-IsTold false c.shutdown_tx c.shutdown_rx c.phase ok
  step-IsTold (handshake done) true c ok =
      after_handshake-IsTold done true c.shutdown_tx c.shutdown_rx c.phase ok
  step-IsTold (handshake done) false c ok =
      after_handshake-IsTold done false c.shutdown_tx c.shutdown_rx c.phase ok
  step-IsTold (poll finished) true c ok =
      poll_phase-IsTold finished true c.shutdown_tx c.shutdown_rx c.phase ok
  step-IsTold (poll finished) false c ok =
      poll_phase-IsTold finished false c.shutdown_tx c.shutdown_rx c.phase ok

  pub run-IsTold :
      (events : List (Event W)) (d : Bool) (c : Served W)
      → IsTold W d c
      → IsTold W (has_stop W d events) (run W events c)
  unfolding run
  run-IsTold [] d c ok = ok
  run-IsTold (e ∷ events) d c ok =
      run-IsTold events (d || is_stop W e) (step W e c) (step-IsTold e d c ok)

  unserved : Sender → Served W
  unserved s = record { shutdown_tx = s; shutdown_rx = some channel.1; phase = handshaking }

  unserved-IsTold :
      (draining : Bool)
      → IsTold W draining (unserved (if draining then send channel.0 true else channel.0))
  unfolding unserved
  unserved-IsTold false =
      let (off, one, known, calm) = W.channel_lem in
      record { same = off; counted = omega (arith, one); loop = (known, calm); told = tt }
  unserved-IsTold true =
      let (off, one, known, calm) = W.channel_lem in
      stop-IsTold false channel.0 (some channel.1) handshaking
        (record { same = off; counted = omega (arith, one); loop = (known, calm); told = tt })

  pub accepted-IsTold :
      (transport : Transport) (tls draining : Bool)
      → IsTold W draining (accepted W transport tls draining)
  unfolding accepted serve_conn unserved
  accepted-IsTold tcp true draining = unserved-IsTold draining
  accepted-IsTold tcp false draining = subscribed-IsTold draining _ (unserved-IsTold draining) refl
  accepted-IsTold unix tls draining = subscribed-IsTold draining _ (unserved-IsTold draining) refl
