-- ===== src/Conn/Told.antt =====
-- What the receivers of the accept loop and of a connection know of the server's stop.
use kino.Prelude.{
  ℕ, ◌+◌, ◌≡◌, refl, sym, ◌∙◌, inl, inr, Bool, true, false, Bool-cases, ◌||◌, Option, none, some,
  List, [], ◌∷◌,
}
use kino.Conn.{
  Watch, Phase, handshaking, subscribed, waits, graceful, closed, Served, Event, stop_accepting,
  changed, drain_signal,
}

module _ (W : Watch) where
  open W use {
    Sender, Receiver, channel, value, receivers, subscribe, unsubscribe, send, borrow_and_update,
    has_changed, Known,
  }

  -- The receivers that the accept loop and the connection hold.
  abbrev pub of_loop : Option Receiver → ℕ
  of_loop none = 0
  of_loop (some r) = 1

  abbrev pub of_phase : Phase W → ℕ
  of_phase handshaking = 0
  of_phase (subscribed r) = 1
  of_phase (waits r) = 1
  of_phase (graceful r) = 1
  of_phase closed = 0

  -- A receiver that waits is told of a drain, and what has ended or is ending has one.
  abbrev pub LoopTold : Bool → Sender → Option Receiver → Type 0
  LoopTold d s none = d ≡ true
  LoopTold d s (some r) = Known s r × (has_changed s r ≡ d)

  abbrev pub Told : Bool → Sender → Phase W → Type 0
  Told d s handshaking = Unit
  Told d s (subscribed r) = Known s r
  Told d s (waits r) = Known s r × (has_changed s r ≡ d)
  Told d s (graceful r) = Known s r × (d ≡ true)
  Told d s closed = Unit

  -- The handshake is over and the connection is not.
  abbrev pub IsOpen : Phase W → Type 0
  IsOpen handshaking = ⊥
  IsOpen (subscribed r) = Unit
  IsOpen (waits r) = Unit
  IsOpen (graceful r) = Unit
  IsOpen closed = ⊥

  abbrev pub is_graceful : Phase W → Bool
  is_graceful (graceful r) = true
  is_graceful _ = false

  abbrev pub is_stop : Event W → Bool
  is_stop stop_accepting = true
  is_stop _ = false

  -- Whether one of the events is the server's stop.
  abbrev pub has_stop : Bool → List (Event W) → Bool
  has_stop before [] = before
  has_stop before (e ∷ events) = has_stop (before || is_stop e) events

  pub record IsTold (d : Bool) (c : Served W) : Type 0 where
    pub same : value c.shutdown_tx ≡ d
    pub counted : receivers c.shutdown_tx ≡ of_loop c.shutdown_rx + of_phase c.phase
    pub loop : LoopTold d c.shutdown_tx c.shutdown_rx
    pub told : Told d c.shutdown_tx c.phase

  abbrev pub Keeps : Sender → Sender → Type 0
  Keeps s s' = (r : Receiver) → Known s r → Known s' r × (has_changed s' r ≡ has_changed s r)

  pub LoopTold-Keeps :
      (d : Bool) (s s' : Sender) (rx : Option Receiver)
      → Keeps s s'
      → LoopTold d s rx
      → LoopTold d s' rx
  LoopTold-Keeps d s s' none keeps told = told
  LoopTold-Keeps d s s' (some r) keeps (known, same) = ((keeps r known).0, (keeps r known).1 ∙ same)

  pub Told-Keeps :
      (d : Bool) (s s' : Sender) (phase : Phase W) → Keeps s s' → Told d s phase → Told d s' phase
  Told-Keeps d s s' handshaking keeps told = tt
  Told-Keeps d s s' (subscribed r) keeps told = (keeps r told).0
  Told-Keeps d s s' (waits r) keeps (known, same) = ((keeps r known).0, (keeps r known).1 ∙ same)
  Told-Keeps d s s' (graceful r) keeps (known, drains) = ((keeps r known).0, drains)
  Told-Keeps d s s' closed keeps told = tt

  -- What the first poll of the drain signal leaves.
  pub drain_signal-Told :
      (d : Bool) (s : Sender) (r : Receiver)
      → value s ≡ d
      → Known s r
      → Told d s (drain_signal W s r)
        × (of_phase (drain_signal W s r) ≡ 1)
        × (is_graceful (drain_signal W s r) ≡ d)
  unfolding drain_signal
  drain_signal-Told d s r same known =
      let (now, known', quiet) = W.borrow_lem s r known in
      elim (Bool-cases (borrow_and_update s r).0) [
        | inl yes_now ↦
            let drains : d ≡ true = sym same ∙ sym now ∙ yes_now in
            rw yes_now ((known', drains), refl, sym drains)
        | inr later ↦
            let calm : false ≡ d = sym later ∙ now ∙ same in
            rw (later, quiet) ((known', quiet ∙ calm), refl, calm)
      ]

  pub changed-Told :
      (d : Bool) (s : Sender) (r : Receiver)
      → Known s r
      → has_changed s r ≡ d
      → Told d s (changed W s r)
        × (of_phase (changed W s r) ≡ 1)
        × (is_graceful (changed W s r) ≡ d)
  changed-Told d s r known same = elim (Bool-cases (has_changed s r)) [
    | inl now ↦ rw now ((known, sym same ∙ now), refl, sym now ∙ same)
    | inr later ↦ rw later ((known, same), refl, sym later ∙ same)
  ]
