-- ===== src/Flume.antt =====
-- What the code uses of flume, its bounded channel crate, as an interface: every definition that
-- sends or receives takes a value of `Flume`. `Chan A` is the state that both halves of a channel
-- share; an operation returns the state after it. The laws state flume's documentation: messages
-- are received in the order sent, a full channel hands the message back, a receiver is told of a
-- disconnection once the channel is empty and every sender is dropped.
-- A capacity of 0 is a rendezvous, about which the laws say nothing.
use kino.Prelude.{ℕ, ◌-◌, ◌≤◌, ◌<◌, ◌≡◌, refl, ◌⊎◌, inl, ltb, ◌==◌, if◌then◌else◌}
use kino.Prelude.{List, [], ◌∷◌, ◌++◌, length, arith}

-- `Result<(), TrySendError>`: both errors hand the message back.
pub data TrySend (C : Type 0) : Type 0 where
  sent : C → TrySend C
  full : TrySend C
  disconnected : TrySend C

-- `Result<T, TryRecvError>`.
pub data TryRecv (A C : Type 0) : Type 0 where
  received : A → C → TryRecv A C
  empty : TryRecv A C
  disconnected : TryRecv A C

pub record Flume : Type 1 where
  pub Chan : Type 0 → Type 0
  pub bounded : {A : Type 0} → ℕ → Chan A
  pub try_send : {A : Type 0} → Chan A → A → TrySend (Chan A)
  pub try_recv : {A : Type 0} → Chan A → TryRecv A (Chan A)
  pub drop_sender : {A : Type 0} → Chan A → Chan A
  pub items : {A : Type 0} → Chan A → List A
  pub capacity : {A : Type 0} → Chan A → ℕ
  pub senders : {A : Type 0} → Chan A → ℕ
  pub receivers : {A : Type 0} → Chan A → ℕ
  pub items-bounded : {A : Type 0} (n : ℕ) → items (bounded {A = A} n) ≡ []
  pub bounded_lem :
      {A : Type 0} (n : ℕ)
      → (capacity (bounded {A = A} n) ≡ n)
        × (senders (bounded {A = A} n) ≡ 1)
        × (receivers (bounded {A = A} n) ≡ 1)
  pub try_send_cases :
      {A : Type 0} (c : Chan A) (a : A)
      → 0 < capacity c
      → ((c' : Chan A) × (try_send c a ≡ sent c')
          × (length (items c) < capacity c)
          × (items c' ≡ items c ++ a ∷ [])
          × (capacity c' ≡ capacity c)
          × (senders c' ≡ senders c)
          × (receivers c' ≡ receivers c))
        ⊎ (try_send c a ≡ full) × (capacity c ≤ length (items c))
        ⊎ (try_send c a ≡ TrySend.disconnected) × (receivers c ≡ 0)
  pub try_recv_cases :
      {A : Type 0} (c : Chan A)
      → ((a : A) × (c' : Chan A) × (try_recv c ≡ received a c')
          × (items c ≡ a ∷ items c')
          × (capacity c' ≡ capacity c)
          × (senders c' ≡ senders c)
          × (receivers c' ≡ receivers c))
        ⊎ (try_recv c ≡ empty) × (items c ≡ []) × (0 < senders c)
        ⊎ (try_recv c ≡ TryRecv.disconnected) × (items c ≡ []) × (senders c ≡ 0)
  pub drop_sender_lem :
      {A : Type 0} (c : Chan A)
      → (items (drop_sender c) ≡ items c)
        × (capacity (drop_sender c) ≡ capacity c)
        × (senders (drop_sender c) ≡ senders c - 1)
        × (receivers (drop_sender c) ≡ receivers c)

-- A channel that meets the laws: a list of the messages, oldest first.
pub record Fifo (A : Type 0) : Type 0 where
  pub items : List A
  pub capacity : ℕ
  pub senders : ℕ
  pub receivers : ℕ

module _ {A : Type 0} where
  abbrev fifo_send : Fifo A → A → TrySend (Fifo A)
  fifo_send c a =
      if c.receivers == 0
      then TrySend.disconnected
      else if ltb (length c.items) c.capacity
      then sent (record c { items = c.items ++ a ∷ [] })
      else full

  abbrev fifo_recv_from : List A → Fifo A → TryRecv A (Fifo A)
  fifo_recv_from [] c = if c.senders == 0 then TryRecv.disconnected else empty
  fifo_recv_from (a ∷ rest) c = received a (record c { items = rest })

  abbrev fifo_recv : Fifo A → TryRecv A (Fifo A)
  fifo_recv c = fifo_recv_from c.items c

  pub fifo_send_cases :
      (c : Fifo A) (a : A)
      → 0 < c.capacity
      → ((c' : Fifo A) × (fifo_send c a ≡ sent c')
          × (length c.items < c.capacity)
          × (c'.items ≡ c.items ++ a ∷ [])
          × (c'.capacity ≡ c.capacity)
          × (c'.senders ≡ c.senders)
          × (c'.receivers ≡ c.receivers))
        ⊎ (fifo_send c a ≡ full) × (c.capacity ≤ length c.items)
        ⊎ (fifo_send c a ≡ TrySend.disconnected) × (c.receivers ≡ 0)
  fifo_send_cases c a h = ground arith

  pub fifo_recv_cases :
      (xs : List A) (c : Fifo A)
      → c.items ≡ xs
      → ((a : A) × (c' : Fifo A) × (fifo_recv_from xs c ≡ received a c')
          × (c.items ≡ a ∷ c'.items)
          × (c'.capacity ≡ c.capacity)
          × (c'.senders ≡ c.senders)
          × (c'.receivers ≡ c.receivers))
        ⊎ (fifo_recv_from xs c ≡ empty) × (c.items ≡ []) × (0 < c.senders)
        ⊎ (fifo_recv_from xs c ≡ TryRecv.disconnected) × (c.items ≡ []) × (c.senders ≡ 0)
  fifo_recv_cases [] c e = ground arith
  fifo_recv_cases (a ∷ rest) c e = inl (a, record c { items = rest }, refl, e, refl, refl, refl)

abbrev pub fifo : Flume
fifo = record {
  Chan = Fifo;
  bounded = λ n. record { items = []; capacity = n; senders = 1; receivers = 1 };
  try_send = fifo_send;
  try_recv = fifo_recv;
  drop_sender = λ c. record c { senders = c.senders - 1 };
  items = λ c. c.items;
  capacity = λ c. c.capacity;
  senders = λ c. c.senders;
  receivers = λ c. c.receivers;
  items-bounded = λ n. refl;
  bounded_lem = λ n. (refl, refl, refl);
  try_send_cases = fifo_send_cases;
  try_recv_cases = λ c. fifo_recv_cases c.items c refl;
  drop_sender_lem = λ c. (refl, refl, refl, refl);
}
