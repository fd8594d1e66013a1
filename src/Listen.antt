-- ===== src/Listen.antt =====
-- ext/kino/src/listen.rs: binding a listener.
-- The sockets and files of the operating system are an interface: `State` is what they hold.
pub mod Claimed
mod Tests
use kino.Prelude.{ℕ, Bool, true, false, Option, none, some, List}
use kino.Names.{unix_path}

pub data Connect : Type 0 where
  connected refused not_found failed : Connect

pub data Removed : Type 0 where
  removed absent kept : Removed

pub record Os : Type 1 where
  pub State : Type 0
  pub connect : State → List ℕ → Connect
  pub remove_file : State → List ℕ → State × Removed
  pub bind_socket : State → List ℕ → State × Bool
  pub bind_tcp : State → List ℕ → ℕ → State × Option ℕ

-- `Ok(listener)`, the error "socket is in use", or another error.
pub data Bound : Type 0 where
  bound in_use io_error : Bound

-- A listener of either kind, or an error; a TCP listener is known by its port.
pub data Listener : Type 0 where
  tcp : ℕ → Listener
  unix : List ℕ → Listener
  no_listener : Bound → Listener

module _ (os : Os) where
  open os use {State, connect, remove_file, bind_socket, bind_tcp}

  pub bind_at : State × Bool → State × Bound
  bind_at (s, true) = (s, bound)
  bind_at (s, false) = (s, io_error)

  -- The stale file goes first; one that is gone already is fine.
  pub reclaim : State × Removed → List ℕ → State × Bound
  reclaim (s, removed) path = bind_at (bind_socket s path)
  reclaim (s, absent) path = bind_at (bind_socket s path)
  reclaim (s, kept) path = (s, io_error)

  pub bind_unix : State → List ℕ → State × Bound
  bind_unix s path = elim (connect s path) [
    | connected ↦ (s, in_use)
    | refused ↦ reclaim (remove_file s path) path
    | not_found ↦ bind_at (bind_socket s path)
    | failed ↦ (s, io_error)
  ]

  pub listener_of : List ℕ → State × Bound → State × Listener
  listener_of path (s, bound) = (s, unix path)
  listener_of path (s, in_use) = (s, no_listener in_use)
  listener_of path (s, io_error) = (s, no_listener io_error)

  unfoldable pub bind : State → List ℕ → ℕ → State × Listener
  bind s name port = elim (unix_path name) [
    | some path ↦ listener_of path (bind_unix s path)
    | none ↦
        let (s', got) = bind_tcp s name port in
        elim got [ some p ↦ (s', tcp p) | none ↦ (s', no_listener io_error) ]
  ]

  unfoldable pub cleanup_unix : State → List ℕ → State
  cleanup_unix s path = (remove_file s path).0

-- `Listener::port`: 0 for a socket, which has none.
pub port : Listener → Option ℕ
port (tcp p) = some p
port (unix path) = some 0
port (no_listener e) = none
