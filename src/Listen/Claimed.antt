-- ===== src/Listen/Claimed.antt =====
-- A socket on which another process listens is never taken.
use kino.Prelude.{ℕ, ◌≡◌, ◌≢◌, some, List, arith}
use kino.Names.{unix_path}
use kino.Listen.{Os, Connect, connected, in_use, unix, no_listener, bind_unix, bind, listener_of}

module _ (os : Os) where
  open os use {State, connect}

  bind_unix-in_use :
      (s : State) (path : List ℕ) → connect s path ≡ connected → bind_unix os s path ≡ (s, in_use)
  unfolding bind_unix
  bind_unix-in_use s path e = ground (arith, e)

  -- A `unix://` bind of a path at which a connect succeeds is the error that the socket is in use:
  -- nothing is unlinked or bound.
  pub bind-in_use :
      (s : State) (name path : List ℕ) (port : ℕ)
      → unix_path name ≡ some path
      → connect s path ≡ connected
      → bind os s name port ≡ (s, no_listener in_use)
  unfolding bind listener_of
  bind-in_use s name path port e live = ground (arith, e, bind_unix-in_use s path live)

  -- A `unix://` bind gives a listener only at the path named, and only if the connect probe was
  -- refused or found no file.
  pub bind-probed :
      (s s' : State) (name path at : List ℕ) (port : ℕ)
      → unix_path name ≡ some path
      → bind os s name port ≡ (s', unix at)
      → (at ≡ path) × (connect s path ≢ connected) × (connect s path ≢ Connect.failed)
  unfolding bind listener_of bind_unix
  bind-probed s s' name path at port e got = ground (arith, e, got)
