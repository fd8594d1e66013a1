-- ===== src/Registry/Tests.antt =====
-- A table that holds one server.
use kino.Prelude.{ℕ, [], ◌∷◌}
use kino.Flume.{Fifo}
use kino.Sample.{awake, server_with}
use kino.Registry.{Registry, ServerInner}

abbrev one : ServerInner (Fifo ℕ)
one = server_with (awake [] ∷ [])

abbrev table : Registry (Fifo ℕ)
table = record { servers = (1, one) ∷ []; next_id = 2 }
