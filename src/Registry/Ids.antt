-- ===== src/Registry/Ids.antt =====
-- The life cycle of a server in the table, and the ids of its workers.
use kino.Prelude.{
  ℕ, ◌+◌, ◌^◌, ◌<◌, ◌≡◌, ◌==◌, if◌then◌else◌, refl, none, some, List, [], ◌∷◌, ◌++◌, length,
  length-snoc, get_elem?-snoc, arith, All,
}
use kino.Flume.{Flume}
use kino.Slot
use kino.Registry.{
  Registry, ServerInner, next_server_id, try_get, insert, remove, lookup, remove_key,
  register_worker, slot,
}

module _ {C : Type 0} where
  lookup-remove_key :
      (id key : ℕ) (servers : List (ℕ × ServerInner C))
      → lookup id (remove_key key servers) ≡ (if key == id then none else lookup id servers)
  unfolding lookup remove_key
  lookup-remove_key id key [] = ground arith
  lookup-remove_key id key ((k, server) ∷ servers) =
      ground (arith, lookup-remove_key id key servers)

  pub try_get-remove : (r : Registry C) (id : ℕ) → try_get (remove r id).0 id ≡ none
  unfolding try_get remove
  try_get-remove r id = ground (arith, lookup-remove_key id id r.servers)

  pub remove-missing : (r : Registry C) (id : ℕ) → try_get r id ≡ none → (remove r id).1 ≡ none
  unfolding try_get remove
  remove-missing r id e = e

  -- A server is found under its id once inserted, is gone once removed, and neither call touches
  -- the lookup of any other id.
  pub try_get-insert :
      (r : Registry C) (server : ServerInner C) (id : ℕ)
      → (try_get (insert r server) id ≡ (if server.id == id then some server else try_get r id))
        × (try_get (remove r server.id).0 id ≡ (if server.id == id then none else try_get r id))
        × ((remove (insert r server) server.id).1 ≡ some server)
        × ((remove (remove r server.id).0 server.id).1 ≡ none)
  unfolding try_get insert remove lookup
  try_get-insert r server id = ground (
    arith,
    lookup-remove_key id server.id r.servers,
    lookup-remove_key server.id server.id r.servers,
  )

  -- Every id in the table is below the counter.
  abbrev pub IsNumbered : Registry C → Type 0
  IsNumbered r = All (λ (entry : ℕ × ServerInner C). entry.0 < r.next_id) r.servers

  All-lookup :
      (n : ℕ) (servers : List (ℕ × ServerInner C))
      → All (λ (entry : ℕ × ServerInner C). entry.0 < n) servers
      → lookup n servers ≡ none
  unfolding lookup
  All-lookup n [] h = refl
  All-lookup n ((k, server) ∷ servers) h = ground (arith, All-lookup n servers h.1)

  -- An id that is handed out names no server of the table, until the counter wraps.
  pub next_server_id-fresh :
      (r : Registry C)
      → IsNumbered r
      → r.next_id + 1 < 2 ^ 64
      → let (r', id) = next_server_id r in (try_get r' id ≡ none) × (id < r'.next_id)
  unfolding next_server_id try_get
  next_server_id-fresh r v room = (All-lookup r.next_id r.servers v, omega arith)

module _ (F : Flume) {A : Type 0} where
  -- Workers are numbered in sequence: the new id is the old slot count, it names a fresh slot, and
  -- the earlier ids name what they did.
  pub register_worker-slot :
      (server : ServerInner (F.Chan A)) (i : ℕ)
      → let (server', id) = register_worker F server in
        (id ≡ length server.slots)
        × (length server'.slots ≡ id + 1)
        × (slot server' i ≡ (if i == id then some (Slot.new F server.lanes) else slot server i))
  unfolding register_worker slot
  register_worker-slot server i =
      let snoc : length (server.slots ++ Slot.new F server.lanes ∷ []) ≡ length server.slots + 1 =
        length-snoc server.slots (Slot.new F server.lanes) in
      (
        omega (arith, snoc),
        omega (arith, snoc),
        ground (arith, snoc, get_elem?-snoc server.slots (Slot.new F server.lanes) i),
      )
