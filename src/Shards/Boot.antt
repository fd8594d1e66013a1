-- ===== src/Shards/Boot.antt =====
-- ext/kino/src/io_shards.rs, `spawn`: the threads of the shards and of the acceptor, or an error.
-- What the operating system and tokio answer for each thread is a `Startup`. A shard's thread ends
-- once the sender of its channel is dropped, so a join of one whose sender is there would not return.
pub mod Clean
use kino.Prelude.{
  ℕ, zero, suc, ◌+◌, ◌==◌, max, if◌then◌else◌, Bool, true, false, ◌||◌, Option, none, some, List,
  [], ◌∷◌, ◌++◌,
}

-- The thread could not be spawned, its runtime or its listener failed, it ended before it reported,
-- or it is ready.
pub data Startup : Type 0 where
  no_thread fails exits ready : Startup

-- Threads that run, by index, and the shards whose sender is there.
pub record Threads : Type 0 where
  pub running : List ℕ
  pub senders : List ℕ

pub data Boot : Type 0 where
  booted : List ℕ → Boot
  failed : Boot

pub is_in : ℕ → List ℕ → Bool
is_in i [] = false
is_in i (x ∷ xs) = (x == i) || is_in i xs

pub ended : ℕ → List ℕ → List ℕ
ended i [] = []
ended i (x ∷ xs) = let rest = ended i xs in if x == i then rest else x ∷ rest

-- None is a join that does not return.
pub join_all : List ℕ → Threads → Option Threads
unfolding is_in ended
join_all [] t = some t
join_all (i ∷ handles) t =
    if is_in i t.senders then none else join_all handles (record t { running = ended i t.running })

-- `await_ready`: whether the handle comes back; a thread that reports a failure is joined.
pub await_ready : Startup → Bool
await_ready ready = true
await_ready _ = false

-- The thread `i` and its answer; one that failed has ended by the time that the answer is read.
pub spawn_thread : ℕ → Startup → Threads → Threads × Bool
unfolding await_ready
spawn_thread i s t =
    if await_ready s then (record t { running = i ∷ t.running }, true) else (t, false)

abbrev pub with_error : Option Threads → Option (Threads × Boot)
with_error none = none
with_error (some t) = some (t, failed)

abbrev pub undo : List ℕ → Threads → Option (Threads × Boot)
undo handles t = with_error (join_all handles t)

-- The acceptor takes the senders of the shards; where it fails they are dropped with it.
pub spawn_acceptor : ℕ → Startup → List ℕ → Threads → Option (Threads × Boot)
unfolding spawn_thread join_all
spawn_acceptor i s handles t =
    let (t', up) = spawn_thread i s t in
    if up then some (t', booted (handles ++ i ∷ [])) else undo handles (record t' { senders = [] })

-- The loop over the shards, from the index `i` on: where one fails, the senders are dropped first.
unfoldable pub spawn_from : ℕ → List Startup → Startup → List ℕ → Threads → Option (Threads × Boot)
unfolding spawn_acceptor spawn_thread join_all
spawn_from i [] acceptor handles t = spawn_acceptor i acceptor handles t
spawn_from i (s ∷ shards) acceptor handles t =
    let (t', up) = spawn_thread i s (record t { senders = i ∷ t.senders }) in
    let rest = spawn_from (i + 1) shards acceptor (handles ++ i ∷ []) t' in
    if up then rest else undo handles (record t' { senders = [] })

-- `shard_count.max(1)` shards, the answers to which are given.
unfoldable pub spawn : List Startup → Startup → Option (Threads × Boot)
unfolding spawn_from
spawn shards acceptor = spawn_from 0 shards acceptor [] (record { running = []; senders = [] })
