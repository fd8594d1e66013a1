-- ===== src/Lib.antt =====
-- Kino, a Ruby web server with its I/O plane in Rust: a model of the native extension
-- (ext/kino/src).
--
-- Connections are accepted against a limit (io_shards.rs, or server.rs) and each is served until it
-- ends or the server drains. A request comes in over hyper (server.rs, handle_request). The intake
-- forwards its body through a bounded channel, puts it into a worker's lane or into the shared
-- queue, and waits for the head of the response. Workers take requests (queue.rs), read bodies
-- (request.rs) and answer through a responder (response.rs) that the worker, the supervisor and a
-- drop backstop share. Ruby starts, drains, aborts and counts through natives by server id
-- (server.rs, registry.rs), and a control endpoint reports what they count (control.rs).
--
-- The files, by the code that they model, in ext/kino/src:
--   Slot           registry.rs, WorkerSlot: new, retire, reset, the close of a lane
--   Registry       registry.rs, ServerInner and the table of servers; Registry/Ids its lemmas
--   Histogram      registry.rs, QueueHistogram; control.rs, the cumulative counts
--   Pin            pin.rs, PinSlab: insert, release, mark_all, pinned_bytes
--   Response       response.rs, Responder and every call on it; Claim who answers, Abandoned the
--                  backstop
--   Dispatch       server.rs, try_dispatch, by its three phases; the folder has a file per phase, and
--                  Outcome, Preference and Accounts on the whole
--   Gvl            gvl.rs, interruptible
--   Worker         queue.rs, the takes: shared queue, own lane, steal, parked wait, batch
--   Body           request.rs, read_body
--   Stream         request.rs, respond_simple, send_headers, write_chunk, finish, abort
--   Intake         server.rs, handle_request with the forwarder, dispatch_to_lane, the 413, 503, 504
--   Lifecycle      server.rs, the natives from stop_accepting to record_quarantine_replacement
--   Conn           server.rs, serve_conn, serve_connection and drain_signal, over tokio's watch channel
--                  as an interface with its laws; Told and Kept what the
--                  receivers know of a stop
--   Control        control.rs, the snapshot, token_ok, route and handle; Figures the JSON and the
--                  metrics, Json and Buckets what they say, Serve the endpoint's loop
--   Shards         io_shards.rs, thread_count, least_loaded and the hand-off loop of accept_loop; Boot
--                  the start of the threads, Plane the loops of the acceptor and of the shards
--   Names          env_strings.rs cgi_name, log.rs and style.rs, the levels, colours and text of a log
--                  line, listen.rs unix_path
--   Stop           registry.rs, RuntimeHandle::shutdown: joining the I/O threads by a deadline
--   Listen         listen.rs, binding a listener, over the operating system's calls as an interface
--   Breakdown      access_log.rs, the parts of a request's time, the scale of a count, and the records
--   Start          server.rs, server_start: the configuration, the errors and what they leave;
--                  control.rs, the start and the stop of a control endpoint
--   Pool           the intake, the takes and the natives together: runs of their actions on one server
--   Logsink        logsink.rs, the queue of log lines, its flusher and the devices
--   Lru            what the code uses of the lru crate's bounded caches, as an interface with its
--                  laws, and a list that meets them
--   EnvStrings     env_strings.rs, the caches of frozen strings over their slab; Caches the critical
--                  sections, Root to Kept what they do to the slab, Sections and Reach any order of
--                  them, Right to HostCalls whose text a cached string is
--   Env            request.rs, build_env with split_host_port; env_strings.rs, the calls that set keys
--   Flume          what the code uses of flume's bounded channels, as an interface with its laws, and
--                  a list that meets them
--   Prelude, Sample  shared names and lemmas, and the servers of the tests
--
-- How the code is read. A struct is a record and a mutex or an atomic is a field of it; a call
-- under one lock, and an attempt that takes the locks one by one, is one atomic action. Where other
-- threads act in between, as in a wait, they are functions on the state that the definitions take:
-- `ticks`, one for each bounded wait, in any number and doing anything that a theorem's conditions
-- allow. A worker's call on a cache of strings is two critical sections with other workers' between
-- them. The I/O plane is a list of events, each a step of the acceptor's thread or of a shard's, in
-- any order; a connection is a list of events too. Numbers are natural numbers; a usize or u64 that
-- the code adds to wraps at 2 ^ 64 (`word`), as a release build does on a 64-bit target. The
-- channel's capacities, the lane depth of 4 and the stream buffer of 8 are the source's. A Ruby
-- VALUE is a number, bytes and texts are lists of numbers, and a shared responder is known by its
-- number in a store.
--
-- Fuel: `Pin.claim` and `Dispatch.sweep` run one round per slot, as the code's `for` loops do;
-- `Body.drain` and `Lifecycle.drain_lane` have as many receives as the channel has messages, which
-- is where `try_recv` stops; `Shards.hand_off` needs one round more than there are live shards, as
-- each failed send marks a shard down, and `Plane.hand_over` gives it one more than there are
-- shards. `Stop.wait` needs a look for each millisecond before the deadline
-- and one more, since each sleep takes at least one.
--
-- Conditions that recur: a cursor that is short of wrapping by the number of slots, since a scan
-- that wraps may visit a slot twice; `IsLane`, that a lane is bounded by the lane depth and its
-- receiver is there, since the slot itself holds it.
--
-- Not modelled: hyper, tokio, rustls and flume's own code; the Ruby objects of a request (their
-- conversion to texts); how an f64 is printed; sockets, threads and clocks, whose readings are
-- arguments; the configuration of rustls (tls.rs) and of hyper; the Ruby layer under lib.
mod Prelude
pub mod Env
pub mod EnvStrings
pub mod Flume
pub mod Pin
pub mod Pool
pub mod Response
pub mod Histogram
pub mod Slot
pub mod Start
pub mod Registry
pub mod Dispatch
pub mod Gvl
pub mod Worker
pub mod Body
pub mod Conn
pub mod Control
pub mod Lifecycle
pub mod Intake
pub mod Shards
pub mod Names
pub mod Stop
pub mod Stream
pub mod Listen
pub mod Logsink
pub mod Lru
pub mod Breakdown
mod Sample
