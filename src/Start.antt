-- ===== src/Start.antt =====
-- ext/kino/src/server.rs, `server_start`, and ext/kino/src/control.rs, the life of a control endpoint.
-- What the operating system, rustls and tokio answer is in `Outside`: whether the TLS acceptor, the
-- runtimes and the threads could be built. `running` lists the servers whose runtime runs.
pub mod Resolve
pub mod Controls
pub mod Outcome
mod Tests
use kino.Prelude.{
  ℕ, ◌==◌, if◌then◌else◌, Bool, true, false, Option, none, some, List, [], ◌∷◌, codes, String,
}
use kino.Control.{same_text}
use kino.Flume.{Flume}
use kino.Pin.{for_responses}
use kino.Histogram
use kino.Registry.{
  Registry, RuntimeHandle, ServerInner, stopped, multi_thread, shards, state_booting,
  next_server_id, insert,
}
use kino.Listen.{Os, Listener, tcp, unix, no_listener, bind}
use kino.Start.Resolve.{Config, Settings, resolve, unwrap_or}
use kino.Start.Controls.{ControlBind, Table, no_control, port_of, bind_control, start}

pub data StartError : Type 0 where
  tls_failed tls_needs_both bind_failed tls_on_unix setup_failed control_bind_failed : StartError
  shards_failed runtime_failed control_failed : StartError

-- `Ok((id, port, control port))` or the error that is raised.
pub data Started : Type 0 where
  started : ℕ → ℕ → Option ℕ → Started
  refused : StartError → Started

-- The threads of the shards are numbers, or they could not be spawned.
pub record Outside : Type 0 where
  pub tls_builds : Bool
  pub local_addr : Bool
  pub shards_spawn : Option (List ℕ)
  pub runtime_builds : Bool
  pub listener_joins : Bool
  pub control_spawns : Bool
  pub per_ractor_gc : Bool

-- The acceptor: none, one, or an error.
pub data Acceptor : Type 0 where
  plain secure : Acceptor
  no_acceptor : StartError → Acceptor

pub acceptor_of : Bool → Option (List ℕ) → Option (List ℕ) → Acceptor
acceptor_of builds (some cert) (some key) = if builds then secure else no_acceptor tls_failed
acceptor_of builds none none = plain
acceptor_of builds (some cert) none = no_acceptor tls_needs_both
acceptor_of builds none (some key) = no_acceptor tls_needs_both

pub data Launch : Type 0 where
  launched : RuntimeHandle → Launch
  not_launched : StartError → Launch

-- The shards, or the multi-thread runtime with the listener.
pub launch : Outside → Bool → Launch
launch outside true = elim outside.shards_spawn [
  | some threads ↦ launched (shards threads)
  | none ↦ not_launched shards_failed
]
launch outside false =
    if outside.runtime_builds
    then (if outside.listener_joins then launched multi_thread else not_launched setup_failed)
    else not_launched runtime_failed

-- A runtime that was stopped.
pub forget : ℕ → List ℕ → List ℕ
forget id [] = []
forget id (x ∷ xs) = let rest = forget id xs in if x == id then xs else x ∷ rest

pub is_ractor : String → Bool
is_ractor mode = same_text (codes mode) (codes "ractor")

pub record World (F : Flume) (os : Os) (A : Type 0) : Type 0 where
  pub sys : os.State
  pub registry : Registry (F.Chan A)
  pub controls : Table
  pub running : List ℕ

abbrev pub Result : (F : Flume) → Os → Type 0 → Type 0
Result F os A = World F os A × Started

module _ (F : Flume) (os : Os) {A : Type 0} (bind_addr : os.State → List ℕ → os.State × Option ℕ)
    (cfg : Config) (outside : Outside) where
  open F use {Chan}

  pub new_server : ℕ → Bool → Option (List ℕ) → RuntimeHandle → ServerInner (Chan A)
  unfolding resolve for_responses is_ractor
  new_server id https unix_path runtime =
      let settings = resolve cfg in
      record {
        id = id;
        req_tx = true;
        req_rx = F.bounded cfg.queue_depth;
        shutdown = false;
        runtime = runtime;
        slots = [];
        in_flight = 0;
        served = 0;
        rejected = 0;
        queue_timeout_ms = cfg.queue_timeout_ms;
        request_timeout_ms = settings.request_timeout_ms;
        max_body_size = settings.max_body_size;
        timeouts = 0;
        state = state_booting;
        respawns = 0;
        quarantine_replacements = 0;
        active_workers = settings.workers;
        scale_ups = 0;
        scale_downs = 0;
        topology = record {
          mode = settings.mode;
          workers = settings.workers;
          max_workers = settings.max_workers;
          threads = settings.threads;
          batch = settings.batch;
        };
        https = https;
        http2 = settings.http2;
        unix_path = unix_path;
        access_log = settings.log_requests;
        lanes = settings.lanes;
        lane_cursor = 0;
        park_seq = 0;
        pin_slab = for_responses outside.per_ractor_gc (is_ractor settings.mode);
        queue_histogram = Histogram.new;
      }

  -- The control thread was entered in the table, or the runtime is taken out of the server and told
  -- to stop, and nothing registered. That a wedged shard thread is left behind after one second is in
  -- `Stop.shutdown`.
  pub registered :
      World F os A → ServerInner (Chan A) → ℕ → Option ℕ → os.State × Table × Bool → Result F os A
  unfolding forget
  registered world server port control_port (sys, table, true) = (
    record world { sys = sys; controls = table; registry = insert world.registry server },
    started server.id port control_port,
  )
  registered world server port control_port (sys, table, false) = (
    record world { sys = sys; controls = table; running = forget server.id world.running },
    refused control_failed,
  )

  pub with_control : World F os A → ServerInner (Chan A) → ℕ → Option ControlBind → Result F os A
  unfolding registered
  with_control world server port none =
      (record world { registry = insert world.registry server }, started server.id port none)
  with_control world server port (some b) =
      registered world server port (port_of b)
        (start os outside.control_spawns world.sys world.controls server.id b)

  pub after_launch :
      World F os A → ℕ → Bool → Option (List ℕ) → ℕ → Option ControlBind → Launch → Result F os A
  unfolding with_control new_server
  after_launch world id https unix_path port control (not_launched e) = (world, refused e)
  after_launch world id https unix_path port control (launched runtime) =
      with_control (record world { running = id ∷ world.running })
        (new_server id https unix_path runtime) port control

  pub launch_all : World F os A → Bool → Option (List ℕ) → ℕ → Option ControlBind → Result F os A
  unfolding after_launch launch
  launch_all world https unix_path port control =
      let (registry, id) = next_server_id world.registry in
      after_launch (record world { registry = registry }) id https unix_path port control
        (launch outside (resolve cfg).io_shards)

  pub after_control :
      World F os A → Bool → Option (List ℕ) → ℕ → os.State × ControlBind → Result F os A
  unfolding launch_all
  after_control world https unix_path port (sys, no_control) =
      (record world { sys = sys }, refused control_bind_failed)
  after_control world https unix_path port (sys, ControlBind.tcp p) =
      launch_all (record world { sys = sys }) https unix_path port (some (ControlBind.tcp p))
  after_control world https unix_path port (sys, ControlBind.unix path) =
      launch_all (record world { sys = sys }) https unix_path port (some (ControlBind.unix path))

  pub claim_control : World F os A → Bool → Option (List ℕ) → ℕ → Option (List ℕ) → Result F os A
  unfolding launch_all after_control bind_control
  claim_control world https unix_path port none = launch_all world https unix_path port none
  claim_control world https unix_path port (some addr) =
      after_control world https unix_path port (bind_control os bind_addr world.sys addr)

  pub with_listener : World F os A → Bool → Option (List ℕ) → ℕ → Result F os A
  unfolding claim_control
  with_listener world https unix_path port =
      if outside.local_addr
      then claim_control world https unix_path port cfg.control_bind
      else (world, refused setup_failed)

  pub after_bind : World F os A → Bool → os.State × Listener → Result F os A
  unfolding with_listener
  after_bind world https (sys, no_listener e) = (record world { sys = sys }, refused bind_failed)
  after_bind world https (sys, tcp p) = with_listener (record world { sys = sys }) https none p
  after_bind world true (sys, unix path) = (record world { sys = sys }, refused tls_on_unix)
  after_bind world false (sys, unix path) =
      with_listener (record world { sys = sys }) false (some path) 0

  pub after_tls : World F os A → Acceptor → Result F os A
  unfolding after_bind
  after_tls world (no_acceptor e) = (world, refused e)
  after_tls world plain = after_bind world false (bind os world.sys cfg.bind cfg.port)
  after_tls world secure = after_bind world true (bind os world.sys cfg.bind cfg.port)

  pub server_start : World F os A → Result F os A
  unfolding after_tls acceptor_of
  server_start world = after_tls world (acceptor_of outside.tls_builds cfg.tls_cert cfg.tls_key)
