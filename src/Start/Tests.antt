-- ===== src/Start/Tests.antt =====
-- A server that starts on TCP with a control endpoint, and one whose control thread fails.
use kino.Prelude.{ℕ, ◌+◌, ◌≡◌, refl, true, false, Option, none, some, List, [], ◌∷◌, codes}
use kino.Flume.{fifo}
use kino.Registry.{next_server_id}
use kino.Names.{unix_path}
use kino.Control.{strip_prefix}
use kino.Listen.{Os, bind, Connect, Removed}
use kino.Start.{
  Outside, started, acceptor_of, World, server_start, after_tls, after_bind, with_listener,
  claim_control, after_control, launch_all, after_launch, with_control, registered, new_server,
  launch,
}
use kino.Start.Resolve.{Config, resolve}
use kino.Start.Controls.{ControlHandle, start, bind_control}
use kino.Start.Outcome.{Outcome, server_start-Outcome}

-- Sockets and files that always work; the state counts the files removed.
abbrev quiet_os : Os
quiet_os = record {
  State = ℕ;
  connect = λ s path. Connect.not_found;
  remove_file = λ s path. (s + 1, Removed.removed);
  bind_socket = λ s path. (s, true);
  bind_tcp = λ s name p. (s, some 9292);
}

abbrev bind_addr : ℕ → List ℕ → ℕ × Option ℕ
bind_addr s addr = (s, some 9393)

abbrev cfg : Config
cfg = record {
  bind = codes "localhost";
  port = 0;
  queue_depth = 8;
  queue_timeout_ms = 10;
  request_timeout_ms = none;
  max_body_size = none;
  max_connections = none;
  io_shards = none;
  tls_cert = none;
  tls_key = none;
  lanes = some true;
  http2 = none;
  log_requests = none;
  mode = some "ractor";
  workers = some 4;
  max_workers = some 2;
  threads = some 1;
  batch = none;
  control_bind = some (codes "localhost:0");
  control_token = none;
}

abbrev good : Outside
good = record {
  tls_builds = true;
  local_addr = true;
  shards_spawn = none;
  runtime_builds = true;
  listener_joins = true;
  control_spawns = true;
  per_ractor_gc = false;
}

abbrev empty_world : World fifo quiet_os ℕ
empty_world = record {
  sys = 0;
  registry = record { servers = []; next_id = 1 };
  controls = [];
  running = [];
}

starts : (server_start fifo quiet_os bind_addr cfg good empty_world).1 ≡ started 1 9292 (some 9393)
unfolding server_start after_tls after_bind with_listener claim_control after_control launch_all
    after_launch with_control registered new_server launch acceptor_of bind bind_control unix_path
    strip_prefix next_server_id start resolve
starts = refl

-- The pool's bound is raised to its floor.
floor_kept : (resolve cfg).max_workers ≡ 4
unfolding resolve
floor_kept = refl

server_start-Outcome_example :
    Outcome fifo quiet_os bind_addr cfg
      (record good { control_spawns = false })
      empty_world
      (server_start fifo quiet_os bind_addr cfg
        (record good { control_spawns = false })
        empty_world)
server_start-Outcome_example =
    server_start-Outcome fifo quiet_os bind_addr cfg (record good { control_spawns = false })
      empty_world

abbrev one_control : List (ℕ × ControlHandle)
one_control = (1, record { stop = false; unix_path = some (codes "/tmp/c") }) ∷ []
