-- ===== src/Start/Resolve.antt =====
-- server.rs, `server_start`: the configuration with its defaults. A key that Ruby left out is none.
use kino.Prelude.{ℕ, max, Bool, true, false, Option, none, some, List, String}

pub record Config : Type 0 where
  pub bind : List ℕ
  pub port : ℕ
  pub queue_depth : ℕ
  pub queue_timeout_ms : ℕ
  pub request_timeout_ms : Option ℕ
  pub max_body_size : Option ℕ
  pub max_connections : Option ℕ
  pub io_shards : Option Bool
  pub tls_cert : Option (List ℕ)
  pub tls_key : Option (List ℕ)
  pub lanes : Option Bool
  pub http2 : Option Bool
  pub log_requests : Option Bool
  pub mode : Option String
  pub workers : Option ℕ
  pub max_workers : Option ℕ
  pub threads : Option ℕ
  pub batch : Option ℕ
  pub control_bind : Option (List ℕ)
  pub control_token : Option (List ℕ)

pub record Settings : Type 0 where
  pub request_timeout_ms : ℕ
  pub max_body_size : ℕ
  pub max_connections : ℕ
  pub io_shards : Bool
  pub lanes : Bool
  pub http2 : Bool
  pub log_requests : Bool
  pub mode : String
  pub workers : ℕ
  pub max_workers : ℕ
  pub threads : ℕ
  pub batch : ℕ

abbrev pub unwrap_or {ℓ} : {A : Type ℓ} → Option A → A → A
unwrap_or none d = d
unwrap_or (some a) d = a

-- The pool never shrinks below its floor: `max_workers` is at least `workers`.
unfoldable pub resolve : Config → Settings
resolve c = record {
  request_timeout_ms = unwrap_or c.request_timeout_ms 0;
  max_body_size = unwrap_or c.max_body_size 0;
  max_connections = unwrap_or c.max_connections 1024;
  io_shards = unwrap_or c.io_shards false;
  lanes = unwrap_or c.lanes false;
  http2 = unwrap_or c.http2 true;
  log_requests = unwrap_or c.log_requests false;
  mode = unwrap_or c.mode "threaded";
  workers = unwrap_or c.workers 0;
  max_workers = max (unwrap_or c.max_workers (unwrap_or c.workers 0)) (unwrap_or c.workers 0);
  threads = unwrap_or c.threads 0;
  batch = unwrap_or c.batch 1;
}
