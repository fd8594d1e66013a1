-- ===== src/Start/Outcome.antt =====
-- What `server_start` leaves behind, on success and on every error.
use kino.Prelude.{
  ℕ, ◌≤◌, ◌≡◌, refl, ap, ◌∙◌, inl, inr, Bool, true, false, Bool-cases, ◌&&◌, if◌then◌else◌, Option,
  none, some, List, ◌∷◌, arith,
}
use kino.Flume.{Flume}
use kino.Registry.{Registry, ServerInner, state_booting, next_server_id, insert, try_get}
use kino.Registry.Ids.{try_get-insert}
use kino.Listen.{Os, Listener, tcp, unix, no_listener, bind}
use kino.Start.{
  setup_failed, started, refused, Outside, Acceptor, plain, secure, no_acceptor, acceptor_of,
  Launch, launched, not_launched, launch, forget, World, Result, new_server, registered,
  with_control, after_launch, launch_all, after_control, claim_control, with_listener, after_bind,
  after_tls, server_start,
}
use kino.Start.Resolve.{Config, resolve}
use kino.Start.Controls.{
  ControlBind, ControlHandle, Table, no_control, path_of, find, without, bind_control, start,
}

abbrev pub is_some {ℓ} : {A : Type ℓ} → Option A → Bool
is_some none = false
is_some (some a) = true

either : {A : Type 0} (b : Bool) (P : A → Type 0) (x y : A) → P x → P y → P (if b then x else y)
either true P x y h k = h
either false P x y h k = k

forget-head : (id : ℕ) (xs : List ℕ) → forget id (id ∷ xs) ≡ xs
unfolding forget
forget-head id xs = ground arith

resolve-floor : (cfg : Config) → (resolve cfg).workers ≤ (resolve cfg).max_workers
unfolding resolve
resolve-floor cfg = omega arith

find-cons : (id : ℕ) (h : ControlHandle) (table : Table) → find id ((id, h) ∷ table) ≡ some h
unfolding find
find-cons id h table = ground arith

-- The table of control endpoints has one more, of this server, if one was configured.
abbrev pub IsControlled : Option (List ℕ) → Table → Table → ℕ → Type 0
IsControlled none table table' id = table' ≡ table
IsControlled (some addr) table table' id = (handle : ControlHandle) × (find id table' ≡ some handle)

none-IsControlled :
    (addr : Option (List ℕ)) (table table' : Table) (id : ℕ)
    → false ≡ is_some addr
    → table' ≡ table
    → IsControlled addr table table' id
none-IsControlled none table table' id e same = same
none-IsControlled (some addr) table table' id e same = absurd (ground (arith, e))

some-IsControlled :
    (addr : Option (List ℕ)) (table table' : Table) (id : ℕ) (handle : ControlHandle)
    → true ≡ is_some addr
    → find id table' ≡ some handle
    → IsControlled addr table table' id
some-IsControlled none table table' id handle e found = absurd (ground (arith, e))
some-IsControlled (some addr) table table' id handle e found = (handle, found)

never_both :
    (https : Bool) (unix_path : Option (List ℕ))
    → (https ≡ true → unix_path ≡ none)
    → (https && is_some unix_path) ≡ false
never_both false unix_path h = refl
never_both true unix_path h = ap is_some (h refl)

module _ (F : Flume) (os : Os) {A : Type 0} (bind_addr : os.State → List ℕ → os.State × Option ℕ)
    (cfg : Config) (outside : Outside) where
  open F use {Chan}

  -- An error leaves no trace: the table of servers, the control endpoints and the runtimes that
  -- run are as they were.
  pub record IsUndone (world world' : World F os A) : Type 0 where
    pub servers : world'.registry.servers ≡ world.registry.servers
    pub controls : world'.controls ≡ world.controls
    pub running : world'.running ≡ world.running

  -- The server that was started: in the table, booting, with its runtime, a pool that is at least
  -- its floor, TLS where a certificate and a key were given, and never on a unix socket.
  pub record Serves (world world' : World F os A) (id : ℕ) : Type 0 where
    pub server : ServerInner (Chan A)
    pub found : try_get world'.registry id ≡ some server
    pub own_id : server.id ≡ id
    pub booting : server.state ≡ state_booting
    pub runs : world'.running ≡ id ∷ world.running
    pub floor : server.topology.workers ≤ server.topology.max_workers
    pub tls : server.https ≡ (is_some cfg.tls_cert && is_some cfg.tls_key)
    pub no_tls_on_unix : (server.https && is_some server.unix_path) ≡ false
    pub controlled : IsControlled cfg.control_bind world.controls world'.controls id

  abbrev pub Outcome : World F os A → Result F os A → Type 0
  Outcome world (world', refused e) = IsUndone world world'
  Outcome world (world', started id port control_port) = Serves world world' id

  -- A server on the way: what its fields are, and what has changed so far.
  record Ready (world now : World F os A) (server : ServerInner (Chan A)) : Type 0 where
    servers : now.registry.servers ≡ world.registry.servers
    controls : now.controls ≡ world.controls
    runs : now.running ≡ server.id ∷ world.running
    booting : server.state ≡ state_booting
    floor : server.topology.workers ≤ server.topology.max_workers
    tls : server.https ≡ (is_some cfg.tls_cert && is_some cfg.tls_key)
    no_tls_on_unix : server.https ≡ true → server.unix_path ≡ none

  found_self :
      (r : Registry (Chan A)) (server : ServerInner (Chan A))
      → try_get (insert r server) server.id ≡ some server
  found_self r server = ground (arith, (try_get-insert r server server.id).0)

  with_control-Outcome :
      (world now : World F os A) (server : ServerInner (Chan A)) (port : ℕ)
      (control : Option ControlBind)
      → Ready world now server
      → is_some control ≡ is_some cfg.control_bind
      → Outcome world (with_control F os bind_addr cfg outside now server port control)
  unfolding with_control registered start
  with_control-Outcome world now server port none r same = record {
    server = server;
    found = found_self now.registry server;
    own_id = refl;
    booting = r.booting;
    runs = r.runs;
    floor = r.floor;
    tls = r.tls;
    no_tls_on_unix = never_both server.https server.unix_path r.no_tls_on_unix;
    controlled =
        none-IsControlled cfg.control_bind world.controls now.controls server.id same r.controls;
  }
  with_control-Outcome world now server port (some b) r same =
      elim (Bool-cases outside.control_spawns) [
        | inl up ↦ rw up (record {
          server = server;
          found = found_self now.registry server;
          own_id = refl;
          booting = r.booting;
          runs = r.runs;
          floor = r.floor;
          tls = r.tls;
          no_tls_on_unix = never_both server.https server.unix_path r.no_tls_on_unix;
          controlled = some-IsControlled cfg.control_bind world.controls _ server.id _ same (
              find-cons server.id (record { stop = false; unix_path = path_of b })
                (without server.id now.controls));
        })
        | inr down ↦ rw down (record {
          servers = r.servers;
          controls = r.controls;
          running = ap (forget server.id) r.runs ∙ forget-head server.id world.running;
        })
      ]

  after_launch-Outcome :
      (world now : World F os A) (id : ℕ) (https : Bool) (unix_path : Option (List ℕ)) (port : ℕ)
      (control : Option ControlBind) (l : Launch)
      → IsUndone world now
      → https ≡ (is_some cfg.tls_cert && is_some cfg.tls_key)
      → (https ≡ true → unix_path ≡ none)
      → is_some control ≡ is_some cfg.control_bind
      → Outcome world
          (after_launch F os bind_addr cfg outside now id https unix_path port control l)
  unfolding after_launch new_server
  after_launch-Outcome world now id https unix_path port control (not_launched e) u tls unix_free
        same =
      u
  after_launch-Outcome world now id https unix_path port control (launched runtime) u tls unix_free
        same =
      with_control-Outcome world (record now { running = id ∷ now.running })
        (new_server F os bind_addr cfg outside id https unix_path runtime) port control
        (record {
          servers = u.servers;
          controls = u.controls;
          runs = ap (◌∷◌ id) u.running;
          booting = refl;
          floor = resolve-floor cfg;
          tls = tls;
          no_tls_on_unix = unix_free;
        })
        same

  launch_all-Outcome :
      (world now : World F os A) (https : Bool) (unix_path : Option (List ℕ)) (port : ℕ)
      (control : Option ControlBind)
      → IsUndone world now
      → https ≡ (is_some cfg.tls_cert && is_some cfg.tls_key)
      → (https ≡ true → unix_path ≡ none)
      → is_some control ≡ is_some cfg.control_bind
      → Outcome world (launch_all F os bind_addr cfg outside now https unix_path port control)
  unfolding launch_all next_server_id
  launch_all-Outcome world now https unix_path port control u tls unix_free same =
      after_launch-Outcome world (record now { registry = (next_server_id now.registry).0 })
        (next_server_id now.registry).1 https unix_path port control
        (launch outside (resolve cfg).io_shards)
        (record { servers = u.servers; controls = u.controls; running = u.running }) tls unix_free
        same

  after_control-Outcome :
      (world now : World F os A) (https : Bool) (unix_path : Option (List ℕ)) (port : ℕ)
      (r : os.State × ControlBind)
      → IsUndone world now
      → https ≡ (is_some cfg.tls_cert && is_some cfg.tls_key)
      → (https ≡ true → unix_path ≡ none)
      → true ≡ is_some cfg.control_bind
      → Outcome world (after_control F os bind_addr cfg outside now https unix_path port r)
  unfolding after_control
  after_control-Outcome world now https unix_path port (sys, no_control) u tls unix_free same =
      record { servers = u.servers; controls = u.controls; running = u.running }
  after_control-Outcome world now https unix_path port (sys, ControlBind.tcp p) u tls unix_free
        same =
      launch_all-Outcome world (record now { sys = sys }) https unix_path port
        (some (ControlBind.tcp p))
        (record { servers = u.servers; controls = u.controls; running = u.running }) tls unix_free
        same
  after_control-Outcome world now https unix_path port (sys, ControlBind.unix path) u tls unix_free
        same =
      launch_all-Outcome world (record now { sys = sys }) https unix_path port
        (some (ControlBind.unix path))
        (record { servers = u.servers; controls = u.controls; running = u.running }) tls unix_free
        same

  claim_control-Outcome :
      (world now : World F os A) (https : Bool) (unix_path : Option (List ℕ)) (port : ℕ)
      (addr : Option (List ℕ))
      → addr ≡ cfg.control_bind
      → IsUndone world now
      → https ≡ (is_some cfg.tls_cert && is_some cfg.tls_key)
      → (https ≡ true → unix_path ≡ none)
      → Outcome world (claim_control F os bind_addr cfg outside now https unix_path port addr)
  unfolding claim_control
  claim_control-Outcome world now https unix_path port none e u tls unix_free =
      launch_all-Outcome world now https unix_path port none u tls unix_free (ap is_some e)
  claim_control-Outcome world now https unix_path port (some addr) e u tls unix_free =
      after_control-Outcome world now https unix_path port (bind_control os bind_addr now.sys addr)
        u tls unix_free (ap is_some e)

  with_listener-Outcome :
      (world now : World F os A) (https : Bool) (unix_path : Option (List ℕ)) (port : ℕ)
      → IsUndone world now
      → https ≡ (is_some cfg.tls_cert && is_some cfg.tls_key)
      → (https ≡ true → unix_path ≡ none)
      → Outcome world (with_listener F os bind_addr cfg outside now https unix_path port)
  unfolding with_listener
  with_listener-Outcome world now https unix_path port u tls unix_free =
      either outside.local_addr (Outcome world)
        (claim_control F os bind_addr cfg outside now https unix_path port cfg.control_bind)
        (now, refused setup_failed)
        (claim_control-Outcome world now https unix_path port cfg.control_bind refl u tls unix_free)
        u

  after_bind-Outcome :
      (world : World F os A) (https : Bool) (r : os.State × Listener)
      → https ≡ (is_some cfg.tls_cert && is_some cfg.tls_key)
      → Outcome world (after_bind F os bind_addr cfg outside world https r)
  unfolding after_bind
  after_bind-Outcome world https (sys, no_listener e) tls = record {
    servers = refl;
    controls = refl;
    running = refl;
  }
  after_bind-Outcome world https (sys, tcp p) tls =
      with_listener-Outcome world (record world { sys = sys }) https none p
        (record { servers = refl; controls = refl; running = refl }) tls (λ e. refl)
  after_bind-Outcome world true (sys, unix path) tls = record {
    servers = refl;
    controls = refl;
    running = refl;
  }
  after_bind-Outcome world false (sys, unix path) tls =
      with_listener-Outcome world (record world { sys = sys }) false (some path) 0
        (record { servers = refl; controls = refl; running = refl }) tls
        (λ e. absurd (ground (arith, e)))

  after_tls-Outcome :
      (world : World F os A) (a : Acceptor) (cert key : Option (List ℕ))
      → cert ≡ cfg.tls_cert
      → key ≡ cfg.tls_key
      → a ≡ acceptor_of outside.tls_builds cert key
      → Outcome world (after_tls F os bind_addr cfg outside world a)
  unfolding after_tls acceptor_of
  after_tls-Outcome world (no_acceptor e) cert key c k a = record {
    servers = refl;
    controls = refl;
    running = refl;
  }
  after_tls-Outcome world plain none none c k a =
      after_bind-Outcome world false (bind os world.sys cfg.bind cfg.port)
        (ap (λ (o : Option (List ℕ)). is_some o && is_some cfg.tls_key) c)
  after_tls-Outcome world plain none (some key) c k a = absurd (ground (arith, a))
  after_tls-Outcome world plain (some cert) none c k a = absurd (ground (arith, a))
  after_tls-Outcome world plain (some cert) (some key) c k a = absurd (ground (arith, a))
  after_tls-Outcome world secure none none c k a = absurd (ground (arith, a))
  after_tls-Outcome world secure none (some key) c k a = absurd (ground (arith, a))
  after_tls-Outcome world secure (some cert) none c k a = absurd (ground (arith, a))
  after_tls-Outcome world secure (some cert) (some key) c k a =
      after_bind-Outcome world true (bind os world.sys cfg.bind cfg.port)
        (ap is_some k ∙ ap (λ (o : Option (List ℕ)). is_some o && is_some cfg.tls_key) c)

  -- Starting a server either raises an error, and then the table of servers, the control endpoints
  -- and the runtimes that run are as they were, or gives the id of a server that is in the table,
  -- booting, with its runtime; its pool's bound is at least its workers, it has TLS exactly where a
  -- certificate and a key were configured and never on a unix socket, and a control endpoint
  -- exactly where one was configured.
  pub server_start-Outcome :
      (world : World F os A) → Outcome world (server_start F os bind_addr cfg outside world)
  unfolding server_start
  server_start-Outcome world =
      after_tls-Outcome world (acceptor_of outside.tls_builds cfg.tls_cert cfg.tls_key) cfg.tls_cert
        cfg.tls_key refl refl refl
