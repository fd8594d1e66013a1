-- ===== src/Env/Build.antt =====
-- request.rs, `build_env`: the steps in the order of the code.
use kino.Prelude.{ℕ, if◌then◌else◌, Bool, Option, none, some, List, [], ◌∷◌, ◌++◌, codes}
use kino.Flume.{Flume}
use kino.Control.{same_text}
use kino.Body.{Ctx, body_possible}
use kino.Lru.{Lru, Key}
use kino.EnvStrings.{Ruby}
use kino.EnvStrings.Names.{Defaults}
use kino.EnvStrings.Caches.{EnvStrings}
use kino.Env.Decimal.{decimal}
use kino.Env.HostPort.{split_host_port}
use kino.Env.{
  Authority, Version, http_10, http_2, other, Header, RequestHead, text, object, Env, aset,
  header_key, header_value, Meanwhile, State, set_host_env, set_authority_env, set_value_env,
  set_addr_env,
}

pub query_string : Option (List ℕ) → List ℕ
query_string none = []
query_string (some q) = q

pub server_protocol : Version → List ℕ
server_protocol http_10 = codes "HTTP/1.0"
server_protocol http_2 = codes "HTTP/2"
server_protocol other = codes "HTTP/1.1"

-- The keys that are set before the address is looked up.
unfoldable pub static_env : RequestHead → Env
unfolding aset query_string server_protocol
static_env head = aset (codes "SERVER_PROTOCOL") (text (server_protocol head.version)) (
    aset (codes "QUERY_STRING") (text (query_string head.uri.query)) (
      aset (codes "PATH_INFO") (text head.uri.path) (
        aset (codes "SCRIPT_NAME") (text [])
          (aset (codes "REQUEST_METHOD") (text head.method) []))))

unfoldable pub set_object : Key → Option ℕ → Env → Env
set_object key none env = env
set_object key (some o) env = aset key (object o) env

unfoldable pub set_rack : Defaults → Bool → Bool → Env → Env
unfolding set_object
set_rack defaults https possible env =
    let scheme = if https then codes "https" else codes "http" in
    let with_errors =
      set_object (codes "rack.errors") defaults.errors_stream
        (aset (codes "rack.url_scheme") (text scheme) env) in
    if possible
    then with_errors
    else set_object (codes "rack.input") defaults.null_input with_errors

-- The first value of a header of this name.
pub host_header : List Header → Option (List ℕ)
host_header [] = none
host_header (h ∷ headers) =
    let rest = host_header headers in if same_text h.name (codes "host") then some h.first else rest

module _ (F : Flume) (L : Lru) (ruby : Ruby) where
  -- The header's values but the first decide: one value goes through the cache of values.
  unfoldable pub set_values :
      Meanwhile L ruby → Header → List (List ℕ) → State L ruby → State L ruby
  unfolding set_value_env
  set_values meanwhile h [] state =
      set_value_env L ruby meanwhile (header_key h.name) h.name h.first state
  set_values meanwhile h (_ ∷ _) (s, env) =
      (s, aset (header_key h.name) (text (header_value h)) env)

  unfoldable pub set_header : Meanwhile L ruby → Header → State L ruby → State L ruby
  unfolding set_values
  set_header meanwhile h state = set_values meanwhile h h.more state

  unfoldable pub set_headers : Meanwhile L ruby → List Header → State L ruby → State L ruby
  unfolding set_header
  set_headers meanwhile [] state = state
  set_headers meanwhile (h ∷ headers) state =
      set_headers meanwhile headers (set_header meanwhile h state)

  -- `is_utf8` and `lossy` are `str::from_utf8` and `String::from_utf8_lossy`.
  pub made_of_host : (List ℕ → Bool) → (List ℕ → List ℕ) → List ℕ → ℕ → List ℕ × ℕ
  made_of_host is_utf8 lossy host local_port =
      if is_utf8 host then split_host_port host local_port else (lossy host, local_port)

  pub made_of_authority : Authority → ℕ → List ℕ × ℕ
  made_of_authority authority local_port =
      (authority.host, elim authority.port_u16 [ some p ↦ p | none ↦ local_port ])

  -- SERVER_NAME, SERVER_PORT and HTTP_HOST, the best source first.
  unfoldable pub set_server :
      Meanwhile L ruby
      → (List ℕ → Bool)
      → (List ℕ → List ℕ)
      → RequestHead
      → State L ruby
      → State L ruby
  unfolding made_of_host made_of_authority host_header set_authority_env set_host_env
  set_server meanwhile is_utf8 lossy head state = elim head.uri.authority [
    | some authority ↦
        set_authority_env L ruby meanwhile authority.as_str
          (made_of_authority authority head.local_port) state
    | none ↦ elim (host_header head.headers) [
      | some host ↦
          set_host_env L ruby meanwhile host (made_of_host is_utf8 lossy host head.local_port) state
      | none ↦
          set_host_env L ruby meanwhile (0 ∷ (head.local_ip ++ (58 ∷ decimal head.local_port)))
            (head.local_ip, head.local_port) state
    ]
  ]

  -- Before the headers.
  unfoldable pub start_env :
      Meanwhile L ruby → Defaults → RequestHead → Bool → EnvStrings L → State L ruby
  unfolding set_addr_env static_env set_rack
  start_env meanwhile defaults head possible s =
      let (s', env) = set_addr_env L ruby meanwhile head.remote_ip (s, static_env head) in
      (s', set_rack defaults head.https possible env)

  unfoldable pub build_env :
      Meanwhile L ruby
      → Defaults
      → (List ℕ → Bool)
      → (List ℕ → List ℕ)
      → RequestHead
      → Ctx F
      → EnvStrings L
      → State L ruby
  unfolding start_env set_headers set_server body_possible
  build_env meanwhile defaults is_utf8 lossy head ctx s = set_server meanwhile is_utf8 lossy head (
      set_headers meanwhile head.headers
        (start_env meanwhile defaults head (body_possible F ctx) s))
