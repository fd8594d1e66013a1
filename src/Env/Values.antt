-- ===== src/Env/Values.antt =====
-- The values of the env: headers, the authority, and what no client can set.
use kino.Prelude.{
  ℕ, ◌≡◌, refl, sym, ap, ◌∙◌, inl, inr, Bool, false, Bool-cases, not, ltb, ◌||◌, if◌then◌else◌,
  Option, none, some, Option-cases, List, [], ◌∷◌, All, length, codes,
}
use kino.Flume.{Flume}
use kino.Body.{Ctx, body_possible}
use kino.Control.{same_text}
use kino.Lru.{Lru, Key}
use kino.Lru.Listed.{same_text→eq}
use kino.EnvStrings.{Ruby}
use kino.EnvStrings.Names.{Defaults, contains, internable_values}
use kino.EnvStrings.Caches.{EnvStrings}
use kino.EnvStrings.Sections.{Section, run_all}
use kino.EnvStrings.Honest.{IsHonest, IsFaithful}
use kino.EnvStrings.Faithful.{value_env-Gives, addr_env-Gives}
use kino.EnvStrings.HostCalls.{authority_env-GivesFull}
use kino.Env.Decimal.{decimal}
use kino.Env.{
  Header, RequestHead, EnvValue, text, aset, fetch, header_key, header_value, joined, separator,
  State, set_authority_env, set_value_env, set_addr_env,
}
use kino.Env.Build.{set_values, set_header, set_headers, start_env, build_env, static_env}
use kino.Env.Keys.{
  fetch-aset_ne, fetch-aset_self, set_header_ne, set_host_env_ne, set_server_cases,
  build_env_guarded,
}
use kino.Env.Fixed.{
  authority_or, name_not_host, port_not_host, remote-IsGuarded, method-IsGuarded, rack_remote,
  rack_method, remote_not_method, static_env-request_method,
}

-- The value of the last header whose key this is.
unfoldable pub last_value : Key → List Header → Option (List ℕ)
last_value k [] = none
last_value k (h ∷ headers) =
    let later = last_value k headers in
    elim later [
      | some v ↦ some v
      | none ↦ if same_text (header_key h.name) k then some (header_value h) else none
    ]

-- The value under a key after the headers, which had this value before them.
abbrev after_headers : Option (List ℕ) → Option EnvValue → Option EnvValue
after_headers none before = before
after_headers (some v) before = some (text v)

-- What the other workers do during each call: sections that settle each key's own text.
module _ (F : Flume) (L : Lru) (ruby : Ruby) (others : Key → List Section)
    (honest : (k : Key) → All IsHonest (others k)) where
  abbrev pub meanwhile : Key → EnvStrings L → EnvStrings L
  meanwhile k s = run_all L ruby (others k) s

  -- A state with this value under the key, and faithful caches.
  abbrev Sets : Key → List ℕ → State L ruby → Type 0
  Sets key value state = (fetch key state.1 ≡ some (text value)) × IsFaithful L state.0

  set_value_env-Sets :
      (key : Key) (name value : List ℕ) (state : State L ruby)
      → IsFaithful L state.0
      → Sets key value (set_value_env L ruby meanwhile key name value state)
  unfolding set_value_env
  set_value_env-Sets key name value (s, env) v =
      elim (Bool-cases (ltb 512 (length value) || not (contains internable_values name))) [
        | inl e ↦ rw e (fetch-aset_self key (text value) env, v)
        | inr e ↦
            let (same, faithful) = value_env-Gives L ruby (others key) value s (honest key) v in
            rw e (fetch-aset_self key _ env ∙ ap (λ t. some (text t)) same, faithful)
      ]

  set_values-Sets :
      (h : Header) (more : List (List ℕ)) (state : State L ruby)
      → h.more ≡ more
      → IsFaithful L state.0
      → Sets (header_key h.name) (header_value h) (set_values F L ruby meanwhile h more state)
  unfolding set_values header_value joined
  set_values-Sets h [] state e v =
      let (set, faithful) = set_value_env-Sets (header_key h.name) h.name h.first state v in
      (set ∙ ap (λ m. some (text (joined (separator h.name) h.first m))) (sym e), faithful)
  set_values-Sets h (w ∷ more) (s, env) e v =
      (fetch-aset_self (header_key h.name) (text (header_value h)) env, v)

  set_header-Sets :
      (h : Header) (state : State L ruby)
      → IsFaithful L state.0
      → Sets (header_key h.name) (header_value h) (set_header F L ruby meanwhile h state)
  unfolding set_header
  set_header-Sets h state v = set_values-Sets h h.more state refl v

  -- One header's value replaces what its key had.
  fetch-set_header :
      (h : Header) (k : Key) (state : State L ruby)
      → IsFaithful L state.0
      → fetch k (set_header F L ruby meanwhile h state).1
        ≡ after_headers
            (if same_text (header_key h.name) k then some (header_value h) else none)
            (fetch k state.1)
  fetch-set_header h k state v = elim (Bool-cases (same_text (header_key h.name) k)) [
    | inl hit ↦ rw hit (
        ap (λ key. fetch key (set_header F L ruby meanwhile h state).1)
          (sym (same_text→eq (header_key h.name) k hit))
        ∙ (set_header-Sets h state v).0)
    | inr miss ↦ rw miss (set_header_ne F L ruby meanwhile h k state miss)
  ]

  set_headers-Sets :
      (headers : List Header) (k : Key) (state : State L ruby)
      → IsFaithful L state.0
      → (fetch k (set_headers F L ruby meanwhile headers state).1
          ≡ after_headers (last_value k headers) (fetch k state.1))
        × IsFaithful L (set_headers F L ruby meanwhile headers state).0
  unfolding set_headers last_value
  set_headers-Sets [] k state v = (refl, v)
  set_headers-Sets (h ∷ headers) k state v =
      let state1 = set_header F L ruby meanwhile h state in
      let (rest, faithful) = set_headers-Sets headers k state1 (set_header-Sets h state v).1 in
      let here = fetch-set_header h k state v in
      (
        elim (Option-cases (last_value k headers)) [
          | inl e ↦ rw e (rest ∙ ap (λ o. after_headers o (fetch k state1.1)) e ∙ here)
          | inr (value, e) ↦ rw e (rest ∙ ap (λ o. after_headers o (fetch k state1.1)) e)
        ],
        faithful,
      )

  start_env-IsFaithful :
      (defaults : Defaults) (head : RequestHead) (possible : Bool) (s : EnvStrings L)
      → IsFaithful L s
      → IsFaithful L (start_env F L ruby meanwhile defaults head possible s).0
  unfolding start_env set_addr_env
  start_env-IsFaithful defaults head possible s v =
      (addr_env-Gives L ruby (others (codes "REMOTE_ADDR")) head.remote_ip s
        (honest (codes "REMOTE_ADDR")) v).1

  start_env-remote_addr :
      (defaults : Defaults) (head : RequestHead) (possible : Bool) (s : EnvStrings L)
      → IsFaithful L s
      → fetch (codes "REMOTE_ADDR") (start_env F L ruby meanwhile defaults head possible s).1
        ≡ some (text head.remote_ip)
  unfolding start_env set_addr_env
  start_env-remote_addr defaults head possible s v =
      rack_remote (aset (codes "REMOTE_ADDR") _ (static_env head)) defaults head.https possible
      ∙ fetch-aset_self (codes "REMOTE_ADDR") _ (static_env head)
      ∙ ap (λ t. some (text t))
          (addr_env-Gives L ruby (others (codes "REMOTE_ADDR")) head.remote_ip s
            (honest (codes "REMOTE_ADDR")) v).0

  start_env-request_method :
      (defaults : Defaults) (head : RequestHead) (possible : Bool) (s : EnvStrings L)
      → fetch (codes "REQUEST_METHOD") (start_env F L ruby meanwhile defaults head possible s).1
        ≡ some (text head.method)
  unfolding start_env set_addr_env
  start_env-request_method defaults head possible s =
      rack_method (aset (codes "REMOTE_ADDR") _ (static_env head)) defaults head.https possible
      ∙ fetch-aset_ne (codes "REMOTE_ADDR") (codes "REQUEST_METHOD") _ (static_env head)
          remote_not_method
      ∙ static_env-request_method head

  -- The state in which the headers leave the env.
  abbrev headers_done : Defaults → RequestHead → Ctx F → EnvStrings L → State L ruby
  headers_done defaults head ctx s =
      set_headers F L ruby meanwhile head.headers
        (start_env F L ruby meanwhile defaults head (body_possible F ctx) s)

  headers_done-value :
      (defaults : Defaults) (head : RequestHead) (ctx : Ctx F) (s : EnvStrings L) (k : Key)
      (v : List ℕ)
      → IsFaithful L s
      → last_value k head.headers ≡ some v
      → (fetch k (headers_done defaults head ctx s).1 ≡ some (text v))
        × IsFaithful L (headers_done defaults head ctx s).0
  headers_done-value defaults head ctx s k v faithful last =
      let started = start_env F L ruby meanwhile defaults head (body_possible F ctx) s in
      let (set, kept) =
        set_headers-Sets head.headers k started
          (start_env-IsFaithful defaults head (body_possible F ctx) s faithful) in
      (set ∙ ap (λ o. after_headers o (fetch k started.1)) last, kept)

  set_authority_env_ne :
      (authority : List ℕ) (made : List ℕ × ℕ) (k : Key) (state : State L ruby)
      → same_text (codes "HTTP_HOST") k ≡ false
      → same_text (codes "SERVER_NAME") k ≡ false
      → same_text (codes "SERVER_PORT") k ≡ false
      → fetch k (set_authority_env L ruby meanwhile authority made state).1 ≡ fetch k state.1
  unfolding set_authority_env
  set_authority_env_ne authority made k (s, env) not_host not_name not_port =
      fetch-aset_ne (codes "HTTP_HOST") k _
        (aset (codes "SERVER_PORT") _ (aset (codes "SERVER_NAME") _ env)) not_host
      ∙ fetch-aset_ne (codes "SERVER_PORT") k _ (aset (codes "SERVER_NAME") _ env) not_port
      ∙ fetch-aset_ne (codes "SERVER_NAME") k _ env not_name

  -- Under every header's key but HTTP_HOST the env has the values of the last header with this key,
  -- joined; whatever the other workers do to the caches of strings meanwhile, as long as each
  -- settles a key's own text, and even if the value came from a cache.
  pub build_env-last_value :
      (defaults : Defaults) (is_utf8 : List ℕ → Bool) (lossy : List ℕ → List ℕ) (head : RequestHead)
      (ctx : Ctx F) (s : EnvStrings L) (k : Key) (v : List ℕ)
      → IsFaithful L s
      → last_value k head.headers ≡ some v
      → same_text (codes "HTTP_HOST") k ≡ false
      → same_text (codes "SERVER_NAME") k ≡ false
      → same_text (codes "SERVER_PORT") k ≡ false
      → fetch k (build_env F L ruby meanwhile defaults is_utf8 lossy head ctx s).1 ≡ some (text v)
  unfolding build_env
  build_env-last_value defaults is_utf8 lossy head ctx s k v faithful last not_host not_name
        not_port =
      let done = headers_done defaults head ctx s in
      let (value, _) = headers_done-value defaults head ctx s k v faithful last in
      elim (set_server_cases F L ruby meanwhile is_utf8 lossy head done) [
        | inl (authority, _, e) ↦
            ap (λ r. fetch k r.1) e
            ∙ set_authority_env_ne authority.as_str _ k done not_host not_name not_port
            ∙ value
        | inr (host, made, _, e) ↦
            ap (λ r. fetch k r.1) e
            ∙ set_host_env_ne F L ruby meanwhile host made k done not_name not_port
            ∙ value
      ]

  set_authority_env-http_host :
      (authority : List ℕ) (made : List ℕ × ℕ) (state : State L ruby)
      → IsFaithful L state.0
      → fetch (codes "HTTP_HOST") (set_authority_env L ruby meanwhile authority made state).1
        ≡ some (text authority)
  unfolding set_authority_env
  set_authority_env-http_host authority made (s, env) v =
      fetch-aset_self (codes "HTTP_HOST") _
        (aset (codes "SERVER_PORT") _ (aset (codes "SERVER_NAME") _ env))
      ∙ ap (λ t. some (text t))
          (authority_env-GivesFull L ruby (others (codes "SERVER_NAME")) authority made.0
            (decimal made.1) s (honest (codes "SERVER_NAME")) v).0

  headers_done-IsFaithful :
      (defaults : Defaults) (head : RequestHead) (ctx : Ctx F) (s : EnvStrings L)
      → IsFaithful L s
      → IsFaithful L (headers_done defaults head ctx s).0
  headers_done-IsFaithful defaults head ctx s faithful =
      (set_headers-Sets head.headers (codes "HTTP_HOST")
        (start_env F L ruby meanwhile defaults head (body_possible F ctx) s)
        (start_env-IsFaithful defaults head (body_possible F ctx) s faithful)).1

  -- HTTP_HOST is the authority of the request's URI if it has one, with or without a Host header,
  -- and, if it has none, the value of the last Host header, if there is one; whatever the other
  -- workers do to the caches of strings meanwhile, as long as each settles a key's own text.
  pub build_env-http_host :
      (defaults : Defaults) (is_utf8 : List ℕ → Bool) (lossy : List ℕ → List ℕ) (head : RequestHead)
      (ctx : Ctx F) (s : EnvStrings L) (v : List ℕ)
      → IsFaithful L s
      → (head.uri.authority ≡ none → last_value (codes "HTTP_HOST") head.headers ≡ some v)
      → fetch (codes "HTTP_HOST") (build_env F L ruby meanwhile defaults is_utf8 lossy head ctx s).1
        ≡ some (text (authority_or v head.uri.authority))
  unfolding build_env
  build_env-http_host defaults is_utf8 lossy head ctx s v faithful last =
      let done = headers_done defaults head ctx s in
      let kept = headers_done-IsFaithful defaults head ctx s faithful in
      elim (set_server_cases F L ruby meanwhile is_utf8 lossy head done) [
        | inl (authority, here, e) ↦
            ap (λ r. fetch (codes "HTTP_HOST") r.1) e
            ∙ set_authority_env-http_host authority.as_str _ done kept
            ∙ ap (λ o. some (text (authority_or v o))) (sym here)
        | inr (host, made, here, e) ↦
            ap (λ r. fetch (codes "HTTP_HOST") r.1) e
            ∙ set_host_env_ne F L ruby meanwhile host made (codes "HTTP_HOST") done name_not_host
                port_not_host
            ∙ (headers_done-value defaults head ctx s (codes "HTTP_HOST") v faithful (last here)).0
            ∙ ap (λ o. some (text (authority_or v o))) (sym here)
      ]

  -- A client cannot choose the method's key or the peer's address: REQUEST_METHOD is the request's
  -- method and REMOTE_ADDR the connection's peer, whatever the headers and whatever other workers
  -- do to the cache of addresses.
  pub build_env-remote_addr :
      (defaults : Defaults) (is_utf8 : List ℕ → Bool) (lossy : List ℕ → List ℕ) (head : RequestHead)
      (ctx : Ctx F) (s : EnvStrings L)
      → IsFaithful L s
      → let env = (build_env F L ruby meanwhile defaults is_utf8 lossy head ctx s).1 in
        (fetch (codes "REMOTE_ADDR") env ≡ some (text head.remote_ip))
        × (fetch (codes "REQUEST_METHOD") env ≡ some (text head.method))
  build_env-remote_addr defaults is_utf8 lossy head ctx s v = (
    build_env_guarded F L ruby meanwhile defaults is_utf8 lossy head ctx s (codes "REMOTE_ADDR")
          remote-IsGuarded
        ∙ start_env-remote_addr defaults head (body_possible F ctx) s v,
    build_env_guarded F L ruby meanwhile defaults is_utf8 lossy head ctx s (codes "REQUEST_METHOD")
          method-IsGuarded
        ∙ start_env-request_method defaults head (body_possible F ctx) s,
  )
