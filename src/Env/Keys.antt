-- ===== src/Env/Keys.antt =====
-- Which keys of the env a client's headers can set.
use kino.Prelude.{
  ℕ, ◌≡◌, refl, sym, ap, ◌∙◌, ◌⊎◌, inl, inr, Bool, true, false, Bool-cases, not, ltb, ◌||◌, none,
  some, Option-cases, List, [], ◌∷◌, ◌++◌, map, length, codes, arith,
}
use mathlib.Core.Option.{none-ne-some}
use kino.Flume.{Flume}
use kino.Body.{Ctx, body_possible}
use kino.Control.{same_text, strip_prefix}
use kino.Names.{cgi_name, cgi_char}
use kino.Lru.{Lru, Key}
use kino.Lru.Listed.{same_text→eq, same_text_self}
use kino.EnvStrings.{Ruby}
use kino.EnvStrings.Names.{Defaults, contains, internable_values}
use kino.EnvStrings.Caches.{EnvStrings}
use kino.Env.Decimal.{decimal}
use kino.Env.{
  Authority, Header, RequestHead, EnvValue, Env, aset, fetch, header_key, Meanwhile, State,
  set_host_env, set_authority_env, set_value_env,
}
use kino.Env.Build.{
  set_values, set_header, set_headers, set_server, start_env, build_env, host_header, made_of_host,
  made_of_authority,
}

pub fetch-aset_ne :
    (key k : Key) (value : EnvValue) (env : Env)
    → same_text key k ≡ false
    → fetch k (aset key value env) ≡ fetch k env
unfolding fetch aset
fetch-aset_ne key k value [] ne = rw ne refl
fetch-aset_ne key k value (entry ∷ env) ne = elim (Bool-cases (same_text entry.0 key)) [
  | inl hit ↦
      let other : same_text entry.0 k ≡ false =
        ap (λ e. same_text e k) (same_text→eq entry.0 key hit) ∙ ne in
      ground (arith, hit, other)
  | inr miss ↦ ground (arith, miss, fetch-aset_ne key k value env ne)
]

pub fetch-aset_self :
    (key : Key) (value : EnvValue) (env : Env) → fetch key (aset key value env) ≡ some value
unfolding fetch aset
fetch-aset_self key value [] = rw (same_text_self key) refl
fetch-aset_self key value (entry ∷ env) = elim (Bool-cases (same_text entry.0 key)) [
  | inl hit ↦ ground (arith, hit)
  | inr miss ↦ ground (arith, miss, fetch-aset_self key value env)
]

-- Neither the key of a header nor one that the server's name sets.
pub record IsGuarded (k : Key) : Type 0 where
  pub no_prefix : strip_prefix (codes "HTTP_") k ≡ none
  pub not_type : same_text (codes "CONTENT_TYPE") k ≡ false
  pub not_length : same_text (codes "CONTENT_LENGTH") k ≡ false
  pub not_name : same_text (codes "SERVER_NAME") k ≡ false
  pub not_port : same_text (codes "SERVER_PORT") k ≡ false

strip_prefix-same_text :
    (prefix rest k : List ℕ)
    → same_text (prefix ++ rest) k ≡ true
    → (left : List ℕ) × (strip_prefix prefix k ≡ some left)
unfolding same_text strip_prefix
strip_prefix-same_text [] rest k e = (k, refl)
strip_prefix-same_text (p ∷ prefix) rest [] e = absurd (ground (arith, e))
strip_prefix-same_text (p ∷ prefix) rest (c ∷ k) e =
    let (left, found) = strip_prefix-same_text prefix rest k (ground (arith, e)) in
    (left, ground (arith, e, found))

prefixed-ne :
    (rest k : List ℕ)
    → strip_prefix (codes "HTTP_") k ≡ none
    → same_text (codes "HTTP_" ++ rest) k ≡ false
prefixed-ne rest k none_left = elim (Bool-cases (same_text (codes "HTTP_" ++ rest) k)) [
  | inl e ↦
      let (left, found) = strip_prefix-same_text (codes "HTTP_") rest k e in
      absurd (none-ne-some left (sym none_left ∙ found))
  | inr e ↦ e
]

header_key-ne : (name : List ℕ) (k : Key) → IsGuarded k → same_text (header_key name) k ≡ false
unfolding header_key cgi_name
header_key-ne name k g = elim (Bool-cases (same_text name (codes "content-type"))) [
  | inl e ↦ rw e g.not_type
  | inr e ↦ elim (Bool-cases (same_text name (codes "content-length"))) [
    | inl e2 ↦ rw e (rw e2 g.not_length)
    | inr e2 ↦ rw e (rw e2 (prefixed-ne (map cgi_char name) k g.no_prefix))
  ]
]

module _ (F : Flume) (L : Lru) (ruby : Ruby) where
  set_value_env_ne :
      (meanwhile : Meanwhile L ruby) (key k : Key) (name value : List ℕ) (state : State L ruby)
      → same_text key k ≡ false
      → fetch k (set_value_env L ruby meanwhile key name value state).1 ≡ fetch k state.1
  unfolding set_value_env
  set_value_env_ne meanwhile key k name value (s, env) ne =
      elim (Bool-cases (ltb 512 (length value) || not (contains internable_values name))) [
        | inl e ↦ rw e (fetch-aset_ne key k _ env ne)
        | inr e ↦ rw e (fetch-aset_ne key k _ env ne)
      ]

  set_values_ne :
      (meanwhile : Meanwhile L ruby) (h : Header) (more : List (List ℕ)) (k : Key)
      (state : State L ruby)
      → same_text (header_key h.name) k ≡ false
      → fetch k (set_values F L ruby meanwhile h more state).1 ≡ fetch k state.1
  unfolding set_values
  set_values_ne meanwhile h [] k state ne =
      set_value_env_ne meanwhile (header_key h.name) k h.name h.first state ne
  set_values_ne meanwhile h (v ∷ more) k (s, env) ne = fetch-aset_ne (header_key h.name) k _ env ne

  pub set_header_ne :
      (meanwhile : Meanwhile L ruby) (h : Header) (k : Key) (state : State L ruby)
      → same_text (header_key h.name) k ≡ false
      → fetch k (set_header F L ruby meanwhile h state).1 ≡ fetch k state.1
  unfolding set_header
  set_header_ne meanwhile h k state ne = set_values_ne meanwhile h h.more k state ne

  pub set_headers_guarded :
      (meanwhile : Meanwhile L ruby) (headers : List Header) (k : Key) (state : State L ruby)
      → IsGuarded k
      → fetch k (set_headers F L ruby meanwhile headers state).1 ≡ fetch k state.1
  unfolding set_headers
  set_headers_guarded meanwhile [] k state g = refl
  set_headers_guarded meanwhile (h ∷ headers) k state g =
      set_headers_guarded meanwhile headers k (set_header F L ruby meanwhile h state) g
      ∙ set_header_ne meanwhile h k state (header_key-ne h.name k g)

  pub set_host_env_ne :
      (meanwhile : Meanwhile L ruby) (host : List ℕ) (made : List ℕ × ℕ) (k : Key)
      (state : State L ruby)
      → same_text (codes "SERVER_NAME") k ≡ false
      → same_text (codes "SERVER_PORT") k ≡ false
      → fetch k (set_host_env L ruby meanwhile host made state).1 ≡ fetch k state.1
  unfolding set_host_env
  set_host_env_ne meanwhile host made k (s, env) not_name not_port =
      fetch-aset_ne (codes "SERVER_PORT") k _ (aset (codes "SERVER_NAME") _ env) not_port
      ∙ fetch-aset_ne (codes "SERVER_NAME") k _ env not_name

  set_authority_env_guarded :
      (meanwhile : Meanwhile L ruby) (authority : List ℕ) (made : List ℕ × ℕ) (k : Key)
      (state : State L ruby)
      → IsGuarded k
      → fetch k (set_authority_env L ruby meanwhile authority made state).1 ≡ fetch k state.1
  unfolding set_authority_env
  set_authority_env_guarded meanwhile authority made k (s, env) g =
      fetch-aset_ne (codes "HTTP_HOST") k _
        (aset (codes "SERVER_PORT") _ (aset (codes "SERVER_NAME") _ env))
        (prefixed-ne (codes "HOST") k g.no_prefix)
      ∙ fetch-aset_ne (codes "SERVER_PORT") k _ (aset (codes "SERVER_NAME") _ env) g.not_port
      ∙ fetch-aset_ne (codes "SERVER_NAME") k _ env g.not_name

  -- Where the server's name is taken from.
  pub set_server_cases :
      (meanwhile : Meanwhile L ruby) (is_utf8 : List ℕ → Bool) (lossy : List ℕ → List ℕ)
      (head : RequestHead) (state : State L ruby)
      → ((authority : Authority) × (head.uri.authority ≡ some authority)
          × (set_server F L ruby meanwhile is_utf8 lossy head state
              ≡ set_authority_env L ruby meanwhile authority.as_str
                  (made_of_authority F L ruby authority head.local_port)
                  state))
        ⊎ ((host : List ℕ) × (made : List ℕ × ℕ) × (head.uri.authority ≡ none)
            × (set_server F L ruby meanwhile is_utf8 lossy head state
                ≡ set_host_env L ruby meanwhile host made state))
  unfolding set_server
  set_server_cases meanwhile is_utf8 lossy head state = elim (Option-cases head.uri.authority) [
    | inr (authority, e) ↦ inl (authority, e, ground (arith, e))
    | inl e ↦ elim (Option-cases (host_header head.headers)) [
      | inr (host, e2) ↦
          inr (
            host,
            made_of_host F L ruby is_utf8 lossy host head.local_port,
            e,
            ground (arith, e, e2),
          )
      | inl e2 ↦ inr (
        0 ∷ (head.local_ip ++ (58 ∷ decimal head.local_port)),
        (head.local_ip, head.local_port),
        e,
        ground (arith, e, e2),
      )
    ]
  ]

  set_server_guarded :
      (meanwhile : Meanwhile L ruby) (is_utf8 : List ℕ → Bool) (lossy : List ℕ → List ℕ)
      (head : RequestHead) (k : Key) (state : State L ruby)
      → IsGuarded k
      → fetch k (set_server F L ruby meanwhile is_utf8 lossy head state).1 ≡ fetch k state.1
  set_server_guarded meanwhile is_utf8 lossy head k state g =
      elim (set_server_cases meanwhile is_utf8 lossy head state) [
        | inl (authority, _, e) ↦
            ap (λ r. fetch k r.1) e
            ∙ set_authority_env_guarded meanwhile authority.as_str _ k state g
        | inr (host, made, _, e) ↦
            ap (λ r. fetch k r.1) e
            ∙ set_host_env_ne meanwhile host made k state g.not_name g.not_port
      ]

  -- No header, whatever its name, and no authority changes a key but CONTENT_TYPE, CONTENT_LENGTH,
  -- SERVER_NAME, SERVER_PORT and those that start with HTTP_: the others are as they were set from
  -- the request line, the connection and the Ruby layer's defaults.
  pub build_env_guarded :
      (meanwhile : Meanwhile L ruby) (defaults : Defaults) (is_utf8 : List ℕ → Bool)
      (lossy : List ℕ → List ℕ) (head : RequestHead) (ctx : Ctx F) (s : EnvStrings L) (k : Key)
      → IsGuarded k
      → fetch k (build_env F L ruby meanwhile defaults is_utf8 lossy head ctx s).1
        ≡ fetch k (start_env F L ruby meanwhile defaults head (body_possible F ctx) s).1
  unfolding build_env
  build_env_guarded meanwhile defaults is_utf8 lossy head ctx s k g =
      let started = start_env F L ruby meanwhile defaults head (body_possible F ctx) s in
      set_server_guarded meanwhile is_utf8 lossy head k
        (set_headers F L ruby meanwhile head.headers started) g
      ∙ set_headers_guarded meanwhile head.headers k started g
