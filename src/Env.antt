-- ===== src/Env.antt =====
-- ext/kino/src/request.rs, `build_env`, and ext/kino/src/env_strings.rs, the calls that set keys of
-- the Rack env. Texts are lists of bytes. What http makes of a request is in `RequestHead`: each
-- header name once, in order, with its values; an address is the text that it is printed as. The
-- env is a Hash in insertion order. `meanwhile` is what the other workers do to the caches between
-- the two critical sections of the call that sets the given key.
pub mod Decimal
pub mod HostPort
pub mod Build
pub mod Keys
pub mod Fixed
pub mod Values
mod Tests
use kino.Prelude.{
  ℕ, ltb, if◌then◌else◌, Bool, true, false, not, ◌||◌, Option, none, some, List, [], ◌∷◌, ◌++◌,
  length, codes,
}
use kino.Control.{same_text}
use kino.Names.{cgi_name}
use kino.Lru.{Lru, Key}
use kino.EnvStrings.{Ruby, RString, value_intern_max_len}
use kino.EnvStrings.Names.{contains, internable_values}
use kino.EnvStrings.Caches.{EnvStrings, host_env, addr_env, value_env, authority_env}
use kino.Env.Decimal.{decimal}

pub record Authority : Type 0 where
  pub as_str : List ℕ
  pub host : List ℕ
  pub port_u16 : Option ℕ

pub record Uri : Type 0 where
  pub path : List ℕ
  pub query : Option (List ℕ)
  pub authority : Option Authority

pub data Version : Type 0 where
  http_10 http_2 other : Version

pub record Header : Type 0 where
  pub name : List ℕ
  pub first : List ℕ
  pub more : List (List ℕ)

pub record RequestHead : Type 0 where
  pub method : List ℕ
  pub uri : Uri
  pub version : Version
  pub headers : List Header
  pub remote_ip : List ℕ
  pub local_ip : List ℕ
  pub local_port : ℕ
  pub https : Bool

-- A string's bytes, or one of the Ruby layer's objects.
pub data EnvValue : Type 0 where
  text : List ℕ → EnvValue
  object : ℕ → EnvValue

abbrev pub Env : Type 0
Env = List (Key × EnvValue)

-- `Hash#[]=`.
pub aset : Key → EnvValue → Env → Env
aset key value [] = (key, value) ∷ []
aset key value (entry ∷ env) =
    let rest = aset key value env in
    if same_text entry.0 key then (entry.0, value) ∷ env else entry ∷ rest

pub fetch : Key → Env → Option EnvValue
fetch key [] = none
fetch key (entry ∷ env) = if same_text entry.0 key then some (entry.1) else fetch key env

-- The key of a header's value.
pub header_key : List ℕ → Key
unfolding cgi_name
header_key name =
    if same_text name (codes "content-type")
    then codes "CONTENT_TYPE"
    else if same_text name (codes "content-length")
    then codes "CONTENT_LENGTH"
    else cgi_name name

pub joined : List ℕ → List ℕ → List (List ℕ) → List ℕ
joined sep first [] = first
joined sep first (value ∷ more) = joined sep (first ++ sep ++ value) more

pub separator : List ℕ → List ℕ
separator name = if same_text name (codes "cookie") then codes "; " else codes ", "

pub header_value : Header → List ℕ
unfolding joined separator
header_value h = joined (separator h.name) h.first h.more

module _ (L : Lru) (ruby : Ruby) where
  open ruby use {frozen}

  abbrev pub Meanwhile : Type 0
  Meanwhile = Key → EnvStrings L → EnvStrings L

  abbrev pub State : Type 0
  State = EnvStrings L × Env

  pub set_host_env : Meanwhile → List ℕ → List ℕ × ℕ → State → State
  unfolding host_env
  set_host_env meanwhile host made (s, env) =
      let (found, s') =
        host_env L (meanwhile (codes "SERVER_NAME")) host (frozen made.0, frozen (decimal made.1))
          s in
      (
        s',
        aset (codes "SERVER_PORT") (text found.1.text)
            (aset (codes "SERVER_NAME") (text found.0.text) env),
      )

  pub set_authority_env : Meanwhile → List ℕ → List ℕ × ℕ → State → State
  unfolding authority_env
  set_authority_env meanwhile authority made (s, env) =
      let (found, s') =
        authority_env L (meanwhile (codes "SERVER_NAME")) authority
          (frozen made.0, frozen (decimal made.1)) (frozen authority) s in
      (
        s',
        aset (codes "HTTP_HOST") (text found.1.text) (
            aset (codes "SERVER_PORT") (text found.0.1.text)
              (aset (codes "SERVER_NAME") (text found.0.0.text) env)),
      )

  pub set_value_env : Meanwhile → Key → List ℕ → List ℕ → State → State
  unfolding value_env
  set_value_env meanwhile key name value (s, env) =
      let (found, s') = value_env L (meanwhile key) value (frozen value) s in
      if ltb value_intern_max_len (length value) || not (contains internable_values name)
      then (s, aset key (text value) env)
      else (s', aset key (text found.text) env)

  pub set_addr_env : Meanwhile → List ℕ → State → State
  unfolding addr_env
  set_addr_env meanwhile ip (s, env) =
      let (found, s') = addr_env L (meanwhile (codes "REMOTE_ADDR")) ip (frozen ip) s in
      (s', aset (codes "REMOTE_ADDR") (text found.text) env)
