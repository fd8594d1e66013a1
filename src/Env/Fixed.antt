-- ===== src/Env/Fixed.antt =====
-- The keys of the env that are set from the connection and the request line.
use kino.Prelude.{ℕ, ◌≡◌, refl, ◌∙◌, Bool, true, false, Option, none, some, List, codes}
use kino.Control.{same_text, strip_prefix}
use kino.Lru.{Key}
use kino.EnvStrings.Names.{Defaults}
use kino.Env.{Authority, RequestHead, text, object, Env, aset, fetch}
use kino.Env.Build.{static_env, set_rack, set_object}
use kino.Env.Keys.{fetch-aset_ne, IsGuarded}

-- The authority, or else the value.
abbrev pub authority_or : List ℕ → Option Authority → List ℕ
authority_or v none = v
authority_or v (some a) = a.as_str

pub name_not_host : same_text (codes "SERVER_NAME") (codes "HTTP_HOST") ≡ false
unfolding same_text
name_not_host = refl

pub port_not_host : same_text (codes "SERVER_PORT") (codes "HTTP_HOST") ≡ false
unfolding same_text
port_not_host = refl

pub remote-IsGuarded : IsGuarded (codes "REMOTE_ADDR")
unfolding same_text strip_prefix
remote-IsGuarded = record {
  no_prefix = refl;
  not_type = refl;
  not_length = refl;
  not_name = refl;
  not_port = refl;
}

pub method-IsGuarded : IsGuarded (codes "REQUEST_METHOD")
unfolding same_text strip_prefix
method-IsGuarded = record {
  no_prefix = refl;
  not_type = refl;
  not_length = refl;
  not_name = refl;
  not_port = refl;
}

pub set_object_ne :
    (key k : Key) (o : Option ℕ) (env : Env)
    → same_text key k ≡ false
    → fetch k (set_object key o env) ≡ fetch k env
unfolding set_object
set_object_ne key k none env ne = refl
set_object_ne key k (some o) env ne = fetch-aset_ne key k (object o) env ne

pub set_rack_ne :
    (defaults : Defaults) (https possible : Bool) (env : Env) (k : Key)
    → same_text (codes "rack.url_scheme") k ≡ false
    → same_text (codes "rack.errors") k ≡ false
    → same_text (codes "rack.input") k ≡ false
    → fetch k (set_rack defaults https possible env) ≡ fetch k env
unfolding set_rack
set_rack_ne defaults https true env k scheme errors input =
    set_object_ne (codes "rack.errors") k defaults.errors_stream _ errors
    ∙ fetch-aset_ne (codes "rack.url_scheme") k _ env scheme
set_rack_ne defaults https false env k scheme errors input =
    set_object_ne (codes "rack.input") k defaults.null_input _ input
    ∙ set_object_ne (codes "rack.errors") k defaults.errors_stream _ errors
    ∙ fetch-aset_ne (codes "rack.url_scheme") k _ env scheme

-- No rack key is the peer's address or the method.
pub rack_remote :
    (env : Env) (defaults : Defaults) (https possible : Bool)
    → fetch (codes "REMOTE_ADDR") (set_rack defaults https possible env)
      ≡ fetch (codes "REMOTE_ADDR") env
unfolding same_text
rack_remote env defaults https possible =
    set_rack_ne defaults https possible env (codes "REMOTE_ADDR") refl refl refl

pub rack_method :
    (env : Env) (defaults : Defaults) (https possible : Bool)
    → fetch (codes "REQUEST_METHOD") (set_rack defaults https possible env)
      ≡ fetch (codes "REQUEST_METHOD") env
unfolding same_text
rack_method env defaults https possible =
    set_rack_ne defaults https possible env (codes "REQUEST_METHOD") refl refl refl

pub remote_not_method : same_text (codes "REMOTE_ADDR") (codes "REQUEST_METHOD") ≡ false
unfolding same_text
remote_not_method = refl

pub static_env-request_method :
    (head : RequestHead)
    → fetch (codes "REQUEST_METHOD") (static_env head) ≡ some (text head.method)
unfolding static_env aset fetch same_text
static_env-request_method head = refl
