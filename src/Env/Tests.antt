-- ===== src/Env/Tests.antt =====
-- The env of concrete requests.
use kino.Prelude.{
  sym, ℕ, ◌≡◌, refl, Bool, true, false, none, some, List, [], ◌∷◌, ◌++◌, All, codes, arith,
}
use mathlib.Core.Option.{none-ne-some}
use kino.Flume.{fifo}
use kino.Control.{same_text}
use kino.Names.{cgi_name, cgi_char}
use kino.Body.{Ctx, body_possible}
use kino.Lru.{Key}
use kino.Lru.Listed.{listed}
use kino.EnvStrings.{Ruby}
use kino.EnvStrings.Names.{Defaults}
use kino.EnvStrings.Caches.{init}
use kino.EnvStrings.Sections.{Section, settle_value}
use kino.EnvStrings.Honest.{IsHonest}
use kino.EnvStrings.Faithful.{init-IsFaithful}
use kino.Env.Decimal.{decimal}
use kino.Env.HostPort.{split_host_port, split_host_port-decimal, rsplit_once, named}
use kino.Env.{other, Header, RequestHead, text, fetch, header_key, header_value, joined, separator}
use kino.Env.Build.{build_env, start_env}
use kino.Env.Keys.{build_env_guarded}
use kino.Env.Fixed.{authority_or, method-IsGuarded}
use kino.Env.Values.{
  last_value, meanwhile, build_env-last_value, build_env-http_host, build_env-remote_addr,
}

abbrev ruby : Ruby
ruby = record {
  frozen = λ t. record { raw = 9; text = t };
  text-frozen = λ t. refl;
  raw-frozen = λ t. omega arith;
}

-- Two cookies, a spoofed method and a Host header, in a request for another authority.
abbrev headers : List Header
headers =
    record { name = codes "cookie"; first = codes "a=1"; more = codes "b=2" ∷ [] }
    ∷ record { name = codes "request_method"; first = codes "PUT"; more = [] }
    ∷ record { name = codes "host"; first = codes "old"; more = [] }
    ∷ []

abbrev head : RequestHead
head = record {
  method = codes "GET";
  uri = record {
    path = codes "/";
    query = none;
    authority = some (record { as_str = codes "new:1"; host = codes "new"; port_u16 = some 1 });
  };
  version = other;
  headers = headers;
  remote_ip = codes "::1";
  local_ip = codes "::1";
  local_port = 9292;
  https = false;
}

abbrev ctx : Ctx fifo
ctx = record { leftover = none; body_rx = none; interrupted = false; abandoned_code = 0 }

abbrev defaults : Defaults
defaults = record { errors_stream = none; null_input = some 4 }

abbrev others : Key → List Section
others key = settle_value (codes "gzip") (codes "gzip") ∷ []

abbrev others-IsHonest : (key : Key) → All IsHonest (others key)
others-IsHonest key = (refl, tt)

abbrev is_utf8 : List ℕ → Bool
is_utf8 t = true

abbrev lossy : List ℕ → List ℕ
lossy t = t

split_host_port-ipv6 : split_host_port (codes "[::1]:8080") 80 ≡ (codes "[::1]", 8080)
unfolding split_host_port named rsplit_once
split_host_port-ipv6 = refl

split_host_port-decimal_example :
    split_host_port (codes "[::1]" ++ 58 ∷ decimal 8080) 80 ≡ (codes "[::1]", 8080)
split_host_port-decimal_example =
    split_host_port-decimal (codes "[::1]") 8080 80 (λ e. absurd (ground (arith, e))) (omega arith)

build_env_guarded_example :
    fetch
      (codes "REQUEST_METHOD")
      (build_env fifo listed ruby
        (meanwhile fifo listed ruby others others-IsHonest)
        defaults
        is_utf8
        lossy
        head
        ctx
        (init listed)).1
    ≡ fetch
        (codes "REQUEST_METHOD")
        (start_env fifo listed ruby
          (meanwhile fifo listed ruby others others-IsHonest)
          defaults
          head
          (body_possible fifo ctx)
          (init listed)).1
build_env_guarded_example =
    build_env_guarded fifo listed ruby (meanwhile fifo listed ruby others others-IsHonest) defaults
      is_utf8 lossy head ctx (init listed) (codes "REQUEST_METHOD") method-IsGuarded

cookies : last_value (codes "HTTP_COOKIE") headers ≡ some (codes "a=1; b=2")
unfolding last_value header_key header_value joined separator same_text cgi_name cgi_char
cookies = refl

cookie_not_host : same_text (codes "HTTP_HOST") (codes "HTTP_COOKIE") ≡ false
unfolding same_text
cookie_not_host = refl

cookie_not_name : same_text (codes "SERVER_NAME") (codes "HTTP_COOKIE") ≡ false
unfolding same_text
cookie_not_name = refl

cookie_not_port : same_text (codes "SERVER_PORT") (codes "HTTP_COOKIE") ≡ false
unfolding same_text
cookie_not_port = refl

build_env-last_value_example :
    fetch
      (codes "HTTP_COOKIE")
      (build_env fifo listed ruby
        (meanwhile fifo listed ruby others others-IsHonest)
        defaults
        is_utf8
        lossy
        head
        ctx
        (init listed)).1
    ≡ some (text (codes "a=1; b=2"))
build_env-last_value_example =
    build_env-last_value fifo listed ruby others others-IsHonest defaults is_utf8 lossy head ctx
      (init listed) (codes "HTTP_COOKIE") (codes "a=1; b=2") (init-IsFaithful listed ruby) cookies
      cookie_not_host cookie_not_name cookie_not_port

-- As over HTTP/2: an authority and no Host header.
abbrev without_host : RequestHead
without_host = record head { headers = [] }

build_env-http_host_example :
    fetch
      (codes "HTTP_HOST")
      (build_env fifo listed ruby
        (meanwhile fifo listed ruby others others-IsHonest)
        defaults
        is_utf8
        lossy
        without_host
        ctx
        (init listed)).1
    ≡ some (text (authority_or [] without_host.uri.authority))
build_env-http_host_example =
    build_env-http_host fifo listed ruby others others-IsHonest defaults is_utf8 lossy without_host
      ctx (init listed) [] (init-IsFaithful listed ruby)
      (λ missing. absurd (none-ne-some _ (sym missing)))

build_env-remote_addr_example :
    (fetch
        (codes "REMOTE_ADDR")
        (build_env fifo listed ruby
          (meanwhile fifo listed ruby others others-IsHonest)
          defaults
          is_utf8
          lossy
          head
          ctx
          (init listed)).1
      ≡ some (text (codes "::1")))
    × (fetch
          (codes "REQUEST_METHOD")
          (build_env fifo listed ruby
            (meanwhile fifo listed ruby others others-IsHonest)
            defaults
            is_utf8
            lossy
            head
            ctx
            (init listed)).1
        ≡ some (text (codes "GET")))
build_env-remote_addr_example =
    build_env-remote_addr fifo listed ruby others others-IsHonest defaults is_utf8 lossy head ctx
      (init listed) (init-IsFaithful listed ruby)
