-- ===== src/EnvStrings/Names.antt =====
-- env_strings.rs: the names that are cached for the life of the process, and the shared defaults.
use kino.Prelude.{
  ℕ, if◌then◌else◌, Bool, false, ◌&&◌, ◌||◌, Option, none, some, List, [], ◌∷◌, String, codes,
}
use kino.Control.{same_text}

abbrev pub common_methods : List String
common_methods =
    "GET" ∷ "HEAD" ∷ "POST" ∷ "PUT" ∷ "DELETE" ∷ "PATCH" ∷ "OPTIONS" ∷ "TRACE" ∷ "CONNECT" ∷ []

abbrev pub common_headers : List String
common_headers =
    "host" ∷ "connection" ∷ "user-agent" ∷ "accept" ∷ "accept-encoding" ∷ "accept-language"
    ∷ "accept-charset" ∷ "cookie" ∷ "referer" ∷ "origin" ∷ "authorization" ∷ "cache-control"
    ∷ "pragma" ∷ "expect" ∷ "forwarded" ∷ "via" ∷ "range" ∷ "te" ∷ "dnt"
    ∷ "upgrade-insecure-requests" ∷ "if-none-match" ∷ "if-modified-since" ∷ "if-match"
    ∷ "if-unmodified-since" ∷ "if-range" ∷ "x-forwarded-for" ∷ "x-forwarded-proto"
    ∷ "x-forwarded-host" ∷ "x-forwarded-port" ∷ "x-real-ip" ∷ "x-request-id" ∷ "x-requested-with"
    ∷ "x-csrf-token" ∷ "x-api-key" ∷ "content-encoding" ∷ "content-language" ∷ "sec-fetch-dest"
    ∷ "sec-fetch-mode" ∷ "sec-fetch-site" ∷ "sec-fetch-user" ∷ "sec-ch-ua" ∷ "sec-ch-ua-mobile"
    ∷ "sec-ch-ua-platform" ∷ "keep-alive" ∷ "priority" ∷ "alt-used" ∷ []

-- The headers whose values are interned.
abbrev pub internable_values : List String
internable_values =
    "user-agent" ∷ "accept" ∷ "accept-encoding" ∷ "accept-language" ∷ "cache-control" ∷ "dnt"
    ∷ "origin" ∷ "pragma" ∷ "priority" ∷ "sec-ch-ua" ∷ "sec-ch-ua-mobile" ∷ "sec-ch-ua-platform"
    ∷ "sec-fetch-dest" ∷ "sec-fetch-mode" ∷ "sec-fetch-site" ∷ "sec-fetch-user"
    ∷ "upgrade-insecure-requests" ∷ "x-requested-with" ∷ []

-- A lookup in the table that `init` builds of the names.
unfoldable pub contains : List String → List ℕ → Bool
contains [] name = false
contains (known ∷ rest) name = same_text name (codes known) || contains rest name

-- The objects that the Ruby layer gives at boot.
pub record Defaults : Type 0 where
  pub errors_stream : Option ℕ
  pub null_input : Option ℕ

-- `register_defaults`; each object comes with what `Ractor.shareable?` says of it.
unfoldable pub register_defaults : ℕ × Bool → ℕ × Bool → Option Defaults
register_defaults (errors, errors_shareable) (null_input, null_shareable) =
    if errors_shareable && null_shareable
    then some (record { errors_stream = some errors; null_input = some null_input })
    else none
