-- ===== src/Names.antt =====
-- ext/kino/src/env_strings.rs, log.rs, style.rs, listen.rs: the names that texts are turned into.
-- Texts are lists of bytes.
pub mod Cgi
pub mod Lines
mod Tests
use kino.Prelude.{
  ℕ, ◌+◌, ◌-◌, ◌==◌, leb, if◌then◌else◌, Bool, true, false, ◌&&◌, Option, none, some, List, [], ◌∷◌,
  ◌++◌, map, String, codes,
}
use kino.Control.{same_text, strip_prefix}

-- '-' is 45, '_' 95, and the lower case letters are 97 to 122.
unfoldable pub cgi_char : ℕ → ℕ
cgi_char c = if c == 45 then 95 else if leb 97 c && leb c 122 then c - 32 else c

unfoldable pub cgi_name : List ℕ → List ℕ
cgi_name lower = codes "HTTP_" ++ map cgi_char lower

pub data Level : Type 0 where
  info warn error : Level

pub data Stream : Type 0 where
  stdout stderr : Stream

pub parse : List ℕ → Option Level
parse name =
    if same_text name (codes "info")
    then some info
    else if same_text name (codes "warn")
    then some warn
    else if same_text name (codes "error")
    then some error
    else none

pub stream : Level → Stream
stream info = stdout
stream warn = stderr
stream error = stderr

abbrev pub dim : String
dim = "90"

abbrev pub warn_code : String
warn_code = "33"

abbrev pub error_code : String
error_code = "91"

pub sgr : Level → String
sgr info = dim
sgr warn = warn_code
sgr error = error_code

unfoldable pub status_sgr : ℕ → Option String
status_sgr status =
    if leb 200 status && leb status 299
    then some "1;32"
    else if leb 300 status && leb status 399
    then some "1;33"
    else if leb 400 status && leb status 499
    then some "1;31"
    else if leb 500 status && leb status 599
    then some "1;91"
    else none

-- The socket path of a `unix://` bind.
unfoldable pub unix_path : List ℕ → Option (List ℕ)
unix_path bind = strip_prefix (codes "unix://") bind
