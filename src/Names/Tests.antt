-- ===== src/Names/Tests.antt =====
-- The key of `x-a`.
use kino.Prelude.{◌≡◌, refl, codes, arith, All, true, false, none, some, [], ◌∷◌, ◌++◌}
use kino.Control.{same_text}
use kino.Env.Decimal.{digits}
use kino.Names.{cgi_char, cgi_name, error, Stream, stdout, stderr, parse, stream, sgr}
use kino.Names.Lines.{Terminal, enabled, styled, label, format_line, emit, log_line}
use kino.Names.Cgi.{IsPlain}

key : cgi_name (codes "x-a") ≡ codes "HTTP_X_A"
unfolding cgi_name cgi_char
key = refl

plain : All IsPlain (codes "x-a")
plain = ground arith

-- A terminal, and a file.
terminals : Stream → Terminal
terminals stdout = record { is_terminal = true; no_color = none; term = some (codes "xterm") }
terminals stderr = record { is_terminal = false; no_color = none; term = none }

warns :
    log_line terminals 4213 (codes "warn") (codes "main") (codes "hi")
    ≡ some (stderr, codes "kino[4213] main: hi" ++ 10 ∷ [])
unfolding log_line emit format_line label enabled styled terminals parse stream sgr same_text digits
warns = refl

colors :
    format_line error (codes "kino[42] main:") (codes "boom") true
    ≡ (27 ∷ codes "[91mkino[42] main:") ++ (27 ∷ codes "[0m boom")
unfolding format_line styled sgr
colors = refl
