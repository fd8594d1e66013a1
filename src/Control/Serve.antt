-- ===== src/Control/Serve.antt =====
-- ext/kino/src/control.rs, `serve` and `spawn_connection`: the control endpoint's connections.
-- A connection is a value of `A`. When the loop returns, its runtime drops the tasks that are left.
use kino.Prelude.{
  ℕ, ◌+◌, ◌-◌, ◌≡◌, ◌==◌, refl, ◌∙◌, inl, inr, if◌then◌else◌, Bool, true, false, Option-cases, none,
  some, List, [], ◌∷◌, ◌++◌, length, length-snoc, arith,
}
use kino.Shards.Plane.{pick}
use kino.Shards.Plane.Totals.{length-pick}

abbrev pub control_max_connections : ℕ
control_max_connections = 16

pub data Event (A : Type 0) : Type 0 where
  stop accept_fails : Event A
  accepts : A → Event A
  ends : ℕ → Event A

pub record Endpoint (A : Type 0) : Type 0 where
  pub permits : ℕ
  pub connections : List A
  pub serving : Bool

module _ {A : Type 0} where
  pub opened : Endpoint A
  opened = record { permits = control_max_connections; connections = []; serving = true }

  -- A connection that finds no permit is dropped; an error of `accept` waits and goes on.
  pub serve : Event A → Endpoint A → Endpoint A
  unfolding pick
  serve stop e = record {
    permits = e.permits + length e.connections;
    connections = [];
    serving = false;
  }
  serve accept_fails e = e
  serve (accepts conn) e =
      if e.serving
      then (if e.permits == 0
          then e
          else record e { permits = e.permits - 1; connections = e.connections ++ conn ∷ [] })
      else e
  serve (ends k) e = elim (pick e.connections k) [
    | none ↦ e
    | some (_, rest) ↦ record e { permits = e.permits + 1; connections = rest }
  ]

  pub serve_all : List (Event A) → Endpoint A → Endpoint A
  unfolding serve
  serve_all [] e = e
  serve_all (event ∷ events) e = serve_all events (serve event e)

  -- The permits that are free and those of the connections.
  abbrev pub permits_of : Endpoint A → ℕ
  permits_of e = e.permits + length e.connections

  permits_of-serve : (event : Event A) (e : Endpoint A) → permits_of (serve event e) ≡ permits_of e
  unfolding serve
  permits_of-serve stop e = omega arith
  permits_of-serve accept_fails e = refl
  permits_of-serve (accepts conn) e = ground (arith, length-snoc e.connections conn)
  permits_of-serve (ends k) e = elim (Option-cases (pick e.connections k)) [
    | inl gone ↦ ground (arith, gone)
    | inr ((conn, rest), here) ↦ ground (arith, here, length-pick e.connections k conn rest here)
  ]

  -- At most 16 connections are served at a time, whatever happens: with the permits that are free
  -- they make sixteen.
  permits_of-serve_all :
      (events : List (Event A)) → permits_of (serve_all events opened) ≡ control_max_connections
  unfolding opened serve_all
  permits_of-serve_all events = from events opened
    where
      from :
          (events : List (Event A)) (e : Endpoint A)
          → permits_of (serve_all events e) ≡ permits_of e
      from [] e = refl
      from (event ∷ rest) e = from rest (serve event e) ∙ permits_of-serve event e
