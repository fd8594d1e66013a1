-- ===== src/Start/Controls.antt =====
-- control.rs: the control endpoints, one thread each, by the id of their server.
use kino.Prelude.{
  ap, sym, ◌∙◌, Option-cases, inl, inr, ◌≡◌, refl, arith, ℕ, ◌==◌, if◌then◌else◌, Bool, true, false,
  Option, none, some, List, [], ◌∷◌,
}
use kino.Names.{unix_path}
use kino.Listen.{Os, Bound, bound, in_use, io_error, bind_unix}

pub data ControlBind : Type 0 where
  tcp : ℕ → ControlBind
  unix : List ℕ → ControlBind
  no_control : ControlBind

-- The thread's stop signal and its socket file.
pub record ControlHandle : Type 0 where
  pub stop : Bool
  pub unix_path : Option (List ℕ)

abbrev pub Table : Type 0
Table = List (ℕ × ControlHandle)

unfoldable pub find : ℕ → Table → Option ControlHandle
find id [] = none
find id ((key, handle) ∷ table) =
    let rest = find id table in if key == id then some handle else rest

pub without : ℕ → Table → Table
without id [] = []
without id ((key, handle) ∷ table) =
    let rest = without id table in if key == id then rest else (key, handle) ∷ rest

abbrev pub handle_path : Option ControlHandle → Option (List ℕ)
handle_path none = none
handle_path (some handle) = handle.unix_path

abbrev pub port_of : ControlBind → Option ℕ
port_of (tcp p) = some p
port_of (unix path) = none
port_of no_control = none

abbrev pub path_of : ControlBind → Option (List ℕ)
path_of (tcp p) = none
path_of (unix path) = some path
path_of no_control = none

module _ (os : Os) where
  open os use {State, remove_file}

  abbrev pub bound_unix : List ℕ → State × Bound → State × ControlBind
  bound_unix path (s, bound) = (s, unix path)
  bound_unix path (s, in_use) = (s, no_control)
  bound_unix path (s, io_error) = (s, no_control)

  -- `bind_control`; `bind_addr` binds TCP to an address with its port.
  unfoldable pub bind_control :
      (State → List ℕ → State × Option ℕ) → State → List ℕ → State × ControlBind
  bind_control bind_addr s addr = elim (unix_path addr) [
    | some path ↦ bound_unix path (bind_unix os s path)
    | none ↦
        let (s', got) = bind_addr s addr in
        elim got [ some p ↦ (s', tcp p) | none ↦ (s', no_control) ]
  ]

  abbrev pub remove_path : State → Option (List ℕ) → State
  remove_path s none = s
  remove_path s (some path) = (remove_file s path).0

  -- `start`: the thread is entered in the table, or, if it could not be spawned, its socket file
  -- goes. True for success.
  unfoldable pub start : Bool → State → Table → ℕ → ControlBind → State × Table × Bool
  unfolding without
  start spawned s table id bind =
      if spawned
      then (s, (id, record { stop = false; unix_path = path_of bind }) ∷ without id table, true)
      else (remove_path s (path_of bind), table, false)

  -- `control_stop`: the thread is told to stop and joined, and its socket file goes.
  pub control_stop : State → Table → ℕ → State × Table
  unfolding find without
  control_stop s table id = elim (find id table) [
    | none ↦ (s, without id table)
    | some handle ↦ (remove_path s handle.unix_path, without id table)
  ]

  find-without :
      (id key : ℕ) (table : Table)
      → find id (without key table) ≡ (if key == id then none else find id table)
  unfolding find without
  find-without id key [] = ground arith
  find-without id key ((k, handle) ∷ table) = ground (arith, find-without id key table)

  without-missing : (id : ℕ) (table : Table) → find id table ≡ none → without id table ≡ table
  unfolding find without
  without-missing id [] e = refl
  without-missing id ((k, handle) ∷ table) e = ground (arith, without-missing id table, e)

  table_after :
      (s : State) (table : Table) (id : ℕ) → (control_stop s table id).1 ≡ without id table
  unfolding control_stop
  table_after s table id = elim (Option-cases (find id table)) [
    | inl e ↦ ground (arith, e)
    | inr (handle, e) ↦ ground (arith, e)
  ]

  state_after :
      (s : State) (table : Table) (id : ℕ)
      → (control_stop s table id).0 ≡ remove_path s (handle_path (find id table))
  unfolding control_stop
  state_after s table id = elim (Option-cases (find id table)) [
    | inl e ↦
        let eq : s ≡ (control_stop s table id).0 = ground (arith, e) in
        sym eq ∙ ap (λ h. remove_path s (handle_path h)) (sym e)
    | inr (handle, e) ↦
        let eq : remove_path s handle.unix_path ≡ (control_stop s table id).0 = ground (arith, e) in
        sym eq ∙ ap (λ h. remove_path s (handle_path h)) (sym e)
  ]

  same_id : (id : ℕ) (o : Option ControlHandle) → (if id == id then none else o) ≡ none
  same_id id o = ground arith

  -- A stop of an id that has no endpoint.
  again :
      (s : State) (table : Table) (id : ℕ)
      → find id table ≡ none
      → control_stop s table id ≡ (s, table)
  unfolding control_stop
  again s table id e = ground (arith, e, without-missing id table e)

  -- Stopping a control endpoint takes it out of the table and no other, removes its socket file,
  -- and a second stop, or one of an id that has none, changes nothing.
  control_stop-control_stop :
      (s : State) (table : Table) (id other : ℕ)
      → let (s', table') = control_stop s table id in
        (find other table' ≡ (if id == other then none else find other table))
        × (s' ≡ remove_path s (handle_path (find id table)))
        × (control_stop s' table' id ≡ (s', table'))
  unfolding control_stop
  control_stop-control_stop s table id other = (
    ap (find other) (table_after s table id) ∙ find-without other id table,
    state_after s table id,
    again (control_stop s table id).0 (control_stop s table id).1 id (
        ap (find id) (table_after s table id)
        ∙ find-without id id table
        ∙ same_id id (find id table)),
  )
