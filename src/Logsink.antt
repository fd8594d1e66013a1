-- ===== src/Logsink.antt =====
-- ext/kino/src/logsink.rs: lines queued by any thread, written by one flusher thread.
-- A line is its bytes. `out` lists the lines handed to the output, and `flushed` those of them that
-- were flushed. An output that fails is not modelled: the code ignores it. The flusher's batch is one
-- step, in which no line is queued.
pub mod Order
pub mod Closed
mod Tests
use kino.Prelude.{
  ℕ, zero, suc, ◌+◌, ◌==◌, if◌then◌else◌, Bool, true, false, Option, none, some, List, [], ◌∷◌,
  ◌++◌, length, word,
}
use kino.Flume.{Flume, TrySend, TryRecv, sent, full, received, empty}

abbrev pub Line : Type 0
Line = List ℕ

abbrev pub sink_capacity : ℕ
sink_capacity = 8192

pub record Sink (C : Type 0) : Type 0 where
  pub rx : C
  pub out : List Line
  pub flushed : List Line
  pub exited : Bool

-- `trim_end_matches('\n')`; a newline is 10.
pub trim_end : Line → Line
trim_end [] = []
trim_end (c ∷ line) = elim (trim_end line) [
  | [] ↦ if c == 10 then [] else c ∷ []
  | d ∷ rest ↦ c ∷ (d ∷ rest)
]

module _ (F : Flume) where
  open F use {Chan, bounded, items, try_send, try_recv, drop_sender}

  abbrev pub LineSink : Type 0
  LineSink = Sink (Chan Line)

  unfoldable pub new : LineSink
  new = record { rx = bounded sink_capacity; out = []; flushed = []; exited = false }

  -- With whether the line was queued; a full channel drops it.
  pub write_line : LineSink → Line → LineSink × Bool
  write_line s line = elim (try_send s.rx line) [
    | sent rx ↦ (record s { rx = rx }, true)
    | full ↦ (s, false)
    | TrySend.disconnected ↦ (s, false)
  ]

  -- `while let Ok(line) = rx.try_recv()`: `n` receives are left.
  pub drain_lines : ℕ → LineSink → LineSink
  drain_lines zero s = s
  drain_lines (suc n) s = elim (try_recv s.rx) [
    | received line rx ↦ drain_lines n (record s { rx = rx; out = s.out ++ line ∷ [] })
    | _ ↦ s
  ]

  abbrev pub flush : LineSink → LineSink
  flush s = record s { flushed = s.out }

  -- One round of the flusher: it waits for a line, or drains and flushes, or exits.
  pub flusher_round : LineSink → LineSink
  unfolding drain_lines
  flusher_round s = elim (try_recv s.rx) [
    | received line rx ↦
        flush (drain_lines (length (items rx)) (record s { rx = rx; out = s.out ++ line ∷ [] }))
    | empty ↦ s
    | TryRecv.disconnected ↦ record (flush s) { exited = true }
  ]

  -- The devices by id, and the sinks of closed ones, whose flushers drain on.
  pub record Devices : Type 0 where
    pub open_sinks : List (ℕ × LineSink)
    pub closed_sinks : List LineSink
    pub next_device_id : ℕ

  -- The Bool is whether the output could be opened; none is the error.
  unfoldable pub device_open : Devices → Bool → Devices × Option ℕ
  unfolding new
  device_open d true = (
    record d {
      open_sinks = (d.next_device_id, new) ∷ d.open_sinks;
      next_device_id = word (d.next_device_id + 1);
    },
    some d.next_device_id,
  )
  device_open d false = (d, none)

  write_to : ℕ → Line → List (ℕ × LineSink) → List (ℕ × LineSink)
  unfolding write_line
  write_to id line [] = []
  write_to id line ((key, s) ∷ sinks) =
      let rest = write_to id line sinks in
      if key == id then (key, (write_line s line).0) ∷ sinks else (key, s) ∷ rest

  unfoldable pub device_write : Devices → ℕ → Line → Devices
  unfolding write_to trim_end
  device_write d id message = record d { open_sinks = write_to id (trim_end message) d.open_sinks }

  -- Its only sender is dropped; the flusher drains on.
  abbrev pub dropped_sink : LineSink → LineSink
  dropped_sink s = record s { rx = drop_sender s.rx }

  drop_device : ℕ → List (ℕ × LineSink) → List (ℕ × LineSink) × List LineSink
  drop_device id [] = ([], [])
  drop_device id ((key, s) ∷ sinks) =
      let (kept, dropped) = drop_device id sinks in
      if key == id then (kept, dropped_sink s ∷ dropped) else ((key, s) ∷ kept, dropped)

  unfoldable pub device_close : Devices → ℕ → Devices
  unfolding drop_device
  device_close d id =
      let (kept, dropped) = drop_device id d.open_sinks in
      record d { open_sinks = kept; closed_sinks = dropped ++ d.closed_sinks }
