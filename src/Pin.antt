-- ===== src/Pin.antt =====
-- ext/kino/src/pin.rs: the slab of GC-rooted values behind zero-copy bodies and cached strings.
-- A slot holds a Ruby VALUE as a number, 0 for an empty slot. `insert` and `release` are one
-- atomic action each; their atomic loads, stores and exchanges are reads and writes of `slots`.
pub mod Claim
mod Tests
use kino.Prelude.{
  ℕ, zero, suc, ◌+◌, ◌%◌, ◌==◌, ltb, if◌then◌else◌, Bool, true, false, ◌&&◌, not, Option, none,
  some, List, [], ◌∷◌, get_or, set, length, replicate, word,
}

pub record PinSlab : Type 0 where
  pub slots : List ℕ
  pub cursor : ℕ
  pub shareable_only : Bool

abbrev pub slab_capacity : ℕ
slab_capacity = 4096

abbrev pub zero_copy_min : ℕ
zero_copy_min = 4096

unfoldable pub with_capacity : ℕ → PinSlab
with_capacity capacity = record { slots = replicate capacity 0; cursor = 0; shareable_only = false }

-- `per_ractor_gc` is the build flag `cfg!(ruby_gte_4_1)`.
unfoldable pub for_responses : Bool → Bool → PinSlab
unfolding with_capacity
for_responses per_ractor_gc ractor_mode = record (with_capacity slab_capacity) {
  shareable_only = ractor_mode && per_ractor_gc;
}

-- The scan of `insert`: `n` offsets are left, and the first empty slot is taken.
unfoldable pub claim : ℕ → ℕ → ℕ → List ℕ → Option ℕ
claim zero start offset slots = none
claim (suc n) start offset slots =
    let index = word (start + offset) % length slots in
    let rest = claim n start (offset + 1) slots in
    if get_or slots index 0 == 0 then some index else rest

-- `fetch_add` moves the cursor whether or not a slot is found.
unfoldable pub insert : PinSlab → ℕ → PinSlab × Option ℕ
unfolding claim
insert s value =
    let moved : PinSlab = record s { cursor = word (s.cursor + 1) } in
    elim (claim (length s.slots) s.cursor 0 s.slots) [
      | none ↦ (moved, none)
      | some index ↦ (record moved { slots = set s.slots index value }, some index)
    ]

unfoldable pub release : PinSlab → ℕ → PinSlab
release s index = record s { slots = set s.slots index 0 }

-- The values that the GC's mark hook marks.
mark_slots : List ℕ → List ℕ
mark_slots [] = []
mark_slots (value ∷ slots) =
    let rest = mark_slots slots in if value == 0 then rest else value ∷ rest

pub mark_all : PinSlab → List ℕ
unfolding mark_slots
mark_all s = mark_slots s.slots

-- The slot that roots the body's buffer, if the body rides without a copy. `tmp` is the VALUE that
-- `rb_str_tmp_frozen_acquire` gives for the body, and `flagged` whether it carries the shareable
-- flag; both are Ruby's.
pub pinned_bytes : PinSlab → ℕ → ℕ → Bool → PinSlab × Option ℕ
unfolding insert
pinned_bytes s body_len tmp flagged =
    if ltb body_len zero_copy_min
    then (s, none)
    else if s.shareable_only && not flagged
    then (s, none)
    else insert s tmp
