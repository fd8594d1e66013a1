-- ===== src/Pin/Claim.antt =====
-- What `PinSlab::insert` and `release` do to the slots.
use kino.Prelude.{
  ℕ, zero, suc, ◌+◌, ◌%◌, ◌^◌, ◌≤◌, ◌<◌, ◌≡◌, ◌≢◌, inl, inr, ap, sym, subst, ◌∙◌, Bool, true, false,
  ◌⊎◌, none, some, Option-cases, List, [], ◌∷◌, get_or, set, length, set-set_self, get_or-set_self,
  get_or-set_ne, word, offset_of, offset_of-lt, word-offset_of, ◌↔◌, arith,
}
use kino.Pin.{PinSlab, claim, insert, release, pinned_bytes, zero_copy_min, mark_slots, mark_all}

-- A slot that the scan takes is in range and empty.
claim-empty :
    (n start offset : ℕ) (slots : List ℕ) (i : ℕ)
    → 0 < length slots
    → claim n start offset slots ≡ some i
    → (i < length slots) × (get_or slots i 0 ≡ 0)
unfolding claim
claim-empty zero start offset slots i h e = cc
claim-empty (suc n) start offset slots i h e =
    ground (arith, claim-empty n start (offset + 1) slots i h)

offset_zero : (offset : ℕ) → offset ≡ offset + 0
offset_zero offset = omega arith

offset_suc : (offset k : ℕ) → offset + suc k ≡ offset + 1 + k
offset_suc offset k = omega arith

claim_slots-empty :
    (start : ℕ) (slots : List ℕ) (i : ℕ)
    → claim (length slots) start 0 slots ≡ some i
    → (i < length slots) × (get_or slots i 0 ≡ 0)
unfolding claim
claim_slots-empty start [] i e = cc
claim_slots-empty start (v ∷ slots) i e =
    claim-empty (length (v ∷ slots)) start 0 (v ∷ slots) i (omega arith) e

-- A scan that takes none has seen every slot that it visited occupied.
claim-none :
    (n start offset : ℕ) (slots : List ℕ) (k : ℕ)
    → claim n start offset slots ≡ none
    → k < n
    → get_or slots (word (start + (offset + k)) % length slots) 0 ≢ 0
unfolding claim
claim-none zero start offset slots k e h = absurd (omega arith)
claim-none (suc n) start offset slots zero e h =
    ground
      (arith, ap (λ (t : ℕ). get_or slots (word (start + t) % length slots) 0) (offset_zero offset))
claim-none (suc n) start offset slots (suc k) e h =
    rw (offset_suc offset k) (claim-none n start (offset + 1) slots k (ground arith) (omega arith))

-- A scan of every slot, from a start that does not wrap, misses none of them.
claim-none-full :
    (start : ℕ) (slots : List ℕ) (i : ℕ)
    → start + length slots ≤ 2 ^ 64
    → claim (length slots) start 0 slots ≡ none
    → i < length slots
    → get_or slots i 0 ≢ 0
claim-none-full start slots i h e lt =
    subst (λ k. get_or slots k 0 ≢ 0)
      (ap (λ (t : ℕ). word (start + t) % length slots) (omega arith)
        ∙ word-offset_of start i (length slots) h lt)
      (claim-none (length slots) start 0 slots (offset_of start i (length slots)) e
        (offset_of-lt start i (length slots) lt))

claim_slots-full :
    (start : ℕ) (slots : List ℕ)
    → ((i : ℕ) → i < length slots → get_or slots i 0 ≢ 0)
    → claim (length slots) start 0 slots ≡ none
claim_slots-full start slots full = elim (Option-cases (claim (length slots) start 0 slots)) [
  | inl e ↦ e
  | inr (i, e) ↦ let (lt, empty) = claim_slots-empty start slots i e in absurd (full i lt empty)
]

-- What an `insert` that found a slot has done.
pub insert-some :
    (s : PinSlab) (value i : ℕ)
    → (insert s value).1 ≡ some i
    → (i < length s.slots)
      × (get_or s.slots i 0 ≡ 0)
      × ((insert s value).0.slots ≡ set s.slots i value)
unfolding insert claim
insert-some s value i e = ground (arith, claim_slots-empty s.cursor s.slots i)

pub insert-none :
    (s : PinSlab) (value : ℕ) → (insert s value).1 ≡ none → (insert s value).0.slots ≡ s.slots
unfolding insert claim
insert-none s value e = ground (arith, e)

pub insert_cursor : (s : PinSlab) (value : ℕ) → (insert s value).0.cursor ≤ s.cursor + 1
unfolding insert claim
insert_cursor s value = ground arith

-- `insert` takes a slot that was empty, roots the value there, and leaves the other slots alone.
pub insert-claims :
    (s : PinSlab) (value i : ℕ)
    → (insert s value).1 ≡ some i
    → (i < length s.slots)
      × (get_or s.slots i 0 ≡ 0)
      × (get_or (insert s value).0.slots i 0 ≡ value)
      × ((j : ℕ) → i ≢ j → get_or (insert s value).0.slots j 0 ≡ get_or s.slots j 0)
insert-claims s value i e = (
  found.0,
  found.1,
  rw (found.2) (get_or-set_self s.slots i value 0 found.0),
  λ j ne. rw (found.2) (get_or-set_ne s.slots i j value 0 ne),
)
  where
    found :
        (i < length s.slots)
        × (get_or s.slots i 0 ≡ 0)
        × ((insert s value).0.slots ≡ set s.slots i value)
    found = insert-some s value i e

-- `insert` refuses exactly when every slot is occupied, while the cursor is short of wrapping.
pub insert-none_iff :
    (s : PinSlab) (value : ℕ)
    → s.cursor + length s.slots ≤ 2 ^ 64
    → ((insert s value).1 ≡ none) ↔ ((i : ℕ) → i < length s.slots → get_or s.slots i 0 ≢ 0)
unfolding insert claim
insert-none_iff s value h = (
  λ e i lt. claim-none-full s.cursor s.slots i h (ground arith) lt,
  λ full. ground (arith, claim_slots-full s.cursor s.slots full),
)

-- Releasing the slot that `insert` took gives back the slots as they were.
pub release-insert :
    (s : PinSlab) (value i : ℕ)
    → (insert s value).1 ≡ some i
    → (release (insert s value).0 i).slots ≡ s.slots
unfolding release
release-insert s value i e =
    let (lt, empty, written) = insert-some s value i e in
    ap (λ slots. set slots i 0) written
    ∙ ap (set (set s.slots i value) i) (sym empty)
    ∙ set-set_self s.slots i value 0

pub release-insert_slots :
    (s : PinSlab) (value i : ℕ)
    → (insert s value).1 ≡ some i
    → set (insert s value).0.slots i 0 ≡ s.slots
unfolding release
release-insert_slots s value i e = release-insert s value i e

length-mark_slots-set :
    (slots : List ℕ) (i value : ℕ)
    → value ≢ 0
    → i < length slots
    → get_or slots i 0 ≡ 0
    → length (mark_slots (set slots i value)) ≡ length (mark_slots slots) + 1
unfolding mark_slots
length-mark_slots-set [] i value v lt e = absurd (omega arith)
length-mark_slots-set (x ∷ slots) zero value v lt e = ground arith
length-mark_slots-set (x ∷ slots) (suc i) value v lt e =
    ground (arith, length-mark_slots-set slots i value v (omega arith) e)

-- One more root is marked after an `insert` that found a slot.
pub length-mark_all-insert :
    (s : PinSlab) (value i : ℕ)
    → value ≢ 0
    → (insert s value).1 ≡ some i
    → length (mark_all (insert s value).0) ≡ length (mark_all s) + 1
unfolding mark_all
length-mark_all-insert s value i v e =
    let (lt, empty, written) = insert-some s value i e in
    rw written (length-mark_slots-set s.slots i value v lt empty)

-- A body that rides without a copy is at least 4096 bytes long, carries the shareable flag where
-- the slab asks for it, and is rooted in a slot that was empty.
pub pinned_bytes-some :
    (s : PinSlab) (body_len tmp i : ℕ) (flagged : Bool)
    → (pinned_bytes s body_len tmp flagged).1 ≡ some i
    → (zero_copy_min ≤ body_len)
      × ((s.shareable_only ≡ false) ⊎ (flagged ≡ true))
      × (get_or s.slots i 0 ≡ 0)
      × (get_or (pinned_bytes s body_len tmp flagged).0.slots i 0 ≡ tmp)
unfolding pinned_bytes
pinned_bytes-some s body_len tmp i flagged e =
    let inserted : (insert s tmp).1 ≡ some i = ground arith in
    let (lt, free, rooted, others) = insert-claims s tmp i inserted in ground (arith, free, rooted)
