-- ===== src/Pin/Tests.antt =====
-- A slab of three slots, the first occupied.
use kino.Prelude.{◌≤◌, ◌≡◌, refl, ◌⊎◌, true, false, some, [], ◌∷◌, get_or}
use kino.Pin.{PinSlab, insert, claim, pinned_bytes, zero_copy_min}
use kino.Pin.Claim.{pinned_bytes-some}

abbrev slab : PinSlab
slab = record { slots = 8 ∷ 0 ∷ 0 ∷ []; cursor = 3; shareable_only = true }

insert-slab : (insert slab 7).1 ≡ some 1
unfolding insert claim
insert-slab = refl

pinned : (pinned_bytes slab 5000 7 true).1 ≡ some 1
unfolding pinned_bytes insert claim
pinned = refl

pinned_bytes-some_example :
    (zero_copy_min ≤ 5000)
    × ((slab.shareable_only ≡ false) ⊎ (true ≡ true))
    × (get_or slab.slots 1 0 ≡ 0)
    × (get_or (pinned_bytes slab 5000 7 true).0.slots 1 0 ≡ 7)
pinned_bytes-some_example = pinned_bytes-some slab 5000 7 1 true pinned
