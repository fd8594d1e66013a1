-- ===== src/EnvStrings/Tests.antt =====
-- The caches on concrete strings.
use kino.Prelude.{false, ◌≡◌, ◌≢◌, refl, none, some, List, [], ◌∷◌, codes, arith}
use kino.Pin.{with_capacity, insert, claim, release}
use kino.Lru.Listed.{listed}
use kino.EnvStrings.{Ruby, root, root_host, root_full, drop_strs, drop_str}
use kino.EnvStrings.Caches.{init}
use kino.EnvStrings.Sections.{Section, settle_addr, settle_value, run_all, IsSound}
use kino.EnvStrings.Reach.{run_all-init-IsSound, root_host-never_refused}

-- A Ruby whose strings all have one VALUE.
abbrev ruby : Ruby
ruby = record {
  frozen = λ text. record { raw = 9; text = text };
  text-frozen = λ text. refl;
  raw-frozen = λ text. omega arith;
}

abbrev two_sections : List Section
two_sections =
    settle_addr (codes "::1") (codes "::1") ∷ settle_value (codes "gzip") (codes "gzip") ∷ []

-- A full slab: the name finds the one free slot, the port none, and the slot is free again.
root_host-full :
    (root_host
      (record { slots = 7 ∷ 0 ∷ []; cursor = 0; shareable_only = false })
      (ruby.frozen (codes "h"))
      (ruby.frozen (codes "80"))
      none).0.slots
    ≡ 7 ∷ 0 ∷ []
unfolding root_host root_full root drop_strs drop_str insert claim release
root_host-full = refl

run_all-init-IsSound_example : IsSound listed (run_all listed ruby two_sections (init listed))
run_all-init-IsSound_example = run_all-init-IsSound listed ruby two_sections

root_host-never_refused_example :
    ((root_host
        (init listed).slab
        (ruby.frozen (codes "h"))
        (ruby.frozen (codes "80"))
        (some (ruby.frozen (codes "h:80")))).1
      ≢ none)
    × ((root (init listed).slab (ruby.frozen (codes "::1"))).1 ≢ none)
unfolding run_all init with_capacity
root_host-never_refused_example =
    root_host-never_refused listed ruby [] (codes "h") (codes "80") (codes "h:80") (codes "::1")
      (omega arith)
