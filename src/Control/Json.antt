-- ===== src/Control/Json.antt =====
-- The statistics are a JSON text: that of a tree, as a printer of JSON writes it.
use kino.Prelude.{
  ℕ, ◌+◌, ◌/◌, ◌%◌, ◌≤◌, ◌≡◌, ◌≢◌, refl, ap, sym, ltb, ◌==◌, if◌then◌else◌, Bool, Bool-cases, inl,
  inr, true, false, Option, none, some, List, [], ◌∷◌, ◌++◌, String, codes, All, arith,
}
use kino.Registry.{state_ready, state_draining}
use kino.Control.{WorkerStat, StatsSnapshot, state_name}
use kino.Control.Figures.{number, truth, join, depths_text, worker_text, workers_text, stats_json}

mutual
  -- A number that is not an integer is its text.
  pub data Json : Type 0 where
    integer : ℕ → Json
    decimal : List ℕ → Json
    flag : Bool → Json
    text : List ℕ → Json
    array : Items → Json
    object : Members → Json

  pub data Items : Type 0 where
    nil : Items
    cons : Json → Items → Items

  pub data Members : Type 0 where
    end : Members
    member : String → Json → Members → Members

hex : ℕ → ℕ
hex d = if ltb d 10 then 48 + d else 87 + d

-- '"', 34, and '\\', 92, and the control characters are escaped.
abbrev escaped : ℕ → List ℕ → List ℕ
escaped c rest =
    if c == 34
    then 92 ∷ (34 ∷ rest)
    else if c == 92
    then 92 ∷ (92 ∷ rest)
    else if ltb c 32
    then codes "\\u00" ++ (hex (c / 16) ∷ (hex (c % 16) ∷ rest))
    else c ∷ rest

print_text : List ℕ → List ℕ → List ℕ
print_text [] rest = rest
print_text (c ∷ cs) rest = escaped c (print_text cs rest)

-- The compact text, and `rest` after it; `first` is whether no comma is due.
mutual
  unfolding print_text

  pub print : Json → List ℕ → List ℕ
  print (integer n) rest = number n ++ rest
  print (decimal t) rest = t ++ rest
  print (flag b) rest = truth b ++ rest
  print (text t) rest = 34 ∷ print_text t (34 ∷ rest)
  print (array items) rest = 91 ∷ print_items true items (93 ∷ rest)
  print (object members) rest = 123 ∷ print_members true members (125 ∷ rest)

  print_items : Bool → Items → List ℕ → List ℕ
  print_items first nil rest = rest
  print_items true (cons v items) rest = print v (print_items false items rest)
  print_items false (cons v items) rest = 44 ∷ print v (print_items false items rest)

  print_members : Bool → Members → List ℕ → List ℕ
  print_members first end rest = rest
  print_members true (member key v members) rest =
      34 ∷ print_text (codes key) (34 ∷ (58 ∷ print v (print_members false members rest)))
  print_members false (member key v members) rest =
      44 ∷ (34 ∷ print_text (codes key) (34 ∷ (58 ∷ print v (print_members false members rest))))

integers : List ℕ → Items
integers [] = nil
integers (d ∷ depths) = cons (integer d) (integers depths)

abbrev worker : WorkerStat → Json
worker w = object (
    member "index" (integer w.index) (
      member "served" (integer w.served) (
        member "in_flight" (integer w.in_flight) (
          member "busy_ms" (integer w.busy_ms)
            (member "quarantined" (flag w.quarantined) (member "retired" (flag w.retired) end))))))

workers : List WorkerStat → Items
workers [] = nil
workers (w ∷ stats) = cons (worker w) (workers stats)

with_depths : Option (List ℕ) → Members → Members
with_depths none members = members
with_depths (some depths) members = member "lane_depths" (array (integers depths)) members

-- What the statistics say, with the lanes' depths only where there are lanes.
pub stats_tree : (ℕ → List ℕ) → List ℕ → StatsSnapshot → Json
unfolding integers workers with_depths
stats_tree seconds version s = object (
    member "mode" (text (codes s.mode)) (
      member "lanes" (flag s.lanes) (
        member "workers" (integer s.workers) (
          member "threads" (integer s.threads) (
            member "batch" (integer s.batch) (
              member "respawns" (integer s.respawns) (
                member "queued" (integer s.queued) (
                  member "in_flight" (integer s.in_flight) (
                    member "served" (integer s.served) (
                      member "rejected" (integer s.rejected) (
                        member "timeouts" (integer s.timeouts) (
                          member "max_workers" (integer s.max_workers) (
                            member "active_workers" (integer s.active_workers) (
                              member "scale_ups" (integer s.scale_ups) (
                                member "scale_downs" (integer s.scale_downs) (
                                  with_depths s.lane_depths (
                                    member "worker_status" (array (workers s.worker_status)) (
                                      member "queue_time"
                                        (object (
                                          member "count" (integer s.queue_histogram.count) (
                                            member "sum_seconds"
                                              (decimal (seconds s.queue_histogram.sum_us)) end)))
                                        (member "quarantined" (integer s.quarantined_count) (
                                          member "state" (text (codes (state_name s))) (
                                            member "version" (text version) end)))))))))))))))))))))

-- A character that JSON does not escape.
abbrev pub IsPlain : ℕ → Type 0
IsPlain c = (32 ≤ c) × (c ≢ 34) × (c ≢ 92)

print_text-append : (t rest : List ℕ) → All IsPlain t → print_text t rest ≡ t ++ rest
unfolding print_text
print_text-append [] rest plain = refl
print_text-append (c ∷ t) rest (ok, plain) =
    let ih = print_text-append t rest plain in ground (arith, ok, ih)

join-integers :
    (d : ℕ) (depths rest : List ℕ)
    → join (d ∷ depths) rest ≡ print_items true (integers (d ∷ depths)) rest
unfolding join integers print_items print
join-integers d [] rest = refl
join-integers d (e ∷ depths) rest = ap (λ t. number d ++ (44 ∷ t)) (join-integers e depths rest)

workers-workers_text :
    (first : Bool) (stats : List WorkerStat) (rest : List ℕ)
    → print_items first (workers stats) rest ≡ workers_text first stats rest
unfolding workers_text workers print_items print print_members
workers-workers_text first [] rest = refl
workers-workers_text true (w ∷ stats) rest =
    ap (λ t. worker_text w t) (workers-workers_text false stats rest)
workers-workers_text false (w ∷ stats) rest =
    ap (λ t. 44 ∷ worker_text w t) (workers-workers_text false stats rest)

join-array :
    (depths rest : List ℕ) → 91 ∷ join depths (93 ∷ rest) ≡ print (array (integers depths)) rest
unfolding join integers print print_items
join-array [] rest = refl
join-array (d ∷ depths) rest = ap (λ t. 91 ∷ t) (join-integers d depths (93 ∷ rest))

-- The members after the depths, which follow a comma.
with_depths-depths_text :
    (depths : Option (List ℕ)) (members : Members) (rest : List ℕ)
    → print_members false (with_depths depths members) rest
      ≡ depths_text depths (print_members false members rest)
unfolding depths_text with_depths print print_members print_text
with_depths-depths_text none members rest = refl
with_depths-depths_text (some depths) members rest =
    ap (λ t. codes ",\"lane_depths\":" ++ t)
      (sym (join-array depths (print_members false members rest)))

state_name-IsPlain : (s : StatsSnapshot) → All IsPlain (codes (state_name s))
unfolding state_name
state_name-IsPlain s = elim (Bool-cases (s.state == state_ready)) [
  | inl ready ↦ rw ready (omega arith)
  | inr other ↦ elim (Bool-cases (s.state == state_draining)) [
    | inl draining ↦ rw (other, draining) (omega arith)
    | inr booting ↦ rw (other, booting) (omega arith)
  ]
]

-- The text of the statistics is that which a JSON printer gives for the tree of the figures, as long
-- as the mode and the version hold no character that JSON escapes.
pub stats_json-print :
    (seconds : ℕ → List ℕ) (version : List ℕ) (s : StatsSnapshot)
    → All IsPlain (codes s.mode)
    → All IsPlain version
    → stats_json seconds version s ≡ print (stats_tree seconds version s) []
unfolding stats_json stats_tree print print_members print_items print_text
stats_json-print seconds version s plain plain_version =
    let mode : (rest : List ℕ) → print_text (codes s.mode) rest ≡ codes s.mode ++ rest =
      λ rest. print_text-append (codes s.mode) rest plain in
    let state : (rest : List ℕ)
        → print_text (codes (state_name s)) rest ≡ codes (state_name s) ++ rest =
      λ rest. print_text-append (codes (state_name s)) rest (state_name-IsPlain s) in
    let of_version : (rest : List ℕ) → print_text version rest ≡ version ++ rest =
      λ rest. print_text-append version rest plain_version in
    simp (mode, state, of_version, with_depths-depths_text, workers-workers_text)
