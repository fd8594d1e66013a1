-- ===== src/Shards/Boot/Clean.antt =====
-- A boot that fails leaves no thread behind, and waits for none that would not end.
use kino.Prelude.{
  ℕ, suc, ◌+◌, ◌≡◌, ◌==◌, refl, ap, sym, ◌∙◌, subst, inl, inr, Bool, true, false, Bool-cases, ◌&&◌,
  Option, none, some, List, [], ◌∷◌, ◌++◌, length, length-snoc, All, arith,
}
use kino.Shards.Boot.{
  Startup, Threads, Boot, booted, failed, is_in, ended, join_all, await_ready, spawn_thread,
  with_error, undo, spawn_acceptor, spawn_from, spawn,
}

-- Every thread has reported that it is up.
pub all_ready : List Startup → Startup → Bool
all_ready [] acceptor = await_ready acceptor
all_ready (s ∷ shards) acceptor = await_ready s && all_ready shards acceptor

abbrev In : List ℕ → ℕ → Type 0
In handles x = is_in x handles ≡ true

-- What `n` threads that booted leave running, or a failed boot.
abbrev pub IsClean : Bool → ℕ → Option (Threads × Boot) → Type 0
IsClean all n none = ⊥
IsClean all n (some (t, failed)) = (all ≡ false) × (t.running ≡ []) × (t.senders ≡ [])
IsClean all n (some (t, booted handles)) =
    (all ≡ true)
    × (length handles ≡ n)
    × (length t.running ≡ n)
    × All (λ i. is_in i handles ≡ true) t.running

ended-All :
    (h : ℕ) (handles running : List ℕ)
    → All (In (h ∷ handles)) running
    → All (In handles) (ended h running)
unfolding ended is_in
ended-All h handles [] all = tt
ended-All h handles (x ∷ running) all =
    let rest = ended-All h handles running all.1 in
    elim (Bool-cases (x == h)) [
      | inl same ↦ rw same rest
      | inr other ↦ rw other (ground (arith, all.0, other), rest)
    ]

no_handles : (running : List ℕ) → All (In []) running → running ≡ []
unfolding is_in
no_handles [] all = refl
no_handles (x ∷ running) all = absurd (ground (arith, all.0))

no_sender : (h : ℕ) (senders : List ℕ) → senders ≡ [] → is_in h senders ≡ false
unfolding is_in
no_sender h [] gone = refl
no_sender h (x ∷ senders) gone = absurd (omega (arith, ap length gone))

join_all-none :
    (handles : List ℕ) (t : Threads)
    → t.senders ≡ []
    → All (In handles) t.running
    → join_all handles t ≡ some (record { running = []; senders = [] })
unfolding join_all
join_all-none [] t gone all =
    ap (λ (r : List ℕ × List ℕ). some (record { running = r.0; senders = r.1 }))
      (λ i. (no_handles t.running all i, gone i))
join_all-none (h ∷ handles) t gone all =
    let t' : Threads = record t { running = ended h t.running } in
    let eq : join_all handles t' ≡ join_all (h ∷ handles) t =
      ground (arith, gone, no_sender h t.senders gone) in
    sym eq ∙ join_all-none handles t' gone (ended-All h handles t.running all)

undo-IsClean :
    (handles : List ℕ) (running : List ℕ) (n : ℕ) (all : Bool)
    → all ≡ false
    → All (In handles) running
    → IsClean all n (undo handles (record { running = running; senders = [] }))
undo-IsClean handles running n all down inside =
    subst (λ o. IsClean all n (with_error o))
      (sym (join_all-none handles (record { running = running; senders = [] }) refl inside))
      (down, refl, refl)

In-snoc : (x i : ℕ) (handles : List ℕ) → In handles x → In (handles ++ i ∷ []) x
unfolding is_in
In-snoc x i [] h = absurd (ground (arith, h))
In-snoc x i (k ∷ handles) h = elim (Bool-cases (k == x)) [
  | inl same ↦ ground (arith, same)
  | inr other ↦ ground (arith, other, h, In-snoc x i handles)
]

In-snoc_self : (i : ℕ) (handles : List ℕ) → In (handles ++ i ∷ []) i
unfolding is_in
In-snoc_self i [] = ground arith
In-snoc_self i (k ∷ handles) = ground (arith, In-snoc_self i handles)

All-snoc :
    (i : ℕ) (handles running : List ℕ)
    → All (In handles) running
    → All (In (handles ++ i ∷ [])) running
All-snoc i handles [] all = tt
All-snoc i handles (x ∷ running) all = (In-snoc x i handles all.0, All-snoc i handles running all.1)

spawn_acceptor-IsClean :
    (i : ℕ) (acceptor : Startup) (handles : List ℕ) (t : Threads)
    → length t.running ≡ length handles
    → All (In handles) t.running
    → IsClean (await_ready acceptor) (length handles + 1) (spawn_acceptor i acceptor handles t)
unfolding spawn_acceptor spawn_thread
spawn_acceptor-IsClean i acceptor handles t same inside = elim (Bool-cases (await_ready acceptor)) [
  | inl up ↦ rw up (
    refl,
    length-snoc handles i,
    omega (arith, same),
    (In-snoc_self i handles, All-snoc i handles t.running inside),
  )
  | inr down ↦ rw down (undo-IsClean handles t.running (length handles + 1) false refl inside)
]

spawn_from-IsClean :
    (i : ℕ) (shards : List Startup) (acceptor : Startup) (handles : List ℕ) (t : Threads)
    → length t.running ≡ length handles
    → All (In handles) t.running
    → IsClean
        (all_ready shards acceptor)
        (length handles + length shards + 1)
        (spawn_from i shards acceptor handles t)
unfolding spawn_from spawn_thread all_ready
spawn_from-IsClean i [] acceptor handles t same inside =
    let e : length handles + 1 ≡ length handles + 0 + 1 = omega arith in
    subst (λ n. IsClean (await_ready acceptor) n (spawn_acceptor i acceptor handles t)) e
      (spawn_acceptor-IsClean i acceptor handles t same inside)
spawn_from-IsClean i (s ∷ shards) acceptor handles t same inside =
    elim (Bool-cases (await_ready s)) [
      | inl up ↦
          let t' : Threads = record { running = i ∷ t.running; senders = i ∷ t.senders } in
          let more = length-snoc handles i in
          let rest =
            spawn_from-IsClean (i + 1) shards acceptor (handles ++ i ∷ []) t'
              (omega (arith, same, more))
              (In-snoc_self i handles, All-snoc i handles t.running inside) in
          let e : length (handles ++ i ∷ []) + length shards + 1
              ≡ length handles + suc (length shards) + 1 =
            omega (arith, more) in
          rw up (
            subst
              (λ n.
                IsClean (all_ready shards acceptor) n
                  (spawn_from (i + 1) shards acceptor (handles ++ i ∷ []) t'))
              e rest)
      | inr down ↦ rw down (
          undo-IsClean handles t.running (length handles + suc (length shards) + 1) false refl
            inside)
    ]

-- The boot of the shards always ends: no join is of a thread that still waits for a sender. It
-- succeeds exactly if each shard's thread and the acceptor's report that they are up, and then these
-- are the threads that run; if it fails, none is left running.
pub spawn-IsClean :
    (shards : List Startup) (acceptor : Startup)
    → IsClean (all_ready shards acceptor) (length shards + 1) (spawn shards acceptor)
unfolding spawn
spawn-IsClean shards acceptor =
    subst (λ n. IsClean (all_ready shards acceptor) n (spawn shards acceptor)) (omega arith)
      (spawn_from-IsClean 0 shards acceptor [] (record { running = []; senders = [] }) refl tt)
