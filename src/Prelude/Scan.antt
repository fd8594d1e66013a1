-- ===== src/Prelude/Scan.antt =====
-- A scan of all indices of a list from a moving start: `(start + k) % n` for `k` from 0.
use Prim.Native.Nat.{ℕ, ◌+◌, ◌-◌, ◌*◌, ◌/◌, ◌%◌, ◌^◌, ◌≤◌, ◌<◌}
use mathlib.Core.Path.{◌≡◌, ap, ◌∙◌}
use native.Mathlib.Nat.{add-mod-mod, add-mul-mod_self_left, mod-eq_of_lt, mod-lt, div-add-mod}
use native.Mathlib.Omega.{arith}
use kino.Prelude.Words.{word}

-- The offset at which the scan comes to the index `i`.
abbrev pub offset_of : ℕ → ℕ → ℕ → ℕ
offset_of start i n = (i + n - start % n) % n

unrolled : (start i n : ℕ) → i < n → start + (i + n - start % n) ≡ i + n * (start / n + 1)
unrolled start i n h = omega (arith, div-add-mod start n, mod-lt start {m = n} (omega arith))

pub offset_of-index : (start i n : ℕ) → i < n → (start + offset_of start i n) % n ≡ i
offset_of-index start i n h =
    add-mod-mod start (i + n - start % n) n
    ∙ ap (λ (t : ℕ). t % n) (unrolled start i n h)
    ∙ add-mul-mod_self_left i n (start / n + 1)
    ∙ mod-eq_of_lt h

pub offset_of-lt : (start i n : ℕ) → i < n → offset_of start i n < n
offset_of-lt start i n h = mod-lt (i + n - start % n) (omega arith)

-- So it does in 64-bit arithmetic, as long as `start + n` does not wrap.
pub word-offset_of :
    (start i n : ℕ) → start + n ≤ 2 ^ 64 → i < n → word (start + offset_of start i n) % n ≡ i
word-offset_of start i n h lt =
    ap (λ (t : ℕ). t % n) (mod-eq_of_lt (omega (arith, offset_of-lt start i n lt)))
    ∙ offset_of-index start i n lt
