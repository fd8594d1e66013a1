-- ===== src/Prelude/Words.antt =====
-- Machine words: additions of the atomics and of `usize`, which wrap.
use Prim.Native.Nat.{ℕ, ◌%◌, ◌^◌}

-- `a + 1` and `fetch_add(1)` on a 64-bit word (u64, or usize on a 64-bit host).
abbrev pub word : ℕ → ℕ
word n = n % 2 ^ 64
