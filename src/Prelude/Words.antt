-- ===== src/Prelude/Words.antt =====
-- `size_t` and `uint64_t` sums and differences, which wrap at 2^64, and masks.
use Prim.Native.Nat.{ℕ, ◌+◌, ◌-◌, ◌%◌, ◌^◌}

abbrev pub size_mod : ℕ
size_mod = 2 ^ 64

-- The largest size of a container that the model's sums are exact for.
abbrev pub size_max : ℕ
size_max = 2 ^ 62

abbrev pub add64 : ℕ → ℕ → ℕ
add64 a b = (a + b) % size_mod

abbrev pub sub64 : ℕ → ℕ → ℕ
sub64 a b = (a + size_mod - b) % size_mod

-- a difference of two `int`, as 32-bit words
abbrev pub sub32 : ℕ → ℕ → ℕ
sub32 a b = (a + 2 ^ 32 - b) % 2 ^ 32
