-- ===== src/Common/Words.antt =====
-- The unsigned words of C: casts, wrapping sums and differences, and shifts. `size_t` and
-- `uintptr_t` are those of the 32-bit Windows target.
use Prim.Native.Nat.{ℕ, ◌+◌, ◌-◌, ◌*◌, ◌/◌, ◌%◌, ◌^◌}

abbrev pub u8 : ℕ → ℕ
u8 n = n % 2 ^ 8

abbrev pub u16 : ℕ → ℕ
u16 n = n % 2 ^ 16

abbrev pub u32 : ℕ → ℕ
u32 n = n % 2 ^ 32

abbrev pub add32 : ℕ → ℕ → ℕ
add32 a b = u32 (a + b)

-- `-` on ℕ stops at 0, so the modulus is added first.
abbrev pub sub32 : ℕ → ℕ → ℕ
sub32 a b = u32 (a + 2 ^ 32 - u32 b)

-- `x << k` of a 32-bit word; `x >> k`.
abbrev pub shl32 : ℕ → ℕ → ℕ
shl32 x k = u32 (x * 2 ^ k)

abbrev pub shr : ℕ → ℕ → ℕ
shr x k = x / 2 ^ k
