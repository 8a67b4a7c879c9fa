-- ===== src/ArchiveFs/Table/Pigeonhole.antt =====
-- A map from the numbers below `n` into those below `m` that repeats no value has `n ≤ m`.
use libsamp.Common.{ℕ, zero, suc, ◌≤◌, ◌<◌, ◌≡◌, arith, ◌==◌, if◌then◌else◌}

-- The value `m` is replaced by the one at the last place.
squeeze : (ℕ → ℕ) → ℕ → ℕ → ℕ → ℕ
squeeze f last m i = if f i == m then f last else f i

pub pigeonhole :
    (n m : ℕ) (f : ℕ → ℕ)
    → ((i : ℕ) → i < n → f i < m)
    → ((i j : ℕ) → i < n → j < n → f i ≡ f j → i ≡ j)
    → n ≤ m
pigeonhole zero m f low once = omega arith
pigeonhole (suc n) zero f low once = absurd (omega (arith, low 0 (omega arith)))
pigeonhole (suc n) (suc m) f low once = omega (
  arith,
  pigeonhole n m (squeeze f n m) (λ i h. unfold squeeze in ground (arith, low i, low n, once i n))
      (λ i j h k. unfold squeeze in ground (arith, once i j, once i n, once j n)),
)
