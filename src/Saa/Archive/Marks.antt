-- ===== src/Saa/Archive/Marks.antt =====
-- The `visited` array of `samp_saa_find`: how many indices are left to visit.
use libsamp.Common.{
  ℕ, zero, suc, ◌+◌, ◌<◌, ◌≡◌, refl, ap, arith, List, [], ◌∷◌, Bool, true, false, length, get_or,
  set, replicate,
}

pub unmarked : List Bool → ℕ
unmarked [] = 0
unmarked (true ∷ rest) = unmarked rest
unmarked (false ∷ rest) = suc (unmarked rest)

pub unmarked-set :
    (visited : List Bool) (i : ℕ)
    → i < length visited
    → get_or visited i false ≡ false
    → unmarked (set visited i true) + 1 ≡ unmarked visited
unfolding unmarked
unmarked-set [] i h e = absurd (omega arith)
unmarked-set (true ∷ rest) zero h e = cc
unmarked-set (false ∷ rest) zero h e = omega arith
unmarked-set (true ∷ rest) (suc i) h e = unmarked-set rest i (omega arith) e
unmarked-set (false ∷ rest) (suc i) h e = omega (arith, unmarked-set rest i (omega arith) e)

pub unmarked-replicate : (n : ℕ) → unmarked (replicate n false) ≡ n
unfolding unmarked
unmarked-replicate zero = refl
unmarked-replicate (suc n) = ap suc (unmarked-replicate n)
