-- ===== src/Common/Bits.antt =====
-- Laws of the bit operations at variables, from the recursion on binary digits that the native
-- operations stand for.
use Prim.Native.Nat.{
  ℕ, zero, suc, ◌+◌, ◌*◌, ◌/◌, ◌%◌, ◌^◌, ◌≤◌, ◌<◌, min, max, bit_and, bit_or, bit_xor, digits,
  bitwise, differ, bit_and-bitwise, bit_or-bitwise, bit_xor-bitwise,
}
use mathlib.Core.Path.{◌≡◌, refl, ap, sym, ◌∙◌}
use native.Mathlib.Nat.{pow-suc}
use native.Mathlib.Omega.{arith}

-- `z` is the operation on 0 and a number, `f` the one on two digits.
module _ (z : ℕ → ℕ) (f : ℕ → ℕ → ℕ) where
  -- Fuel that reaches the first number gives what the operation gives.
  enough_digits : (top fuel a b : ℕ) → fuel ≤ top → a ≤ fuel → digits z f fuel a b ≡ bitwise z f a b
  enough_digits top zero zero b low reach = refl
  enough_digits top zero (suc a) b low reach = absurd (omega arith)
  enough_digits top (suc fuel) zero b low reach = refl
  enough_digits zero (suc fuel) (suc a) b low reach = absurd (omega arith)
  enough_digits (suc top) (suc fuel) (suc a) b low reach =
      let half : suc a / 2 ≤ a = omega arith in
      let deep = enough_digits top fuel (suc a / 2) (b / 2) (omega arith) (omega arith) in
      let shallow = enough_digits top a (suc a / 2) (b / 2) (omega arith) half in
      ap (λ (t : ℕ). t * 2 + f (suc a % 2) (b % 2)) (deep ∙ sym shallow)

  -- The lowest digit of the result, for any two numbers.
  lowest_digit :
      ((c : ℕ) → z c ≡ z (c / 2) * 2 + f 0 (c % 2))
      → (a b : ℕ) → bitwise z f a b ≡ bitwise z f (a / 2) (b / 2) * 2 + f (a % 2) (b % 2)
  lowest_digit base zero b = base b
  lowest_digit base (suc a) b =
      ap (λ (t : ℕ). t * 2 + f (suc a % 2) (b % 2))
        (enough_digits a a (suc a / 2) (b / 2) (omega arith) (omega arith))

pub bit_xor_step : (a b : ℕ) → bit_xor a b ≡ bit_xor (a / 2) (b / 2) * 2 + differ (a % 2) (b % 2)
bit_xor_step a b =
    let same : (c : ℕ) → c ≡ c / 2 * 2 + differ 0 (c % 2) = (λ c. omega arith) in
    simp bit_xor-bitwise (lowest_digit (λ y. y) differ same a b)

pub bit_or_step : (a b : ℕ) → bit_or a b ≡ bit_or (a / 2) (b / 2) * 2 + max (a % 2) (b % 2)
bit_or_step a b =
    let same : (c : ℕ) → c ≡ c / 2 * 2 + max 0 (c % 2) = (λ c. omega arith) in
    simp bit_or-bitwise (lowest_digit (λ y. y) max same a b)

pub bit_and_step : (a b : ℕ) → bit_and a b ≡ bit_and (a / 2) (b / 2) * 2 + min (a % 2) (b % 2)
bit_and_step a b =
    let none_set : (c : ℕ) → 0 ≡ 0 * 2 + min 0 (c % 2) = (λ c. omega arith) in
    simp bit_and-bitwise (lowest_digit (λ y. 0) min none_set a b)

digit_cases : (x y : ℕ) → x < 2 → y < 2 → (differ x y < 2) × (differ (differ x y) y ≡ x)
digit_cases zero zero p q = omega arith
digit_cases zero (suc zero) p q = omega arith
digit_cases zero (suc (suc y)) p q = absurd (omega arith)
digit_cases (suc zero) zero p q = omega arith
digit_cases (suc zero) (suc zero) p q = omega arith
digit_cases (suc zero) (suc (suc y)) p q = absurd (omega arith)
digit_cases (suc (suc x)) y p q = absurd (omega arith)

xor_cancel_fuel : (n a b : ℕ) → a ≤ n → b ≤ n → bit_xor (bit_xor a b) b ≡ a
xor_cancel_fuel zero zero zero p q = refl
xor_cancel_fuel zero zero (suc b) p q = absurd (omega arith)
xor_cancel_fuel zero (suc a) b p q = absurd (omega arith)
xor_cancel_fuel (suc n) a b p q = ground (
  arith,
  digit_cases (a % 2) (b % 2) (omega arith) (omega arith),
  bit_xor_step a b,
  bit_xor_step (bit_xor a b) b,
  xor_cancel_fuel n (a / 2) (b / 2) (omega arith) (omega arith),
)

-- Masking by exclusive or is undone by masking again.
pub xor_cancel : (a b : ℕ) → bit_xor (bit_xor a b) b ≡ a
xor_cancel a b = xor_cancel_fuel (a + b) a b (omega arith) (omega arith)

xor_zero_zero : bit_xor 0 0 ≡ 0
xor_zero_zero = refl

-- Exclusive or stays within the width of its operands.
pub xor-lt : (k a b : ℕ) → a < 2 ^ k → b < 2 ^ k → bit_xor a b < 2 ^ k
xor-lt zero a b p q =
    let a0 : a ≡ 0 = omega arith in let b0 : b ≡ 0 = omega arith in rw (a0, b0) (omega arith)
xor-lt (suc k) a b p q = omega (
  arith,
  digit_cases (a % 2) (b % 2) (omega arith) (omega arith),
  bit_xor_step a b,
  pow-suc 2 k,
  xor-lt k (a / 2) (b / 2) (omega (arith, pow-suc 2 k)) (omega (arith, pow-suc 2 k)),
)

or_zero_fuel : (n a : ℕ) → a ≤ n → bit_or a 0 ≡ a
or_zero_fuel zero zero h = refl
or_zero_fuel zero (suc a) h = absurd (omega arith)
or_zero_fuel (suc n) zero h = refl
or_zero_fuel (suc n) (suc a) h =
    omega (arith, bit_or_step (suc a) 0, or_zero_fuel n (suc a / 2) (omega arith))

double-pow : (q k : ℕ) → q * 2 ^ suc k ≡ 2 * (q * 2 ^ k)
double-pow q k = omega (arith, ap (λ (t : ℕ). q * t) (pow-suc 2 k))

-- A field that fits below a shifted value is joined to it by `|` as by a sum.
pub or_disjoint : (k q r : ℕ) → r < 2 ^ k → bit_or (q * 2 ^ k) r ≡ q * 2 ^ k + r
or_disjoint zero q r h =
    let r0 : r ≡ 0 = omega arith in
    rw (r0, or_zero_fuel (q * 2 ^ 0) (q * 2 ^ 0) (omega arith)) (omega arith)
or_disjoint (suc k) q r h =
    ground
      (arith, bit_or_step (q * 2 ^ suc k) r, double-pow q k, pow-suc 2 k, or_disjoint k q (r / 2))

and_zero_fuel : (n a : ℕ) → a ≤ n → bit_and a 0 ≡ 0
and_zero_fuel zero zero h = refl
and_zero_fuel zero (suc a) h = absurd (omega arith)
and_zero_fuel (suc n) zero h = refl
and_zero_fuel (suc n) (suc a) h =
    omega (arith, bit_and_step (suc a) 0, and_zero_fuel n (suc a / 2) (omega arith))

and_low : (k q r m : ℕ) → r < 2 ^ k → m + 1 ≡ 2 ^ k → bit_and (q * 2 ^ k + r) m ≡ r
and_low zero q r m h e =
    let m0 : m ≡ 0 = omega arith in
    rw (m0, and_zero_fuel (q * 2 ^ 0 + r) (q * 2 ^ 0 + r) (omega arith)) (omega arith)
and_low (suc k) q r m h e = ground (
  arith,
  bit_and_step (q * 2 ^ suc k + r) m,
  double-pow q k,
  pow-suc 2 k,
  and_low k q (r / 2) (m / 2),
)

-- A mask of `k` ones takes the remainder by `2 ^ k`.
pub and_mask : (k a m : ℕ) → m + 1 ≡ 2 ^ k → bit_and a m ≡ a % 2 ^ k
and_mask k a m e = ground (arith, and_low k (a / 2 ^ k) (a % 2 ^ k) m)

or_comm_fuel : (n a b : ℕ) → a ≤ n → b ≤ n → bit_or a b ≡ bit_or b a
or_comm_fuel zero zero zero p q = refl
or_comm_fuel zero zero (suc b) p q = absurd (omega arith)
or_comm_fuel zero (suc a) b p q = absurd (omega arith)
or_comm_fuel (suc n) a b p q = omega (
  arith,
  bit_or_step a b,
  bit_or_step b a,
  or_comm_fuel n (a / 2) (b / 2) (omega arith) (omega arith),
)

-- The same with the low field first.
pub or_low : (k q r : ℕ) → r < 2 ^ k → bit_or r (q * 2 ^ k) ≡ q * 2 ^ k + r
or_low k q r h =
    or_comm_fuel (q * 2 ^ k + r) r (q * 2 ^ k) (omega arith) (omega arith) ∙ or_disjoint k q r h

-- A mask whose `k` low digits are 0 clears those digits.
pub and_shifted :
    (k q r p : ℕ) → r < 2 ^ k → bit_and (q * 2 ^ k + r) (p * 2 ^ k) ≡ bit_and q p * 2 ^ k
and_shifted zero q r p h =
    let r0 : r ≡ 0 = omega arith in
    let q1 : q * 2 ^ 0 + 0 ≡ q = omega arith in
    let p1 : p * 2 ^ 0 ≡ p = omega arith in rw (r0, q1, p1) (omega arith)
and_shifted (suc k) q r p h = ground (
  arith,
  bit_and_step (q * 2 ^ suc k + r) (p * 2 ^ suc k),
  double-pow q k,
  double-pow p k,
  double-pow (bit_and q p) k,
  pow-suc 2 k,
  and_shifted k q (r / 2) p,
)
