-- ===== src/Common/Outcome.antt =====
-- What a C function that answers 1 or 0 does: `done` is the 1 with what it wrote through its
-- output pointers, `fail` the 0. `fault` is a read outside an object, or a loop that used up
-- its fuel: the code does neither, and theorems say so.
use mathlib.Core.Path.{◌≡◌, refl}
use mathlib.Core.Logic.{◌≢◌}
use mathlib.Core.Bool.{Bool, true, false}

pub data Outcome {ℓ} (A : Type ℓ) : Type ℓ where
  done : A → Outcome A
  fail fault : Outcome A

-- `fail` is the early `return 0`.
infixl 5 ◌>>=◌ ◌>>◌
abbrev pub ◌>>=◌ {ℓ κ} : {A : Type ℓ} {B : Type κ} → Outcome A → (A → Outcome B) → Outcome B
done a >>= f = f a
fail >>= f = fail
fault >>= f = fault

abbrev pub ◌>>◌ {ℓ} : {B : Type ℓ} → Outcome (Unit {0}) → Outcome B → Outcome B
m >> k = m >>= λ _. k

-- `if (!test) return 0;`
abbrev pub guard : Bool → Outcome (Unit {0})
guard true = done tt
guard false = fail

-- The function returned, with 1 or 0.
abbrev pub Returns {ℓ} : {A : Type ℓ} → Outcome A → Type ℓ
Returns m = m ≢ fault

pub done-Returns {ℓ} : {A : Type ℓ} {m : Outcome A} {a : A} → m ≡ done a → Returns m
done-Returns e f = cc

-- A chain returns if its first part does, and the rest does on each of its answers.
pub >>=-Returns {ℓ κ} :
    {A : Type ℓ} {B : Type κ} (m : Outcome A) (f : A → Outcome B)
    → Returns m
    → ((a : A) → m ≡ done a → Returns (f a))
    → Returns (m >>= f)
>>=-Returns (done a) f h k = k a refl
>>=-Returns fail f h k = λ e. cc
>>=-Returns fault f h k = absurd (h refl)

pub guard-Returns {ℓ} :
    {B : Type ℓ} (b : Bool) (m : Outcome B) → (b ≡ true → Returns m) → Returns (guard b >> m)
guard-Returns true m h = h refl
guard-Returns false m h = λ e. cc

-- Inversion of a chain that answered 1.
pub >>=-eq-done {ℓ κ} :
    {A : Type ℓ} {B : Type κ} (m : Outcome A) (f : A → Outcome B) {b : B}
    → (m >>= f) ≡ done b
    → (a : A) × (m ≡ done a) × (f a ≡ done b)
>>=-eq-done (done a) f h = (a, refl, h)
>>=-eq-done fail f h = cc
>>=-eq-done fault f h = cc

-- A guard that holds is passed.
pub guard-true {ℓ} : {B : Type ℓ} {b : Bool} (m : Outcome B) → b ≡ true → (guard b >> m) ≡ m
guard-true m e = rw e
