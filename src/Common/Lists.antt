-- ===== src/Common/Lists.antt =====
-- Lists measured and indexed by native numbers, under the library's names.
use Prim.Native.Nat.{ℕ, zero, suc, ◌+◌, ◌-◌, ◌<◌, ◌≤◌, min}
use mathlib.Core.Path.{◌≡◌, refl, ap, sym, ◌∙◌}
use mathlib.Core.Logic.{◌≢◌}
use mathlib.Core.List.{List, [], ◌∷◌, ◌++◌, map}
use mathlib.Core.Option.{Option, none, some}
use native.Mathlib.Omega.{arith}

module _ {ℓ} {A : Type ℓ} where
  abbrev pub length : List A → ℕ
  length [] = 0
  length (x ∷ xs) = suc (length xs)

  abbrev pub get_elem? : List A → ℕ → Option A
  get_elem? [] i = none
  get_elem? (x ∷ xs) zero = some x
  get_elem? (x ∷ xs) (suc i) = get_elem? xs i

  abbrev pub get_or : List A → ℕ → A → A
  get_or [] i d = d
  get_or (x ∷ xs) zero d = x
  get_or (x ∷ xs) (suc i) d = get_or xs i d

  -- A write out of bounds changes nothing.
  abbrev pub set : List A → ℕ → A → List A
  set [] i v = []
  set (x ∷ xs) zero v = v ∷ xs
  set (x ∷ xs) (suc i) v = x ∷ set xs i v

  abbrev pub take : ℕ → List A → List A
  take zero xs = []
  take (suc n) [] = []
  take (suc n) (x ∷ xs) = x ∷ take n xs

  abbrev pub drop : ℕ → List A → List A
  drop zero xs = xs
  drop (suc n) [] = []
  drop (suc n) (x ∷ xs) = drop n xs

  abbrev pub replicate : ℕ → A → List A
  replicate zero a = []
  replicate (suc n) a = a ∷ replicate n a

  pub length-append : (xs ys : List A) → length (xs ++ ys) ≡ length xs + length ys
  length-append [] ys = omega arith
  length-append (x ∷ xs) ys = omega (arith, length-append xs ys)

  pub length-set : (xs : List A) (i : ℕ) (v : A) → length (set xs i v) ≡ length xs
  length-set [] i v = refl
  length-set (x ∷ xs) zero v = refl
  length-set (x ∷ xs) (suc i) v = ap suc (length-set xs i v)

  pub get_elem?-eq-get_or :
      (xs : List A) (i : ℕ) (d : A) → i < length xs → get_elem? xs i ≡ some (get_or xs i d)
  get_elem?-eq-get_or [] i d h = absurd (omega arith)
  get_elem?-eq-get_or (x ∷ xs) zero d h = refl
  get_elem?-eq-get_or (x ∷ xs) (suc i) d h = get_elem?-eq-get_or xs i d (omega arith)

  pub get_or-set_self :
      (xs : List A) (i : ℕ) (v d : A) → i < length xs → get_or (set xs i v) i d ≡ v
  get_or-set_self [] i v d h = absurd (omega arith)
  get_or-set_self (x ∷ xs) zero v d h = refl
  get_or-set_self (x ∷ xs) (suc i) v d h = get_or-set_self xs i v d (omega arith)

  pub get_or-set_ne :
      (xs : List A) (i j : ℕ) (v d : A) → i ≢ j → get_or (set xs i v) j d ≡ get_or xs j d
  get_or-set_ne [] i j v d h = refl
  get_or-set_ne (x ∷ xs) zero zero v d h = absurd (h refl)
  get_or-set_ne (x ∷ xs) zero (suc j) v d h = refl
  get_or-set_ne (x ∷ xs) (suc i) zero v d h = refl
  get_or-set_ne (x ∷ xs) (suc i) (suc j) v d h = get_or-set_ne xs i j v d (λ e. h (ap suc e))

  pub take-append-drop : (n : ℕ) (xs : List A) → take n xs ++ drop n xs ≡ xs
  take-append-drop zero xs = refl
  take-append-drop (suc n) [] = refl
  take-append-drop (suc n) (x ∷ xs) = ap (λ t. x ∷ t) (take-append-drop n xs)

  pub length-take : (n : ℕ) (xs : List A) → length (take n xs) ≡ min n (length xs)
  length-take zero xs = omega arith
  length-take (suc n) [] = omega arith
  length-take (suc n) (x ∷ xs) = omega (arith, length-take n xs)

  pub length-drop : (n : ℕ) (xs : List A) → length (drop n xs) ≡ length xs - n
  length-drop zero xs = omega arith
  length-drop (suc n) [] = omega arith
  length-drop (suc n) (x ∷ xs) = omega (arith, length-drop n xs)

  pub length-replicate : (n : ℕ) (a : A) → length (replicate n a) ≡ n
  length-replicate zero a = refl
  length-replicate (suc n) a = ap suc (length-replicate n a)

  pub get_or-replicate : (n i : ℕ) (a : A) → get_or (replicate n a) i a ≡ a
  get_or-replicate zero i a = refl
  get_or-replicate (suc n) zero a = refl
  get_or-replicate (suc n) (suc i) a = get_or-replicate n i a

  pub take_all : (n : ℕ) (xs : List A) → length xs ≤ n → take n xs ≡ xs
  take_all zero [] h = refl
  take_all zero (x ∷ xs) h = absurd (omega arith)
  take_all (suc n) [] h = refl
  take_all (suc n) (x ∷ xs) h = ap (λ t. x ∷ t) (take_all n xs (omega arith))

  pub take-append :
      (n : ℕ) (xs ys : List A) → take n (xs ++ ys) ≡ take n xs ++ take (n - length xs) ys
  take-append zero [] ys = refl
  take-append zero (x ∷ xs) ys = let e : 0 - suc (length xs) ≡ 0 = omega arith in rw e
  take-append (suc n) [] ys = let e : suc n - 0 ≡ suc n = omega arith in rw e
  take-append (suc n) (x ∷ xs) ys =
      let e : suc n - suc (length xs) ≡ n - length xs = omega arith in
      rw e (ap (λ t. x ∷ t) (take-append n xs ys))

  pub drop-append : (xs ys : List A) → drop (length xs) (xs ++ ys) ≡ ys
  drop-append [] ys = refl
  drop-append (x ∷ xs) ys = drop-append xs ys

  pub drop-drop : (m n : ℕ) (xs : List A) → drop n (drop m xs) ≡ drop (m + n) xs
  drop-drop zero n xs = let e : 0 + n ≡ n = omega arith in rw e
  drop-drop (suc m) n [] = drop_nil n ∙ sym (drop_nil (suc m + n))
    where
      drop_nil : (k : ℕ) → drop k [] ≡ []
      drop_nil zero = refl
      drop_nil (suc k) = refl
  drop-drop (suc m) n (x ∷ xs) =
      let e : suc m + n ≡ suc (m + n) = omega arith in rw e (drop-drop m n xs)

  pub take-append_self : (n : ℕ) (xs ys : List A) → length xs ≡ n → take n (xs ++ ys) ≡ xs
  take-append_self zero [] ys e = refl
  take-append_self zero (x ∷ xs) ys e = absurd (omega arith)
  take-append_self (suc n) [] ys e = absurd (omega arith)
  take-append_self (suc n) (x ∷ xs) ys e = ap (λ t. x ∷ t) (take-append_self n xs ys (omega arith))

-- A list is not changed by writing what is there.
pub set-get_or {ℓ} : {A : Type ℓ} (xs : List A) (i : ℕ) (d : A) → set xs i (get_or xs i d) ≡ xs
set-get_or [] i d = refl
set-get_or (x ∷ xs) zero d = refl
set-get_or (x ∷ xs) (suc i) d = ap (λ t. x ∷ t) (set-get_or xs i d)

pub map-set {ℓ κ} :
    {A : Type ℓ} {B : Type κ} (f : A → B) (xs : List A) (i : ℕ) (v : A)
    → map f (set xs i v) ≡ set (map f xs) i (f v)
map-set f [] i v = refl
map-set f (x ∷ xs) zero v = refl
map-set f (x ∷ xs) (suc i) v = ap (λ t. f x ∷ t) (map-set f xs i v)

pub get_or-map {ℓ κ} :
    {A : Type ℓ} {B : Type κ} (f : A → B) (xs : List A) (i : ℕ) (d : A)
    → get_or (map f xs) i (f d) ≡ f (get_or xs i d)
get_or-map f [] i d = refl
get_or-map f (x ∷ xs) zero d = refl
get_or-map f (x ∷ xs) (suc i) d = get_or-map f xs i d

pub length-map {ℓ κ} :
    {A : Type ℓ} {B : Type κ} (f : A → B) (xs : List A) → length (map f xs) ≡ length xs
length-map f [] = refl
length-map f (x ∷ xs) = ap suc (length-map f xs)

pub get_or-take {ℓ} :
    {A : Type ℓ} (n : ℕ) (xs : List A) (i : ℕ) (d : A)
    → i < n
    → get_or (take n xs) i d ≡ get_or xs i d
get_or-take zero xs i d h = absurd (omega arith)
get_or-take (suc n) [] i d h = refl
get_or-take (suc n) (x ∷ xs) zero d h = refl
get_or-take (suc n) (x ∷ xs) (suc i) d h = get_or-take n xs i d (omega arith)

pub get_or-drop {ℓ} :
    {A : Type ℓ} (n : ℕ) (xs : List A) (i : ℕ) (d : A)
    → get_or (drop n xs) i d ≡ get_or xs (n + i) d
get_or-drop zero xs i d = let e : 0 + i ≡ i = omega arith in rw e
get_or-drop (suc n) [] i d = refl
get_or-drop (suc n) (x ∷ xs) i d =
    let e : suc n + i ≡ suc (n + i) = omega arith in rw e (get_or-drop n xs i d)

pub drop-append_le {ℓ} :
    {A : Type ℓ} (n : ℕ) (xs ys : List A) → n ≤ length xs → drop n (xs ++ ys) ≡ drop n xs ++ ys
drop-append_le zero xs ys h = refl
drop-append_le (suc n) [] ys h = absurd (omega arith)
drop-append_le (suc n) (x ∷ xs) ys h = drop-append_le n xs ys (omega arith)

-- Writing the element after the first `i` ones makes it the last of `i + 1`.
pub take-set_end {ℓ} :
    {A : Type ℓ} (i : ℕ) (xs : List A) (v : A)
    → i < length xs
    → take (suc i) (set xs i v) ≡ take i xs ++ (v ∷ [])
take-set_end i [] v h = absurd (omega arith)
take-set_end zero (x ∷ xs) v h = refl
take-set_end (suc i) (x ∷ xs) v h = ap (λ t. x ∷ t) (take-set_end i xs v (omega arith))
