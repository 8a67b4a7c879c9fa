-- ===== src/Saa/Hash/Laws.antt =====
-- What the file name hash identifies: letters up to case, and a path by its last part.
use mathlib.Core.List.{reverse, reverse-append, reverse-cons, reverse-reverse, append_assoc}
use libsamp.Common.{
  sym, Option, none, leb, ◌==◌, ◌||◌, if◌then◌else◌, length-map, ℕ, zero, suc, ◌^◌, ◌<◌, ◌≡◌, refl,
  ap, ◌∙◌, arith, List, [], ◌∷◌, ◌++◌, map, some, true, false, bit_xor, add32, sub32, shl32, shr,
  length, length-append, take, drop,
}
use libsamp.Common.Bits.{xor-lt, xor_cancel}
use libsamp.Saa.Hash.{
  Mix, mix_right, mix_left, mix_third, hash_mix, to_lower, max_filename, samp_saa_hash_filename,
  is_separator, until_separator, base_name, samp_saa_hash_path,
}

-- The statements of `hash_mix` backwards.
unmix_right : ℕ → ℕ → ℕ → ℕ → ℕ
unmix_right x y z k = add32 (add32 (bit_xor x (shr z k)) z) y

unmix_left : ℕ → ℕ → ℕ → ℕ → ℕ
unmix_left x y z k = add32 (add32 (bit_xor x (shl32 z k)) z) y

unmix_third : ℕ → ℕ → ℕ → Mix → Mix
unmix_third k l m s =
    let c = unmix_right s.c s.a s.b m in
    let b = unmix_left s.b c s.a l in
    let a = unmix_right s.a b c k in record { a = a; b = b; c = c }

-- `hash_mix` run backwards.
hash_unmix : Mix → Mix
hash_unmix s = unmix_third 13 8 13 (unmix_third 12 16 5 (unmix_third 3 10 15 s))

pub record IsMix (s : Mix) : Type 0 where
  pub a_word : s.a < 2 ^ 32
  pub b_word : s.b < 2 ^ 32
  pub c_word : s.c < 2 ^ 32

unmix_mix_right : (x y z k : ℕ) → x < 2 ^ 32 → unmix_right (mix_right x y z k) y z k ≡ x
unfolding unmix_right mix_right
unmix_mix_right x y z k h = rw (xor_cancel (sub32 (sub32 x y) z) (shr z k)) (omega arith)

unmix_mix_left : (x y z k : ℕ) → x < 2 ^ 32 → unmix_left (mix_left x y z k) y z k ≡ x
unfolding unmix_left mix_left
unmix_mix_left x y z k h = rw (xor_cancel (sub32 (sub32 x y) z) (shl32 z k)) (omega arith)

mix_right-lt : (x y z k : ℕ) → z < 2 ^ 32 → mix_right x y z k < 2 ^ 32
unfolding mix_right
mix_right-lt x y z k h = xor-lt 32 (sub32 (sub32 x y) z) (shr z k) (omega arith) (omega arith)

mix_left-lt : (x y z k : ℕ) → mix_left x y z k < 2 ^ 32
unfolding mix_left
mix_left-lt x y z k = xor-lt 32 (sub32 (sub32 x y) z) (shl32 z k) (omega arith) (omega arith)

module _ (k l m : ℕ) (s : Mix) (h : IsMix s) where
  unmix_mix_third : unmix_third k l m (mix_third k l m s) ≡ s
  unfolding unmix_third mix_third
  unmix_mix_third =
      let a = mix_right s.a s.b s.c k in
      let b = mix_left s.b s.c a l in
      rw (
        unmix_mix_right s.c a b m h.c_word,
        unmix_mix_left s.b s.c a l h.b_word,
        unmix_mix_right s.a s.b s.c k h.a_word,
      )

third-IsMix : (k l m : ℕ) (s : Mix) → IsMix s → IsMix (mix_third k l m s)
unfolding mix_third
third-IsMix k l m s h =
    let a = mix_right s.a s.b s.c k in
    let b = mix_left s.b s.c a l in
    let b_word = mix_left-lt s.b s.c a l in
    record {
      a_word = mix_right-lt s.a s.b s.c k h.c_word;
      b_word = b_word;
      c_word = mix_right-lt s.c a b m b_word;
    }

-- Mixing loses nothing: `hash_unmix` undoes it on every three words.
hash_unmix-hash_mix : (s : Mix) → IsMix s → hash_unmix (hash_mix s) ≡ s
unfolding hash_unmix hash_mix
hash_unmix-hash_mix s h =
    let one = mix_third 13 8 13 s in
    let one-IsMix = third-IsMix 13 8 13 s h in
    let two = mix_third 12 16 5 one in
    let two-IsMix = third-IsMix 12 16 5 one one-IsMix in
    rw (unmix_mix_third 3 10 15 two two-IsMix, unmix_mix_third 12 16 5 one one-IsMix)
      (unmix_mix_third 13 8 13 s h)

to_lower_twice : (ch : ℕ) → to_lower (to_lower ch) ≡ to_lower ch
unfolding to_lower
to_lower_twice ch = ground arith

lower_take : (n : ℕ) (s : List ℕ) → map to_lower (take n (map to_lower s)) ≡ map to_lower (take n s)
lower_take zero s = refl
lower_take (suc n) [] = refl
lower_take (suc n) (ch ∷ s) = rw (to_lower_twice ch) (ap (λ t. to_lower ch ∷ t) (lower_take n s))

lower_drop : (n : ℕ) (s : List ℕ) → length (drop n (map to_lower s)) ≡ length (drop n s)
lower_drop zero [] = refl
lower_drop zero (ch ∷ s) = ap suc (lower_drop zero s)
lower_drop (suc n) [] = refl
lower_drop (suc n) (ch ∷ s) = lower_drop n s

-- A name and the same name in lower case have one hash.
hash_filename-to_lower :
    (s : List ℕ) → samp_saa_hash_filename (some (map to_lower s)) ≡ samp_saa_hash_filename (some s)
unfolding samp_saa_hash_filename
hash_filename-to_lower s = rw (lower_take max_filename s, lower_drop max_filename s)

-- No byte of the list is a separator.
abbrev pub NoSeparator : List ℕ → Type 0
NoSeparator [] = Unit
NoSeparator (ch ∷ s) = (is_separator ch ≡ false) × NoSeparator s

NoSeparator-append : (s t : List ℕ) → NoSeparator s → NoSeparator t → NoSeparator (s ++ t)
NoSeparator-append [] t h k = k
NoSeparator-append (ch ∷ s) t h k = (h.0, NoSeparator-append s t h.1 k)

NoSeparator-reverse : (s : List ℕ) → NoSeparator s → NoSeparator (reverse s)
NoSeparator-reverse [] h = h
NoSeparator-reverse (ch ∷ s) h =
    rw (reverse-cons ch s)
      (NoSeparator-append (reverse s) (ch ∷ []) (NoSeparator-reverse s h.1) (h.0, tt))

until_separator_stops :
    (s t : List ℕ) (ch : ℕ)
    → NoSeparator s
    → is_separator ch ≡ true
    → until_separator (s ++ (ch ∷ t)) ≡ s
unfolding until_separator
until_separator_stops [] t ch h e = rw e
until_separator_stops (c ∷ s) t ch h e =
    rw (h.0) (ap (λ r. c ∷ r) (until_separator_stops s t ch h.1 e))

until_separator_all : (s : List ℕ) → NoSeparator s → until_separator s ≡ s
unfolding until_separator
until_separator_all [] h = refl
until_separator_all (c ∷ s) h = rw (h.0) (ap (λ r. c ∷ r) (until_separator_all s h.1))

-- The base name of a path is what stands behind its last separator.
pub base_name-append :
    (directory base : List ℕ) (ch : ℕ)
    → is_separator ch ≡ true
    → NoSeparator base
    → (base_name (directory ++ (ch ∷ base)) ≡ base) × (base_name base ≡ base)
unfolding base_name
base_name-append directory base ch sep none_in =
    let back = NoSeparator-reverse base none_in in
    let turned : reverse (directory ++ (ch ∷ base)) ≡ reverse base ++ (ch ∷ reverse directory) =
      reverse-append directory (ch ∷ base)
      ∙ ap (λ t. t ++ reverse directory) (reverse-cons ch base)
      ∙ append_assoc (reverse base) (ch ∷ []) (reverse directory) in
    (
      ap (λ t. reverse (until_separator t)) turned
          ∙ ap reverse (until_separator_stops (reverse base) (reverse directory) ch back sep)
          ∙ reverse-reverse base,
      ap reverse (until_separator_all (reverse base) back) ∙ reverse-reverse base,
    )

-- The hash of a path is that of its last part, for either separator: the directory is ignored.
hash_path-append :
    (directory base : List ℕ) (ch : ℕ)
    → is_separator ch ≡ true
    → NoSeparator base
    → samp_saa_hash_path (some (directory ++ (ch ∷ base))) ≡ samp_saa_hash_path (some base)
unfolding samp_saa_hash_path
hash_path-append directory base ch sep none_in =
    ground
      (arith, base_name-append directory base ch sep none_in, length-append directory (ch ∷ base))

-- The hash of a path without a separator depends on its lower case only.
hash_lowered : List ℕ → Option ℕ
hash_lowered low =
    let hash = samp_saa_hash_filename (some low) in
    if length low == 0 || leb max_filename (length low) || hash == 0 then none else some hash

hash_path-lowered :
    (base : List ℕ)
    → NoSeparator base
    → samp_saa_hash_path (some base) ≡ hash_lowered (map to_lower base)
unfolding samp_saa_hash_path hash_lowered
hash_path-lowered base none_in = ground (
  arith,
  (base_name-append [] base 0x5C separator none_in).1,
  length-map to_lower base,
  hash_filename-to_lower base,
)
  where
    separator : is_separator 0x5C ≡ true
    separator = unfold is_separator in refl

-- The hash of a path is that of any path with the same last part up to the case of its letters: the
-- directory before either separator is ignored, and so is the case.
pub hash_path-same :
    (directory base other : List ℕ) (ch : ℕ)
    → is_separator ch ≡ true
    → NoSeparator base
    → NoSeparator other
    → map to_lower base ≡ map to_lower other
    → samp_saa_hash_path (some (directory ++ (ch ∷ base))) ≡ samp_saa_hash_path (some other)
hash_path-same directory base other ch sep none_in none_other same =
    hash_path-append directory base ch sep none_in
    ∙ hash_path-lowered base none_in
    ∙ ap hash_lowered same
    ∙ sym (hash_path-lowered other none_other)
