-- ===== src/Saa/Bytes/Laws.antt =====
-- The words of saa.c as arithmetic: little-endian bytes, rounding to blocks, the rotation.
use libsamp.Common.{
  ℕ, ◌+◌, ◌*◌, ◌/◌, ◌%◌, ◌^◌, ◌<◌, ◌≤◌, ◌≡◌, refl, arith, List, [], ◌∷◌, bit_xor, bit_and, u32, u8,
  shl32, shr,
}
use libsamp.Common.{
  length, get_or, get_elem?-eq-get_or, ap, take, drop, length-take, length-drop, zero, suc,
}
use libsamp.Common.Outcome.{done}
use libsamp.Common.Bits.{or_low, and_shifted, and_mask, xor-lt, xor_cancel}
use libsamp.Saa.Bytes.{read, slice, load_le32, le32, store_le32, round_block_size, unobfuscate_u32}

abbrev pub IsByte : ℕ → Type 0
IsByte b = b < 256

module _ (b0 b1 b2 b3 : ℕ) (p0 : IsByte b0) (p1 : IsByte b1) (p2 : IsByte b2) (p3 : IsByte b3) where
  pub le32_as_sum : le32 b0 b1 b2 b3 ≡ b0 + b1 * 2 ^ 8 + b2 * 2 ^ 16 + b3 * 2 ^ 24
  unfolding le32
  le32_as_sum =
      let s1 : shl32 b1 8 ≡ b1 * 2 ^ 8 = omega arith in
      let s2 : shl32 b2 16 ≡ b2 * 2 ^ 16 = omega arith in
      let s3 : shl32 b3 24 ≡ b3 * 2 ^ 24 = omega arith in
      rw
        (
          s1,
          s2,
          s3,
          or_low 8 b1 b0 p0,
          or_low 16 b2 (b1 * 2 ^ 8 + b0) (omega arith),
          or_low 24 b3 (b2 * 2 ^ 16 + (b1 * 2 ^ 8 + b0)) (omega arith),
        )
        (omega arith)

  pub le32-lt : le32 b0 b1 b2 b3 < 2 ^ 32
  le32-lt = omega (arith, le32_as_sum)

  -- Storing the word that four bytes make gives the bytes back.
  pub store_le32-le32 : store_le32 (le32 b0 b1 b2 b3) ≡ b0 ∷ b1 ∷ b2 ∷ b3 ∷ []
  unfolding store_le32
  store_le32-le32 = rw le32_as_sum (ground arith)

pub le32-bytes :
    (v : ℕ) → v < 2 ^ 32 → le32 (u8 v) (u8 (shr v 8)) (u8 (shr v 16)) (u8 (shr v 24)) ≡ v
le32-bytes v h = omega (
  arith,
  le32_as_sum (u8 v) (u8 (shr v 8)) (u8 (shr v 16)) (u8 (shr v 24)) (omega arith) (omega arith)
      (omega arith) (omega arith),
)

-- Where the sum does not wrap, rounding goes up to the next multiple of a block.
pub round_block_size_lem :
    (size : ℕ) → size + 2047 < 2 ^ 32 → round_block_size size ≡ (size + 2047) / 2048 * 2048
unfolding round_block_size
round_block_size_lem size h =
    let n : ℕ = u32 (size + 2047) in
    let split : n ≡ n / 2048 * 2 ^ 11 + n % 2048 = omega arith in
    let e : bit_and (n / 2048 * 2 ^ 11 + n % 2048) (2097151 * 2 ^ 11)
        ≡ bit_and (n / 2048) 2097151 * 2 ^ 11 =
      and_shifted 11 (n / 2048) (n % 2048) 2097151 (omega arith) in
    let m : bit_and (n / 2048) 2097151 ≡ n / 2048 % 2 ^ 21 = and_mask 21 (n / 2048) 2097151 refl in
    rw split (rw e (rw m (omega arith)))

-- The inverse of `unobfuscate_u32`: rotate the other way, then mask.
unfoldable pub obfuscate_u32 : ℕ → ℕ
obfuscate_u32 value = bit_xor (value % 2 ^ 13 * 2 ^ 19 + value / 2 ^ 13) 0xC103D3E7

pub unobfuscate_u32-obfuscate_u32 : (v : ℕ) → v < 2 ^ 32 → unobfuscate_u32 (obfuscate_u32 v) ≡ v
unfolding unobfuscate_u32 obfuscate_u32
unobfuscate_u32-obfuscate_u32 v h =
    let r : ℕ = v % 2 ^ 13 * 2 ^ 19 + v / 2 ^ 13 in
    let left : shl32 r 13 ≡ v / 2 ^ 13 * 2 ^ 13 = omega arith in
    let right : shr r 19 ≡ v % 2 ^ 13 = omega arith in
    rw (xor_cancel r 0xC103D3E7)
      (rw (left, right, or_low 13 (v / 2 ^ 13) (v % 2 ^ 13) (omega arith)) (omega arith))

pub obfuscate_u32-lt : (v : ℕ) → v < 2 ^ 32 → obfuscate_u32 v < 2 ^ 32
unfolding obfuscate_u32
obfuscate_u32-lt v h = xor-lt 32 _ _ (omega arith) (omega arith)

-- Every byte of a buffer is one; past the end `get_or` answers 0.
abbrev pub AreBytes : List ℕ → Type 0
AreBytes buf = (i : ℕ) → IsByte (get_or buf i 0)

-- The little-endian word at an offset, as a sum.
abbrev pub word_at : List ℕ → ℕ → ℕ
word_at buf p =
    get_or buf p 0
    + get_or buf (p + 1) 0 * 2 ^ 8
    + get_or buf (p + 2) 0 * 2 ^ 16
    + get_or buf (p + 3) 0 * 2 ^ 24

pub read_lem : (buf : List ℕ) (i : ℕ) → i < length buf → read buf i ≡ done (get_or buf i 0)
unfolding read
read_lem buf i h = rw (get_elem?-eq-get_or buf i 0 h, read)

-- A load inside the buffer does not fault.
pub load_le32_lem :
    (buf : List ℕ) (p : ℕ)
    → AreBytes buf
    → p + 4 ≤ length buf
    → load_le32 buf p ≡ done (word_at buf p)
unfolding load_le32
load_le32_lem buf p bytes h =
    rw
      (
        read_lem buf p (omega arith),
        read_lem buf (p + 1) (omega arith),
        read_lem buf (p + 2) (omega arith),
        read_lem buf (p + 3) (omega arith),
      )
      (ap done (le32_as_sum _ _ _ _ (bytes p) (bytes (p + 1)) (bytes (p + 2)) (bytes (p + 3))))

pub word_at-lt : (buf : List ℕ) (p : ℕ) → AreBytes buf → word_at buf p < 2 ^ 32
word_at-lt buf p bytes = omega (arith, bytes p, bytes (p + 1), bytes (p + 2), bytes (p + 3))

pub AreBytes-nil : AreBytes []
AreBytes-nil i = omega arith

pub AreBytes-cons : (b : ℕ) (buf : List ℕ) → IsByte b → AreBytes buf → AreBytes (b ∷ buf)
AreBytes-cons b buf h t zero = h
AreBytes-cons b buf h t (suc i) = t i

pub AreBytes-drop : (n : ℕ) (buf : List ℕ) → AreBytes buf → AreBytes (drop n buf)
AreBytes-drop zero buf h = h
AreBytes-drop (suc n) [] h = h
AreBytes-drop (suc n) (b ∷ buf) h = AreBytes-drop n buf (λ i. h (suc i))

pub AreBytes-take : (n : ℕ) (buf : List ℕ) → AreBytes buf → AreBytes (take n buf)
AreBytes-take zero buf h = AreBytes-nil
AreBytes-take (suc n) [] h = h
AreBytes-take (suc n) (b ∷ buf) h = AreBytes-cons b _ (h 0) (AreBytes-take n buf (λ i. h (suc i)))

-- A copy inside the buffer does not fault, and has as many bytes as were asked for.
pub slice_lem :
    (buf : List ℕ) (offset n : ℕ)
    → offset + n ≤ length buf
    → (slice buf offset n ≡ done (take n (drop offset buf)))
      × (length (take n (drop offset buf)) ≡ n)
unfolding slice
slice_lem buf offset n h =
    (ground arith, omega (arith, length-take n (drop offset buf), length-drop offset buf))

pub unobfuscate_u32-lt : (v : ℕ) → v < 2 ^ 32 → unobfuscate_u32 v < 2 ^ 32
unfolding unobfuscate_u32
unobfuscate_u32-lt v h =
    let m : ℕ = bit_xor v 0xC103D3E7 in
    let m_word : m < 2 ^ 32 = xor-lt 32 v 0xC103D3E7 h (omega arith) in
    let left : shl32 m 13 ≡ m % 2 ^ 19 * 2 ^ 13 = omega arith in
    rw (left, or_low 13 (m % 2 ^ 19) (shr m 19) (omega arith)) (omega arith)
