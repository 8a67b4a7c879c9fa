-- ===== src/Saa/Bytes.antt =====
-- `load_le32`, `store_le32`, `round_block_size` and `unobfuscate_u32` of saa.c, and the reads
-- of a buffer. A byte is a number below 256, a buffer the list of its bytes.
pub mod Laws
use libsamp.Common.{
  ℕ, ◌+◌, ◌-◌, ◌*◌, ◌/◌, ◌%◌, ◌^◌, List, [], ◌∷◌, bit_or, bit_xor, bit_and, u8, u32, add32, shl32,
  shr, length, get_elem?, take, drop, leb, if◌then◌else◌, Option, none, some,
}
use libsamp.Common.Outcome.{Outcome, done, fault, ◌>>=◌}

-- `p[i]`; a read past the end of the object is a fault.
unfoldable pub read : List ℕ → ℕ → Outcome ℕ
read buf i = elim (get_elem? buf i) [ some b ↦ done b | none ↦ fault ]

-- The source of a `memcpy` of `n` bytes from `buf + offset`.
unfoldable pub slice : List ℕ → ℕ → ℕ → Outcome (List ℕ)
slice buf offset n =
    if leb (offset + n) (length buf) then done (take n (drop offset buf)) else fault

-- The expression of `load_le32`, over the four bytes that it reads.
unfoldable pub le32 : ℕ → ℕ → ℕ → ℕ → ℕ
le32 b0 b1 b2 b3 = bit_or (bit_or (bit_or b0 (shl32 b1 8)) (shl32 b2 16)) (shl32 b3 24)

unfoldable pub load_le32 : List ℕ → ℕ → Outcome ℕ
load_le32 buf p = do
  b0 ← read buf p
  b1 ← read buf (p + 1)
  b2 ← read buf (p + 2)
  b3 ← read buf (p + 3)
  done (le32 b0 b1 b2 b3)

-- The four bytes that `store_le32` writes.
unfoldable pub store_le32 : ℕ → List ℕ
store_le32 value = u8 value ∷ u8 (shr value 8) ∷ u8 (shr value 16) ∷ u8 (shr value 24) ∷ []

abbrev pub block_bytes : ℕ
block_bytes = 2048

-- `(size + (SAMP_SAA_BLOCK_BYTES - 1)) & ~(size_t)(SAMP_SAA_BLOCK_BYTES - 1)`
unfoldable pub round_block_size : ℕ → ℕ
round_block_size size = bit_and (add32 size (block_bytes - 1)) (2 ^ 32 - block_bytes)

unfoldable pub unobfuscate_u32 : ℕ → ℕ
unobfuscate_u32 value =
    let value = bit_xor value 0xC103D3E7 in bit_or (shr value 19) (shl32 value 13)
