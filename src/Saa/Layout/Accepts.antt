-- ===== src/Saa/Layout/Accepts.antt =====
-- Which files `samp_saa_parse_layout` accepts, and what it makes of them.
use libsamp.Common.{
  ℕ, ◌+◌, ◌/◌, ◌%◌, ◌^◌, ◌<◌, ◌≤◌, ◌≡◌, ◌↔◌, arith, List, some, bit_xor, shr, length,
}
use native.Mathlib.Decide.{dec_lt}
use libsamp.Common.{sym, ◌∙◌}
use libsamp.Common.Bits.{and_mask}
use libsamp.Common.Outcome.{done, fail, Returns}
use libsamp.Saa.Bytes.Laws.{AreBytes, word_at, load_le32_lem}
use libsamp.Saa.Layout.{Layout, saa_id, saa_version, layout_of_header, samp_saa_parse_layout}

-- The format, read off two words: `encoded` and `key` stand at offsets 248 and 252. The file is
-- the header, whole blocks, the table of 2048 bytes and the signature.
pub record IsLayout (data_size encoded key : ℕ) (l : Layout) : Type 0 where
  pub id : bit_xor encoded key % 2 ^ 20 ≡ saa_id
  pub version : bit_xor encoded key / 2 ^ 20 % 8 ≡ saa_version
  pub size_field : l.signature_size ≡ bit_xor encoded key / 2 ^ 23 % 256
  pub signed : 0 < l.signature_size
  pub header : l.header_size ≡ 256
  pub blocks : l.entry_offset % 2048 ≡ 256
  pub table : l.entry_offset + 2048 ≡ l.signature_offset
  pub whole : l.signature_offset + l.signature_size ≡ data_size
  pub invalid : l.invalid_index ≡ key / 2 ^ 5 % 256

layout_of_header_iff :
    (data_size encoded key : ℕ) (l : Layout)
    → 2312 ≤ data_size
    → data_size < 2 ^ 32
    → (layout_of_header data_size encoded key ≡ done l) ↔ IsLayout data_size encoded key l
unfolding layout_of_header
layout_of_header_iff n e k l low high = (
  λ h. ground (
    arith,
    and_mask 20 (bit_xor e k) 0xFFFFF,
    and_mask 3 (shr (bit_xor e k) 20) 7,
    and_mask 8 (shr (bit_xor e k) 23) 0xFF,
    and_mask 8 (shr k 5) 0xFF,
  ),
  λ h. ground (
    arith,
    and_mask 20 (bit_xor e k) 0xFFFFF,
    and_mask 3 (shr (bit_xor e k) 20) 7,
    and_mask 8 (shr (bit_xor e k) 23) 0xFF,
    and_mask 8 (shr k 5) 0xFF,
  ),
)

layout_of_header-Returns : (n e k : ℕ) → Returns (layout_of_header n e k)
unfolding layout_of_header
layout_of_header-Returns n e k = ground arith

module _ (bytes : List ℕ) (n : ℕ) (all : AreBytes bytes) (room : n ≤ length bytes)
    (word : n < 2 ^ 32) where
  short_fails : n < 2312 → samp_saa_parse_layout (some bytes) n ≡ fail
  unfolding samp_saa_parse_layout
  short_fails h = ground arith

  loads :
      2312 ≤ n
      → samp_saa_parse_layout (some bytes) n
        ≡ layout_of_header n (word_at bytes 248) (word_at bytes 252)
  unfolding samp_saa_parse_layout
  loads h =
      ground (
        arith,
        load_le32_lem bytes 248 all (omega arith),
        load_le32_lem bytes 252 all (omega arith),
      )

  -- A buffer of `n` bytes parses to a layout exactly when it has the smallest size and the two
  -- header words describe that layout: every field of the result is then determined.
  pub samp_saa_parse_layout_iff :
      (l : Layout)
      → (samp_saa_parse_layout (some bytes) n ≡ done l)
        ↔ (2312 ≤ n) × IsLayout n (word_at bytes 248) (word_at bytes 252) l
  samp_saa_parse_layout_iff l = elim (dec_lt n 2312) [
    | yes h ↦ (λ e. absurd (never (sym (short_fails h) ∙ e)), λ e. absurd (omega (arith, e.0)))
    | no h ↦
        let low : 2312 ≤ n = omega arith in
        let both = layout_of_header_iff n (word_at bytes 248) (word_at bytes 252) l low word in
        (λ e. (low, both.0 (sym (loads low) ∙ e)), λ e. loads low ∙ both.1 e.1)
  ]
    where
      never : {l : Layout} → fail ≡ done l → ⊥
      never e = cc

  -- No read of the parser leaves the buffer, whatever the bytes are.
  pub samp_saa_parse_layout-Returns : Returns (samp_saa_parse_layout (some bytes) n)
  samp_saa_parse_layout-Returns = elim (dec_lt n 2312) [
    | yes h ↦ rw (short_fails h) (λ e. cc)
    | no h ↦ rw (loads (omega arith)) (layout_of_header-Returns n _ _)
  ]
