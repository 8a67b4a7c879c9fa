-- ===== src/Saa/Layout.antt =====
-- `samp_saa_layout` and `samp_saa_parse_layout` of saa.c. The output pointer is not null.
pub mod Accepts
use libsamp.Common.{
  ℕ, ◌+◌, ◌-◌, ◌*◌, ◌%◌, ◌&&◌, not, Option, none, some, List, bit_and, bit_xor, u8, sub32, shr, ltb,
  leb, ◌==◌,
}
use libsamp.Common.Outcome.{Outcome, done, fail, ◌>>=◌, ◌>>◌, guard}
use libsamp.Saa.Bytes.{block_bytes, load_le32}

pub record Layout : Type 0 where
  pub header_size : ℕ
  pub entry_offset : ℕ
  pub signature_offset : ℕ
  pub signature_size : ℕ
  pub invalid_index : ℕ

abbrev pub saa_id : ℕ
saa_id = 0x00083433

abbrev pub saa_version : ℕ
saa_version = 2

-- Eight bytes, 120 fake words, and the two words that are read.
abbrev pub header_bytes : ℕ
header_bytes = 8 + 120 * 2 + 8

abbrev pub entry_count : ℕ
entry_count = 256

abbrev pub entry_bytes : ℕ
entry_bytes = 8

abbrev pub table_bytes : ℕ
table_bytes = entry_count * entry_bytes

-- `samp_saa_parse_layout` after the two reads.
unfoldable pub layout_of_header : ℕ → ℕ → ℕ → Outcome Layout
layout_of_header data_size encoded_id xor_key = do
  let decoded_id = bit_xor encoded_id xor_key
  guard (bit_and decoded_id 0x000FFFFF == saa_id && bit_and (shr decoded_id 20) 7 == saa_version)
  let signature_size = bit_and (shr decoded_id 23) 0xFF
  guard (not (signature_size == 0))
  guard (leb signature_size (sub32 (sub32 data_size header_bytes) table_bytes))
  let signature_offset = sub32 data_size signature_size
  let entry_offset = sub32 signature_offset table_bytes
  guard (leb header_bytes entry_offset)
  guard (sub32 entry_offset header_bytes % block_bytes == 0)
  done (record {
    header_size = header_bytes;
    entry_offset = entry_offset;
    signature_offset = signature_offset;
    signature_size = signature_size;
    invalid_index = u8 (bit_and (shr xor_key 5) 0xFF);
  })

unfoldable pub samp_saa_parse_layout : Option (List ℕ) → ℕ → Outcome Layout
samp_saa_parse_layout none data_size = fail
samp_saa_parse_layout (some bytes) data_size = do
  guard (not (ltb data_size (header_bytes + table_bytes + 8)))
  encoded_id ← load_le32 bytes (header_bytes - 8)
  xor_key ← load_le32 bytes (header_bytes - 4)
  layout_of_header data_size encoded_id xor_key
