-- ===== src/Saa/Archive.antt =====
-- `samp_saa_open_verified`, `decode_entry`, `samp_saa_find` and `samp_saa_extract` of saa.c.
-- Output pointers are not null; `fail` is the answer 0.
pub mod Open
pub mod Marks
pub mod Chain
pub mod Find
pub mod Extract
pub mod Content
use libsamp.Common.{
  ℕ, zero, suc, ◌+◌, ◌-◌, ◌*◌, ◌%◌, Bool, true, false, ◌&&◌, not, Option, none, some, List, [], ◌∷◌,
  ◌++◌, bit_xor, u8, u16, add32, sub32, shr, length, get_or, set, take, replicate, ltb, leb, ◌==◌,
  if◌then◌else◌,
}
use libsamp.Common.Outcome.{Outcome, done, fail, fault, ◌>>=◌, ◌>>◌, guard}
use libsamp.Saa.Bytes.{block_bytes, load_le32, slice, round_block_size, unobfuscate_u32}
use libsamp.Saa.Tea.{Key, tea_load_key, tea_decrypt_with_key, tea_decrypt}
use libsamp.Saa.Layout.{Layout, entry_count, entry_bytes, table_bytes, samp_saa_parse_layout}

-- `samp_saa_archive` with `bytes` for `data`. One with `ready` 0 is the `none` of a caller.
pub record Archive : Type 0 where
  pub bytes : List ℕ
  pub data_size : ℕ
  pub layout : Layout
  pub entries : List ℕ
  pub ready : Bool

pub record File : Type 0 where
  pub hash : ℕ
  pub size : ℕ
  pub data_offset : ℕ
  pub entry_index : ℕ

-- What `decode_entry` writes through its pointers.
pub record Entry : Type 0 where
  pub hash : ℕ
  pub previous : ℕ
  pub size : ℕ

abbrev pub table_key_obfuscated : List ℕ
table_key_obfuscated =
    0xB9 ∷ 0xEA ∷ 0x40 ∷ 0x0A ∷ 0xA3 ∷ 0x1F ∷ 0x01 ∷ 0x23 ∷ 0xB0 ∷ 0xEA ∷ 0x46 ∷ 0x64 ∷ 0x78 ∷ 0xAF
    ∷ 0x50 ∷ 0x80 ∷ []

unfoldable pub samp_saa_open_verified : Option (List ℕ) → ℕ → Bool → Outcome Archive
samp_saa_open_verified none data_size signature_verified = fail
samp_saa_open_verified (some bytes) data_size signature_verified = do
  guard signature_verified
  layout ← samp_saa_parse_layout (some bytes) data_size
  table ← slice bytes layout.entry_offset table_bytes
  entries ← tea_decrypt table table_key_obfuscated 0xAA
  done (record {
    bytes = bytes;
    data_size = data_size;
    layout = layout;
    entries = entries;
    ready = true;
  })

unfoldable pub decode_entry : Archive → ℕ → Outcome Entry
decode_entry archive index = do
  guard (archive.ready && ltb index entry_count)
  let entry = index * entry_bytes
  hash ← load_le32 archive.entries entry
  word ← load_le32 archive.entries (entry + 4)
  let decoded = bit_xor (unobfuscate_u32 word) hash
  done (record { hash = hash; previous = u8 decoded; size = shr decoded 8 })

-- The `for` loop of `samp_saa_find`, with `n` indices left. The loop that ends without a
-- `break` leaves `index == SAMP_SAA_ENTRY_COUNT`, which the code then rejects.
unfoldable pub find_entry : Archive → ℕ → ℕ → ℕ → Outcome (ℕ × Entry)
find_entry archive hash zero index = fail
find_entry archive hash (suc n) index = decode_entry archive index >>= λ entry.
    elim (entry.hash == hash) [
      | true ↦ done (index, entry)
      | false ↦ find_entry archive hash n (index + 1)
    ]

-- The `while` loop of `samp_saa_find`, on fuel: `data_offset` grows by the rounded size of each
-- entry on the way to the one whose `previous` is the invalid index.
unfoldable pub sum_previous : Archive → ℕ → List Bool → ℕ → ℕ → Outcome ℕ
sum_previous archive zero visited previous data_offset = fault
sum_previous archive (suc fuel) visited previous data_offset =
    elim (previous == archive.layout.invalid_index) [
      | true ↦ done data_offset
      | false ↦ do
        guard (not (get_or visited previous false))
        entry ← decode_entry archive previous
        guard (not (entry.previous == previous))
        guard (not (entry.size == 0))
        let rounded = round_block_size entry.size
        guard (leb rounded (sub32 archive.layout.entry_offset data_offset))
        sum_previous archive fuel (set visited previous true) entry.previous
            (add32 data_offset rounded)
    ]

-- Each round marks one of the 256 indices, so 257 rounds are enough.
abbrev pub find_fuel : ℕ
find_fuel = entry_count + 1

-- `memset(visited, 0, sizeof(visited))`
unfoldable pub fresh_visited : List Bool
fresh_visited = replicate entry_count false

-- `samp_saa_find` after its `for` loop, which has found `entry` at `index`.
unfoldable pub locate_entry : Archive → ℕ → ℕ → Entry → Outcome File
locate_entry archive hash index entry = do
  guard (not (entry.previous == u8 index))
  guard (not (entry.size == 0))
  data_offset ←
      sum_previous archive find_fuel fresh_visited entry.previous archive.layout.header_size
  guard (leb (round_block_size entry.size) (sub32 archive.layout.entry_offset data_offset))
  done (record { hash = hash; size = entry.size; data_offset = data_offset; entry_index = index })

unfoldable pub samp_saa_find : Archive → ℕ → Outcome File
samp_saa_find archive hash = do
  guard archive.ready
  found ← find_entry archive hash entry_count 0
  locate_entry archive hash found.0 found.1

-- The `while` loop of `samp_saa_extract`, on fuel, with `left` for `file->size - written`. It
-- returns the bytes that are written to `output` from `written` on.
unfoldable pub extract_blocks : Archive → ℕ → ℕ → ℕ → Key → Outcome (List ℕ)
extract_blocks archive zero left source_offset key = fault
extract_blocks archive (suc fuel) left source_offset key = elim (left == 0) [
  | true ↦ done []
  | false ↦ do
    let copy_size = if ltb block_bytes left then block_bytes else left
    block ← slice archive.bytes source_offset block_bytes
    let plain = tea_decrypt_with_key block key
    rest ← extract_blocks archive fuel (left - copy_size) (add32 source_offset block_bytes) plain.1
    done (take copy_size plain.0 ++ rest)
]

-- `output_size` is the room at `output`. Each round writes a byte or more, so `size + 1` rounds
-- are enough.
unfoldable pub samp_saa_extract : Archive → File → ℕ → Outcome (List ℕ)
samp_saa_extract archive file output_size = do
  guard archive.ready
  guard (not (ltb output_size file.size))
  guard (not (ltb archive.layout.entry_offset file.data_offset))
  guard (leb (round_block_size file.size) (sub32 archive.layout.entry_offset file.data_offset))
  let key_offset = file.hash % (table_bytes - 16)
  key_bytes ← slice archive.entries key_offset 16
  key ← tea_load_key key_bytes 0
  extract_blocks archive (file.size + 1) file.size file.data_offset key
