-- ===== src/Saa/Tests.antt =====
-- The archive reader on concrete bytes: a file with one block, its table and its header.
use mathlib.Core.List.{flatten}
use libsamp.Common.{
  ℕ, zero, suc, ◌+◌, ◌*◌, ◌^◌, ◌<◌, ◌≤◌, ◌≡◌, ◌↔◌, refl, arith, List, [], ◌∷◌, ◌++◌, some, Bool,
  true, ◌&&◌, length, take, drop, replicate, ltb, bit_xor,
}
use libsamp.Common.Outcome.{done, fail, Returns}
use libsamp.Saa.Tea.{
  Key, tea_load_key, tea_decrypt_with_key, decrypt_block, decrypt_rounds, decrypt_round, tea_mix,
  key_at, chain_key,
}
use libsamp.Saa.Tea.Shape.{loaded_key}
use libsamp.Saa.Tea.Inverse.{
  IsBlocks, none_left, eight, tea_encrypt_with_key, encrypt_block, encrypt_rounds, encrypt_round,
  tea_decrypt-encrypt,
}
use libsamp.Saa.Archive.{
  Archive, File, samp_saa_open_verified, find_entry, locate_entry, sum_previous, decode_entry,
  fresh_visited, samp_saa_find, extract_blocks, samp_saa_extract,
}
use libsamp.Saa.Hash.{
  hash_mix, hash_bytes, hash_loop, hash_tail, add_tail, mix_third, mix_left, mix_right, to_lower,
  is_separator, samp_saa_hash_filename, samp_saa_hash_path,
}
use libsamp.Saa.Hash.Laws.{hash_path-same}
use libsamp.Saa.Archive.Open.{
  IsOpen, opened, opens, samp_saa_open_verified-Returns, samp_saa_open_verified-IsOpen,
}
use libsamp.Saa.Archive.Find.{IsFile, samp_saa_find-Returns, samp_saa_find_iff}
use libsamp.Saa.Archive.Extract.{file_key, samp_saa_extract_total}
use libsamp.Saa.Archive.Content.{encrypt_chunks, AreChunks, samp_saa_extract-encrypted}
use libsamp.Saa.Bytes.{read, slice, le32, load_le32, store_le32, round_block_size, unobfuscate_u32}
use libsamp.Saa.Bytes.Laws.{AreBytes, AreBytes-nil, AreBytes-cons, word_at, obfuscate_u32}
use libsamp.Saa.Layout.{Layout, layout_of_header, samp_saa_parse_layout}
use libsamp.Saa.Layout.Accepts.{IsLayout, samp_saa_parse_layout_iff, samp_saa_parse_layout-Returns}

-- A check that a list holds bytes, to evaluate.
all_bytes : List ℕ → Bool
all_bytes [] = true
all_bytes (b ∷ buf) = ltb b 256 && all_bytes buf

AreBytes-check : (buf : List ℕ) → all_bytes buf ≡ true → AreBytes buf
unfolding all_bytes
AreBytes-check [] e = AreBytes-nil
AreBytes-check (b ∷ buf) e =
    let both : (b < 256) × (all_bytes buf ≡ true) = ground arith in
    AreBytes-cons b buf both.0 (AreBytes-check buf both.1)

-- An archive without files: signature of 96 bytes, invalid index 5.
abbrev empty_archive : List ℕ
empty_archive = replicate 248 0 ++ (0x93 ∷ 0x34 ∷ 0x28 ∷ 0x30 ∷ 0xA0 ∷ 0 ∷ 0 ∷ 0 ∷ replicate 2144 0)

abbrev empty_layout : Layout
empty_layout = record {
  header_size = 256;
  entry_offset = 256;
  signature_offset = 2304;
  signature_size = 96;
  invalid_index = 5;
}

empty_archive_bytes : AreBytes empty_archive
unfolding all_bytes
empty_archive_bytes = AreBytes-check empty_archive refl

length-empty_archive : length empty_archive ≡ 2400
length-empty_archive = refl

parse-empty_archive : samp_saa_parse_layout (some empty_archive) 2400 ≡ done empty_layout
unfolding samp_saa_parse_layout layout_of_header load_le32 read le32
parse-empty_archive = refl

samp_saa_parse_layout_iff_example :
    (samp_saa_parse_layout (some empty_archive) 2400 ≡ done empty_layout)
    ↔ (2312 ≤ 2400)
      × IsLayout 2400 (word_at empty_archive 248) (word_at empty_archive 252) empty_layout
samp_saa_parse_layout_iff_example =
    samp_saa_parse_layout_iff empty_archive 2400 empty_archive_bytes
      (omega (arith, length-empty_archive)) (omega arith) empty_layout

samp_saa_parse_layout-Returns_example : Returns (samp_saa_parse_layout (some empty_archive) 2400)
samp_saa_parse_layout-Returns_example =
    samp_saa_parse_layout-Returns empty_archive 2400 empty_archive_bytes
      (omega (arith, length-empty_archive)) (omega arith)

-- The table of an archive whose entry 0 is a file of 5 bytes with hash 7, and whose entry 1 is
-- one of 3000 bytes with hash 9 that stands behind it.
entry_bytes_of : ℕ → ℕ → ℕ → List ℕ
entry_bytes_of hash previous size =
    store_le32 hash ++ store_le32 (obfuscate_u32 (bit_xor (size * 256 + previous) hash))

table_bytes : List ℕ
table_bytes = entry_bytes_of 7 5 5 ++ (entry_bytes_of 9 0 3000 ++ replicate 2032 0)

-- Three blocks of content, the first for the file of 5 bytes.
eights : ℕ → List ℕ
eights zero = []
eights (suc n) = 1 ∷ 2 ∷ 3 ∷ 4 ∷ 5 ∷ 6 ∷ 7 ∷ 8 ∷ eights n

abbrev two_files_layout : Layout
two_files_layout = record {
  header_size = 256;
  entry_offset = 6400;
  signature_offset = 8448;
  signature_size = 96;
  invalid_index = 5;
}

bare : Archive
bare = record {
  bytes = [];
  data_size = 8544;
  layout = two_files_layout;
  entries = table_bytes;
  ready = true;
}

content : List (List ℕ)
content = eights 256 ∷ []

two_files : Archive
two_files = record bare {
  bytes = replicate 256 0 ++ (encrypt_chunks (file_key bare 7) content ++ replicate 6240 0);
}

file_seven : File
file_seven = record { hash = 7; size = 5; data_offset = 256; entry_index = 0 }

file_nine : File
file_nine = record { hash = 9; size = 3000; data_offset = 2304; entry_index = 1 }

find-two_files :
    (samp_saa_find two_files 7 ≡ done file_seven)
    × (samp_saa_find two_files 9 ≡ done file_nine)
    × (samp_saa_find two_files 8 ≡ fail)
unfolding samp_saa_find find_entry locate_entry sum_previous decode_entry load_le32 read le32
    unobfuscate_u32 fresh_visited round_block_size two_files bare table_bytes entry_bytes_of
    store_le32 obfuscate_u32 file_seven file_nine
find-two_files = (refl, refl, refl)

IsBlocks-eights : (n : ℕ) → IsBlocks (eights n)
unfolding eights
IsBlocks-eights zero = none_left
IsBlocks-eights (suc n) =
    eight 1 2 3 4 5 6 7 8 (omega arith) (omega arith) (omega arith) (omega arith) (omega arith)
      (omega arith) (omega arith) (omega arith) (IsBlocks-eights n)

extract-two_files : samp_saa_extract two_files file_seven 5 ≡ done (1 ∷ 2 ∷ 3 ∷ 4 ∷ 5 ∷ [])
unfolding samp_saa_extract extract_blocks slice tea_load_key tea_decrypt_with_key decrypt_block
    decrypt_rounds decrypt_round tea_mix key_at chain_key encrypt_chunks tea_encrypt_with_key
    encrypt_block encrypt_rounds encrypt_round file_key loaded_key load_le32 read le32
    round_block_size two_files bare table_bytes entry_bytes_of store_le32 obfuscate_u32 file_seven
    content eights
extract-two_files = refl

two_files-IsOpen : IsOpen two_files
unfolding two_files bare table_bytes all_bytes entry_bytes_of store_le32 obfuscate_u32 content
    eights encrypt_chunks tea_encrypt_with_key encrypt_block encrypt_rounds encrypt_round file_key
    loaded_key tea_mix key_at chain_key le32
two_files-IsOpen = record {
  is_ready = refl;
  data_word = omega arith;
  data_room = long_enough;
  header = refl;
  blocks = refl;
  table_room = omega arith;
  invalid_byte = omega arith;
  table_size = refl;
  table_bytes = AreBytes-check two_files.entries refl;
  data_bytes = AreBytes-check two_files.bytes refl;
}
  where
    size : length two_files.bytes ≡ 8544
    size = refl

    long_enough : 8544 ≤ length two_files.bytes
    long_enough = omega (arith, size)

IsFile-seven : IsFile two_files 7 file_seven
IsFile-seven = (samp_saa_find_iff two_files 7 two_files-IsOpen file_seven).0 find-two_files.0

samp_saa_find-Returns_example : Returns (samp_saa_find two_files 9)
samp_saa_find-Returns_example = samp_saa_find-Returns two_files 9 two_files-IsOpen

samp_saa_find_iff_example :
    (samp_saa_find two_files 9 ≡ done file_nine) ↔ IsFile two_files 9 file_nine
samp_saa_find_iff_example = samp_saa_find_iff two_files 9 two_files-IsOpen file_nine

five_fit : file_seven.size ≤ 64
unfolding file_seven
five_fit = omega arith

samp_saa_extract_total_example :
    (out : List ℕ) × (samp_saa_extract two_files file_seven 64 ≡ done out)
    × (length out ≡ file_seven.size)
samp_saa_extract_total_example =
    samp_saa_extract_total two_files 7 64 file_seven two_files-IsOpen IsFile-seven five_fit

content-AreChunks : AreChunks content
unfolding content eights
content-AreChunks = (refl, IsBlocks-eights 256, tt)

content_enough : file_seven.size ≤ length content * 2048
unfolding file_seven content
content_enough = omega arith

content_stored :
    drop file_seven.data_offset two_files.bytes
    ≡ encrypt_chunks (file_key two_files file_seven.hash) content ++ replicate 6240 0
unfolding file_seven two_files file_key
content_stored = refl

samp_saa_extract-encrypted_example :
    samp_saa_extract two_files file_seven 64 ≡ done (take file_seven.size (flatten content))
samp_saa_extract-encrypted_example =
    samp_saa_extract-encrypted two_files 7 64 file_seven content (replicate 6240 0) two_files-IsOpen
      IsFile-seven five_fit content-AreChunks content_enough content_stored

samp_saa_open_verified-Returns_example :
    Returns (samp_saa_open_verified (some empty_archive) 2400 true)
samp_saa_open_verified-Returns_example =
    samp_saa_open_verified-Returns empty_archive 2400 empty_archive_bytes
      (omega (arith, length-empty_archive)) (omega arith) true

abbrev test_key : Key
test_key = record { k0 = 1; k1 = 0xFFFFFFFF; k2 = 3; k3 = 0x12345678 }

tea_decrypt-encrypt_example :
    let (out, key') = tea_encrypt_with_key (eights 2) test_key in
    tea_decrypt_with_key out test_key ≡ (eights 2, key')
tea_decrypt-encrypt_example = tea_decrypt-encrypt test_key (IsBlocks-eights 2)

empty_room : 2400 ≤ length empty_archive
empty_room = omega (arith, length-empty_archive)

empty_word : 2400 < 2 ^ 32
empty_word = omega arith

samp_saa_open_verified-IsOpen_example :
    IsOpen (opened empty_archive 2400 empty_layout) × (◌≡◌ {A = Bool} true true)
samp_saa_open_verified-IsOpen_example =
    samp_saa_open_verified-IsOpen empty_archive 2400 empty_archive_bytes empty_room empty_word true
      (opened empty_archive 2400 empty_layout)
      (opens empty_archive 2400 empty_archive_bytes empty_room empty_word empty_layout
        parse-empty_archive)

-- "main.scm" and "script.img", and their places among the paths of the game.
main_scm : List ℕ
main_scm = b'm' ∷ b'a' ∷ b'i' ∷ b'n' ∷ b'.' ∷ b's' ∷ b'c' ∷ b'm' ∷ []

script_img : List ℕ
script_img = b'S' ∷ b'C' ∷ b'R' ∷ b'I' ∷ b'P' ∷ b'T' ∷ b'.' ∷ b'I' ∷ b'M' ∷ b'G' ∷ []

-- The hashes that the source names.
hash-names :
    (samp_saa_hash_filename (some main_scm) ≡ 0xD83F24DD)
    × (samp_saa_hash_filename (some script_img) ≡ 0x11A462D1)
unfolding samp_saa_hash_filename hash_bytes hash_loop hash_tail add_tail hash_mix mix_third mix_left
    mix_right le32 to_lower main_scm script_img
hash-names = (refl, refl)

-- "MAIN.scm" in a directory, and "main.scm"
abbrev main_capitals : List ℕ
main_capitals = b'M' ∷ b'A' ∷ b'I' ∷ b'N' ∷ b'.' ∷ b's' ∷ b'c' ∷ b'm' ∷ []

hash_path-same_example :
    samp_saa_hash_path (some ((b'd' ∷ b':' ∷ []) ++ (0x5C ∷ main_capitals)))
    ≡ samp_saa_hash_path (some main_scm)
unfolding main_scm is_separator to_lower
hash_path-same_example =
    hash_path-same (b'd' ∷ b':' ∷ []) main_capitals main_scm 0x5C refl
      (refl, (refl, (refl, (refl, (refl, (refl, (refl, (refl, tt))))))))
      (refl, (refl, (refl, (refl, (refl, (refl, (refl, (refl, tt)))))))) refl
