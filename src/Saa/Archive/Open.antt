-- ===== src/Saa/Archive/Open.antt =====
-- What `samp_saa_open_verified` establishes, and the entries of such an archive.
use libsamp.Common.{
  ℕ, ◌+◌, ◌*◌, ◌%◌, ◌^◌, ◌<◌, ◌≤◌, ◌≡◌, refl, arith, List, Bool, true, some, bit_xor, u8, shr,
  length, take, drop, false, sym, ◌∙◌, subst,
}
use libsamp.Common.Bits.{xor-lt}
use libsamp.Common.Outcome.{Outcome, done, fail, fault, Returns, done-Returns, >>=-eq-done}
use libsamp.Saa.Bytes.{unobfuscate_u32}
use libsamp.Saa.Bytes.Laws.{
  AreBytes, AreBytes-take, AreBytes-drop, slice_lem, word_at, word_at-lt, load_le32_lem,
  unobfuscate_u32-lt,
}
use libsamp.Saa.Tea.{tea_decrypt_with_key, tea_decrypt}
use libsamp.Saa.Tea.Shape.{
  loaded_key, tea_load_key_lem, length-tea_decrypt_with_key, tea_decrypt_with_key-AreBytes,
}
use libsamp.Saa.Layout.{Layout, samp_saa_parse_layout}
use libsamp.Saa.Layout.Accepts.{IsLayout, samp_saa_parse_layout_iff, samp_saa_parse_layout-Returns}
use libsamp.Saa.Archive.{Archive, Entry, decode_entry, samp_saa_open_verified, table_key_obfuscated}

-- The invariant of an archive that was opened.
pub record IsOpen (a : Archive) : Type 0 where
  pub is_ready : a.ready ≡ true
  pub data_word : a.data_size < 2 ^ 32
  pub data_room : a.data_size ≤ length a.bytes
  pub header : a.layout.header_size ≡ 256
  pub blocks : a.layout.entry_offset % 2048 ≡ 256
  pub table_room : a.layout.entry_offset + 2048 < a.data_size
  pub invalid_byte : a.layout.invalid_index < 256
  pub table_size : length a.entries ≡ 2048
  pub table_bytes : AreBytes a.entries
  pub data_bytes : AreBytes a.bytes

-- The entry that the eight bytes at `index * 8` of the table hold.
unfoldable pub entry_at : Archive → ℕ → Entry
entry_at a i =
    let hash = word_at a.entries (i * 8) in
    let decoded = bit_xor (unobfuscate_u32 (word_at a.entries (i * 8 + 4))) hash in
    record { hash = hash; previous = u8 decoded; size = shr decoded 8 }

pub entry_at_bounds :
    (a : Archive) (i : ℕ)
    → IsOpen a
    → ((entry_at a i).hash < 2 ^ 32)
      × ((entry_at a i).previous < 256)
      × ((entry_at a i).size < 2 ^ 24)
unfolding entry_at
entry_at_bounds a i v =
    let h = word_at-lt a.entries (i * 8) v.table_bytes in
    let w = word_at-lt a.entries (i * 8 + 4) v.table_bytes in
    let d =
      xor-lt 32 (unobfuscate_u32 (word_at a.entries (i * 8 + 4))) (word_at a.entries (i * 8))
        (unobfuscate_u32-lt _ w) h in
    (h, omega arith, omega arith)

-- In an open archive `decode_entry` reads inside the table and answers 1 for every byte.
pub decode_entry_lem :
    (a : Archive) (i : ℕ) → IsOpen a → i < 256 → decode_entry a i ≡ done (entry_at a i)
unfolding decode_entry entry_at
decode_entry_lem a i v h = ground (
  arith,
  load_le32_lem a.entries (i * 8) v.table_bytes (omega arith),
  load_le32_lem a.entries (i * 8 + 4) v.table_bytes (omega arith),
)

module _ (bytes : List ℕ) (n : ℕ) where
  table : Layout → List ℕ
  table l = take 2048 (drop l.entry_offset bytes)

  -- The archive that a parsed layout opens to.
  pub opened : Layout → Archive
  opened l = record {
    bytes = bytes;
    data_size = n;
    layout = l;
    entries = (tea_decrypt_with_key (table l) (loaded_key table_key_obfuscated 0xAA)).0;
    ready = true;
  }

module _ (bytes : List ℕ) (n : ℕ) (all : AreBytes bytes) (room : n ≤ length bytes)
    (word : n < 2 ^ 32) where
  obfuscated_bytes : AreBytes table_key_obfuscated
  obfuscated_bytes = grind arith

  module _ (l : Layout) (parsed : samp_saa_parse_layout (some bytes) n ≡ done l) where
    format : IsLayout n (word_at bytes 248) (word_at bytes 252) l
    format = ((samp_saa_parse_layout_iff bytes n all room word l).0 parsed).1

    table_size : length (table bytes n l) ≡ 2048
    unfolding table
    table_size = (slice_lem bytes l.entry_offset 2048 (omega (arith, format))).1

    pub opens : samp_saa_open_verified (some bytes) n true ≡ done (opened bytes n l)
    unfolding samp_saa_open_verified tea_decrypt table opened
    opens = rw (
      parsed,
      (slice_lem bytes l.entry_offset 2048 (omega (arith, format))).0,
      tea_load_key_lem table_key_obfuscated 0xAA obfuscated_bytes (omega arith) refl,
    )

    opened-IsOpen : IsOpen (opened bytes n l)
    unfolding opened table
    opened-IsOpen = record {
      is_ready = refl;
      data_word = word;
      data_room = room;
      header = format.header;
      blocks = format.blocks;
      table_room = omega (arith, format);
      invalid_byte = omega (arith, format.invalid);
      table_size = length-tea_decrypt_with_key (table bytes n l) _ ∙ table_size;
      table_bytes =
          tea_decrypt_with_key-AreBytes (table bytes n l) _ (
            AreBytes-take 2048 (drop l.entry_offset bytes)
              (AreBytes-drop l.entry_offset bytes all));
      data_bytes = all;
    }

  -- An archive that `samp_saa_open_verified` answers 1 with meets the invariant, and its signature
  -- was verified.
  pub samp_saa_open_verified-IsOpen :
      (verified : Bool) (a : Archive)
      → samp_saa_open_verified (some bytes) n verified ≡ done a
      → IsOpen a × (verified ≡ true)
  unfolding samp_saa_open_verified
  samp_saa_open_verified-IsOpen false a e = absurd (cc)
  samp_saa_open_verified-IsOpen true a e =
      let parse = >>=-eq-done (samp_saa_parse_layout (some bytes) n) _ e in
      let a_is : opened bytes n parse.0 ≡ a = same (sym (opens parse.0 parse.1) ∙ e) in
      (subst IsOpen a_is (opened-IsOpen parse.0 parse.1), refl)
    where
      same : {x y : Archive} → done x ≡ done y → x ≡ y
      same e = cc

  -- The archive keeps the buffer that it was opened from.
  pub samp_saa_open_verified-bytes :
      (a : Archive) → samp_saa_open_verified (some bytes) n true ≡ done a → a.bytes ≡ bytes
  unfolding samp_saa_open_verified opened
  samp_saa_open_verified-bytes a e =
      let parse = >>=-eq-done (samp_saa_parse_layout (some bytes) n) _ e in
      same (sym (opens parse.0 parse.1) ∙ e)
    where
      same : {x y : Archive} → done x ≡ done y → y.bytes ≡ x.bytes
      same e = cc

  -- It never reads outside the buffer.
  pub samp_saa_open_verified-Returns :
      (verified : Bool) → Returns (samp_saa_open_verified (some bytes) n verified)
  samp_saa_open_verified-Returns false = λ e. unfold samp_saa_open_verified in cc
  samp_saa_open_verified-Returns true = by_parse (samp_saa_parse_layout (some bytes) n) refl
    where
      by_parse :
          (o : Outcome Layout)
          → samp_saa_parse_layout (some bytes) n ≡ o
          → Returns (samp_saa_open_verified (some bytes) n true)
      by_parse (done l) p = done-Returns (opens l p)
      by_parse fail p = λ e. unfold samp_saa_open_verified in ground (arith, p)
      by_parse fault p = absurd (samp_saa_parse_layout-Returns bytes n all room word p)
