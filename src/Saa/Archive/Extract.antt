-- ===== src/Saa/Archive/Extract.antt =====
-- `samp_saa_extract`: it stays inside the archive, fills the output, and gives back what the
-- reference encryption put into the file's blocks.
use libsamp.Common.{
  ℕ, zero, suc, ◌+◌, ◌-◌, ◌%◌, ◌^◌, ◌<◌, ◌≤◌, ◌≡◌, ◌≢◌, ap, ◌∙◌, arith, List, [], ◌++◌, add32,
  length, take, drop, length-take, length-append, ltb, if◌then◌else◌,
}
use native.Mathlib.Decide.{ℕ_discrete}
use libsamp.Common.Outcome.{Outcome, done, ◌>>=◌}
use libsamp.Saa.Bytes.Laws.{AreBytes-drop, AreBytes-take, slice_lem, round_block_size_lem}
use libsamp.Saa.Tea.{Key, tea_decrypt_with_key}
use libsamp.Saa.Tea.Shape.{loaded_key, tea_load_key_lem, length-tea_decrypt_with_key}
use libsamp.Saa.Archive.{Archive, File, extract_blocks, samp_saa_extract}
use libsamp.Saa.Archive.Open.{IsOpen, entry_at_bounds}
use libsamp.Saa.Archive.Chain.{blocks_of}
use libsamp.Saa.Archive.Find.{IsFile}

-- The bytes that a block of the file takes in the output.
abbrev pub copied : ℕ → ℕ
copied left = if ltb 2048 left then 2048 else left

pub copied_bounds :
    (left : ℕ)
    → (copied left ≤ 2048)
      × (copied left ≤ left)
      × (left ≢ 0 → 0 < copied left)
      × (left ≢ 0 → blocks_of (left - copied left) + 2048 ≡ blocks_of left)
      × (left - copied left ≡ left - 2048)
copied_bounds left = ground arith

length-copy :
    (n : ℕ) (plain rest : List ℕ)
    → n ≤ length plain
    → length (take n plain ++ rest) ≡ n + length rest
length-copy n plain rest h = omega (arith, length-append (take n plain) rest, length-take n plain)

module _ (a : Archive) where
  unfoldable pub block_at : ℕ → List ℕ
  block_at offset = take 2048 (drop offset a.bytes)

  length-block : (offset : ℕ) → offset + 2048 ≤ length a.bytes → length (block_at offset) ≡ 2048
  unfolding block_at
  length-block offset h = (slice_lem a.bytes offset 2048 h).1

  -- One round of the loop, where the block is inside the archive.
  pub extract_round :
      (fuel left offset : ℕ) (key : Key)
      → left ≢ 0
      → offset + 2048 ≤ length a.bytes
      → offset + 2048 < 2 ^ 32
      → extract_blocks a (suc fuel) left offset key ≡ (
          extract_blocks a fuel
            (left - copied left)
            (offset + 2048)
            (tea_decrypt_with_key (block_at offset) key).1
          >>= λ rest.
              done (take (copied left) (tea_decrypt_with_key (block_at offset) key).0 ++ rest))
  unfolding extract_blocks block_at
  extract_round fuel left offset key ne room word =
      let next : add32 offset 2048 ≡ offset + 2048 = omega arith in
      ground (arith, (slice_lem a.bytes offset 2048 room).0)

  extract_blocks_total :
      (fuel left offset : ℕ) (key : Key)
      → left < fuel
      → offset + blocks_of left ≤ length a.bytes
      → offset + blocks_of left < 2 ^ 32
      → (out : List ℕ) × (extract_blocks a fuel left offset key ≡ done out) × (length out ≡ left)
  extract_blocks_total zero left offset key h room word = absurd (omega arith)
  extract_blocks_total (suc fuel) left offset key h room word = elim (ℕ_discrete left 0) [
    | yes e ↦ ([], unfold extract_blocks in ground arith, omega arith)
    | no ne ↦
        let c = copied_bounds left in
        let plain = tea_decrypt_with_key (block_at offset) key in
        let n : ℕ = copied left in
        let rest =
          extract_blocks_total fuel (left - n) (offset + 2048) plain.1 (omega (arith, c.2 ne))
            (omega (arith, c.3 ne)) (omega (arith, c.3 ne)) in
        let full : length plain.0 ≡ 2048 =
          length-tea_decrypt_with_key (block_at offset) key
          ∙ length-block offset (omega (arith, c.3 ne)) in
        (
          take n plain.0 ++ rest.0,
          extract_round fuel left offset key ne (omega (arith, c.3 ne)) (omega (arith, c.3 ne))
              ∙ ap (λ (m : Outcome (List ℕ)). m >>= λ r. done (take n plain.0 ++ r)) rest.1,
          omega (arith, length-copy n plain.0 rest.0 (omega (arith, full, c.0)), rest.2, c.1),
        )
  ]

-- The key of a file: sixteen bytes of the table, at a place that its hash chooses.
unfoldable pub file_key : Archive → ℕ → Key
file_key a hash = loaded_key (take 16 (drop (hash % 2032) a.entries)) 0

module _ (a : Archive) (v : IsOpen a) (f : File) (room : ℕ) where
  key_bytes : List ℕ
  key_bytes = take 16 (drop (f.hash % 2032) a.entries)

  -- After its checks the function runs the loop with the file's key.
  pub extract_enters :
      f.size ≤ room
      → f.data_offset + blocks_of f.size ≤ a.layout.entry_offset
      → f.size + 2047 < 2 ^ 32
      → samp_saa_extract a f room
        ≡ extract_blocks a (f.size + 1) f.size f.data_offset (file_key a f.hash)
  unfolding samp_saa_extract file_key key_bytes
  extract_enters fits below word = ground (
    arith,
    round_block_size_lem f.size word,
    (slice_lem a.entries (f.hash % 2032) 16 (omega arith)).0,
    tea_load_key_lem key_bytes 0
        (AreBytes-take 16 (drop (f.hash % 2032) a.entries)
          (AreBytes-drop (f.hash % 2032) a.entries v.table_bytes))
        (omega arith) (slice_lem a.entries (f.hash % 2032) 16 (omega arith)).1,
  )

-- A file that the search found is extracted into any output with room for it: the call answers
-- 1, reads inside the archive only, and writes exactly `size` bytes.
pub samp_saa_extract_total :
    (a : Archive) (hash room : ℕ) (f : File)
    → IsOpen a
    → IsFile a hash f
    → f.size ≤ room
    → (out : List ℕ) × (samp_saa_extract a f room ≡ done out) × (length out ≡ f.size)
samp_saa_extract_total a hash room f v file fits =
    let small : f.size < 2 ^ 24 =
      omega (arith, file.entry_size, (entry_at_bounds a f.entry_index v).2) in
    let loop =
      extract_blocks_total a (f.size + 1) f.size f.data_offset (file_key a f.hash) (omega arith)
        (omega (arith, v, file.fits)) (omega (arith, v, file.fits)) in
    (loop.0, extract_enters a v f room fits file.fits (omega arith) ∙ loop.1, loop.2)
