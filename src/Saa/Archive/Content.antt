-- ===== src/Saa/Archive/Content.antt =====
-- What `samp_saa_extract` writes, against the reference encryption of a file's blocks.
use libsamp.Common.{
  ℕ, zero, suc, ◌+◌, ◌-◌, ◌*◌, ◌^◌, ◌<◌, ◌≤◌, ◌≡◌, ap, sym, ◌∙◌, arith, List, [], ◌∷◌, ◌++◌, length,
  take, drop, take-append, take_all, drop-append, drop-drop, take-append_self,
}
use mathlib.Core.List.{flatten, append_assoc}
use native.Mathlib.Decide.{ℕ_discrete, dec_lt}
use libsamp.Common.Outcome.{done}
use libsamp.Saa.Tea.{Key, tea_decrypt_with_key}
use libsamp.Saa.Tea.Shape.{length-tea_decrypt_with_key}
use libsamp.Saa.Tea.Inverse.{IsBlocks, tea_encrypt_with_key, tea_decrypt-encrypt}
use libsamp.Saa.Archive.{Archive, File, extract_blocks, samp_saa_extract}
use libsamp.Saa.Archive.Open.{IsOpen, entry_at_bounds}
use libsamp.Saa.Archive.Chain.{blocks_of}
use libsamp.Saa.Archive.Find.{IsFile}
use libsamp.Saa.Archive.Extract.{
  copied, copied_bounds, block_at, extract_round, extract_enters, file_key,
}

-- What a writer puts into the blocks of a file: each block of 2048 bytes encrypted, with the key
-- going on from one to the next.
unfoldable pub encrypt_chunks : Key → List (List ℕ) → List ℕ
encrypt_chunks key [] = []
encrypt_chunks key (c ∷ chunks) =
    let (out, key') = tea_encrypt_with_key c key in out ++ encrypt_chunks key' chunks

abbrev pub AreChunks : List (List ℕ) → Type 0
AreChunks [] = Unit
AreChunks (c ∷ chunks) = (length c ≡ 2048) × IsBlocks c × AreChunks chunks

-- The encryption keeps the number of bytes.
length-tea_encrypt :
    {c : List ℕ} (key : Key) → IsBlocks c → length (tea_encrypt_with_key c key).0 ≡ length c
length-tea_encrypt {c} key h =
    let out : List ℕ = (tea_encrypt_with_key c key).0 in
    sym (length-tea_decrypt_with_key out key)
    ∙ ap (λ (r : List ℕ × Key). length r.0) (tea_decrypt-encrypt key h)

module _ (a : Archive) (post : List ℕ) where
  -- The block at an offset where an encrypted chunk stands, and what follows it.
  chunk_at :
      (offset : ℕ) (key : Key) (c : List ℕ) (chunks : List (List ℕ))
      → length c ≡ 2048
      → IsBlocks c
      → drop offset a.bytes ≡ encrypt_chunks key (c ∷ chunks) ++ post
      → (tea_decrypt_with_key (block_at a offset) key ≡ (c, (tea_encrypt_with_key c key).1))
        × (drop (offset + 2048) a.bytes
            ≡ encrypt_chunks (tea_encrypt_with_key c key).1 chunks ++ post)
  unfolding block_at encrypt_chunks
  chunk_at offset key c chunks len blocks at =
      let e : List ℕ = (tea_encrypt_with_key c key).0 in
      let rest : List ℕ = encrypt_chunks (tea_encrypt_with_key c key).1 chunks in
      let e_len : length e ≡ 2048 = length-tea_encrypt key blocks ∙ len in
      let whole : drop offset a.bytes ≡ e ++ (rest ++ post) = at ∙ append_assoc e rest post in
      let first : take 2048 (drop offset a.bytes) ≡ e =
        ap (take 2048) whole ∙ take-append_self 2048 e (rest ++ post) e_len in
      let after : drop 2048 (drop offset a.bytes) ≡ rest ++ post =
        ap (drop 2048) whole
        ∙ ap (λ k. drop k (e ++ (rest ++ post))) (sym e_len)
        ∙ drop-append e (rest ++ post) in
      (rw first (tea_decrypt-encrypt key blocks), sym (drop-drop offset 2048 a.bytes) ∙ after)

  -- The bytes that one round copies, and those of the later rounds, are the file's next ones.
  copy_next :
      (left : ℕ) (c rest : List ℕ)
      → length c ≡ 2048
      → take (copied left) c ++ take (left - copied left) rest ≡ take left (c ++ rest)
  copy_next left c rest len = elim (dec_lt 2048 left) [
    | yes h ↦
        let n : copied left ≡ 2048 = ground arith in
        rw n (
          ap (λ t. t ++ take (left - 2048) rest)
            (take_all 2048 c (omega arith) ∙ sym (take_all left c (omega arith)))
          ∙ split)
    | no h ↦
        let n : copied left ≡ left = ground arith in
        let z : left - left ≡ left - 2048 = omega arith in rw (n, z) split
  ]
    where
      split : take left c ++ take (left - 2048) rest ≡ take left (c ++ rest)
      split = sym (take-append left c rest ∙ ap (λ k. take left c ++ take (left - k) rest) len)

  extract_blocks_chunks :
      (fuel left offset : ℕ) (key : Key) (chunks : List (List ℕ))
      → left < fuel
      → offset + blocks_of left ≤ length a.bytes
      → offset + blocks_of left < 2 ^ 32
      → AreChunks chunks
      → left ≤ length chunks * 2048
      → drop offset a.bytes ≡ encrypt_chunks key chunks ++ post
      → extract_blocks a fuel left offset key ≡ done (take left (flatten chunks))
  unfolding flatten
  extract_blocks_chunks zero left offset key chunks h room word ok enough at = absurd (omega arith)
  extract_blocks_chunks (suc fuel) left offset key [] h room word ok enough at =
      unfold extract_blocks flatten in ground arith
  extract_blocks_chunks (suc fuel) left offset key (c ∷ chunks) h room word ok enough at =
      elim (ℕ_discrete left 0) [
        | yes e ↦ unfold extract_blocks in ground arith
        | no ne ↦
            let b = copied_bounds left in
            let n : ℕ = copied left in
            let here = chunk_at offset key c chunks ok.0 ok.1 at in
            let rest =
              extract_blocks_chunks fuel (left - n) (offset + 2048) (tea_encrypt_with_key c key).1
                chunks (omega (arith, b.2 ne)) (omega (arith, b.3 ne)) (omega (arith, b.3 ne)) ok.2
                (omega arith) here.1 in
            extract_round a fuel left offset key ne (omega (arith, b.3 ne)) (omega (arith, b.3 ne))
            ∙ rw (here.0, rest) (ap done (copy_next left c (flatten chunks) ok.0))
      ]

-- If the blocks of a file that the search found hold its content, encrypted with the key that its
-- hash chooses, then extracting it into an output with room for it gives the first `size` bytes of
-- that content.
pub samp_saa_extract-encrypted :
    (a : Archive) (hash room : ℕ) (f : File) (chunks : List (List ℕ)) (post : List ℕ)
    → IsOpen a
    → IsFile a hash f
    → f.size ≤ room
    → AreChunks chunks
    → f.size ≤ length chunks * 2048
    → drop f.data_offset a.bytes ≡ encrypt_chunks (file_key a f.hash) chunks ++ post
    → samp_saa_extract a f room ≡ done (take f.size (flatten chunks))
samp_saa_extract-encrypted a hash room f chunks post v file fits ok enough at =
    let small : f.size < 2 ^ 24 =
      omega (arith, file.entry_size, (entry_at_bounds a f.entry_index v).2) in
    extract_enters a v f room fits file.fits (omega arith)
    ∙ extract_blocks_chunks a post (f.size + 1) f.size f.data_offset (file_key a f.hash) chunks
        (omega arith) (omega (arith, v, file.fits)) (omega (arith, v, file.fits)) ok enough at
