-- ===== src/Saa/Tea/Inverse.antt =====
-- Decryption against the published XTEA encryption, whose rounds run the other way. The key
-- changes by the encrypted words in both directions.
use libsamp.Common.{
  ℕ, zero, suc, ◌*◌, ◌^◌, ◌<◌, ◌≡◌, refl, ap, sym, ◌∙◌, arith, List, [], ◌∷◌, ◌++◌, bit_and, u8,
  u32, add32, sub32, shr,
}
use libsamp.Saa.Bytes.{le32, store_le32}
use libsamp.Saa.Bytes.Laws.{IsByte, le32-lt, store_le32-le32, le32-bytes}
use libsamp.Saa.Tea.{
  Key, key_at, tea_delta, tea_rounds, Block, tea_mix, decrypt_round, decrypt_rounds, decrypt_block,
  chain_key, tea_decrypt_with_key,
}

unfoldable pub encrypt_round : Key → Block → Block
encrypt_round key b =
    let v0 = add32 b.v0 (tea_mix b.v1 b.sum (key_at key (bit_and b.sum 3))) in
    let sum = add32 b.sum tea_delta in
    let v1 = add32 b.v1 (tea_mix v0 sum (key_at key (bit_and (shr sum 11) 3))) in
    record { v0 = v0; v1 = v1; sum = sum }

unfoldable pub encrypt_rounds : Key → ℕ → Block → Block
encrypt_rounds key zero b = b
encrypt_rounds key (suc n) b = encrypt_round key (encrypt_rounds key n b)

unfoldable pub encrypt_block : Key → ℕ → ℕ → Block
encrypt_block key v0 v1 = encrypt_rounds key tea_rounds (record { v0 = v0; v1 = v1; sum = 0 })

-- The reference encryption of a buffer, with the key chained by each encrypted block.
unfoldable pub tea_encrypt_with_key : List ℕ → Key → List ℕ × Key
tea_encrypt_with_key (b0 ∷ b1 ∷ b2 ∷ b3 ∷ b4 ∷ b5 ∷ b6 ∷ b7 ∷ rest) key =
    let b = encrypt_block key (le32 b0 b1 b2 b3) (le32 b4 b5 b6 b7) in
    let (out, key') = tea_encrypt_with_key rest (chain_key key b.v0 b.v1) in
    (store_le32 b.v0 ++ (store_le32 b.v1 ++ out), key')
tea_encrypt_with_key left key = (left, key)

pub record IsBlock (b : Block) : Type 0 where
  pub v0_word : b.v0 < 2 ^ 32
  pub v1_word : b.v1 < 2 ^ 32
  pub sum_word : b.sum < 2 ^ 32

encrypt_round-IsBlock : (key : Key) (b : Block) → IsBlock (encrypt_round key b)
unfolding encrypt_round
encrypt_round-IsBlock key b = omega arith

encrypt_rounds-IsBlock :
    (key : Key) (n : ℕ) (b : Block) → IsBlock b → IsBlock (encrypt_rounds key n b)
unfolding encrypt_rounds
encrypt_rounds-IsBlock key zero b h = h
encrypt_rounds-IsBlock key (suc n) b h = encrypt_round-IsBlock key (encrypt_rounds key n b)

sub-add : (x f : ℕ) → x < 2 ^ 32 → sub32 (add32 x f) f ≡ x
sub-add x f h = omega arith

decrypt-encrypt_round :
    (key : Key) (b : Block) → IsBlock b → decrypt_round key (encrypt_round key b) ≡ b
unfolding decrypt_round encrypt_round
decrypt-encrypt_round key b h =
    rw (sub-add b.v1 _ h.v1_word, sub-add b.sum tea_delta h.sum_word, sub-add b.v0 _ h.v0_word)

decrypt-encrypt_rounds :
    (key : Key) (n : ℕ) (b : Block) → IsBlock b → decrypt_rounds key n (encrypt_rounds key n b) ≡ b
unfolding decrypt_rounds encrypt_rounds
decrypt-encrypt_rounds key zero b h = refl
decrypt-encrypt_rounds key (suc n) b h =
    rw (decrypt-encrypt_round key (encrypt_rounds key n b) (encrypt_rounds-IsBlock key n b h))
      (decrypt-encrypt_rounds key n b h)

sum-encrypt_rounds :
    (key : Key) (n : ℕ) (b : Block) → b.sum ≡ 0 → (encrypt_rounds key n b).sum ≡ u32 (n * tea_delta)
unfolding encrypt_rounds encrypt_round
sum-encrypt_rounds key zero b e = omega arith
sum-encrypt_rounds key (suc n) b e = omega (arith, sum-encrypt_rounds key n b e)

-- One block: decryption starts from the sum at which encryption ends.
pub decrypt-encrypt_block :
    (key : Key) (v0 v1 : ℕ)
    → v0 < 2 ^ 32
    → v1 < 2 ^ 32
    → let c = encrypt_block key v0 v1 in
      let p = decrypt_block key c.v0 c.v1 in
      (p.v0 ≡ v0) × (p.v1 ≡ v1) × (c.v0 < 2 ^ 32) × (c.v1 < 2 ^ 32)
unfolding encrypt_block decrypt_block
decrypt-encrypt_block key v0 v1 h0 h1 =
    let start : Block = record { v0 = v0; v1 = v1; sum = 0 } in
    let start-IsBlock : IsBlock start = omega arith in
    let end : Block = encrypt_rounds key tea_rounds start in
    let sum_end : end.sum ≡ u32 (tea_delta * tea_rounds) =
      sum-encrypt_rounds key tea_rounds start refl in
    let back : decrypt_rounds key tea_rounds end ≡ start =
      decrypt-encrypt_rounds key tea_rounds start start-IsBlock in
    let words : IsBlock end = encrypt_rounds-IsBlock key tea_rounds start start-IsBlock in
    let whole : decrypt_block key end.v0 end.v1 ≡ start =
      ap (λ (s : ℕ). decrypt_rounds key tea_rounds (record { v0 = end.v0; v1 = end.v1; sum = s }))
        (sym sum_end)
      ∙ back in
    (ap (λ (t : Block). t.v0) whole, ap (λ (t : Block). t.v1) whole, words.v0_word, words.v1_word)

-- Whole blocks of bytes, which is what the archive holds.
pub data IsBlocks : List ℕ → Type 0 where
  none_left : IsBlocks []
  eight :
      (b0 b1 b2 b3 b4 b5 b6 b7 : ℕ) {rest : List ℕ}
      → IsByte b0
      → IsByte b1
      → IsByte b2
      → IsByte b3
      → IsByte b4
      → IsByte b5
      → IsByte b6
      → IsByte b7
      → IsBlocks rest
      → IsBlocks (b0 ∷ b1 ∷ b2 ∷ b3 ∷ b4 ∷ b5 ∷ b6 ∷ b7 ∷ rest)

store-append :
    (v : ℕ) (out : List ℕ)
    → store_le32 v ++ out ≡ u8 v ∷ u8 (shr v 8) ∷ u8 (shr v 16) ∷ u8 (shr v 24) ∷ out
unfolding store_le32
store-append v out = refl

-- Decrypting what the reference encryption made of whole blocks gives the bytes back, and leaves
-- both sides with the same key, so a chain of calls stays in step.
pub tea_decrypt-encrypt :
    {plain : List ℕ} (key : Key)
    → IsBlocks plain
    → let (out, key') = tea_encrypt_with_key plain key in
      tea_decrypt_with_key out key ≡ (plain, key')
unfolding tea_encrypt_with_key tea_decrypt_with_key
tea_decrypt-encrypt key none_left = refl
tea_decrypt-encrypt key (eight b0 b1 b2 b3 b4 b5 b6 b7 {rest} p0 p1 p2 p3 p4 p5 p6 p7 more) =
    let v0 : ℕ = le32 b0 b1 b2 b3 in
    let v1 : ℕ = le32 b4 b5 b6 b7 in
    let h0 : v0 < 2 ^ 32 = le32-lt b0 b1 b2 b3 p0 p1 p2 p3 in
    let h1 : v1 < 2 ^ 32 = le32-lt b4 b5 b6 b7 p4 p5 p6 p7 in
    let c : Block = encrypt_block key v0 v1 in
    let one = decrypt-encrypt_block key v0 v1 h0 h1 in
    let tail = tea_decrypt-encrypt (chain_key key c.v0 c.v1) more in
    rw (
      store-append c.v0,
      store-append c.v1,
      le32-bytes c.v0 one.2,
      le32-bytes c.v1 one.3,
      tail,
      one.0,
      one.1,
      store_le32-le32 b0 b1 b2 b3 p0 p1 p2 p3,
      store_le32-le32 b4 b5 b6 b7 p4 p5 p6 p7,
    )
