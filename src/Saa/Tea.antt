-- ===== src/Saa/Tea.antt =====
-- The XTEA decryption of saa.c: `tea_load_key`, `tea_decrypt_with_key`, `tea_decrypt`. The key
-- changes after each block of eight bytes, so a call returns the key beside the bytes.
pub mod Inverse
pub mod Shape
use libsamp.Common.{
  ℕ, zero, suc, ◌*◌, ◌%◌, ◌^◌, List, [], ◌∷◌, ◌++◌, map, bit_xor, bit_and, u32, add32, sub32, shl32,
  shr, ◌==◌, if◌then◌else◌,
}
use libsamp.Common.Outcome.{Outcome, done, ◌>>=◌}
use libsamp.Saa.Bytes.{le32, load_le32, store_le32}

-- `uint32_t key[4]`
pub record Key : Type 0 where
  pub k0 : ℕ
  pub k1 : ℕ
  pub k2 : ℕ
  pub k3 : ℕ

unfoldable pub key_at : Key → ℕ → ℕ
key_at key i =
    if i == 0 then key.k0 else if i == 1 then key.k1 else if i == 2 then key.k2 else key.k3

abbrev pub tea_delta : ℕ
tea_delta = 0x9E3779B9

abbrev pub tea_rounds : ℕ
tea_rounds = 32

unfoldable pub tea_load_key : List ℕ → ℕ → Outcome Key
tea_load_key bytes xor_key = do
  let decoded = map (λ b. bit_xor b xor_key) bytes
  k0 ← load_le32 decoded 0
  k1 ← load_le32 decoded 4
  k2 ← load_le32 decoded 8
  k3 ← load_le32 decoded 12
  done (record { k0 = k0; k1 = k1; k2 = k2; k3 = k3 })

-- The variables of the inner loop.
pub record Block : Type 0 where
  pub v0 : ℕ
  pub v1 : ℕ
  pub sum : ℕ

-- `(((v << 4) ^ (v >> 5)) + v) ^ (sum + key[i])`
unfoldable pub tea_mix : ℕ → ℕ → ℕ → ℕ
tea_mix v sum word = bit_xor (add32 (bit_xor (shl32 v 4) (shr v 5)) v) (add32 sum word)

-- One pass through the body of the inner loop.
unfoldable pub decrypt_round : Key → Block → Block
decrypt_round key b =
    let v1 = sub32 b.v1 (tea_mix b.v0 b.sum (key_at key (bit_and (shr b.sum 11) 3))) in
    let sum = sub32 b.sum tea_delta in
    let v0 = sub32 b.v0 (tea_mix v1 sum (key_at key (bit_and sum 3))) in
    record { v0 = v0; v1 = v1; sum = sum }

-- The inner loop, with `n` rounds left.
unfoldable pub decrypt_rounds : Key → ℕ → Block → Block
decrypt_rounds key zero b = b
decrypt_rounds key (suc n) b = decrypt_rounds key n (decrypt_round key b)

unfoldable pub decrypt_block : Key → ℕ → ℕ → Block
decrypt_block key v0 v1 =
    decrypt_rounds key tea_rounds (record { v0 = v0; v1 = v1; sum = u32 (tea_delta * tea_rounds) })

-- `key[0] ^= old_v0; key[1] ^= old_v1; key[2] ^= old_v0; key[3] ^= old_v1;`
unfoldable pub chain_key : Key → ℕ → ℕ → Key
chain_key key old_v0 old_v1 = record {
  k0 = bit_xor key.k0 old_v0;
  k1 = bit_xor key.k1 old_v1;
  k2 = bit_xor key.k2 old_v0;
  k3 = bit_xor key.k3 old_v1;
}

-- `size` is the number of bytes of `data`, as at both calls. The bytes after the last whole
-- block stay as they are.
unfoldable pub tea_decrypt_with_key : List ℕ → Key → List ℕ × Key
tea_decrypt_with_key (b0 ∷ b1 ∷ b2 ∷ b3 ∷ b4 ∷ b5 ∷ b6 ∷ b7 ∷ rest) key =
    let v0 = le32 b0 b1 b2 b3 in
    let v1 = le32 b4 b5 b6 b7 in
    let b = decrypt_block key v0 v1 in
    let (out, key') = tea_decrypt_with_key rest (chain_key key v0 v1) in
    (store_le32 b.v0 ++ (store_le32 b.v1 ++ out), key')
tea_decrypt_with_key data_left key = (data_left, key)

unfoldable pub tea_decrypt : List ℕ → List ℕ → ℕ → Outcome (List ℕ)
tea_decrypt bytes key_bytes xor_key = do
  key ← tea_load_key key_bytes xor_key
  done (tea_decrypt_with_key bytes key).0
