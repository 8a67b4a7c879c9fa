-- ===== src/Saa/Tea/Shape.antt =====
-- Decryption keeps the number of bytes, and loading a key stays inside its sixteen bytes.
use libsamp.Common.{
  ℕ, suc, ◌+◌, ◌≡◌, refl, ap, arith, List, [], ◌∷◌, ◌++◌, map, bit_xor, u8, shr, length,
}
use libsamp.Common.Bits.{xor-lt}
use libsamp.Common.Outcome.{done}
use libsamp.Saa.Bytes.{le32, store_le32}
use libsamp.Saa.Bytes.Laws.{IsByte, AreBytes, AreBytes-cons, AreBytes-nil, word_at, load_le32_lem}
use libsamp.Saa.Tea.{Key, Block, tea_load_key, decrypt_block, chain_key, tea_decrypt_with_key}

store_length : (v : ℕ) (out : List ℕ) → length (store_le32 v ++ out) ≡ length out + 4
unfolding store_le32
store_length v out = omega arith

AreBytes-four :
    (b0 b1 b2 b3 : ℕ) (out : List ℕ)
    → IsByte b0
    → IsByte b1
    → IsByte b2
    → IsByte b3
    → AreBytes out
    → AreBytes (b0 ∷ b1 ∷ b2 ∷ b3 ∷ out)
AreBytes-four b0 b1 b2 b3 out h0 h1 h2 h3 h = AreBytes-cons b0 (b1 ∷ b2 ∷ b3 ∷ out) h0 (
    AreBytes-cons b1 (b2 ∷ b3 ∷ out) h1
      (AreBytes-cons b2 (b3 ∷ out) h2 (AreBytes-cons b3 out h3 h)))

AreBytes-store : (v : ℕ) (out : List ℕ) → AreBytes out → AreBytes (store_le32 v ++ out)
unfolding store_le32
AreBytes-store v out h =
    AreBytes-four (u8 v) (u8 (shr v 8)) (u8 (shr v 16)) (u8 (shr v 24)) out (omega arith)
      (omega arith) (omega arith) (omega arith) h

AreBytes-tail : (b : ℕ) (buf : List ℕ) → AreBytes (b ∷ buf) → AreBytes buf
AreBytes-tail b buf h i = h (suc i)

-- As many bytes come out as go in.
pub length-tea_decrypt_with_key :
    (buf : List ℕ) (key : Key) → length (tea_decrypt_with_key buf key).0 ≡ length buf
unfolding tea_decrypt_with_key
length-tea_decrypt_with_key (b0 ∷ b1 ∷ b2 ∷ b3 ∷ b4 ∷ b5 ∷ b6 ∷ b7 ∷ rest) key =
    let v0 : ℕ = le32 b0 b1 b2 b3 in
    let v1 : ℕ = le32 b4 b5 b6 b7 in
    let b : Block = decrypt_block key v0 v1 in
    let out : List ℕ = (tea_decrypt_with_key rest (chain_key key v0 v1)).0 in
    omega (
      arith,
      store_length b.v0 (store_le32 b.v1 ++ out),
      store_length b.v1 out,
      length-tea_decrypt_with_key rest (chain_key key v0 v1),
    )
length-tea_decrypt_with_key _ key = refl

pub tea_decrypt_with_key-AreBytes :
    (buf : List ℕ) (key : Key) → AreBytes buf → AreBytes (tea_decrypt_with_key buf key).0
unfolding tea_decrypt_with_key
tea_decrypt_with_key-AreBytes (b0 ∷ b1 ∷ b2 ∷ b3 ∷ b4 ∷ b5 ∷ b6 ∷ b7 ∷ rest) key h =
    let v0 : ℕ = le32 b0 b1 b2 b3 in
    let v1 : ℕ = le32 b4 b5 b6 b7 in
    let b : Block = decrypt_block key v0 v1 in
    let out : List ℕ = (tea_decrypt_with_key rest (chain_key key v0 v1)).0 in
    let rest_bytes : AreBytes rest = λ i. h (suc (suc (suc (suc (suc (suc (suc (suc i)))))))) in
    AreBytes-store b.v0 (store_le32 b.v1 ++ out) (
      AreBytes-store b.v1 out (tea_decrypt_with_key-AreBytes rest (chain_key key v0 v1) rest_bytes))
tea_decrypt_with_key-AreBytes _ key h = h

length-map : (xs : List ℕ) (f : ℕ → ℕ) → length (map f xs) ≡ length xs
length-map [] f = refl
length-map (x ∷ xs) f = ap suc (length-map xs f)

AreBytes-map : (xs : List ℕ) (k : ℕ) → IsByte k → AreBytes xs → AreBytes (map (λ b. bit_xor b k) xs)
AreBytes-map [] k hk h = AreBytes-nil
AreBytes-map (x ∷ xs) k hk h =
    AreBytes-cons (bit_xor x k) (map (λ b. bit_xor b k) xs) (xor-lt 8 x k (h 0) hk)
      (AreBytes-map xs k hk (AreBytes-tail x xs h))

-- The key that sixteen bytes, each masked, make.
unfoldable pub loaded_key : List ℕ → ℕ → Key
loaded_key bytes k =
    let m = map (λ b. bit_xor b k) bytes in
    record { k0 = word_at m 0; k1 = word_at m 4; k2 = word_at m 8; k3 = word_at m 12 }

pub tea_load_key_lem :
    (bytes : List ℕ) (k : ℕ)
    → AreBytes bytes
    → IsByte k
    → length bytes ≡ 16
    → tea_load_key bytes k ≡ done (loaded_key bytes k)
unfolding tea_load_key loaded_key
tea_load_key_lem bytes k h hk len =
    let m = map (λ b. bit_xor b k) bytes in
    let m_bytes = AreBytes-map bytes k hk h in
    let m_len : length m ≡ 16 = omega (arith, length-map bytes (λ b. bit_xor b k)) in
    rw (
      load_le32_lem m 0 m_bytes (omega arith),
      load_le32_lem m 4 m_bytes (omega arith),
      load_le32_lem m 8 m_bytes (omega arith),
      load_le32_lem m 12 m_bytes (omega arith),
    )
