-- ===== src/Saa/Hash.antt =====
-- The file name hash of saa.c: `hash_mix`, `hash_bytes`, `samp_saa_hash_filename` and
-- `samp_saa_hash_path`. A C string is the list of its bytes before the NUL.
pub mod Laws
use mathlib.Core.List.{reverse}
use libsamp.Common.{
  ℕ, zero, suc, ◌+◌, ◌-◌, Bool, true, false, ◌&&◌, ◌||◌, not, Option, none, some, List, [], ◌∷◌,
  map, bit_xor, u8, u32, add32, sub32, shl32, shr, length, get_or, take, drop, ltb, leb, ◌==◌,
  if◌then◌else◌,
}
use libsamp.Saa.Bytes.{le32}

-- The variables `a`, `b`, `c`.
pub record Mix : Type 0 where
  pub a : ℕ
  pub b : ℕ
  pub c : ℕ

-- Three statements of `hash_mix`: `x -= y; x -= z; x ^= z >> k;` and the same with `z << k`.
unfoldable pub mix_right : ℕ → ℕ → ℕ → ℕ → ℕ
mix_right x y z k = bit_xor (sub32 (sub32 x y) z) (shr z k)

unfoldable pub mix_left : ℕ → ℕ → ℕ → ℕ → ℕ
mix_left x y z k = bit_xor (sub32 (sub32 x y) z) (shl32 z k)

-- A third of `hash_mix`, with its three shifts.
unfoldable pub mix_third : ℕ → ℕ → ℕ → Mix → Mix
mix_third k l m s =
    let a = mix_right s.a s.b s.c k in
    let b = mix_left s.b s.c a l in let c = mix_right s.c a b m in record { a = a; b = b; c = c }

unfoldable pub hash_mix : Mix → Mix
hash_mix s = mix_third 3 10 15 (mix_third 12 16 5 (mix_third 13 8 13 s))

-- One case of the `switch`, with those that fall through to it: byte `i` is added, shifted, if
-- that many bytes remain.
unfoldable pub add_tail : List ℕ → ℕ → ℕ → ℕ → ℕ
add_tail tail i shift x = if ltb i (length tail) then add32 x (shl32 (get_or tail i 0) shift) else x

-- The `switch`, over the bytes that remain, from case 11 down to case 1.
unfoldable pub hash_tail : List ℕ → Mix → Mix
hash_tail tail s = record {
  a = add_tail tail 0 0 (add_tail tail 1 8 (add_tail tail 2 16 (add_tail tail 3 24 s.a)));
  b = add_tail tail 4 0 (add_tail tail 5 8 (add_tail tail 6 16 (add_tail tail 7 24 s.b)));
  c = add_tail tail 8 8 (add_tail tail 9 16 (add_tail tail 10 24 s.c));
}

-- The loop of `hash_bytes` over whole groups of twelve, then the tail. `total` is `length`.
unfoldable pub hash_loop : ℕ → List ℕ → Mix → ℕ
hash_loop total (b0 ∷ b1 ∷ b2 ∷ b3 ∷ b4 ∷ b5 ∷ b6 ∷ b7 ∷ b8 ∷ b9 ∷ b10 ∷ b11 ∷ rest) s =
    hash_loop total rest (
      hash_mix (record {
        a = add32 s.a (le32 b0 b1 b2 b3);
        b = add32 s.b (le32 b4 b5 b6 b7);
        c = add32 s.c (le32 b8 b9 b10 b11);
      }))
hash_loop total tail s = (hash_mix (hash_tail tail (record s { c = add32 s.c (u32 total) }))).c

unfoldable pub hash_bytes : List ℕ → ℕ
hash_bytes bytes =
    hash_loop (length bytes) bytes (record { a = 0x9E3779B9; b = 0x9E3779B9; c = 0x12345678 })

unfoldable pub to_lower : ℕ → ℕ
to_lower ch = if leb b'A' ch && leb ch b'Z' then u8 (ch + (b'a' - b'A')) else ch

abbrev pub max_filename : ℕ
max_filename = 260

-- `lowered` holds at most 260 bytes; a longer name has a byte left and hashes to 0.
unfoldable pub samp_saa_hash_filename : Option (List ℕ) → ℕ
samp_saa_hash_filename none = 0
samp_saa_hash_filename (some filename) =
    let lowered = map to_lower (take max_filename filename) in
    if not (length (drop max_filename filename) == 0) || length lowered == 0
    then 0
    else hash_bytes lowered

unfoldable pub is_separator : ℕ → Bool
is_separator ch = ch == 0x5C || ch == b'/'

-- The backward loop that moves `base`: the bytes from the end of the path up to a separator.
unfoldable pub until_separator : List ℕ → List ℕ
until_separator [] = []
until_separator (ch ∷ rest) =
    let more = ch ∷ until_separator rest in if is_separator ch then [] else more

unfoldable pub base_name : List ℕ → List ℕ
base_name path = reverse (until_separator (reverse path))

-- `none` is the answer 0; `some h` is the answer 1 with `*out_hash = h`.
unfoldable pub samp_saa_hash_path : Option (List ℕ) → Option ℕ
samp_saa_hash_path none = none
samp_saa_hash_path (some path) =
    let base = base_name path in
    let hash = samp_saa_hash_filename (some base) in
    if length path == 0 || length base == 0 || leb max_filename (length base) || hash == 0
    then none
    else some hash
