-- ===== src/Bridge/Text/Tags.antt =====
-- Theorems on the colour tags of runtime_bridge.c.
use libsamp.Common.{
  ℕ, suc, ◌+◌, ◌*◌, ◌/◌, ◌%◌, ◌^◌, ◌<◌, ◌≡◌, ◌≢◌, refl, ap, ◌∙◌, arith, false, some, List, [], ◌∷◌,
  ◌++◌, length, shl32, ltb, if◌then◌else◌, bit_or,
}
use libsamp.Common.Bits.{or_disjoint}
use libsamp.Bridge.Text.{
  chat_compat_hex_value, parse_hex, close_tag, parse_tag, chat_compat_parse_color_tag, strip_from,
  is_tag,
}

-- A digit as it is written, in capitals.
unfoldable pub hex_digit : ℕ → ℕ
hex_digit n = if ltb n 10 then 48 + n else 55 + n

hex_value-hex_digit : (n : ℕ) → n < 16 → chat_compat_hex_value (hex_digit n) ≡ some n
unfolding chat_compat_hex_value hex_digit
hex_value-hex_digit n low = ground arith

-- One digit more.
shifted : (rgb d : ℕ) → rgb < 2 ^ 28 → d < 16 → bit_or (shl32 rgb 4) d ≡ rgb * 16 + d
shifted rgb d low digit =
    let word : shl32 rgb 4 ≡ rgb * 2 ^ 4 = omega (arith, low) in
    rw word (or_disjoint 4 rgb d (omega (arith, digit)))

parse_hex-hex_digit :
    (n rgb d : ℕ) (text : List ℕ)
    → rgb < 2 ^ 28
    → d < 16
    → parse_hex (suc n) rgb (hex_digit d ∷ text) ≡ parse_hex n (rgb * 16 + d) text
unfolding parse_hex
parse_hex-hex_digit n rgb d text low digit =
    rw (hex_value-hex_digit d digit, shifted rgb d low digit, parse_hex) refl

-- The six digits of a colour.
abbrev pub color_digits : ℕ → List ℕ
color_digits rgb =
    hex_digit (rgb / 0x100000)
    ∷ hex_digit (rgb / 0x10000 % 16)
    ∷ hex_digit (rgb / 0x1000 % 16)
    ∷ hex_digit (rgb / 0x100 % 16)
    ∷ hex_digit (rgb / 0x10 % 16)
    ∷ hex_digit (rgb % 16)
    ∷ []

-- `{RRGGBB}`
abbrev pub color_tag : ℕ → List ℕ
color_tag rgb = 123 ∷ (color_digits rgb ++ (125 ∷ []))

parse_hex_end : (rgb : ℕ) (text : List ℕ) → parse_hex 0 rgb text ≡ some (rgb, text)
unfolding parse_hex
parse_hex_end rgb text = refl

-- What the digits are worth, from the highest one on.
digits_of :
    (rgb : ℕ)
    → rgb < 2 ^ 24
    → ((((((0 * 16 + rgb / 0x100000) * 16 + rgb / 0x10000 % 16) * 16 + rgb / 0x1000 % 16) * 16
                + rgb / 0x100 % 16)
              * 16
            + rgb / 0x10 % 16)
          * 16
        + rgb % 16)
      ≡ rgb
digits_of rgb low = omega (arith, low)

pub parse_hex-color_digits :
    (rgb : ℕ) (text : List ℕ)
    → rgb < 2 ^ 24
    → parse_hex 6 0 (color_digits rgb ++ text) ≡ some (rgb, text)
parse_hex-color_digits rgb text low =
    let a = rgb / 0x100000 in
    let b = rgb / 0x10000 % 16 in
    let c = rgb / 0x1000 % 16 in
    let d = rgb / 0x100 % 16 in
    let e = rgb / 0x10 % 16 in
    let f = rgb % 16 in
    let n1 = 0 * 16 + a in
    let n2 = n1 * 16 + b in
    let n3 = n2 * 16 + c in
    let n4 = n3 * 16 + d in
    let n5 = n4 * 16 + e in
    parse_hex-hex_digit 5 0 a _ (omega arith) (omega (arith, low))
    ∙ parse_hex-hex_digit 4 n1 b _ (omega (arith, low)) (omega arith)
    ∙ parse_hex-hex_digit 3 n2 c _ (omega (arith, low)) (omega arith)
    ∙ parse_hex-hex_digit 2 n3 d _ (omega (arith, low)) (omega arith)
    ∙ parse_hex-hex_digit 1 n4 e _ (omega (arith, low)) (omega arith)
    ∙ parse_hex-hex_digit 0 n5 f _ (omega (arith, low)) (omega arith)
    ∙ ap (λ (n : ℕ). parse_hex 0 n text) (digits_of rgb low)
    ∙ parse_hex_end rgb text

pub close_tag_brace :
    (rgb : ℕ) (text : List ℕ) → close_tag rgb (125 ∷ text) ≡ some (bit_or 0xFF000000 rgb)
unfolding close_tag
close_tag_brace rgb text = refl

-- A tag of six digits is read as its colour, whatever follows it.
pub parse_color_tag-color_tag :
    (rgb : ℕ) (text : List ℕ)
    → rgb < 2 ^ 24
    → chat_compat_parse_color_tag (color_tag rgb ++ text) ≡ some (bit_or 0xFF000000 rgb)
unfolding chat_compat_parse_color_tag parse_tag
parse_color_tag-color_tag rgb text low =
    let long : ltb (length (color_tag rgb ++ text)) 8 ≡ false = ground arith in
    rw (long, parse_hex-color_digits rgb (125 ∷ text) low, close_tag_brace rgb text) refl

not_tag : (c : ℕ) (text : List ℕ) → c ≢ 123 → is_tag (c ∷ text) ≡ false
unfolding chat_compat_parse_color_tag parse_tag
not_tag c text h = ground (arith, h)

pub strip_kept : (c : ℕ) (text : List ℕ) → c ≢ 123 → strip_from 0 (c ∷ text) ≡ c ∷ strip_from 0 text
unfolding strip_from
strip_kept c text h = rw (not_tag c text h, strip_from) refl

-- A text without an opening brace.
abbrev pub IsPlain : List ℕ → Type 0
IsPlain [] = Unit
IsPlain (c ∷ text) = (c ≢ 123) × IsPlain text

pub strip_tag :
    (rgb : ℕ) (text : List ℕ)
    → rgb < 2 ^ 24
    → strip_from 0 (color_tag rgb ++ text) ≡ strip_from 0 text
unfolding strip_from
strip_tag rgb text low = rw (parse_color_tag-color_tag rgb text low, strip_from) refl

pub strip_plain :
    (before text : List ℕ)
    → IsPlain before
    → strip_from 0 (before ++ text) ≡ before ++ strip_from 0 text
strip_plain [] text plain = refl
strip_plain (c ∷ before) text (h, plain) =
    strip_kept c (before ++ text) h ∙ ap (λ t. c ∷ t) (strip_plain before text plain)

pub hex_digit_plain : (n : ℕ) → n < 16 → hex_digit n ≢ 123
unfolding hex_digit
hex_digit_plain n low = λ e. absurd (ground (arith, e, low))
