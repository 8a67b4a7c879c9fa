-- ===== src/Bridge/Text.antt =====
-- The texts of the chat in runtime_bridge.c: colours and colour tags. A text is the list of its
-- characters before the NUL, each a number below 256; `char` is signed, so those from 128 on are
-- negative.
pub mod Tags
pub mod Pieces
mod Tests
use libsamp.Common.{
  ℕ, zero, suc, ◌+◌, ◌-◌, ◌*◌, Bool, true, false, ◌&&◌, ◌||◌, Option, none, some, List, [], ◌∷◌,
  map, u32, shl32, shr, length, ltb, leb, ◌==◌, if◌then◌else◌, bit_or, bit_and,
}
use mathlib.Core.Option

unfoldable pub chat_compat_samp_color_to_argb : ℕ → ℕ
chat_compat_samp_color_to_argb color = bit_or (shr color 8) 0xFF000000

unfoldable pub chat_compat_colorref_from_argb : ℕ → ℕ
chat_compat_colorref_from_argb color =
    let r = bit_and (shr color 16) 0xFF in
    let g = bit_and (shr color 8) 0xFF in
    let b = bit_and color 0xFF in bit_or (bit_or r (shl32 g 8)) (shl32 b 16)

unfoldable pub filter_char : ℕ → ℕ
filter_char c = if ltb 0 c && ltb c 32 then 32 else c

unfoldable pub chat_compat_filter_invalid_chars : List ℕ → List ℕ
chat_compat_filter_invalid_chars = map filter_char

-- `none` is the answer -1.
unfoldable pub chat_compat_hex_value : ℕ → Option ℕ
chat_compat_hex_value c =
    if leb 48 c && leb c 57
    then some (c - 48)
    else if leb 97 c && leb c 102
    then some (10 + (c - 97))
    else if leb 65 c && leb c 70
    then some (10 + (c - 65))
    else none

-- The loop over the digits of a tag, with what follows them.
unfoldable pub parse_hex : ℕ → ℕ → List ℕ → Option (ℕ × List ℕ)
parse_hex zero rgb text = some (rgb, text)
parse_hex (suc n) rgb [] = none
parse_hex (suc n) rgb (c ∷ text) = elim (chat_compat_hex_value c) [
  | none ↦ none
  | some value ↦ parse_hex n (bit_or (shl32 rgb 4) value) text
]

unfoldable pub close_tag : ℕ → List ℕ → Option ℕ
close_tag rgb [] = none
close_tag rgb (c ∷ text) = if c == 125 then some (bit_or 0xFF000000 rgb) else none

unfoldable pub parse_tag : List ℕ → Option ℕ
parse_tag [] = none
parse_tag (c ∷ text) =
    if c == 123
    then elim (parse_hex 6 0 text) [ none ↦ none | some (rgb, after) ↦ close_tag rgb after ]
    else none

unfoldable pub chat_compat_parse_color_tag : List ℕ → Option ℕ
chat_compat_parse_color_tag text = if ltb (length text) 8 then none else parse_tag text

abbrev pub is_tag : List ℕ → Bool
is_tag text = elim (chat_compat_parse_color_tag text) [ none ↦ false | some argb ↦ true ]

-- The copy of `chat_compat_strip_samp_color_tags`, with the characters left to pass over.
unfoldable pub strip_from : ℕ → List ℕ → List ℕ
strip_from skip [] = []
strip_from (suc skip) (c ∷ text) = strip_from skip text
strip_from zero (c ∷ text) = elim (is_tag (c ∷ text)) [
  | true ↦ strip_from 7 text
  | false ↦ c ∷ strip_from 0 text
]

unfoldable pub chat_compat_strip_samp_color_tags : List ℕ → List ℕ
chat_compat_strip_samp_color_tags line = strip_from 0 line
