-- ===== src/Bridge/Text/Tests.antt =====
-- Colour tags on concrete texts.
use libsamp.Common.{◌≡◌, refl, List, [], ◌∷◌, ◌++◌}
use libsamp.Bridge.Text.{
  chat_compat_strip_samp_color_tags, strip_from, chat_compat_parse_color_tag, parse_tag, parse_hex,
  chat_compat_hex_value, close_tag,
}
use libsamp.Bridge.Text.Tags.{hex_digit, color_tag}
use libsamp.Bridge.Text.Pieces.{Piece, plain_char, whole_tag, open_tag, brace}

-- "a{FF8000}b{00FF00-{x}": the second tag is not closed.
abbrev a_line : List Piece
a_line =
    plain_char 97
    ∷ whole_tag 0xFF8000
    ∷ plain_char 98
    ∷ open_tag 0x00FF00 45
    ∷ brace 120
    ∷ plain_char 125
    ∷ []

-- A tag that stays after the one inside it is taken out.
nested :
    chat_compat_strip_samp_color_tags
      (123 ∷ (color_tag 0xFFFFFF ++ (70 ∷ 70 ∷ 70 ∷ 70 ∷ 70 ∷ 70 ∷ 125 ∷ [])))
    ≡ 123 ∷ 70 ∷ 70 ∷ 70 ∷ 70 ∷ 70 ∷ 70 ∷ 125 ∷ []
unfolding chat_compat_strip_samp_color_tags strip_from chat_compat_parse_color_tag parse_tag
    parse_hex chat_compat_hex_value hex_digit close_tag
nested = refl
