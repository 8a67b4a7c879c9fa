-- ===== src/Bridge/Text/Pieces.antt =====
-- Whole lines with colour tags of runtime_bridge.c, and what is printed of them.
use libsamp.Common.{ℕ, ◌^◌, ◌<◌, ◌≢◌, ◌⊎◌, List, [], ◌∷◌, ◌++◌}
use libsamp.Bridge.Text.Tags.{color_digits, color_tag}

-- Six digits and a character that does not close the tag.
abbrev unclosed : ℕ → ℕ → List ℕ
unclosed rgb c = color_digits rgb ++ (c ∷ [])

-- A character that is no hexadecimal digit.
abbrev pub IsNoDigit : ℕ → Type 0
IsNoDigit c = (c < 48) ⊎ ((57 < c) × (c < 65)) ⊎ ((70 < c) × (c < 97)) ⊎ (102 < c)

-- What a line is made of: a character, the tag of a colour, a tag that another character stands in
-- the place of the closing brace of, and an opening brace before a character that is no digit.
pub data Piece : Type 0 where
  plain_char : ℕ → Piece
  whole_tag : ℕ → Piece
  open_tag : ℕ → ℕ → Piece
  brace : ℕ → Piece

abbrev pub IsPiece : Piece → Type 0
IsPiece (plain_char c) = c ≢ 123
IsPiece (whole_tag rgb) = rgb < 2 ^ 24
IsPiece (open_tag rgb c) = (rgb < 2 ^ 24) × (c ≢ 125) × (c ≢ 123)
IsPiece (brace c) = IsNoDigit c × (c ≢ 123)

abbrev pub ArePieces : List Piece → Type 0
ArePieces [] = Unit
ArePieces (p ∷ line) = IsPiece p × ArePieces line

-- The text of a line, and the same without its tags.
abbrev pub written : List Piece → List ℕ
written [] = []
written (plain_char c ∷ line) = c ∷ written line
written (whole_tag rgb ∷ line) = color_tag rgb ++ written line
written (open_tag rgb c ∷ line) = 123 ∷ (unclosed rgb c ++ written line)
written (brace c ∷ line) = 123 ∷ (c ∷ written line)

abbrev pub without_tags : List Piece → List ℕ
without_tags [] = []
without_tags (plain_char c ∷ line) = c ∷ without_tags line
without_tags (whole_tag rgb ∷ line) = without_tags line
without_tags (open_tag rgb c ∷ line) = 123 ∷ (unclosed rgb c ++ without_tags line)
without_tags (brace c ∷ line) = 123 ∷ (c ∷ without_tags line)
