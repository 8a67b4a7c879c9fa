-- ===== src/Bridge/Dialog/Lines.antt =====
-- The lines of a dialog's text in runtime_bridge.c: `dialog_compat_get_line` and
-- `dialog_compat_line_count`.
use libsamp.Common.{
  ℕ, zero, suc, ◌+◌, ◌≡◌, refl, sym, ap, ◌∙◌, arith, Bool, true, false, ◌||◌, Option, none, some,
  List, [], ◌∷◌, map, take, ltb, ◌==◌, if◌then◌else◌, Bool-cases, inl, inr,
}
use libsamp.Bridge.Text.{chat_compat_filter_invalid_chars, chat_compat_strip_samp_color_tags}

abbrev pub is_newline : ℕ → Bool
is_newline c = c == 10 || c == 13

-- The characters up to the end of a line.
unfoldable pub line_chars : List ℕ → List ℕ
line_chars [] = []
line_chars (c ∷ text) = elim (is_newline c) [ true ↦ [] | false ↦ c ∷ line_chars text ]

unfoldable pub skip_newlines : List ℕ → List ℕ
skip_newlines [] = []
skip_newlines (c ∷ text) = elim (is_newline c) [ true ↦ skip_newlines text | false ↦ c ∷ text ]

-- The two inner loops: from the beginning of a line to that of the next one.
unfoldable pub next_line : List ℕ → List ℕ
next_line [] = []
next_line (c ∷ text) = elim (is_newline c) [ true ↦ skip_newlines text | false ↦ next_line text ]

-- The outer loop, with `index - current` as its count.
unfoldable pub nth_line : ℕ → List ℕ → Option (List ℕ)
nth_line index [] = none
nth_line zero (c ∷ text) = some (line_chars (c ∷ text))
nth_line (suc index) (c ∷ text) = nth_line index (next_line (c ∷ text))

abbrev pub tab_to_space : ℕ → ℕ
tab_to_space c = if c == 9 then 32 else c

-- What is done to a line that is found.
unfoldable pub clean_line : ℕ → List ℕ → List ℕ
clean_line capacity line =
    map tab_to_space
      (chat_compat_strip_samp_color_tags (chat_compat_filter_invalid_chars (take capacity line)))

-- `capacity` is `out_size - 1`.
unfoldable pub dialog_compat_get_line : List ℕ → ℕ → ℕ → Option (List ℕ)
dialog_compat_get_line text index capacity = elim (nth_line index text) [
  | none ↦ none
  | some line ↦ some (clean_line capacity line)
]

-- The loops that count, as one over the characters: the lines that begin after this one, with
-- `in_gap` for the loop over the newlines.
unfoldable pub lines_after : Bool → List ℕ → ℕ
lines_after in_gap [] = 0
lines_after false (c ∷ text) = lines_after (is_newline c) text
lines_after true (c ∷ text) = elim (is_newline c) [
  | true ↦ lines_after true text
  | false ↦ 1 + lines_after false text
]

unfoldable pub dialog_compat_line_count : List ℕ → ℕ
dialog_compat_line_count [] = 0
dialog_compat_line_count (c ∷ text) = 1 + lines_after false (c ∷ text)

gap_more :
    (c : ℕ) (text : List ℕ)
    → is_newline c ≡ true
    → (lines_after true (c ∷ text) ≡ lines_after true text)
      × (skip_newlines (c ∷ text) ≡ skip_newlines text)
unfolding lines_after skip_newlines
gap_more c text t = (rw (t, lines_after) refl, rw (t, skip_newlines) refl)

gap_end :
    (c : ℕ) (text : List ℕ)
    → is_newline c ≡ false
    → (lines_after true (c ∷ text) ≡ 1 + lines_after false text)
      × (skip_newlines (c ∷ text) ≡ c ∷ text)
unfolding lines_after skip_newlines
gap_end c text t = (rw (t, lines_after) refl, rw (t, skip_newlines) refl)

count_cons :
    (c : ℕ) (text : List ℕ)
    → dialog_compat_line_count (c ∷ text) ≡ 1 + lines_after (is_newline c) text
unfolding dialog_compat_line_count lines_after
count_cons c text = refl

count_nil : dialog_compat_line_count [] ≡ 0
unfolding dialog_compat_line_count
count_nil = refl

lines_after-gap :
    (text : List ℕ) → lines_after true text ≡ dialog_compat_line_count (skip_newlines text)
unfolding lines_after skip_newlines
lines_after-gap [] = sym count_nil
lines_after-gap (c ∷ text) = elim (Bool-cases (is_newline c)) [
  | inl t ↦
      (gap_more c text t).0
      ∙ lines_after-gap text
      ∙ sym (ap dialog_compat_line_count (gap_more c text t).1)
  | inr t ↦
      (gap_end c text t).0
      ∙ ap (λ (b : Bool). 1 + lines_after b text) (sym t)
      ∙ sym (count_cons c text)
      ∙ sym (ap dialog_compat_line_count (gap_end c text t).1)
]

lines_after-line :
    (text : List ℕ) → lines_after false text ≡ dialog_compat_line_count (next_line text)
unfolding lines_after next_line dialog_compat_line_count
lines_after-line [] = refl
lines_after-line (c ∷ text) = elim (Bool-cases (is_newline c)) [
  | inl t ↦ rw (t, next_line) (lines_after-gap text)
  | inr t ↦ rw (t, next_line) (lines_after-line text)
]

unfoldable pub is_found : Option (List ℕ) → Bool
is_found none = false
is_found (some line) = true

nth_line-found :
    (index : ℕ) (text : List ℕ)
    → is_found (nth_line index text) ≡ ltb index (dialog_compat_line_count text)
unfolding nth_line dialog_compat_line_count is_found
nth_line-found zero [] = refl
nth_line-found (suc index) [] = ground arith
nth_line-found zero (c ∷ text) = ground arith
nth_line-found (suc index) (c ∷ text) =
    nth_line-found index (next_line (c ∷ text))
    ∙ ap (ltb index) (sym (lines_after-line (c ∷ text)))
    ∙ ground arith

-- A line is found exactly below the number of lines.
pub get_line-line_count :
    (text : List ℕ) (index capacity : ℕ)
    → is_found (dialog_compat_get_line text index capacity)
      ≡ ltb index (dialog_compat_line_count text)
unfolding dialog_compat_get_line is_found
get_line-line_count text index capacity = kept (nth_line index text) ∙ nth_line-found index text
  where
    kept :
        (o : Option (List ℕ))
        → is_found (elim o [ none ↦ none | some line ↦ some (clean_line capacity line) ])
          ≡ is_found o
    kept none = refl
    kept (some line) = refl
