-- ===== src/Bridge/Chat.antt =====
-- The chat lines of runtime_bridge.c: `chat_compat_add_colored_line` and
-- `chat_compat_format_stored_line`. A line is the list of its characters before the NUL. The
-- arrays have 20 slots, of which the first `line_count` are in use; `record_of` is what
-- `strncpy`, `memcpy` and the colour write to one of them.
pub mod Log
mod Tests
use libsamp.Common.{
  ℕ, zero, suc, ◌+◌, ◌-◌, ◌/◌, ◌%◌, Bool, true, false, ◌&&◌, ◌||◌, not, List, [], ◌∷◌, ◌++◌, get_or,
  set, take, drop, replicate, ltb, leb, ◌==◌, if◌then◌else◌,
}
use libsamp.Bridge.Text.{chat_compat_filter_invalid_chars}

abbrev pub max_lines : ℕ
max_lines = 20

-- The characters that `line` holds before its NUL: SAMP_CHAT_COMPAT_LINE_BYTES - 1.
abbrev pub line_chars : ℕ
line_chars = 255

abbrev pub color_info : ℕ
color_info = 0xFFECECEC

pub record Line : Type 0 where
  pub text : List ℕ
  pub timestamp : List ℕ
  pub color : ℕ

-- The fields of `g_runtime` that belong to the chat lines.
pub record Chat : Type 0 where
  pub line_count : ℕ
  pub lines : List Line
  pub timestamp_enabled : Bool

pub record LocalTime : Type 0 where
  pub hour : ℕ
  pub minute : ℕ
  pub second : ℕ

abbrev pub no_line : Line
no_line = record { text = []; timestamp = []; color = 0 }

-- `%02u`, below 100.
abbrev pub two_digits : ℕ → List ℕ
two_digits n = (48 + n / 10 % 10) ∷ (48 + n % 10) ∷ []

-- "[%02u:%02u:%02u]"
unfoldable pub format_time : LocalTime → List ℕ
format_time t =
    91
    ∷ (two_digits t.hour
        ++ (58 ∷ (two_digits t.minute ++ (58 ∷ (two_digits t.second ++ (93 ∷ []))))))

-- `strcmp(a, b) == 0`
unfoldable pub same_text : List ℕ → List ℕ → Bool
same_text [] [] = true
same_text [] (y ∷ b) = false
same_text (x ∷ a) [] = false
same_text (x ∷ a) (y ∷ b) = x == y && same_text a b

abbrev pub is_empty : List ℕ → Bool
is_empty [] = true
is_empty (c ∷ text) = false

-- The loop that moves the lines up by one, and what it leaves in the last slot.
unfoldable pub shift_up : List Line → List Line
shift_up [] = []
shift_up (x ∷ []) = x ∷ []
shift_up (x ∷ (y ∷ lines)) = y ∷ shift_up (y ∷ lines)

-- The text as `line` holds it.
unfoldable pub line_of : List ℕ → List ℕ
line_of text = chat_compat_filter_invalid_chars (take line_chars text)

unfoldable pub repeats_last : Chat → ℕ → List ℕ → Bool
repeats_last chat argb line =
    let last = get_or chat.lines (chat.line_count - 1) no_line in
    ltb 0 chat.line_count
    && leb chat.line_count max_lines
    && same_text last.text line
    && last.color == argb

unfoldable pub put_line : Line → Chat → Chat
put_line line chat =
    if ltb chat.line_count max_lines
    then record chat {
      line_count = chat.line_count + 1;
      lines = set chat.lines chat.line_count line;
    }
    else record chat { lines = set (shift_up chat.lines) (max_lines - 1) line }

unfoldable pub chat_compat_add_colored_line : LocalTime → ℕ → List ℕ → Chat → Chat
chat_compat_add_colored_line now argb text chat =
    if is_empty (line_of text) || repeats_last chat argb (line_of text)
    then chat
    else put_line (record { text = line_of text; timestamp = format_time now; color = argb }) chat

-- The message is already printed; `vsnprintf` cuts it to the buffer.
unfoldable pub chat_compat_add_message : LocalTime → List ℕ → Chat → Chat
chat_compat_add_message now message chat =
    chat_compat_add_colored_line now color_info (take line_chars message) chat

-- `capacity` is `output_size - 1`.
unfoldable pub chat_compat_format_stored_line : ℕ → ℕ → Chat → List ℕ
chat_compat_format_stored_line index capacity chat =
    let line = get_or chat.lines index no_line in
    if leb max_lines index
    then []
    else if chat.timestamp_enabled && not (is_empty line.timestamp)
    then take capacity (line.timestamp ++ (32 ∷ line.text))
    else take capacity line.text

-- The lines that are in use, in the order of their arrival.
abbrev pub shown_lines : Chat → List Line
shown_lines chat = take chat.line_count chat.lines
