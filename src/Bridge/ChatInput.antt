-- ===== src/Bridge/ChatInput.antt =====
-- The line that the player types, in runtime_bridge.c: `chat_input_append_char_compat` and the
-- functions around it. A text is the list of its characters before the NUL. What opening and
-- closing the line do to the mouse and to the game's controls is left out.
pub mod Command
pub mod Submit
pub mod Keys
pub mod Keeps
pub mod History
pub mod Session
pub mod Typing
pub mod Recall
pub mod Synonyms
mod Tests
use libsamp.Common.{
  ℕ, zero, suc, ◌+◌, ◌-◌, Bool, true, false, ◌&&◌, ◌||◌, Option, none, some, List, [], ◌∷◌, ◌++◌,
  length, get_or, set, take, ltb, leb, ◌==◌, if◌then◌else◌,
}
use libsamp.Bridge.Chat.{same_text, is_empty}

abbrev pub input_max : ℕ
input_max = 128

abbrev pub history_slots : ℕ
history_slots = 10

-- The fields of `g_runtime` that belong to the line. The index -1 is `none`.
pub record Input : Type 0 where
  pub active : Bool
  pub buffer : List ℕ
  pub len : ℕ
  pub history : List (List ℕ)
  pub history_count : ℕ
  pub history_index : Option ℕ
  pub recall_saved : List ℕ

unfoldable pub chat_input_close_compat : Input → Input
chat_input_close_compat s = record s {
  active = false;
  len = 0;
  history_index = none;
  buffer = [];
  recall_saved = [];
}

-- `enabled` is the test at the head of the function.
unfoldable pub chat_input_open_compat : Bool → Input → Input
chat_input_open_compat enabled s =
    if enabled
    then record s { active = true; len = 0; history_index = none; buffer = []; recall_saved = [] }
    else s

unfoldable pub chat_input_append_char_compat : ℕ → Input → Input
chat_input_append_char_compat ch s = if leb input_max s.len then s else record s {
  buffer = take s.len s.buffer ++ (ch ∷ []);
  len = s.len + 1;
  history_index = none;
}

unfoldable pub chat_input_backspace_compat : Input → Input
chat_input_backspace_compat s =
    if s.len == 0
    then s
    else record s { buffer = take (s.len - 1) s.buffer; len = s.len - 1; history_index = none }

unfoldable pub chat_input_set_buffer_compat : List ℕ → Input → Input
chat_input_set_buffer_compat text s = record s {
  buffer = take input_max text;
  len = length (take input_max text);
}

-- The loop from slot `i` down to slot 1.
unfoldable pub shift_down : ℕ → List (List ℕ) → List (List ℕ)
shift_down zero history = history
shift_down (suc i) history = shift_down i (set history (suc i) (get_or history i []))

-- `count` after the line is added.
unfoldable pub grown_count : ℕ → ℕ
grown_count count =
    let within = if ltb history_slots count then history_slots else count in
    if ltb within history_slots then within + 1 else within

unfoldable pub chat_input_add_history_compat : List ℕ → Input → Input
chat_input_add_history_compat line s =
    if is_empty line
    then s
    else if ltb 0 s.history_count
        && leb s.history_count history_slots
        && same_text (get_or s.history 0 []) line
    then s
    else record s {
      history =
          set (shift_down (grown_count s.history_count - 1) s.history) 0 (take input_max line);
      history_count = grown_count s.history_count;
    }

-- The line at `index` of the history.
unfoldable pub show_history : ℕ → Input → Input
show_history index s = record (chat_input_set_buffer_compat (get_or s.history index []) s) {
  history_index = some index;
}

unfoldable pub chat_input_recall_up_compat : Input → Input
chat_input_recall_up_compat s =
    let count = if ltb history_slots s.history_count then history_slots else s.history_count in
    if s.history_count == 0 then s else elim s.history_index [
      | none ↦ show_history 0 (record s { recall_saved = take input_max s.buffer })
      | some index ↦ show_history (if ltb (index + 1) count then index + 1 else index) s
    ]

unfoldable pub recall_down_from : ℕ → Input → Input
recall_down_from zero s = record (chat_input_set_buffer_compat s.recall_saved s) {
  history_index = none;
}
recall_down_from (suc index) s = show_history index s

unfoldable pub chat_input_recall_down_compat : Input → Input
chat_input_recall_down_compat s = elim s.history_index [
  | none ↦ s
  | some index ↦ recall_down_from index s
]
