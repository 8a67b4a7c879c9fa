-- ===== src/Bridge/ChatInput/Keys.antt =====
-- The keys of the chat line: the end of `chat_input_wndproc_compat` in runtime_bridge.c, for the
-- messages that no dialog and no other element took.
use libsamp.Common.{ℕ, Bool, ◌&&◌, ◌||◌, leb, ◌==◌, if◌then◌else◌}
use libsamp.Bridge.Chat.{LocalTime}
use libsamp.Bridge.ChatInput.{
  Input, chat_input_close_compat, chat_input_open_compat, chat_input_append_char_compat,
  chat_input_backspace_compat, chat_input_recall_up_compat, chat_input_recall_down_compat,
}
use libsamp.Bridge.ChatInput.Submit.{Client, Session, Action, nothing, chat_input_submit_compat}

pub data Message : Type 0 where
  wm_char wm_keyup wm_keydown : ℕ → Message

abbrev vk_return : ℕ
vk_return = 0x0D

abbrev vk_escape : ℕ
vk_escape = 0x1B

abbrev vk_up : ℕ
vk_up = 0x26

abbrev vk_down : ℕ
vk_down = 0x28

abbrev vk_f6 : ℕ
vk_f6 = 0x75

abbrev on_input : (Input → Input) → Session → Session × Action
on_input f s = (record s { input = f s.input }, nothing)

-- A call of the game's own window procedure leaves the chat line as it is.
abbrev call_original : Session → Session × Action
call_original s = (s, nothing)

unfoldable pub on_char : Client → Bool → LocalTime → ℕ → Session → Session × Action
on_char client enabled now c s =
    if s.input.active
    then if c == 13 || c == 10
      then chat_input_submit_compat client now s
      else if c == 27
      then on_input chat_input_close_compat s
      else if c == 8
      then on_input chat_input_backspace_compat s
      else if leb 32 c && leb c 126
      then on_input (chat_input_append_char_compat c) s
      else (s, nothing)
    else if c == 116 || c == 84 || c == 96
    then on_input (chat_input_open_compat enabled) s
    else call_original s

unfoldable pub on_keyup : Client → Bool → LocalTime → ℕ → Session → Session × Action
on_keyup client enabled now key s =
    if key == vk_f6
    then if s.input.active
      then on_input chat_input_close_compat s
      else on_input (chat_input_open_compat enabled) s
    else if s.input.active
    then if key == vk_escape
      then on_input chat_input_close_compat s
      else if key == vk_return
      then chat_input_submit_compat client now s
      else (s, nothing)
    else call_original s

unfoldable pub on_keydown : ℕ → Session → Session × Action
on_keydown key s =
    if s.input.active
    then if key == vk_up
      then on_input chat_input_recall_up_compat s
      else if key == vk_down
      then on_input chat_input_recall_down_compat s
      else (s, nothing)
    else call_original s

-- `enabled` is the test of `chat_input_open_compat`.
unfoldable pub on_message : Client → Bool → LocalTime → Message → Session → Session × Action
on_message client enabled now (wm_char c) s = on_char client enabled now c s
on_message client enabled now (wm_keyup key) s = on_keyup client enabled now key s
on_message client enabled now (wm_keydown key) s = on_keydown key s
