-- ===== src/Bridge/ChatInput/Tests.antt =====
-- The chat line on concrete keys.
use libsamp.Common.{
  ℕ, zero, suc, ◌<◌, ◌≡◌, refl, arith, true, false, ◌||◌, none, List, [], ◌∷◌, get_or, replicate,
}
use libsamp.Bridge.Chat.{max_lines, no_line, is_empty}
use libsamp.Bridge.ChatInput.{Input, history_slots}
use libsamp.Bridge.ChatInput.Command.{
  match_slash, skip_spaces, chat_input_match_local_command_compat,
  chat_input_is_local_dl_command_compat, chat_input_is_local_quit_command_compat,
}
use libsamp.Bridge.ChatInput.Submit.{Client, Session}
use libsamp.Bridge.ChatInput.Keys.{Message, wm_char, wm_keydown}
use libsamp.Bridge.ChatInput.Keeps.{IsInput, IsEntry}
use libsamp.Bridge.ChatInput.Typing.{Step, after_messages, AllSafe, after_messages-IsInput}
use libsamp.Bridge.ChatInput.Recall.{ups, downs, downs-ups}
use libsamp.Bridge.ChatInput.Synonyms.{
  has_arguments, on_arguments, dl_name, q_name, quit_name, local_commands-match,
}

abbrev blank_input : Input
blank_input = record {
  active = false;
  buffer = [];
  len = 0;
  history = replicate history_slots [];
  history_count = 0;
  history_index = none;
  recall_saved = [];
}

blank_input-IsInput : IsInput blank_input
blank_input-IsInput = record {
  size = refl;
  bound = omega arith;
  slots = refl;
  few = omega arith;
  index = tt;
  saved = omega arith;
  entries = λ i low. absurd (omega (arith, low));
}

abbrev blank_session : Session
blank_session = record {
  input = blank_input;
  chat = record { line_count = 0; lines = replicate max_lines no_line; timestamp_enabled = false };
  send_count = 0;
  command_send_count = 0;
  send_failures = 0;
}

abbrev online : Client
online = record {
  connected = true;
  send_rcon_command = λ a. true;
  send_server_command = λ a. true;
  send_chat = λ a. true;
}

abbrev key : Message → Step
key m = record {
  client = online;
  enabled = true;
  now = record { hour = 0; minute = 0; second = 0 };
  message = m;
}

-- `t`, "/rcon x", return, `t`, "hi", return, `t`, up.
abbrev typed : List Step
typed =
    key (wm_char 116)
    ∷ key (wm_char 47)
    ∷ key (wm_char 114)
    ∷ key (wm_char 99)
    ∷ key (wm_char 111)
    ∷ key (wm_char 110)
    ∷ key (wm_char 32)
    ∷ key (wm_char 120)
    ∷ key (wm_char 13)
    ∷ key (wm_char 116)
    ∷ key (wm_char 104)
    ∷ key (wm_char 105)
    ∷ key (wm_char 13)
    ∷ key (wm_char 116)
    ∷ key (wm_keydown 0x26)
    ∷ []

after_messages-IsInput_example :
    IsInput (after_messages typed blank_session).0.input
    × AllSafe (after_messages typed blank_session).1
after_messages-IsInput_example = after_messages-IsInput typed blank_session blank_input-IsInput

-- "abc" is being typed, with "hi" in the history.
abbrev typing : Input
typing = record {
  active = true;
  buffer = 97 ∷ 98 ∷ 99 ∷ [];
  len = 3;
  history = (104 ∷ 105 ∷ []) ∷ replicate 9 [];
  history_count = 1;
  history_index = none;
  recall_saved = [];
}

hi-IsEntry : IsEntry (104 ∷ 105 ∷ [])
unfolding chat_input_match_local_command_compat match_slash skip_spaces
hi-IsEntry = record { written = refl; fits = omega arith; harmless = refl }

typing-IsInput : IsInput typing
typing-IsInput = record {
  size = refl;
  bound = omega arith;
  slots = refl;
  few = omega arith;
  index = tt;
  saved = omega arith;
  entries = only;
}
  where
    only : (i : ℕ) → i < 1 → IsEntry (get_or ((104 ∷ 105 ∷ []) ∷ replicate 9 []) i [])
    only zero low = hi-IsEntry
    only (suc i) low = absurd (omega (arith, low))

downs-ups_example :
    ((ups 1 typing).buffer ≡ 104 ∷ 105 ∷ [])
    × (downs 1 (ups 1 typing) ≡ record typing { recall_saved = 97 ∷ 98 ∷ 99 ∷ [] })
downs-ups_example = downs-ups 0 typing typing-IsInput refl (omega arith)

-- " /QUIT "
abbrev leave : List ℕ
leave = 32 ∷ 47 ∷ 81 ∷ 85 ∷ 73 ∷ 84 ∷ 32 ∷ []

local_commands-match_example :
    (chat_input_is_local_dl_command_compat leave
      ≡ has_arguments (chat_input_match_local_command_compat leave dl_name))
    × (chat_input_is_local_quit_command_compat leave ≡ (
        on_arguments is_empty (chat_input_match_local_command_compat leave q_name)
        || on_arguments is_empty (chat_input_match_local_command_compat leave quit_name)))
local_commands-match_example = local_commands-match leave
