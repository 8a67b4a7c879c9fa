-- ===== src/Bridge/ChatInput/Submit.antt =====
-- What becomes of a typed line in runtime_bridge.c: `chat_input_submit_compat`. The handlers of
-- the local commands are left out; an action names the handler that is called with its arguments.
use libsamp.Common.{ℕ, ◌+◌, Bool, none, some, List, [], ◌∷◌, get_or, take, ltb, ◌==◌, if◌then◌else◌}
use libsamp.Bridge.Chat.{Chat, LocalTime, is_empty, chat_compat_add_message}
use libsamp.Bridge.ChatInput.{
  Input, input_max, chat_input_close_compat, chat_input_add_history_compat,
}
use libsamp.Bridge.ChatInput.Command.{
  chat_input_match_local_command_compat, chat_input_is_local_quit_command_compat,
  chat_input_is_local_dl_command_compat,
}

-- The RakNet client: whether there is one that is connected, and whether a send answers 0.
pub record Client : Type 0 where
  pub connected : Bool
  pub send_rcon_command : List ℕ → Bool
  pub send_server_command : List ℕ → Bool
  pub send_chat : List ℕ → Bool

pub record Session : Type 0 where
  pub input : Input
  pub chat : Chat
  pub send_count : ℕ
  pub command_send_count : ℕ
  pub send_failures : ℕ

pub data Action : Type 0 where
  nothing : Action
  rcon quit toggle_labels set_debug_level save_position raw_save_position : List ℕ → Action
  set_page_size set_font_size set_fps_limit server_command chat_line : List ℕ → Action
  toggle_timestamp toggle_audio toggle_url_logging show_interior : Action
  toggle_headmove toggle_name_tags : Action

abbrev pub rcon_name : List ℕ
rcon_name = 114 ∷ 99 ∷ 111 ∷ 110 ∷ []

abbrev debug_name : List ℕ
debug_name = 100 ∷ 101 ∷ 98 ∷ 117 ∷ 103 ∷ []

abbrev savepos_name : List ℕ
savepos_name = 115 ∷ 97 ∷ 118 ∷ 101 ∷ 112 ∷ 111 ∷ 115 ∷ []

abbrev save_name : List ℕ
save_name = 115 ∷ 97 ∷ 118 ∷ 101 ∷ []

abbrev rs_name : List ℕ
rs_name = 114 ∷ 115 ∷ []

abbrev timestamp_name : List ℕ
timestamp_name = 116 ∷ 105 ∷ 109 ∷ 101 ∷ 115 ∷ 116 ∷ 97 ∷ 109 ∷ 112 ∷ []

abbrev pagesize_name : List ℕ
pagesize_name = 112 ∷ 97 ∷ 103 ∷ 101 ∷ 115 ∷ 105 ∷ 122 ∷ 101 ∷ []

abbrev fontsize_name : List ℕ
fontsize_name = 102 ∷ 111 ∷ 110 ∷ 116 ∷ 115 ∷ 105 ∷ 122 ∷ 101 ∷ []

abbrev audiomsg_name : List ℕ
audiomsg_name = 97 ∷ 117 ∷ 100 ∷ 105 ∷ 111 ∷ 109 ∷ 115 ∷ 103 ∷ []

abbrev logurls_name : List ℕ
logurls_name = 108 ∷ 111 ∷ 103 ∷ 117 ∷ 114 ∷ 108 ∷ 115 ∷ []

abbrev interior_name : List ℕ
interior_name = 105 ∷ 110 ∷ 116 ∷ 101 ∷ 114 ∷ 105 ∷ 111 ∷ 114 ∷ []

abbrev headmove_name : List ℕ
headmove_name = 104 ∷ 101 ∷ 97 ∷ 100 ∷ 109 ∷ 111 ∷ 118 ∷ 101 ∷ []

abbrev nametagstatus_name : List ℕ
nametagstatus_name = 110 ∷ 97 ∷ 109 ∷ 101 ∷ 116 ∷ 97 ∷ 103 ∷ 115 ∷ 116 ∷ 97 ∷ 116 ∷ 117 ∷ 115 ∷ []

abbrev fpslimit_name : List ℕ
fpslimit_name = 102 ∷ 112 ∷ 115 ∷ 108 ∷ 105 ∷ 109 ∷ 105 ∷ 116 ∷ []

-- The commands in the order in which the code tries them.
abbrev pub local_commands : List (List ℕ × (List ℕ → Action))
local_commands =
    (debug_name, set_debug_level)
    ∷ (savepos_name, save_position)
    ∷ (save_name, save_position)
    ∷ (rs_name, raw_save_position)
    ∷ (timestamp_name, λ a. toggle_timestamp)
    ∷ (pagesize_name, set_page_size)
    ∷ (fontsize_name, set_font_size)
    ∷ (audiomsg_name, λ a. toggle_audio)
    ∷ (logurls_name, λ a. toggle_url_logging)
    ∷ (interior_name, λ a. show_interior)
    ∷ (headmove_name, λ a. toggle_headmove)
    ∷ (nametagstatus_name, λ a. toggle_name_tags)
    ∷ (fpslimit_name, set_fps_limit)
    ∷ []

-- The handler of the first command that the line is, or else `rest`.
unfoldable pub first_command : List ℕ → List (List ℕ × (List ℕ → Action)) → Action → Action
first_command line [] rest = rest
first_command line ((command, action) ∷ commands) rest =
    elim (chat_input_match_local_command_compat line command) [
      | none ↦ first_command line commands rest
      | some arguments ↦ action arguments
    ]

-- The last branches of the function, for a line that is no local command.
unfoldable pub server_action : Bool → List ℕ → Action
server_action connected line =
    if connected
    then if get_or line 0 0 == 47 then server_command line else chat_line line
    else nothing

-- The handler that a line reaches once it is in the history.
unfoldable pub local_action : Bool → List ℕ → Action
local_action connected line =
    if chat_input_is_local_quit_command_compat line
    then quit line
    else if chat_input_is_local_dl_command_compat line
    then toggle_labels line
    else first_command line local_commands (server_action connected line)

-- "RCON not connected."
abbrev rcon_not_connected : List ℕ
rcon_not_connected =
    82 ∷ 67 ∷ 79 ∷ 78 ∷ 32 ∷ 110 ∷ 111 ∷ 116 ∷ 32 ∷ 99 ∷ 111 ∷ 110 ∷ 110 ∷ 101 ∷ 99 ∷ 116 ∷ 101
    ∷ 100 ∷ 46 ∷ []

-- "RCON send failed."
abbrev rcon_send_failed : List ℕ
rcon_send_failed =
    82 ∷ 67 ∷ 79 ∷ 78 ∷ 32 ∷ 115 ∷ 101 ∷ 110 ∷ 100 ∷ 32 ∷ 102 ∷ 97 ∷ 105 ∷ 108 ∷ 101 ∷ 100 ∷ 46 ∷ []

-- "Chat not connected."
abbrev chat_not_connected : List ℕ
chat_not_connected =
    67 ∷ 104 ∷ 97 ∷ 116 ∷ 32 ∷ 110 ∷ 111 ∷ 116 ∷ 32 ∷ 99 ∷ 111 ∷ 110 ∷ 110 ∷ 101 ∷ 99 ∷ 116 ∷ 101
    ∷ 100 ∷ 46 ∷ []

-- "Chat send failed."
abbrev chat_send_failed : List ℕ
chat_send_failed =
    67 ∷ 104 ∷ 97 ∷ 116 ∷ 32 ∷ 115 ∷ 101 ∷ 110 ∷ 100 ∷ 32 ∷ 102 ∷ 97 ∷ 105 ∷ 108 ∷ 101 ∷ 100 ∷ 46
    ∷ []

abbrev fail_with : LocalTime → List ℕ → Session → Session
fail_with now message s = record s {
  chat = chat_compat_add_message now message s.chat;
  send_failures = s.send_failures + 1;
}

unfoldable pub submit_rcon : Client → LocalTime → List ℕ → Session → Session × Action
submit_rcon client now arguments s =
    if client.connected
    then (
      (if client.send_rcon_command arguments
          then record s { command_send_count = s.command_send_count + 1 }
          else fail_with now rcon_send_failed s),
      rcon arguments,
    )
    else (fail_with now rcon_not_connected s, nothing)

-- The counts and messages of the action that a line reaches; `nothing` is the line that is for the
-- server when there is none.
unfoldable pub submit_action : Client → LocalTime → Action → Session → Session
submit_action client now nothing s = fail_with now chat_not_connected s
submit_action client now (server_command line) s =
    if client.send_server_command line
    then record s { command_send_count = s.command_send_count + 1 }
    else fail_with now chat_send_failed s
submit_action client now (chat_line line) s =
    if client.send_chat line
    then record s { send_count = s.send_count + 1 }
    else fail_with now chat_send_failed s
submit_action client now action s = s

-- `line` of the function.
unfoldable pub submitted_line : Input → List ℕ
submitted_line input = take (if ltb input_max input.len then input_max else input.len) input.buffer

unfoldable pub chat_input_submit_compat : Client → LocalTime → Session → Session × Action
chat_input_submit_compat client now s =
    let line = submitted_line s.input in
    let closed = record s { input = chat_input_close_compat s.input } in
    if is_empty line
    then (closed, nothing)
    else elim (chat_input_match_local_command_compat line rcon_name) [
      | some arguments ↦ submit_rcon client now arguments closed
      | none ↦ (
        submit_action client now (local_action client.connected line)
            (record closed { input = chat_input_add_history_compat line closed.input }),
        local_action client.connected line,
      )
    ]
