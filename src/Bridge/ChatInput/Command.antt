-- ===== src/Bridge/ChatInput/Command.antt =====
-- The commands of the chat line in runtime_bridge.c: `chat_input_match_local_command_compat` and
-- the tests for /quit and /dl.
use libsamp.Common.{
  ℕ, ◌+◌, ◌-◌, Bool, true, false, ◌&&◌, ◌||◌, Option, none, some, List, [], ◌∷◌, get_or, drop, leb,
  ◌==◌, if◌then◌else◌,
}
use libsamp.Bridge.Chat.{is_empty}

abbrev pub lowered : ℕ → ℕ
lowered c = if leb 65 c && leb c 90 then c - 65 + 97 else c

unfoldable pub chat_input_ascii_ieq_compat : ℕ → ℕ → Bool
chat_input_ascii_ieq_compat left right = lowered left == lowered right

abbrev pub is_space : ℕ → Bool
is_space c = c == 32 || c == 9

unfoldable pub skip_spaces : List ℕ → List ℕ
skip_spaces [] = []
skip_spaces (c ∷ text) = elim (is_space c) [ true ↦ skip_spaces text | false ↦ c ∷ text ]

unfoldable pub chat_input_only_spaces_compat : List ℕ → Bool
chat_input_only_spaces_compat text = is_empty (skip_spaces text)

-- The loop over the name of a command: what follows it, if all of it is there.
unfoldable pub match_name : List ℕ → List ℕ → Option (List ℕ)
match_name cursor [] = some cursor
match_name [] (n ∷ name) = none
match_name (c ∷ cursor) (n ∷ name) = elim (chat_input_ascii_ieq_compat c n) [
  | true ↦ match_name cursor name
  | false ↦ none
]

-- The name ends where the text does, or at a space.
unfoldable pub word_end : List ℕ → Bool
word_end [] = true
word_end (c ∷ text) = is_space c

abbrev pub arguments_after : Option (List ℕ) → Option (List ℕ)
arguments_after none = none
arguments_after (some cursor) = if word_end cursor then some (skip_spaces cursor) else none

unfoldable pub match_slash : List ℕ → List ℕ → Option (List ℕ)
match_slash [] command = none
match_slash (c ∷ cursor) command =
    if c == 47 then arguments_after (match_name cursor command) else none

-- The arguments of the command, `none` for the answer 0.
unfoldable pub chat_input_match_local_command_compat : List ℕ → List ℕ → Option (List ℕ)
chat_input_match_local_command_compat line command =
    if is_empty command then none else match_slash (skip_spaces line) command

abbrev pub ieq_at : List ℕ → ℕ → ℕ → Bool
ieq_at cursor i c = chat_input_ascii_ieq_compat (get_or cursor i 0) c

unfoldable pub is_quit : List ℕ → Bool
is_quit [] = false
is_quit (c ∷ cursor) =
    c == 47
    && ((ieq_at cursor 0 113 && chat_input_only_spaces_compat (drop 1 cursor))
        || (ieq_at cursor 0 113
            && ieq_at cursor 1 117
            && ieq_at cursor 2 105
            && ieq_at cursor 3 116
            && chat_input_only_spaces_compat (drop 4 cursor)))

unfoldable pub chat_input_is_local_quit_command_compat : List ℕ → Bool
chat_input_is_local_quit_command_compat line = is_quit (skip_spaces line)

unfoldable pub is_dl : List ℕ → Bool
is_dl [] = false
is_dl (c ∷ cursor) =
    c == 47 && ieq_at cursor 0 100 && ieq_at cursor 1 108 && word_end (drop 2 cursor)

unfoldable pub chat_input_is_local_dl_command_compat : List ℕ → Bool
chat_input_is_local_dl_command_compat line = is_dl (skip_spaces line)
