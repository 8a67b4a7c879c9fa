-- ===== src/Bridge/Chat/Tests.antt =====
-- The chat lines on concrete messages.
use libsamp.Common.{◌≡◌, refl, true, List, [], ◌∷◌, replicate}
use libsamp.Bridge.Chat.{Chat, LocalTime, max_lines, no_line, shown_lines, format_time}
use libsamp.Bridge.Chat.Log.{
  Message, IsTail, last_lines, log_messages, add_messages, add_messages-log_messages,
}

abbrev empty_chat : Chat
empty_chat = record {
  line_count = 0;
  lines = replicate max_lines no_line;
  timestamp_enabled = true;
}

empty_chat-IsTail : IsTail empty_chat []
empty_chat-IsTail = record { slots = refl; counted = refl; tail = refl }

abbrev noon : LocalTime
noon = record { hour = 12; minute = 5; second = 0 }

-- "hi", "hi" again, the same in another colour, and an empty message.
abbrev chatter : List Message
chatter =
    record { time = noon; color = 1; text = 104 ∷ 105 ∷ [] }
    ∷ record { time = noon; color = 1; text = 104 ∷ 105 ∷ [] }
    ∷ record { time = noon; color = 2; text = 104 ∷ 105 ∷ [] }
    ∷ record { time = noon; color = 2; text = [] }
    ∷ []

add_messages-log_messages_example :
    shown_lines (add_messages chatter empty_chat) ≡ last_lines max_lines (log_messages chatter [])
add_messages-log_messages_example =
    add_messages-log_messages chatter empty_chat [] empty_chat-IsTail

noon_text : format_time noon ≡ 91 ∷ 49 ∷ 50 ∷ 58 ∷ 48 ∷ 53 ∷ 58 ∷ 48 ∷ 48 ∷ 93 ∷ []
unfolding format_time
noon_text = refl
