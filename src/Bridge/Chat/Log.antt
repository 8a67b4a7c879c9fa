-- ===== src/Bridge/Chat/Log.antt =====
-- The chat lines against a log that forgets nothing.
use libsamp.Common.{
  ℕ, zero, suc, ◌+◌, ◌-◌, ◌<◌, ◌≤◌, ◌≡◌, refl, sym, ap, ◌∙◌, arith, min, Bool, true, false, ◌&&◌,
  ◌||◌, List, [], ◌∷◌, ◌++◌, get_or, set, take, drop, length, ltb, leb, ◌==◌, if◌then◌else◌,
  if-cases, length-append, length-set, take_all, drop-drop, get_or-take, get_or-drop,
  drop-append_le, take-set_end,
}
use libsamp.Bridge.Chat.{
  Line, Chat, LocalTime, max_lines, no_line, shown_lines, is_empty, line_of, same_text,
  repeats_last, put_line, shift_up, format_time, chat_compat_add_colored_line,
}

abbrev pub last_lines : ℕ → List Line → List Line
last_lines n log = drop (length log - n) log

abbrev new_line : LocalTime → ℕ → List ℕ → Line
new_line now argb text = record { text = line_of text; timestamp = format_time now; color = argb }

-- A message is dropped if nothing is left of it, or if it repeats the last line in its colour.
unfoldable pub is_dropped : ℕ → List ℕ → List Line → Bool
is_dropped argb text log =
    let last = get_or log (length log - 1) no_line in
    is_empty (line_of text)
    || (ltb 0 (length log) && same_text last.text (line_of text) && last.color == argb)

-- The log with one more message.
unfoldable pub log_message : LocalTime → ℕ → List ℕ → List Line → List Line
log_message now argb text log =
    if is_dropped argb text log then log else log ++ (new_line now argb text ∷ [])

-- The chat keeps the last lines of the log.
pub record IsTail (chat : Chat) (log : List Line) : Type 0 where
  pub slots : length chat.lines ≡ max_lines
  pub counted : chat.line_count ≡ min max_lines (length log)
  pub tail : shown_lines chat ≡ last_lines max_lines log

set-shift_up :
    (n : ℕ) (lines : List Line) (v : Line)
    → length lines ≡ suc n
    → set (shift_up lines) n v ≡ drop 1 lines ++ (v ∷ [])
unfolding shift_up
set-shift_up n [] v h = absurd (omega arith)
set-shift_up zero (x ∷ []) v h = refl
set-shift_up zero (x ∷ (y ∷ lines)) v h = absurd (omega arith)
set-shift_up (suc n) (x ∷ []) v h = absurd (omega arith)
set-shift_up (suc n) (x ∷ (y ∷ lines)) v h =
    ap (λ t. y ∷ t) (set-shift_up n (y ∷ lines) v (omega arith))

length-shift_up : (lines : List Line) → length (shift_up lines) ≡ length lines
unfolding shift_up
length-shift_up [] = refl
length-shift_up (x ∷ []) = refl
length-shift_up (x ∷ (y ∷ lines)) = ap suc (length-shift_up (y ∷ lines))

-- The last line of the chat is the last line of the log.
last_line :
    (chat : Chat) (log : List Line)
    → IsTail chat log
    → 0 < length log
    → get_or chat.lines (chat.line_count - 1) no_line ≡ get_or log (length log - 1) no_line
last_line chat log v h =
    let i : chat.line_count - 1 < chat.line_count = omega (arith, v.counted, h) in
    let at_end : length log - max_lines + (chat.line_count - 1) ≡ length log - 1 =
      omega (arith, v.counted, h) in
    sym (get_or-take chat.line_count chat.lines (chat.line_count - 1) no_line i)
    ∙ ap (λ (t : List Line). get_or t (chat.line_count - 1) no_line) v.tail
    ∙ get_or-drop (length log - max_lines) log (chat.line_count - 1) no_line
    ∙ ap (λ (n : ℕ). get_or log n no_line) at_end

dropped_alike :
    (argb : ℕ) (text : List ℕ) (chat : Chat) (log : List Line)
    → IsTail chat log
    → (is_empty (line_of text) || repeats_last chat argb (line_of text)) ≡ is_dropped argb text log
unfolding repeats_last is_dropped
dropped_alike argb text chat [] v =
    let none_yet : chat.line_count ≡ 0 = omega (arith, v.counted) in
    let e : ltb 0 chat.line_count ≡ false = ground (arith, none_yet) in rw e refl
dropped_alike argb text chat (x ∷ log) v =
    let some_yet : ltb 0 chat.line_count ≡ true = ground (arith, v.counted) in
    let within : leb chat.line_count max_lines ≡ true = ground (arith, v.counted) in
    let now : ltb 0 (length (x ∷ log)) ≡ true = ground arith in
    rw (some_yet, within, now, last_line chat (x ∷ log) v (omega arith)) refl

put_line-IsTail :
    (line : Line) (chat : Chat) (log : List Line)
    → IsTail chat log
    → IsTail (put_line line chat) (log ++ (line ∷ []))
unfolding put_line
put_line-IsTail line chat log v =
    let grown : length (log ++ (line ∷ [])) ≡ length log + 1 = length-append log (line ∷ []) in
    if-cases (λ (c : Chat). IsTail c (log ++ (line ∷ []))) (ltb chat.line_count max_lines) _ _
      (λ t.
        let small : chat.line_count < max_lines = ground (arith, t) in
        let all : length log - max_lines ≡ 0 = omega (arith, v.counted, small) in
        let all_still : length (log ++ (line ∷ [])) - max_lines ≡ 0 =
          omega (arith, v.counted, small, grown) in
        record {
          slots = length-set chat.lines chat.line_count line ∙ v.slots;
          counted = omega (arith, v.counted, grown, small);
          tail =
              let more : chat.line_count + 1 ≡ suc chat.line_count = omega arith in
              ap (λ (n : ℕ). take n (set chat.lines chat.line_count line)) more
              ∙ take-set_end chat.line_count chat.lines line (omega (arith, small, v.slots))
              ∙ ap (λ (t : List Line). t ++ (line ∷ [])) (v.tail ∙ ap (λ (n : ℕ). drop n log) all)
              ∙ sym (ap (λ (n : ℕ). drop n (log ++ (line ∷ []))) all_still);
        })
      λ t.
        let full : chat.line_count ≡ max_lines = ground (arith, t, v.counted) in
        let shown : chat.lines ≡ last_lines max_lines log =
          sym (take_all max_lines chat.lines (omega (arith, v.slots)))
          ∙ sym (ap (λ (n : ℕ). take n chat.lines) full)
          ∙ v.tail in
        let long : max_lines ≤ length log = omega (arith, full, v.counted) in
        let less : length log - max_lines + 1 ≡ length (log ++ (line ∷ [])) - max_lines =
          omega (arith, grown, long) in
        let moved = set (shift_up chat.lines) (max_lines - 1) line in
        let size : length moved ≡ max_lines =
          length-set (shift_up chat.lines) (max_lines - 1) line
          ∙ length-shift_up chat.lines
          ∙ v.slots in
        record {
          slots = size;
          counted = omega (arith, full, grown, long);
          tail =
              take_all chat.line_count moved (omega (arith, size, full))
              ∙ set-shift_up (max_lines - 1) chat.lines line v.slots
              ∙ ap (λ (t : List Line). drop 1 t ++ (line ∷ [])) shown
              ∙ ap (λ (t : List Line). t ++ (line ∷ [])) (drop-drop (length log - max_lines) 1 log)
              ∙ sym (
                  drop-append_le (length log - max_lines + 1) log (line ∷ []) (omega (arith, long)))
              ∙ ap (λ (n : ℕ). drop n (log ++ (line ∷ []))) less;
        }

either_way :
    {chat chat' : Chat} {log log' : List Line} (b : Bool)
    → IsTail chat log
    → IsTail chat' log'
    → IsTail (if b then chat else chat') (if b then log else log')
either_way true v w = v
either_way false v w = w

-- A message is added to the chat as it is to the log, and is dropped where the log drops it.
pub add_colored_line-IsTail :
    (now : LocalTime) (argb : ℕ) (text : List ℕ) (chat : Chat) (log : List Line)
    → IsTail chat log
    → IsTail (chat_compat_add_colored_line now argb text chat) (log_message now argb text log)
unfolding chat_compat_add_colored_line log_message
add_colored_line-IsTail now argb text chat log v =
    rw (dropped_alike argb text chat log v) (
      either_way (is_dropped argb text log) v (put_line-IsTail (new_line now argb text) chat log v))

pub record Message : Type 0 where
  pub time : LocalTime
  pub color : ℕ
  pub text : List ℕ

unfoldable pub add_messages : List Message → Chat → Chat
add_messages [] chat = chat
add_messages (m ∷ messages) chat =
    add_messages messages (chat_compat_add_colored_line m.time m.color m.text chat)

unfoldable pub log_messages : List Message → List Line → List Line
log_messages [] log = log
log_messages (m ∷ messages) log = log_messages messages (log_message m.time m.color m.text log)

-- After any messages the chat shows the last 20 lines of the log of all the messages, in which a
-- message is left out if it is empty or repeats the line before it in the same colour.
pub add_messages-log_messages :
    (messages : List Message) (chat : Chat) (log : List Line)
    → IsTail chat log
    → shown_lines (add_messages messages chat) ≡ last_lines max_lines (log_messages messages log)
unfolding add_messages log_messages
add_messages-log_messages [] chat log v = v.tail
add_messages-log_messages (m ∷ messages) chat log v =
    add_messages-log_messages messages (chat_compat_add_colored_line m.time m.color m.text chat)
      (log_message m.time m.color m.text log)
      (add_colored_line-IsTail m.time m.color m.text chat log v)
