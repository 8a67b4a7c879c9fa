-- ===== src/Bridge/ChatInput/Keeps.antt =====
-- What stays true of the chat line whatever is typed.
use libsamp.Common.{
  ℕ, zero, suc, ◌+◌, ◌-◌, ◌<◌, ◌≤◌, ◌≡◌, refl, subst, inl, inr, arith, Bool, true, false, Option,
  none, some, List, [], ◌∷◌, length, get_or, take, ltb, leb, ◌==◌, if◌then◌else◌, if-cases,
  Option-cases, length-append, length-take,
}
use libsamp.Bridge.Chat.{is_empty}
use libsamp.Bridge.ChatInput.{
  Input, input_max, history_slots, chat_input_close_compat, chat_input_open_compat,
  chat_input_append_char_compat, chat_input_backspace_compat, chat_input_set_buffer_compat,
  show_history, chat_input_recall_up_compat, recall_down_from, chat_input_recall_down_compat,
}
use libsamp.Bridge.ChatInput.Command.{chat_input_match_local_command_compat}
use libsamp.Bridge.ChatInput.Submit.{rcon_name}

-- A line of the history: it is not empty, it fits, and it is no /rcon line.
pub record IsEntry (line : List ℕ) : Type 0 where
  pub written : is_empty line ≡ false
  pub fits : length line ≤ input_max
  pub harmless : chat_input_match_local_command_compat line rcon_name ≡ none

-- The index -1, or the index of a line.
abbrev pub IsIndex : Option ℕ → ℕ → Type 0
IsIndex none count = Unit
IsIndex (some index) count = index < count

pub record IsInput (s : Input) : Type 0 where
  pub size : length s.buffer ≡ s.len
  pub bound : s.len ≤ input_max
  pub slots : length s.history ≡ history_slots
  pub few : s.history_count ≤ history_slots
  pub index : IsIndex s.history_index s.history_count
  pub saved : length s.recall_saved ≤ input_max
  pub entries : (i : ℕ) → i < s.history_count → IsEntry (get_or s.history i [])

pub close-IsInput : (s : Input) → IsInput s → IsInput (chat_input_close_compat s)
unfolding chat_input_close_compat
close-IsInput s v = record {
  size = refl;
  bound = omega arith;
  slots = v.slots;
  few = v.few;
  index = tt;
  saved = omega arith;
  entries = v.entries;
}

pub open-IsInput :
    (enabled : Bool) (s : Input) → IsInput s → IsInput (chat_input_open_compat enabled s)
unfolding chat_input_open_compat
open-IsInput false s v = v
open-IsInput true s v = record {
  size = refl;
  bound = omega arith;
  slots = v.slots;
  few = v.few;
  index = tt;
  saved = omega arith;
  entries = v.entries;
}

pub append_char-IsInput :
    (ch : ℕ) (s : Input) → IsInput s → IsInput (chat_input_append_char_compat ch s)
unfolding chat_input_append_char_compat
append_char-IsInput ch s v =
    if-cases IsInput (leb input_max s.len) _ _ (λ t. v)
      λ t. record {
        size = omega (
          arith,
          length-append (take s.len s.buffer) (ch ∷ []),
          length-take s.len s.buffer,
          v.size,
        );
        bound = ground (arith, t);
        slots = v.slots;
        few = v.few;
        index = tt;
        saved = v.saved;
        entries = v.entries;
      }

pub backspace-IsInput : (s : Input) → IsInput s → IsInput (chat_input_backspace_compat s)
unfolding chat_input_backspace_compat
backspace-IsInput s v =
    if-cases IsInput (s.len == 0) _ _ (λ t. v)
      λ t. record {
        size = omega (arith, length-take (s.len - 1) s.buffer, v.size);
        bound = omega (arith, v.bound);
        slots = v.slots;
        few = v.few;
        index = tt;
        saved = v.saved;
        entries = v.entries;
      }

show_history-IsInput :
    (i : ℕ) (s : Input) → i < s.history_count → IsInput s → IsInput (show_history i s)
unfolding show_history chat_input_set_buffer_compat
show_history-IsInput i s h v = record {
  size = refl;
  bound = omega (arith, length-take input_max (get_or s.history i []));
  slots = v.slots;
  few = v.few;
  index = h;
  saved = v.saved;
  entries = v.entries;
}

save-IsInput :
    (s : Input) → IsInput s → IsInput (record s { recall_saved = take input_max s.buffer })
save-IsInput s v = record {
  size = v.size;
  bound = v.bound;
  slots = v.slots;
  few = v.few;
  index = v.index;
  saved = omega (arith, length-take input_max s.buffer);
  entries = v.entries;
}

pub recall_up-IsInput : (s : Input) → IsInput s → IsInput (chat_input_recall_up_compat s)
unfolding chat_input_recall_up_compat
recall_up-IsInput s v =
    if-cases IsInput (s.history_count == 0) _ _ (λ t. v)
      λ t.
        let some_lines : 0 < s.history_count = ground (arith, t) in
        elim (Option-cases s.history_index) [
          | inl n ↦ rw n (
              show_history-IsInput 0 (record s { recall_saved = take input_max s.buffer })
                some_lines (save-IsInput s v))
          | inr (i, e) ↦
              let low : i < s.history_count =
                subst (λ (o : Option ℕ). IsIndex o s.history_count) e v.index in
              let next : ℕ =
                if ltb (i + 1)
                  (if ltb history_slots s.history_count then history_slots else s.history_count)
                then i + 1
                else i in
              let next_low : next < s.history_count = ground (arith, low, v.few) in
              rw e (show_history-IsInput next s next_low v)
        ]

recall_down_from-IsInput :
    (i : ℕ) (s : Input) → i < s.history_count → IsInput s → IsInput (recall_down_from i s)
unfolding recall_down_from chat_input_set_buffer_compat
recall_down_from-IsInput zero s low v = record {
  size = refl;
  bound = omega (arith, length-take input_max s.recall_saved);
  slots = v.slots;
  few = v.few;
  index = tt;
  saved = v.saved;
  entries = v.entries;
}
recall_down_from-IsInput (suc i) s low v = show_history-IsInput i s (omega (arith, low)) v

pub recall_down-IsInput : (s : Input) → IsInput s → IsInput (chat_input_recall_down_compat s)
unfolding chat_input_recall_down_compat
recall_down-IsInput s v = by_index s.history_index v.index
  where
    by_index :
        (o : Option ℕ)
        → IsIndex o s.history_count
        → IsInput (elim o [ none ↦ s | some index ↦ recall_down_from index s ])
    by_index none low = v
    by_index (some i) low = recall_down_from-IsInput i s low v
