-- ===== src/Bridge/ChatInput/Recall.antt =====
-- Recalling earlier lines and coming back to the one that was being typed.
use libsamp.Common.{
  ℕ, zero, suc, ◌+◌, ◌<◌, ◌≤◌, ◌≡◌, refl, sym, ap, ◌∙◌, arith, true, false, Option, none, some,
  List, [], length, get_or, take, ltb, ◌==◌, take_all,
}
use libsamp.Bridge.ChatInput.{
  Input, input_max, history_slots, show_history, chat_input_set_buffer_compat,
  chat_input_recall_up_compat, recall_down_from, chat_input_recall_down_compat,
}
use libsamp.Bridge.ChatInput.Keeps.{IsInput}

unfoldable pub ups : ℕ → Input → Input
ups zero s = s
ups (suc n) s = chat_input_recall_up_compat (ups n s)

unfoldable pub downs : ℕ → Input → Input
downs zero s = s
downs (suc n) s = downs n (chat_input_recall_down_compat s)

-- The state in which line `i` of the history is shown in place of the typed one.
abbrev pub recalled : ℕ → Input → Input
recalled i s = record s {
  buffer = take input_max (get_or s.history i []);
  len = length (take input_max (get_or s.history i []));
  history_index = some i;
  recall_saved = take input_max s.buffer;
}

first_up :
    (s : Input)
    → s.history_index ≡ none
    → 0 < s.history_count
    → chat_input_recall_up_compat s ≡ recalled 0 s
unfolding chat_input_recall_up_compat show_history chat_input_set_buffer_compat
first_up s idle h = let e : (s.history_count == 0) ≡ false = ground (arith, h) in rw (e, idle) refl

next_up :
    (i : ℕ) (s : Input)
    → s.history_count ≤ history_slots
    → i + 1 < s.history_count
    → chat_input_recall_up_compat (recalled i s) ≡ recalled (i + 1) s
unfolding chat_input_recall_up_compat show_history chat_input_set_buffer_compat
next_up i s few h =
    let e : (s.history_count == 0) ≡ false = ground (arith, h) in
    let f : ltb history_slots s.history_count ≡ false = ground (arith, few) in
    let g : ltb (i + 1) s.history_count ≡ true = ground (arith, h) in rw (e, f, g) refl

next_down : (i : ℕ) (s : Input) → chat_input_recall_down_compat (recalled (suc i) s) ≡ recalled i s
unfolding chat_input_recall_down_compat recall_down_from show_history chat_input_set_buffer_compat
next_down i s = refl

last_down :
    (s : Input)
    → IsInput s
    → s.history_index ≡ none
    → chat_input_recall_down_compat (recalled 0 s) ≡ record s { recall_saved = s.buffer }
unfolding chat_input_recall_down_compat recall_down_from chat_input_set_buffer_compat
last_down s v idle =
    let fit : take input_max s.buffer ≡ s.buffer =
      take_all input_max s.buffer (omega (arith, v.size, v.bound)) in
    ap
      (λ (b : List ℕ). record s {
        buffer = take input_max b;
        len = length (take input_max b);
        history_index = none;
        recall_saved = b;
      })
      fit
    ∙ ap
        (λ (b : List ℕ). record s {
          buffer = b;
          len = length b;
          history_index = none;
          recall_saved = s.buffer;
        })
        fit
    ∙ ap (λ (n : ℕ). record s { len = n; history_index = none; recall_saved = s.buffer }) v.size
    ∙ ap (λ (o : Option ℕ). record s { history_index = o; recall_saved = s.buffer }) (sym idle)

ups-recalled :
    (n : ℕ) (s : Input)
    → IsInput s
    → s.history_index ≡ none
    → n < s.history_count
    → ups (suc n) s ≡ recalled n s
unfolding ups
ups-recalled zero s v idle h = first_up s idle h
ups-recalled (suc n) s v idle h =
    let e : n + 1 ≡ suc n = omega arith in
    ap chat_input_recall_up_compat (ups-recalled n s v idle (omega (arith, h)))
    ∙ next_up n s v.few (omega (arith, h))
    ∙ ap (λ (k : ℕ). recalled k s) e

downs-recalled :
    (n : ℕ) (s : Input)
    → IsInput s
    → s.history_index ≡ none
    → downs (suc n) (recalled n s) ≡ record s { recall_saved = s.buffer }
unfolding downs
downs-recalled zero s v idle = last_down s v idle
downs-recalled (suc n) s v idle = ap (downs (suc n)) (next_down n s) ∙ downs-recalled n s v idle

-- From the line that is being typed, `n + 1` times up shows line `n` of the history, whole, and as
-- many times down shows the typed line again; only the saved copy of it has changed.
pub downs-ups :
    (n : ℕ) (s : Input)
    → IsInput s
    → s.history_index ≡ none
    → n < s.history_count
    → ((ups (suc n) s).buffer ≡ get_or s.history n [])
      × (downs (suc n) (ups (suc n) s) ≡ record s { recall_saved = s.buffer })
downs-ups n s v idle h =
    let up = ups-recalled n s v idle h in
    (
      ap (λ (t : Input). t.buffer) up
          ∙ take_all input_max (get_or s.history n []) (v.entries n h).fits,
      ap (downs (suc n)) up ∙ downs-recalled n s v idle,
    )
