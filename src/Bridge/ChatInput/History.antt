-- ===== src/Bridge/ChatInput/History.antt =====
-- The history of the chat line when a line is added.
use libsamp.Common.{
  ℕ, zero, suc, ◌+◌, ◌-◌, ◌<◌, ◌≤◌, ◌≡◌, refl, sym, ap, subst, ◌∙◌, arith, ◌&&◌, Option, none, List,
  [], length, get_or, set, take, ltb, leb, if-cases, length-set, take_all, get_or-set_self,
  get_or-set_ne,
}
use native.Mathlib.Decide.{ℕ_discrete}
use libsamp.Bridge.Chat.{is_empty, same_text}
use libsamp.Bridge.ChatInput.{
  Input, input_max, history_slots, shift_down, grown_count, chat_input_add_history_compat,
}
use libsamp.Bridge.ChatInput.Keeps.{IsEntry, IsIndex, IsInput}

length-shift_down : (n : ℕ) (h : List (List ℕ)) → length (shift_down n h) ≡ length h
unfolding shift_down
length-shift_down zero h = refl
length-shift_down (suc n) h =
    length-shift_down n (set h (suc n) (get_or h n [])) ∙ length-set h (suc n) (get_or h n [])

-- The loop leaves the slots above its first one alone, and moves each below it up by one.
shift_down_above :
    (n j : ℕ) (h : List (List ℕ)) → n < j → get_or (shift_down n h) j [] ≡ get_or h j []
unfolding shift_down
shift_down_above zero j h below = refl
shift_down_above (suc n) j h below =
    shift_down_above n j (set h (suc n) (get_or h n [])) (omega (arith, below))
    ∙ get_or-set_ne h (suc n) j (get_or h n []) [] (λ e. omega (arith, e, below))

shift_down_moves :
    (n j : ℕ) (h : List (List ℕ))
    → j < n
    → n < length h
    → get_or (shift_down n h) (suc j) [] ≡ get_or h j []
unfolding shift_down
shift_down_moves zero j h below room = absurd (omega arith)
shift_down_moves (suc n) j h below room = elim (ℕ_discrete j n) [
  | yes e ↦
      shift_down_above n (suc j) (set h (suc n) (get_or h n [])) (omega (arith, e))
      ∙ ap (λ (k : ℕ). get_or (set h (suc n) (get_or h n [])) (suc k) []) e
      ∙ get_or-set_self h (suc n) (get_or h n []) [] room
      ∙ ap (λ (k : ℕ). get_or h k []) (sym e)
  | no ne ↦
      shift_down_moves n j (set h (suc n) (get_or h n [])) (omega (arith, below, ne))
        (omega (arith, room, length-set h (suc n) (get_or h n [])))
      ∙ get_or-set_ne h (suc n) j (get_or h n []) [] (λ e. omega (arith, e, below))
]

grown_count_bound :
    (count : ℕ)
    → count ≤ history_slots
    → (grown_count count ≤ history_slots)
      × (0 < grown_count count)
      × (grown_count count ≤ count + 1)
unfolding grown_count
grown_count_bound count h = (ground (arith, h), ground (arith, h), ground (arith, h))

added-entries :
    (line : List ℕ) (s : Input)
    → IsEntry line
    → IsInput s
    → (i : ℕ) → i < grown_count s.history_count
    → IsEntry (
        get_or
          (set (shift_down (grown_count s.history_count - 1) s.history) 0 (take input_max line))
          i
          [])
added-entries line s w v zero low =
    let h : List (List ℕ) = shift_down (grown_count s.history_count - 1) s.history in
    let room : 0 < length h =
      omega (arith, length-shift_down (grown_count s.history_count - 1) s.history, v.slots) in
    subst IsEntry
      (sym (get_or-set_self h 0 (take input_max line) [] room ∙ take_all input_max line w.fits)) w
added-entries line s w v (suc i) low =
    let n : ℕ = grown_count s.history_count - 1 in
    let grown = grown_count_bound s.history_count v.few in
    subst IsEntry
      (sym (
        get_or-set_ne (shift_down n s.history) 0 (suc i) (take input_max line) []
          (λ e. omega (arith, e))
        ∙ shift_down_moves n i s.history (omega (arith, low)) (omega (arith, grown, v.slots))))
      (v.entries i (omega (arith, low, grown)))

pub add_history-IsInput :
    (line : List ℕ) (s : Input)
    → s.history_index ≡ none
    → IsEntry line
    → IsInput s
    → IsInput (chat_input_add_history_compat line s)
unfolding chat_input_add_history_compat
add_history-IsInput line s idle w v =
    if-cases IsInput (is_empty line) _ _ (λ t. v)
      λ t.
        if-cases IsInput
          (ltb 0 s.history_count
            && leb s.history_count history_slots
            && same_text (get_or s.history 0 []) line)
          _
          (record s {
            history =
                set (shift_down (grown_count s.history_count - 1) s.history) 0
                  (take input_max line);
            history_count = grown_count s.history_count;
          })
          (λ t'. v)
          λ t'. record {
            size = v.size;
            bound = v.bound;
            saved = v.saved;
            slots =
                length-set (shift_down (grown_count s.history_count - 1) s.history) 0
                  (take input_max line)
                ∙ length-shift_down (grown_count s.history_count - 1) s.history
                ∙ v.slots;
            few = (grown_count_bound s.history_count v.few).0;
            index = subst (λ (o : Option ℕ). IsIndex o (grown_count s.history_count)) (sym idle) tt;
            entries = added-entries line s w v;
          }
