-- ===== src/Bridge/Dialog/Answer.antt =====
-- A dialog over any events, and what its first button answers.
use libsamp.Common.{
  ℕ, ◌+◌, ◌<◌, ◌≤◌, ◌≡◌, refl, ◌∙◌, ◌⊎◌, inl, inr, arith, Bool, true, false, ◌&&◌, ◌||◌, not,
  Option, none, some, List, [], ◌∷◌, leb, ◌==◌, if◌then◌else◌, if-cases, Bool-cases,
}
use libsamp.Bridge.ChatInput.{Input}
use libsamp.Bridge.Dialog.Lines.{dialog_compat_get_line, is_found, get_line-line_count}
use libsamp.Bridge.Dialog.{
  Dialog, Snapshot, Response, input_chars, max_visible_items, dialog_compat_uses_list,
  dialog_compat_uses_input, dialog_compat_has_header, dialog_compat_item_count, select_row,
  response_of, dialog_compat_submit, dialog_compat_update_from_snapshot,
}
use libsamp.Bridge.Dialog.Keys.{
  on_keydown, on_char, vk_back, vk_return, vk_escape, vk_prior, vk_next, vk_up, vk_down,
}
use libsamp.Bridge.Dialog.Selection.{
  IsDialog, IsNormal, IsChoice, update-IsDialog, move_selection-IsDialog, select_row-IsDialog,
  append-IsDialog, backspace-IsDialog, submit-IsDialog,
}

-- The line of a dialog's text that an item stands in.
abbrev pub line_of_item : Dialog → ℕ → ℕ
line_of_item d row = row + (if dialog_compat_has_header d.style then 1 else 0)

-- What the button answers. No response: the dialog is not shown, its number has more than 16 bits,
-- or it is a list without items. A response from a list: the selected row with the line that it
-- stands in; from any other dialog: no row.
abbrev pub IsAnswer : Dialog → Option Response → Type 0
IsAnswer d none =
    (d.active ≡ false)
    ⊎ ((65536 ≤ d.id)
        ⊎ ((dialog_compat_uses_list d.style ≡ true) × (dialog_compat_item_count d ≡ 0)))
IsAnswer d (some r) =
    (r.dialog_id ≡ d.id)
    × (((dialog_compat_uses_list d.style ≡ true)
          × ((row : ℕ) × (r.listitem ≡ some row)
              × (d.selected ≡ some row)
              × (dialog_compat_get_line d.info (line_of_item d row) input_chars ≡ some r.text)))
        ⊎ ((dialog_compat_uses_list d.style ≡ false) × (r.listitem ≡ none)))

item_line :
    (d : Dialog) (row : ℕ)
    → row < dialog_compat_item_count d
    → is_found (dialog_compat_get_line d.info (line_of_item d row) input_chars) ≡ true
unfolding dialog_compat_item_count
item_line d row low =
    get_line-line_count d.info (line_of_item d row) input_chars ∙ ground (arith, low)

not_found : (is_found none ≡ true) → ⊥
unfolding is_found
not_found h = absurd cc

list-IsAnswer :
    (d : Dialog) (button : ℕ)
    → dialog_compat_uses_list d.style ≡ true
    → IsNormal d
    → IsAnswer d (elim d.selected [
      | none ↦ none
      | some row ↦ elim (dialog_compat_get_line d.info (line_of_item d row) input_chars) [
        | none ↦ none
        | some line ↦
            some (record { dialog_id = d.id; button = button; listitem = some row; text = line })
      ]
    ])
list-IsAnswer d button list normal = by_row d.selected refl normal
  where
    by_line :
        (row : ℕ) (o : Option (List ℕ))
        → d.selected ≡ some row
        → dialog_compat_get_line d.info (line_of_item d row) input_chars ≡ o
        → is_found o ≡ true
        → IsAnswer d (elim o [
          | none ↦ none
          | some line ↦
              some (record { dialog_id = d.id; button = button; listitem = some row; text = line })
        ])
    by_line row none is e found = absurd (not_found found)
    by_line row (some line) is e found = (refl, inl (list, (row, refl, is, e)))

    by_row :
        (o : Option ℕ)
        → d.selected ≡ o
        → IsChoice o d.scroll (dialog_compat_item_count d)
        → IsAnswer d (elim o [
          | none ↦ none
          | some row ↦ elim (dialog_compat_get_line d.info (line_of_item d row) input_chars) [
            | none ↦ none
            | some line ↦
                some
                  (record { dialog_id = d.id; button = button; listitem = some row; text = line })
          ]
        ])
    by_row none is empty = inr (inr (list, empty))
    by_row (some row) is (low, above, below) =
        by_line row (dialog_compat_get_line d.info (line_of_item d row) input_chars) is refl
          (item_line d row low)

response_of-IsAnswer : (d : Dialog) → IsDialog d → IsAnswer d (response_of 1 d)
unfolding response_of
response_of-IsAnswer d v =
    if-cases (IsAnswer d) (not d.active || leb 65536 d.id) _ _
      (λ t. elim (Bool-cases d.active) [
        | inl on ↦ inr (inl (ground (arith, t, on)))
        | inr off ↦ inl off
      ])
      λ t.
        if-cases (IsAnswer d) (dialog_compat_uses_list d.style) _ _
          (λ list. list-IsAnswer d 1 list (v.choice (ground (arith, t))))
          λ other.
            if-cases (IsAnswer d) (dialog_compat_uses_input d.style) _ _
              (λ u. (refl, inr (other, refl))) (λ u. (refl, inr (other, refl)))

on_keydown-IsDialog :
    (client : Response → Bool) (key : ℕ) (d : Dialog)
    → IsDialog d
    → IsDialog (on_keydown client key d)
unfolding on_keydown
on_keydown-IsDialog client key d v =
    if-cases IsDialog (key == vk_return) _ _ (λ t. submit-IsDialog client 1 d v)
      λ t.
        if-cases IsDialog (key == vk_escape) _ _ (λ u. submit-IsDialog client 0 d v)
          λ u.
            if-cases IsDialog (dialog_compat_uses_list d.style && key == vk_up) _ _
              (λ w. move_selection-IsDialog true 1 d v)
              λ w.
                if-cases IsDialog (dialog_compat_uses_list d.style && key == vk_down) _ _
                  (λ x. move_selection-IsDialog false 1 d v)
                  λ x.
                    if-cases IsDialog (dialog_compat_uses_list d.style && key == vk_prior) _ _
                      (λ y. move_selection-IsDialog true max_visible_items d v)
                      λ y.
                        if-cases IsDialog (dialog_compat_uses_list d.style && key == vk_next) _ _
                          (λ z. move_selection-IsDialog false max_visible_items d v)
                          λ z.
                            if-cases IsDialog (dialog_compat_uses_input d.style && key == vk_back) _
                              _ (λ q. backspace-IsDialog d v) (λ q. v)

on_char-IsDialog :
    (client : Response → Bool) (c : ℕ) (d : Dialog) → IsDialog d → IsDialog (on_char client c d)
unfolding on_char
on_char-IsDialog client c d v =
    if-cases IsDialog (dialog_compat_uses_input d.style) _ _
      (λ t.
        if-cases IsDialog (c == 8) _ _ (λ u. backspace-IsDialog d v)
          λ u.
            if-cases IsDialog (c == 13 || c == 10) _ _ (λ w. submit-IsDialog client 1 d v)
              λ w.
                if-cases IsDialog (c == 27) _ _ (λ x. submit-IsDialog client 0 d v)
                  λ x.
                    if-cases IsDialog (leb 32 c && leb c 126) _ _ (λ y. append-IsDialog c d v)
                      (λ y. v))
      (λ t. v)

-- What can happen to a dialog: a snapshot, a key, a character, a click on an item or a button.
pub data Event : Type 0 where
  update : Snapshot → Event
  keydown char button : (Response → Bool) → ℕ → Event
  select : ℕ → Event

unfoldable pub after_event : Event → Dialog × Input → Dialog × Input
after_event (update snapshot) s = dialog_compat_update_from_snapshot snapshot s
after_event (keydown client key) s = (on_keydown client key s.0, s.1)
after_event (char client c) s = (on_char client c s.0, s.1)
after_event (button client n) s = (dialog_compat_submit client n s.0, s.1)
after_event (select row) s = (select_row row s.0, s.1)

unfoldable pub after_events : List Event → Dialog × Input → Dialog × Input
after_events [] s = s
after_events (e ∷ events) s = after_events events (after_event e s)

after_event-IsDialog :
    (e : Event) (s : Dialog × Input) → IsDialog s.0 → IsDialog (after_event e s).0
unfolding after_event
after_event-IsDialog (update snapshot) (d, input) v = update-IsDialog snapshot d input v
after_event-IsDialog (keydown client key) s v = on_keydown-IsDialog client key s.0 v
after_event-IsDialog (char client c) s v = on_char-IsDialog client c s.0 v
after_event-IsDialog (button client n) s v = submit-IsDialog client n s.0 v
after_event-IsDialog (select row) s v = select_row-IsDialog row s.0 v

-- Through any snapshots, keys, clicks and answers: while a dialog is shown, the selected item is
-- one of its items and on the screen, and there is none only if there is no item; the typed text
-- fits. The first button then answers, unless the dialog is not shown, has a number of more than
-- 16 bits or is a list without items, and from a list it answers the selected row with its line.
pub after_events-IsDialog :
    (events : List Event) (s : Dialog × Input)
    → IsDialog s.0
    → (let d = (after_events events s).0 in IsDialog d × IsAnswer d (response_of 1 d))
unfolding after_events
after_events-IsDialog [] s v = (v, response_of-IsAnswer s.0 v)
after_events-IsDialog (e ∷ events) s v =
    after_events-IsDialog events (after_event e s) (after_event-IsDialog e s v)
