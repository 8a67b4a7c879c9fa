-- ===== src/Bridge/Dialog/Selection.antt =====
-- The selected item of a dialog, and what its buttons answer.
use libsamp.Common.{
  ℕ, ◌+◌, ◌-◌, ◌<◌, ◌≤◌, ◌≡◌, ◌≢◌, refl, sym, ap, subst, ◌∙◌, arith, Bool, true, not, Option, none,
  some, List, [], ◌∷◌, ◌++◌, length, take, leb, ◌==◌, if◌then◌else◌, if-cases, length-append,
  length-take,
}
use libsamp.Bridge.ChatInput.{Input}
use libsamp.Bridge.Dialog.{
  Dialog, Snapshot, Response, max_visible_items, input_chars, dialog_compat_item_count,
  dialog_compat_close, clamped, scrolled, dialog_compat_normalize_selection, moved,
  dialog_compat_move_selection, select_row, dialog_compat_append_input_char,
  dialog_compat_backspace_input, response_of, dialog_compat_submit, filled, reset_choice, is_new,
  dialog_compat_update_from_snapshot,
}

-- An item that is on the screen, or none where there is no item.
abbrev pub IsChoice : Option ℕ → ℕ → ℕ → Type 0
IsChoice none scroll count = count ≡ 0
IsChoice (some row) scroll count =
    (row < count) × (scroll ≤ row) × (row < scroll + max_visible_items)

abbrev pub IsNormal : Dialog → Type 0
IsNormal d = IsChoice d.selected d.scroll (dialog_compat_item_count d)

pub record IsDialog (d : Dialog) : Type 0 where
  pub choice : d.active ≡ true → IsNormal d
  pub size : length d.input ≡ d.input_len
  pub bound : d.input_len ≤ input_chars

clamped-lt : (count : ℕ) (selected : Option ℕ) → count ≢ 0 → clamped count selected < count
unfolding clamped
clamped-lt count none h = ground (arith, h)
clamped-lt count (some row) h = ground (arith, h)

scrolled_lem :
    (row scroll : ℕ) → (scrolled row scroll ≤ row) × (row < scrolled row scroll + max_visible_items)
unfolding scrolled
scrolled_lem row scroll = (ground arith, ground arith)

-- The items do not depend on the selection.
item_count_same :
    (d : Dialog) (selected : Option ℕ) (scroll : ℕ)
    → dialog_compat_item_count (record d { selected = selected; scroll = scroll })
      ≡ dialog_compat_item_count d
unfolding dialog_compat_item_count
item_count_same d selected scroll = refl

normalize-IsNormal : (d : Dialog) → IsNormal (dialog_compat_normalize_selection d)
unfolding dialog_compat_normalize_selection
normalize-IsNormal d =
    let count : ℕ = dialog_compat_item_count d in
    let row : ℕ = clamped count d.selected in
    if-cases IsNormal (count == 0) _ _ (λ t. item_count_same d none 0 ∙ ground (arith, t))
      λ t.
        let low : row < count = clamped-lt count d.selected (ground (arith, t)) in
        let same = item_count_same d (some row) (scrolled row d.scroll) in
        let seen = scrolled_lem row d.scroll in (omega (arith, low, same), seen.0, seen.1)

normalize-input :
    (d : Dialog)
    → let n = dialog_compat_normalize_selection d in
      (n.input ≡ d.input) × (n.input_len ≡ d.input_len)
unfolding dialog_compat_normalize_selection
normalize-input d =
    if-cases (λ (n : Dialog). (n.input ≡ d.input) × (n.input_len ≡ d.input_len))
      (dialog_compat_item_count d == 0) _ _ (λ t. (refl, refl)) (λ t. (refl, refl))

normalize-IsDialog :
    (d : Dialog)
    → length d.input ≡ d.input_len
    → d.input_len ≤ input_chars
    → IsDialog (dialog_compat_normalize_selection d)
normalize-IsDialog d size bound =
    let same = normalize-input d in
    record {
      choice = λ on. normalize-IsNormal d;
      size = ap length same.0 ∙ size ∙ sym same.1;
      bound = omega (arith, same.1, bound);
    }

close-IsDialog : (d : Dialog) → IsDialog (dialog_compat_close d)
unfolding dialog_compat_close
close-IsDialog d = record { choice = λ on. absurd cc; size = refl; bound = omega arith }

filled-input :
    (s : Snapshot) (d : Dialog)
    → ((filled s d).input ≡ d.input) × ((filled s d).input_len ≡ d.input_len)
unfolding filled
filled-input s d = (refl, refl)

reset_choice-input :
    (s : Snapshot) (d : Dialog)
    → ((reset_choice s d).input ≡ []) × ((reset_choice s d).input_len ≡ 0)
unfolding reset_choice
reset_choice-input s d = (refl, refl)

pub update-IsDialog :
    (s : Snapshot) (d : Dialog) (input : Input)
    → IsDialog d
    → IsDialog (dialog_compat_update_from_snapshot s (d, input)).0
unfolding dialog_compat_update_from_snapshot
update-IsDialog s d input v =
    if-cases (λ (r : Dialog × Input). IsDialog r.0) (not s.dialog_flag) _ _ (λ t. close-IsDialog d)
      λ t.
        if-cases (λ (r : Dialog × Input). IsDialog r.0) (is_new s d) _ _
          (λ u.
            let r = reset_choice-input s (filled s d) in
            normalize-IsDialog (reset_choice s (filled s d)) (ap length r.0 ∙ sym r.1)
              (omega (arith, r.1)))
          (λ u.
            let r = filled-input s d in
            normalize-IsDialog (filled s d) (ap length r.0 ∙ v.size ∙ sym r.1)
              (omega (arith, r.1, v.bound)))

pub move_selection-IsDialog :
    (up : Bool) (n : ℕ) (d : Dialog) → IsDialog d → IsDialog (dialog_compat_move_selection up n d)
unfolding dialog_compat_move_selection
move_selection-IsDialog up n d v =
    if-cases IsDialog (dialog_compat_item_count d == 0) _ _ (λ t. v)
      (λ t.
        normalize-IsDialog
          (record d {
            selected = some (clamped (dialog_compat_item_count d) (some (moved up n d.selected)));
          })
          v.size v.bound)

pub select_row-IsDialog : (row : ℕ) (d : Dialog) → IsDialog d → IsDialog (select_row row d)
unfolding select_row
select_row-IsDialog row d v =
    if-cases IsDialog (leb (dialog_compat_item_count d) (d.scroll + row)) _ _ (λ t. v)
      (λ t. normalize-IsDialog (record d { selected = some (d.scroll + row) }) v.size v.bound)

input_same :
    (d : Dialog) (input : List ℕ) (len : ℕ)
    → dialog_compat_item_count (record d { input = input; input_len = len })
      ≡ dialog_compat_item_count d
unfolding dialog_compat_item_count
input_same d input len = refl

-- The typed text changes neither the items nor the selection.
typed-IsDialog :
    (d : Dialog) (input : List ℕ)
    → IsDialog d
    → length input ≤ input_chars
    → IsDialog (record d { input = input; input_len = length input })
typed-IsDialog d input v low = record {
  choice = λ on.
      subst (IsChoice d.selected d.scroll) (sym (input_same d input (length input))) (v.choice on);
  size = refl;
  bound = low;
}

pub append-IsDialog :
    (ch : ℕ) (d : Dialog) → IsDialog d → IsDialog (dialog_compat_append_input_char ch d)
unfolding dialog_compat_append_input_char
append-IsDialog ch d v =
    if-cases IsDialog (leb input_chars d.input_len) _ _ (λ t. v)
      λ t.
        let text : List ℕ = take d.input_len d.input ++ (ch ∷ []) in
        let grown : length text ≡ d.input_len + 1 = omega (
          arith,
          length-append (take d.input_len d.input) (ch ∷ []),
          length-take d.input_len d.input,
          v.size,
        ) in
        subst (λ (n : ℕ). IsDialog (record d { input = text; input_len = n })) grown
          (typed-IsDialog d text v (ground (arith, grown, t)))

pub backspace-IsDialog : (d : Dialog) → IsDialog d → IsDialog (dialog_compat_backspace_input d)
unfolding dialog_compat_backspace_input
backspace-IsDialog d v =
    if-cases IsDialog (d.input_len == 0) _ _ (λ t. v)
      λ t.
        let text : List ℕ = take (d.input_len - 1) d.input in
        let less : length text ≡ d.input_len - 1 =
          omega (arith, length-take (d.input_len - 1) d.input, v.size) in
        subst (λ (n : ℕ). IsDialog (record d { input = text; input_len = n })) less
          (typed-IsDialog d text v (omega (arith, less, v.bound)))

pub submit-IsDialog :
    (client : Response → Bool) (button : ℕ) (d : Dialog)
    → IsDialog d
    → IsDialog (dialog_compat_submit client button d)
unfolding dialog_compat_submit
submit-IsDialog client button d v = by_response (response_of button d)
  where
    by_response :
        (o : Option Response)
        → IsDialog (elim o [
          | none ↦ d
          | some response ↦
              if client response
              then dialog_compat_close (record d { response_count = d.response_count + 1 })
              else d
        ])
    by_response none = v
    by_response (some response) =
        if-cases IsDialog (client response) _ _
          (λ t. close-IsDialog (record d { response_count = d.response_count + 1 })) (λ t. v)
