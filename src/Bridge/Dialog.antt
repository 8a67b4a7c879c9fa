-- ===== src/Bridge/Dialog.antt =====
-- The dialogs of runtime_bridge.c: `dialog_compat_update_from_snapshot` and the functions around
-- it. The row -1 is `none`. Mouse mode and log flag are left out.
pub mod Lines
pub mod Selection
pub mod Keys
pub mod Answer
mod Tests
use libsamp.Common.{
  ℕ, zero, suc, ◌+◌, ◌-◌, Bool, true, false, ◌&&◌, ◌||◌, not, Option, none, some, List, [], ◌∷◌,
  ◌++◌, take, ltb, leb, ◌==◌, if◌then◌else◌,
}
use libsamp.Bridge.Chat.{is_empty}
use libsamp.Bridge.ChatInput.{Input, chat_input_close_compat}
use libsamp.Bridge.Dialog.Lines.{dialog_compat_get_line, dialog_compat_line_count}

abbrev pub max_visible_items : ℕ
max_visible_items = 8

-- The characters that fit before the NUL.
abbrev pub input_chars : ℕ
input_chars = 255

abbrev title_chars : ℕ
title_chars = 255

abbrev info_chars : ℕ
info_chars = 4095

abbrev button_chars : ℕ
button_chars = 63

-- The fields of `g_runtime` that belong to the dialogs.
pub record Dialog : Type 0 where
  pub active : Bool
  pub id : ℕ
  pub style : ℕ
  pub selected : Option ℕ
  pub scroll : ℕ
  pub input_len : ℕ
  pub input : List ℕ
  pub response_count : ℕ
  pub title : List ℕ
  pub info : List ℕ
  pub button1 : List ℕ
  pub button2 : List ℕ

-- The fields of a snapshot that the dialogs read.
pub record Snapshot : Type 0 where
  pub dialog_flag : Bool
  pub last_dialog_id : ℕ
  pub last_dialog_style : ℕ
  pub dialog_title : List ℕ
  pub dialog_info : List ℕ
  pub dialog_button1 : List ℕ
  pub dialog_button2 : List ℕ

-- The arguments of `samp_raknet_client_queue_dialog_response`. A text of `info_chars` characters
-- has no more lines than a signed 16-bit number counts, so the cast of the row keeps it.
pub record Response : Type 0 where
  pub dialog_id : ℕ
  pub button : ℕ
  pub listitem : Option ℕ
  pub text : List ℕ

unfoldable pub dialog_compat_uses_list : ℕ → Bool
dialog_compat_uses_list style = style == 2 || style == 4 || style == 5

unfoldable pub dialog_compat_uses_input : ℕ → Bool
dialog_compat_uses_input style = style == 1 || style == 3

unfoldable pub dialog_compat_has_header : ℕ → Bool
dialog_compat_has_header style = style == 5

-- The decrement that stops at 0 is `-` on ℕ.
unfoldable pub dialog_compat_item_count : Dialog → ℕ
dialog_compat_item_count d =
    let count = dialog_compat_line_count d.info in
    if dialog_compat_has_header d.style && ltb 0 count then count - 1 else count

unfoldable pub dialog_compat_close : Dialog → Dialog
dialog_compat_close d = record d { active = false; input_len = 0; input = [] }

-- The row brought into the items, of which there are some.
unfoldable pub clamped : ℕ → Option ℕ → ℕ
clamped count none = 0
clamped count (some row) = if leb count row then count - 1 else row

unfoldable pub scrolled : ℕ → ℕ → ℕ
scrolled row scroll =
    let above = if ltb row scroll then row else scroll in
    if leb (above + max_visible_items) row then row + 1 - max_visible_items else above

unfoldable pub dialog_compat_normalize_selection : Dialog → Dialog
dialog_compat_normalize_selection d =
    let count = dialog_compat_item_count d in
    let row = clamped count d.selected in
    if count == 0
    then record d { selected = none; scroll = 0 }
    else record d { selected = some row; scroll = scrolled row d.scroll }

-- `selected + delta`, where a negative sum becomes 0 as in the code.
unfoldable pub moved : Bool → ℕ → Option ℕ → ℕ
moved up n none = if up then 0 else n - 1
moved up n (some row) = if up then row - n else row + n

-- `delta` is `n` or, if `up`, `-n`; it is not 0.
unfoldable pub dialog_compat_move_selection : Bool → ℕ → Dialog → Dialog
dialog_compat_move_selection up n d =
    let count = dialog_compat_item_count d in
    if count == 0
    then d
    else dialog_compat_normalize_selection
        (record d { selected = some (clamped count (some (moved up n d.selected))) })

-- The end of `dialog_compat_select_from_mouse`, for the row of the screen that the mouse is on.
unfoldable pub select_row : ℕ → Dialog → Dialog
select_row row d =
    let item = d.scroll + row in
    if leb (dialog_compat_item_count d) item
    then d
    else dialog_compat_normalize_selection (record d { selected = some item })

unfoldable pub dialog_compat_append_input_char : ℕ → Dialog → Dialog
dialog_compat_append_input_char ch d =
    if leb input_chars d.input_len
    then d
    else record d { input = take d.input_len d.input ++ (ch ∷ []); input_len = d.input_len + 1 }

unfoldable pub dialog_compat_backspace_input : Dialog → Dialog
dialog_compat_backspace_input d =
    if d.input_len == 0
    then d
    else record d { input = take (d.input_len - 1) d.input; input_len = d.input_len - 1 }

-- The response that a button gives, if it gives one.
unfoldable pub response_of : ℕ → Dialog → Option Response
response_of button d =
    if not d.active || leb 65536 d.id
    then none
    else if not (button == 0) && dialog_compat_uses_list d.style
    then elim d.selected [
      | none ↦ none
      | some row ↦
          elim (dialog_compat_get_line d.info
            (row + (if dialog_compat_has_header d.style then 1 else 0)) input_chars) [
              | none ↦ none
              | some line ↦
                  some
                    (record { dialog_id = d.id; button = button; listitem = some row; text = line })
            ]
    ]
    else if not (button == 0) && dialog_compat_uses_input d.style
    then some (record {
      dialog_id = d.id;
      button = button;
      listitem = none;
      text = take input_chars d.input;
    })
    else some (record { dialog_id = d.id; button = button; listitem = none; text = [] })

-- `client` answers whether the response is queued, that is 0; no client queues none.
unfoldable pub dialog_compat_submit : (Response → Bool) → ℕ → Dialog → Dialog
dialog_compat_submit client button d = elim (response_of button d) [
  | none ↦ d
  | some response ↦
      if client response
      then dialog_compat_close (record d { response_count = d.response_count + 1 })
      else d
]

-- "SA-MP Dialog"
abbrev default_title : List ℕ
default_title = 83 ∷ 65 ∷ 45 ∷ 77 ∷ 80 ∷ 32 ∷ 68 ∷ 105 ∷ 97 ∷ 108 ∷ 111 ∷ 103 ∷ []

abbrev or_default : List ℕ → List ℕ → List ℕ
or_default text default_text = if is_empty text then default_text else text

-- The fields that are copied.
unfoldable pub filled : Snapshot → Dialog → Dialog
filled s d = record d {
  active = true;
  id = s.last_dialog_id;
  style = s.last_dialog_style;
  title = or_default (take title_chars s.dialog_title) default_title;
  info = take info_chars s.dialog_info;
  button1 = or_default (take button_chars s.dialog_button1) (79 ∷ 75 ∷ []);
  button2 = take button_chars s.dialog_button2;
}

unfoldable pub reset_choice : Snapshot → Dialog → Dialog
reset_choice s d = record d {
  selected = if dialog_compat_uses_list s.last_dialog_style then some 0 else none;
  scroll = 0;
  input_len = 0;
  input = [];
}

unfoldable pub is_new : Snapshot → Dialog → Bool
is_new s d = not d.active || not (d.id == s.last_dialog_id)

-- The dialog and the chat line, which a new dialog closes. A snapshot that is NULL counts as one
-- without the flag.
unfoldable pub dialog_compat_update_from_snapshot : Snapshot → Dialog × Input → Dialog × Input
dialog_compat_update_from_snapshot s (d, input) =
    if not s.dialog_flag
    then (dialog_compat_close d, input)
    else if is_new s d
    then (
      dialog_compat_normalize_selection (reset_choice s (filled s d)),
      chat_input_close_compat input,
    )
    else (dialog_compat_normalize_selection (filled s d), input)
