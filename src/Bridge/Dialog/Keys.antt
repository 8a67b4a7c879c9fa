-- ===== src/Bridge/Dialog/Keys.antt =====
-- The keys of a dialog: the branch for a dialog that is shown of `chat_input_wndproc_compat` in
-- runtime_bridge.c.
use libsamp.Common.{ℕ, Bool, true, false, ◌&&◌, ◌||◌, leb, ◌==◌, if◌then◌else◌}
use libsamp.Bridge.Dialog.{
  Dialog, Response, max_visible_items, dialog_compat_uses_list, dialog_compat_uses_input,
  dialog_compat_move_selection, dialog_compat_append_input_char, dialog_compat_backspace_input,
  dialog_compat_submit,
}

abbrev pub vk_back : ℕ
vk_back = 0x08

abbrev pub vk_return : ℕ
vk_return = 0x0D

abbrev pub vk_escape : ℕ
vk_escape = 0x1B

abbrev pub vk_prior : ℕ
vk_prior = 0x21

abbrev pub vk_next : ℕ
vk_next = 0x22

abbrev pub vk_up : ℕ
vk_up = 0x26

abbrev pub vk_down : ℕ
vk_down = 0x28

unfoldable pub on_keydown : (Response → Bool) → ℕ → Dialog → Dialog
on_keydown client key d =
    if key == vk_return
    then dialog_compat_submit client 1 d
    else if key == vk_escape
    then dialog_compat_submit client 0 d
    else if dialog_compat_uses_list d.style && key == vk_up
    then dialog_compat_move_selection true 1 d
    else if dialog_compat_uses_list d.style && key == vk_down
    then dialog_compat_move_selection false 1 d
    else if dialog_compat_uses_list d.style && key == vk_prior
    then dialog_compat_move_selection true max_visible_items d
    else if dialog_compat_uses_list d.style && key == vk_next
    then dialog_compat_move_selection false max_visible_items d
    else if dialog_compat_uses_input d.style && key == vk_back
    then dialog_compat_backspace_input d
    else d

unfoldable pub on_char : (Response → Bool) → ℕ → Dialog → Dialog
on_char client c d =
    if dialog_compat_uses_input d.style
    then if c == 8
      then dialog_compat_backspace_input d
      else if c == 13 || c == 10
      then dialog_compat_submit client 1 d
      else if c == 27
      then dialog_compat_submit client 0 d
      else if leb 32 c && leb c 126
      then dialog_compat_append_input_char c d
      else d
    else d
