-- ===== src/Bridge/Menu.antt =====
-- The menus of runtime_bridge.c: `menu_compat_update_from_snapshot` and the functions around it.
-- The row -1 is `none`. A client that is not NULL is an option of what its sends answer.
pub mod Selection
pub mod Nearest
mod Tests
use libsamp.Common.{
  ℕ, zero, suc, ◌+◌, ◌-◌, Bool, true, false, ◌&&◌, ◌||◌, not, Option, none, some, List, [], ◌∷◌,
  get_or, ltb, leb, ◌==◌, if◌then◌else◌,
}
use libsamp.Bridge.ChatInput.{Input, chat_input_close_compat}

abbrev pub max_items : ℕ
max_items = 12

abbrev pub max_menus : ℕ
max_menus = 128

-- The fields of `samp_raknet_menu_state` that the code below reads.
pub record MenuState : Type 0 where
  pub valid : Bool
  pub menu_id : ℕ
  pub interaction_enabled : Bool
  pub row_enabled : List Bool
  pub item_count0 : ℕ
  pub item_count1 : ℕ

-- The fields of a snapshot that the menus read.
pub record Snapshot : Type 0 where
  pub menu_active : Bool
  pub menu_event_seq : ℕ
  pub menu : MenuState

-- The fields of `g_runtime` that belong to the menus.
pub record Overlay : Type 0 where
  pub active : Bool
  pub event_seq : ℕ
  pub menu : MenuState
  pub selected : Option ℕ

unfoldable pub menu_compat_row_count : MenuState → ℕ
menu_compat_row_count menu =
    let rows =
      if ltb menu.item_count0 menu.item_count1 then menu.item_count1 else menu.item_count0 in
    if ltb max_items rows then max_items else rows

unfoldable pub menu_compat_row_selectable : MenuState → ℕ → Bool
menu_compat_row_selectable menu row =
    ltb row (menu_compat_row_count menu)
    && menu.interaction_enabled
    && get_or menu.row_enabled row false

-- The loop over the rows from `row` on, of which `left` are left.
unfoldable pub selectable_from : MenuState → ℕ → ℕ → Option ℕ
selectable_from menu row zero = none
selectable_from menu row (suc left) =
    let rest = selectable_from menu (row + 1) left in
    if menu_compat_row_selectable menu row then some row else rest

unfoldable pub menu_compat_first_selectable : MenuState → Option ℕ
menu_compat_first_selectable menu = selectable_from menu 0 (menu_compat_row_count menu)

unfoldable pub is_shown : Option Snapshot → Bool
is_shown none = false
is_shown (some snapshot) =
    snapshot.menu_active && snapshot.menu.valid && ltb snapshot.menu.menu_id max_menus

unfoldable pub hidden : Option Snapshot → Overlay → Overlay
hidden none o = record o { active = false }
hidden (some snapshot) o = record o { active = false; event_seq = snapshot.menu_event_seq }

-- The overlay and the chat line, which a new menu closes.
unfoldable pub shown : Snapshot → Overlay × Input → Overlay × Input
shown snapshot (o, input) =
    if not (o.event_seq == snapshot.menu_event_seq)
      || not o.active
      || not (o.menu.menu_id == snapshot.menu.menu_id)
    then (
      record {
        active = true;
        event_seq = snapshot.menu_event_seq;
        menu = snapshot.menu;
        selected = menu_compat_first_selectable snapshot.menu;
      },
      chat_input_close_compat input,
    )
    else (record o { active = true; event_seq = snapshot.menu_event_seq }, input)

unfoldable pub menu_compat_update_from_snapshot :
    Option Snapshot → Overlay × Input → Overlay × Input
menu_compat_update_from_snapshot none (o, input) = (hidden none o, input)
menu_compat_update_from_snapshot (some snapshot) (o, input) =
    if is_shown (some snapshot)
    then shown snapshot (o, input)
    else (hidden (some snapshot) o, input)

-- One row up or down, around the ends. `up` is `delta < 0`.
unfoldable pub next_row : Bool → ℕ → ℕ → ℕ
next_row up rows candidate =
    if up
    then if candidate == 0 then rows - 1 else candidate - 1
    else if leb rows (candidate + 1)
    then 0
    else candidate + 1

-- The loop with `left` rows to try.
unfoldable pub try_rows : Bool → MenuState → ℕ → ℕ → Option ℕ
try_rows up menu candidate zero = none
try_rows up menu candidate (suc left) =
    let row = next_row up (menu_compat_row_count menu) candidate in
    let rest = try_rows up menu row left in
    if menu_compat_row_selectable menu row then some row else rest

-- Where the loop starts.
unfoldable pub start_row : Bool → ℕ → Option ℕ → ℕ
start_row up rows none = if up then 0 else rows - 1
start_row up rows (some selected) =
    if leb rows selected then if up then 0 else rows - 1 else selected

unfoldable pub or_selected : Option ℕ → Option ℕ → Option ℕ
or_selected none selected = selected
or_selected (some row) selected = some row

unfoldable pub menu_compat_move_selection : Bool → Overlay → Overlay
menu_compat_move_selection up o =
    let rows = menu_compat_row_count o.menu in
    if rows == 0 || not o.menu.interaction_enabled then o else record o {
      selected = or_selected (try_rows up o.menu (start_row up rows o.selected) rows) o.selected;
    }

-- The test of `menu_compat_submit` on the selected row.
unfoldable pub selected_selectable : Overlay → Bool
selected_selectable o = elim o.selected [
  | none ↦ false
  | some row ↦ menu_compat_row_selectable o.menu row
]

-- `client` answers whether a send answers 0, and is `none` for NULL.
unfoldable pub close_if : Option Bool → Overlay → Overlay
close_if none o = o
close_if (some false) o = o
close_if (some true) o = record o { active = false }

-- `client` answers for the selected row. The second part is the row that is sent.
unfoldable pub menu_compat_submit : (ℕ → Option Bool) → Overlay → Overlay × Option ℕ
menu_compat_submit client o =
    if not o.active || not (selected_selectable o)
    then (o, none)
    else elim o.selected [ none ↦ (o, none) | some row ↦ (close_if (client row) o, some row) ]

unfoldable pub menu_compat_quit : Option Bool → Overlay → Overlay
menu_compat_quit client o = if o.active then close_if client o else o
