-- ===== src/Bridge/Menu/Tests.antt =====
-- The menus on concrete rows.
use libsamp.Common.{ℕ, ◌≡◌, refl, Bool, true, false, Option, none, some, List, [], ◌∷◌}
use libsamp.Bridge.ChatInput.{Input}
use libsamp.Bridge.Menu.{
  MenuState, Overlay, menu_compat_row_count, menu_compat_row_selectable, menu_compat_move_selection,
  menu_compat_submit,
}
use libsamp.Bridge.Menu.Selection.{
  IsValid, IsSent, Event, update, move, submit, quit, after_events, after_events-IsValid,
}
use libsamp.Bridge.Menu.Nearest.{IsNearest, move_selection-IsNearest}

-- Four rows, of which the first and the last can be selected.
abbrev four_rows : MenuState
four_rows = record {
  valid = true;
  menu_id = 7;
  interaction_enabled = true;
  row_enabled = true ∷ false ∷ false ∷ true ∷ [];
  item_count0 = 3;
  item_count1 = 4;
}

abbrev no_menu : MenuState
no_menu = record {
  valid = false;
  menu_id = 0;
  interaction_enabled = false;
  row_enabled = [];
  item_count0 = 0;
  item_count1 = 0;
}

abbrev at_first : Overlay
at_first = record { active = true; event_seq = 1; menu = four_rows; selected = some 0 }

abbrev nothing_shown : Overlay
nothing_shown = record { active = false; event_seq = 0; menu = no_menu; selected = none }

abbrev closed_line : Input
closed_line = record {
  active = false;
  buffer = [];
  len = 0;
  history = [];
  history_count = 0;
  history_index = none;
  recall_saved = [];
}

abbrev pressed : List Event
pressed =
    update (some (record { menu_active = true; menu_event_seq = 1; menu = four_rows }))
    ∷ move false
    ∷ submit (λ row. some false)
    ∷ move true
    ∷ quit (some true)
    ∷ update none
    ∷ []

nothing_shown-IsValid : IsValid nothing_shown
nothing_shown-IsValid on = absurd cc

after_events-IsValid_example :
    (let r = (after_events pressed (nothing_shown, closed_line)).0 in
      IsValid r × ((client : ℕ → Option Bool) → IsSent r (menu_compat_submit client r).1))
after_events-IsValid_example =
    after_events-IsValid pressed nothing_shown closed_line nothing_shown-IsValid

first_row : menu_compat_row_selectable four_rows 0 ≡ true
unfolding menu_compat_row_selectable menu_compat_row_count
first_row = refl

move_selection-IsNearest_example :
    IsNearest true four_rows 0 (menu_compat_move_selection true at_first).selected
move_selection-IsNearest_example = move_selection-IsNearest true at_first 0 refl first_row
