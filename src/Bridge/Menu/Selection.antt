-- ===== src/Bridge/Menu/Selection.antt =====
-- The selected row of a menu is one that can be selected.
use libsamp.Common.{
  ℕ, zero, suc, ◌+◌, ◌≤◌, ◌≡◌, refl, subst, inl, inr, arith, Bool, true, false, ◌||◌, not, Option,
  none, some, List, [], ◌∷◌, ltb, ◌==◌, if-cases, Bool-cases,
}
use libsamp.Bridge.ChatInput.{Input}
use libsamp.Bridge.Menu.{
  MenuState, Snapshot, Overlay, menu_compat_row_count, menu_compat_row_selectable, selectable_from,
  menu_compat_first_selectable, is_shown, hidden, shown, menu_compat_update_from_snapshot, next_row,
  try_rows, start_row, or_selected, menu_compat_move_selection, selected_selectable, close_if,
  menu_compat_submit, menu_compat_quit,
}

-- A row that can be selected, or none where no row can.
abbrev pub IsChoice : MenuState → Option ℕ → Type 0
IsChoice menu none = (row : ℕ) → menu_compat_row_selectable menu row ≡ false
IsChoice menu (some row) = menu_compat_row_selectable menu row ≡ true

-- While a menu is shown, its selected row is a choice.
abbrev pub IsValid : Overlay → Type 0
IsValid o = o.active ≡ true → IsChoice o.menu o.selected

past_end :
    (menu : MenuState) (row : ℕ)
    → menu_compat_row_count menu ≤ row
    → menu_compat_row_selectable menu row ≡ false
unfolding menu_compat_row_selectable
past_end menu row h =
    let e : ltb row (menu_compat_row_count menu) ≡ false = ground (arith, h) in rw e refl

-- What the loop over the rows finds: nothing only if no row from `row` on can be selected.
abbrev Finds : MenuState → ℕ → Option ℕ → Type 0
Finds menu row none = (r : ℕ) → row ≤ r → menu_compat_row_selectable menu r ≡ false
Finds menu row (some r) = menu_compat_row_selectable menu r ≡ true

selectable_from-Finds :
    (menu : MenuState) (row left : ℕ)
    → row + left ≡ menu_compat_row_count menu
    → Finds menu row (selectable_from menu row left)
unfolding selectable_from
selectable_from-Finds menu row zero e = λ r h. past_end menu r (omega (arith, e, h))
selectable_from-Finds menu row (suc left) e =
    if-cases (Finds menu row) (menu_compat_row_selectable menu row) _ _ (λ t. t)
      λ t.
        further (selectable_from menu (row + 1) left) t
          (selectable_from-Finds menu (row + 1) left (omega (arith, e)))
  where
    further :
        (o : Option ℕ)
        → menu_compat_row_selectable menu row ≡ false
        → Finds menu (row + 1) o
        → Finds menu row o
    further (some r) t f = f
    further none t f = λ r h. elim (Bool-cases (row == r)) [
      | inl same ↦
          let e : row ≡ r = ground (arith, same) in
          subst (λ (k : ℕ). menu_compat_row_selectable menu k ≡ false) e t
      | inr other ↦ f r (ground (arith, h, other))
    ]

first_selectable-IsChoice : (menu : MenuState) → IsChoice menu (menu_compat_first_selectable menu)
unfolding menu_compat_first_selectable
first_selectable-IsChoice menu =
    as_choice (selectable_from menu 0 (menu_compat_row_count menu))
      (selectable_from-Finds menu 0 (menu_compat_row_count menu) (omega arith))
  where
    as_choice : (o : Option ℕ) → Finds menu 0 o → IsChoice menu o
    as_choice none f = λ row. f row (omega arith)
    as_choice (some r) f = f

hidden-IsValid : (snapshot : Option Snapshot) (o : Overlay) → IsValid (hidden snapshot o)
unfolding hidden
hidden-IsValid none o on = absurd cc
hidden-IsValid (some snapshot) o on = absurd cc

shown-IsValid :
    (snapshot : Snapshot) (o : Overlay) (input : Input)
    → IsValid o
    → IsValid (shown snapshot (o, input)).0
unfolding shown
shown-IsValid snapshot o input v =
    if-cases (λ (r : Overlay × Input). IsValid r.0)
      (not (o.event_seq == snapshot.menu_event_seq)
        || not o.active
        || not (o.menu.menu_id == snapshot.menu.menu_id))
      _ _ (λ t on. first_selectable-IsChoice snapshot.menu) (λ t on. v (ground (arith, t)))

try_rows-selectable :
    (up : Bool) (menu : MenuState) (row left : ℕ) (selected : Option ℕ)
    → IsChoice menu selected
    → IsChoice menu (or_selected (try_rows up menu row left) selected)
unfolding try_rows or_selected
try_rows-selectable up menu row zero selected c = c
try_rows-selectable up menu row (suc left) selected c =
    if-cases (λ (o : Option ℕ). IsChoice menu (or_selected o selected))
      (menu_compat_row_selectable menu (next_row up (menu_compat_row_count menu) row)) _ _ (λ t. t)
      (λ t.
        try_rows-selectable up menu (next_row up (menu_compat_row_count menu) row) left selected c)

move_selection-IsValid :
    (up : Bool) (o : Overlay) → IsValid o → IsValid (menu_compat_move_selection up o)
unfolding menu_compat_move_selection
move_selection-IsValid up o v =
    let rows : ℕ = menu_compat_row_count o.menu in
    if-cases IsValid (rows == 0 || not o.menu.interaction_enabled) _ _ (λ t. v)
      (λ t on. try_rows-selectable up o.menu (start_row up rows o.selected) rows o.selected (v on))

close_if-IsValid : (client : Option Bool) (o : Overlay) → IsValid o → IsValid (close_if client o)
unfolding close_if
close_if-IsValid none o v = v
close_if-IsValid (some false) o v = v
close_if-IsValid (some true) o v = λ on. absurd cc

update-IsValid :
    (snapshot : Option Snapshot) (o : Overlay) (input : Input)
    → IsValid o
    → IsValid (menu_compat_update_from_snapshot snapshot (o, input)).0
unfolding menu_compat_update_from_snapshot
update-IsValid none o input v = hidden-IsValid none o
update-IsValid (some snapshot) o input v =
    if-cases (λ (r : Overlay × Input). IsValid r.0) (is_shown (some snapshot)) _ _
      (λ t. shown-IsValid snapshot o input v) (λ t. hidden-IsValid (some snapshot) o)

-- A submit leaves a valid selection, and sends only the row that is selected, of a menu that is
-- shown, and only if it can be selected.
abbrev pub IsSent : Overlay → Option ℕ → Type 0
IsSent o none = Unit
IsSent o (some row) =
    (o.active ≡ true) × (o.selected ≡ some row) × (menu_compat_row_selectable o.menu row ≡ true)

submit-IsValid :
    (client : ℕ → Option Bool) (o : Overlay)
    → IsValid o
    → (let r = menu_compat_submit client o in IsValid r.0 × IsSent o r.1)
unfolding menu_compat_submit selected_selectable
submit-IsValid client o v =
    if-cases (λ (r : Overlay × Option ℕ). IsValid r.0 × IsSent o r.1)
      (not o.active || not (selected_selectable o)) _ _ (λ t. (v, tt))
      λ t. by_row o.selected refl (ground (arith, t)) (ground (arith, t))
  where
    by_row :
        (selected : Option ℕ)
        → o.selected ≡ selected
        → o.active ≡ true
        → (elim selected [ none ↦ false | some row ↦ menu_compat_row_selectable o.menu row ]) ≡ true
        → (let r : Overlay × Option ℕ = elim selected [
          | none ↦ (o, none)
          | some row ↦ (close_if (client row) o, some row)
        ] in
            IsValid r.0 × IsSent o r.1)
    by_row none is on can = (v, tt)
    by_row (some row) is on can = (close_if-IsValid (client row) o v, (on, is, can))

-- What can happen to a menu: a snapshot, a key up or down, a choice, and leaving it. The client
-- answers for the row that is sent, or for leaving.
pub data Event : Type 0 where
  update : Option Snapshot → Event
  move : Bool → Event
  submit : (ℕ → Option Bool) → Event
  quit : Option Bool → Event

unfoldable pub after_event : Event → Overlay × Input → Overlay × Input
after_event (update snapshot) s = menu_compat_update_from_snapshot snapshot s
after_event (move up) s = (menu_compat_move_selection up s.0, s.1)
after_event (submit client) s = ((menu_compat_submit client s.0).0, s.1)
after_event (quit client) s = (menu_compat_quit client s.0, s.1)

unfoldable pub after_events : List Event → Overlay × Input → Overlay × Input
after_events [] s = s
after_events (e ∷ events) s = after_events events (after_event e s)

-- Through any snapshots, keys, choices and departures, whatever the client answers: while a menu
-- is shown, the selected row is one that can be selected, and there is none only if no row can be.
-- What a choice sends is then the selected row.
pub after_events-IsValid :
    (events : List Event) (o : Overlay) (input : Input)
    → IsValid o
    → (let r = (after_events events (o, input)).0 in
        IsValid r × ((client : ℕ → Option Bool) → IsSent r (menu_compat_submit client r).1))
unfolding after_events after_event menu_compat_quit
after_events-IsValid [] o input v = (v, λ client. (submit-IsValid client o v).1)
after_events-IsValid (update snapshot ∷ events) o input v =
    let r : Overlay × Input = menu_compat_update_from_snapshot snapshot (o, input) in
    after_events-IsValid events r.0 r.1 (update-IsValid snapshot o input v)
after_events-IsValid (move up ∷ events) o input v =
    after_events-IsValid events (menu_compat_move_selection up o) input
      (move_selection-IsValid up o v)
after_events-IsValid (submit client ∷ events) o input v =
    after_events-IsValid events (menu_compat_submit client o).0 input (submit-IsValid client o v).0
after_events-IsValid (quit client ∷ events) o input v =
    after_events-IsValid events (menu_compat_quit client o) input
      (if-cases IsValid o.active _ _ (λ t. close_if-IsValid client o v) (λ t. v))
