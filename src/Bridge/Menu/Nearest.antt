-- ===== src/Bridge/Menu/Nearest.antt =====
-- Where the selection of a menu moves.
use libsamp.Common.{
  ℕ, zero, suc, ◌+◌, ◌-◌, ◌<◌, ◌≤◌, ◌≡◌, ◌≢◌, refl, sym, ap, subst, ◌∙◌, arith, Bool, true, false,
  ◌||◌, not, Option, none, some, ltb, leb, ◌==◌, if◌then◌else◌, if-cases,
}
use libsamp.Bridge.Menu.{
  MenuState, Overlay, menu_compat_row_count, menu_compat_row_selectable, next_row, try_rows,
  start_row, or_selected, menu_compat_move_selection,
}

-- The rows that the loop visits, one after the other.
unfoldable pub nth_row : Bool → ℕ → ℕ → ℕ → ℕ
nth_row up rows zero row = row
nth_row up rows (suc n) row = nth_row up rows n (next_row up rows row)

-- What the loop answers: the first of the rows visited that can be selected.
abbrev IsFirst : Bool → MenuState → ℕ → ℕ → Option ℕ → Type 0
IsFirst up menu row left none =
    (j : ℕ)
    → j < left
    → menu_compat_row_selectable menu (nth_row up (menu_compat_row_count menu) (suc j) row) ≡ false
IsFirst up menu row left (some r) =
    (k : ℕ) × (k < left)
    × (r ≡ nth_row up (menu_compat_row_count menu) (suc k) row)
    × (menu_compat_row_selectable menu r ≡ true)
    × ((j : ℕ)
        → j < k
        → menu_compat_row_selectable menu (nth_row up (menu_compat_row_count menu) (suc j) row)
          ≡ false)

-- The row `n` rows above or below a row, from the other end on where the menu ends.
abbrev pub row_at : Bool → ℕ → ℕ → ℕ → ℕ
row_at true rows n row = if leb n row then row - n else row + rows - n
row_at false rows n row = if ltb (row + n) rows then row + n else row + n - rows

-- The nearest row above or below that can be selected, at a distance from 1 to all the rows.
abbrev pub IsNearest : Bool → MenuState → ℕ → Option ℕ → Type 0
IsNearest up menu row none = ⊥
IsNearest up menu row (some r) =
    let rows = menu_compat_row_count menu in
    (k : ℕ) × (0 < k)
    × (k ≤ rows)
    × (r ≡ row_at up rows k row)
    × (menu_compat_row_selectable menu r ≡ true)
    × ((j : ℕ) → 0 < j → j < k → menu_compat_row_selectable menu (row_at up rows j row) ≡ false)

-- One row more that cannot be selected.
visited :
    (up : Bool) (menu : MenuState) (row n : ℕ)
    → menu_compat_row_selectable menu (next_row up (menu_compat_row_count menu) row) ≡ false
    → ((j : ℕ)
        → j < n
        → menu_compat_row_selectable menu (
            nth_row up
              (menu_compat_row_count menu)
              (suc j)
              (next_row up (menu_compat_row_count menu) row))
          ≡ false)
    → (j : ℕ) → j < suc n
    → menu_compat_row_selectable menu (nth_row up (menu_compat_row_count menu) (suc j) row) ≡ false
unfolding nth_row
visited up menu row n t f zero h = t
visited up menu row n t f (suc j) h = f j (omega (arith, h))

try_rows-IsFirst :
    (up : Bool) (menu : MenuState) (row left : ℕ)
    → IsFirst up menu row left (try_rows up menu row left)
unfolding try_rows nth_row
try_rows-IsFirst up menu row zero = λ j h. absurd (omega (arith, h))
try_rows-IsFirst up menu row (suc left) =
    let rows : ℕ = menu_compat_row_count menu in
    let next : ℕ = next_row up rows row in
    if-cases (IsFirst up menu row (suc left)) (menu_compat_row_selectable menu next) _ _
      (λ t. (0, omega arith, refl, t, λ j h. absurd (omega (arith, h))))
      λ t. later (try_rows up menu next left) t (try_rows-IsFirst up menu next left)
  where
    later :
        (o : Option ℕ)
        → menu_compat_row_selectable menu (next_row up (menu_compat_row_count menu) row) ≡ false
        → IsFirst up menu (next_row up (menu_compat_row_count menu) row) left o
        → IsFirst up menu row (suc left) o
    later none t f = visited up menu row left t f
    later (some r) t (k, low, is, can, before) =
        (suc k, omega (arith, low), is, can, visited up menu row k t before)

-- Where the loop is after `n` rows, which is where it began after as many as there are.
nth_row-lt :
    (up : Bool) (rows n row : ℕ)
    → row < rows
    → n ≤ rows
    → nth_row up rows n row ≡ row_at up rows n row
unfolding nth_row next_row
nth_row-lt true rows zero row h low = ground (arith, h)
nth_row-lt false rows zero row h low = ground (arith, h)
nth_row-lt true rows (suc n) row h low =
    let next : ℕ = next_row true rows row in
    let next_low : next < rows = ground (arith, h) in
    let ih = nth_row-lt true rows n next next_low (omega (arith, low)) in ground (arith, ih, h, low)
nth_row-lt false rows (suc n) row h low =
    let next : ℕ = next_row false rows row in
    let next_low : next < rows = ground (arith, h) in
    let ih = nth_row-lt false rows n next next_low (omega (arith, low)) in
    ground (arith, ih, h, low)

round_trip : (up : Bool) (rows row : ℕ) → row < rows → nth_row up rows rows row ≡ row
round_trip true rows row h =
    let e = nth_row-lt true rows rows row h (omega arith) in ground (arith, e, h)
round_trip false rows row h =
    let e = nth_row-lt false rows rows row h (omega arith) in ground (arith, e, h)

row_low :
    (menu : MenuState) (row : ℕ)
    → menu_compat_row_selectable menu row ≡ true
    → (row < menu_compat_row_count menu) × (menu.interaction_enabled ≡ true)
unfolding menu_compat_row_selectable
row_low menu row h = (ground (arith, h), ground (arith, h))

IsFirst-found :
    (up : Bool) (menu : MenuState) (row : ℕ) (o : Option ℕ)
    → menu_compat_row_selectable menu row ≡ true
    → IsFirst up menu row (menu_compat_row_count menu) o
    → IsFirst up menu row (menu_compat_row_count menu) (or_selected o (some row))
unfolding or_selected
IsFirst-found up menu row (some r) can f = f
IsFirst-found up menu row none can f =
    let rows : ℕ = menu_compat_row_count menu in
    let low : row < rows = (row_low menu row can).0 in
    let last : suc (rows - 1) ≡ rows = omega (arith, low) in
    let again : nth_row up rows (suc (rows - 1)) row ≡ row =
      ap (λ (n : ℕ). nth_row up rows n row) last ∙ round_trip up rows row low in
    let never : menu_compat_row_selectable menu row ≡ false =
      subst (λ (r : ℕ). menu_compat_row_selectable menu r ≡ false) again
        (f (rows - 1) (omega (arith, low))) in
    absurd cc

start_row_lem : (up : Bool) (rows row : ℕ) → row < rows → start_row up rows (some row) ≡ row
unfolding start_row
start_row_lem up rows row h = let e : leb rows row ≡ false = ground (arith, h) in rw e refl

or_selected-some : (o : Option ℕ) (row : ℕ) → or_selected o (some row) ≢ none
unfolding or_selected
or_selected-some none row = λ e. cc
or_selected-some (some r) row = λ e. cc

-- The row that the loop finds from a row of the menu on.
first-IsNearest :
    (up : Bool) (menu : MenuState) (row : ℕ) (o : Option ℕ)
    → menu_compat_row_selectable menu row ≡ true
    → IsFirst up menu row (menu_compat_row_count menu) o
    → IsNearest up menu row (or_selected o (some row))
first-IsNearest up menu row o can f =
    by_row (or_selected o (some row)) (or_selected-some o row) (IsFirst-found up menu row o can f)
  where
    rows : ℕ
    rows = menu_compat_row_count menu

    low : row < rows
    low = (row_low menu row can).0

    by_row : (r : Option ℕ) → r ≢ none → IsFirst up menu row rows r → IsNearest up menu row r
    by_row none is f = absurd (is refl)
    by_row (some r) is (k, left, at, here, before) = (
      suc k,
      omega arith,
      omega (arith, left),
      at ∙ nth_row-lt up rows (suc k) row low (omega (arith, left)),
      here,
      λ j from to. before_row j from to,
    )
      where
        before_row :
            (j : ℕ)
            → 0 < j
            → j < suc k
            → menu_compat_row_selectable menu (row_at up rows j row) ≡ false
        before_row zero from to = absurd (omega (arith, from))
        before_row (suc j) from to =
            subst (λ (n : ℕ). menu_compat_row_selectable menu n ≡ false)
              (nth_row-lt up rows (suc j) row low (omega (arith, left, to)))
              (before j (omega (arith, to)))

-- A key up or down moves the selection from a row that can be selected to the nearest row above or
-- below that can be, around the end of the menu: at a distance of at most all the rows, so to the
-- same row only where no other can be selected.
pub move_selection-IsNearest :
    (up : Bool) (o : Overlay) (row : ℕ)
    → o.selected ≡ some row
    → menu_compat_row_selectable o.menu row ≡ true
    → IsNearest up o.menu row (menu_compat_move_selection up o).selected
unfolding menu_compat_move_selection start_row
move_selection-IsNearest up o row is can =
    let rows : ℕ = menu_compat_row_count o.menu in
    let within = row_low o.menu row can in
    if-cases (λ (x : Overlay). IsNearest up o.menu row x.selected)
      (rows == 0 || not o.menu.interaction_enabled) _ _ (λ t. absurd (ground (arith, t, within)))
      λ t.
        let start : start_row up rows o.selected ≡ row =
          ap (start_row up rows) is ∙ start_row_lem up rows row within.0 in
        let found : or_selected (try_rows up o.menu (start_row up rows o.selected) rows) o.selected
            ≡ or_selected (try_rows up o.menu row rows) (some row) =
          ap (λ (n : ℕ). or_selected (try_rows up o.menu n rows) o.selected) start
          ∙ ap (or_selected (try_rows up o.menu row rows)) is in
        subst (IsNearest up o.menu row) (sym found) (
          first-IsNearest up o.menu row (try_rows up o.menu row rows) can
            (try_rows-IsFirst up o.menu row rows))
