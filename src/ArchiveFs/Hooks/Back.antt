-- ===== src/ArchiveFs/Hooks/Back.antt =====
-- The import slots of win32_archive_fs.c, and that they hold what they held.
use libsamp.Common.{ℕ, ◌≡◌, ◌⊎◌, sym, ap, ◌∙◌, subst, List, [], ◌∷◌, map, inl, inr}
use libsamp.ArchiveFs.Hooks.{Hook, Memory}
use libsamp.ArchiveFs.Hooks.Whole.{IsGranted, IsRefused, IsUndone, AreUndone}

-- A hook's name, the place of its slot, its replacement, and what the slot holds.
abbrev pub Slot : Type 0
Slot = ℕ × ℕ × ℕ × ℕ

abbrev slot_of : Hook → Slot
slot_of h = (h.name, h.slot_rva, h.replacement, h.current)

abbrev pub slots_of : List Hook → List Slot
slots_of hooks = map slot_of hooks

-- The slot with the replacement in it.
abbrev stuck_slot : Slot → Slot
stuck_slot slot = (slot.0, slot.1, slot.2, slot.2)

module _ {Os : Type 0} (memory : Memory Os) where
  -- A slot holds what it held; or its replacement, when `VirtualProtect` let it be written at one
  -- time and refused at another.
  abbrev IsBack : Slot → Slot → Type 0
  IsBack slot now =
      (now ≡ slot) ⊎ ((now ≡ stuck_slot slot) × IsGranted memory slot.1 × IsRefused memory slot.1)

  -- So do all the slots.
  abbrev pub AreBack : List Slot → List Slot → Type 0
  AreBack [] [] = Unit
  AreBack [] (now ∷ rest) = ⊥
  AreBack (slot ∷ slots) [] = ⊥
  AreBack (slot ∷ slots) (now ∷ rest) = IsBack slot now × AreBack slots rest

  undone-IsBack :
      (slot : Slot) (h h' : Hook)
      → IsBack slot (slot_of h)
      → IsUndone memory h h'
      → IsBack slot (slot_of h')
  undone-IsBack slot h h' back (inl e) = subst (λ x. IsBack slot (slot_of x)) (sym e) back
  undone-IsBack slot h h' (inl b) (inr (e, may, refused)) = inr (
    ap slot_of e ∙ ap stuck_slot b,
    subst (IsGranted memory) (ap (λ (s : Slot). s.1) b) may,
    subst (IsRefused memory) (ap (λ (s : Slot). s.1) b) refused,
  )
  undone-IsBack slot h h' (inr (b, may, refused)) (inr (e, _, _)) =
      inr (ap slot_of e ∙ ap stuck_slot b, may, refused)

  -- Hooks that are undone leave slots as they were before.
  pub undone-AreBack :
      (slots : List Slot) (hooks hooks' : List Hook)
      → AreBack slots (slots_of hooks)
      → AreUndone memory hooks hooks'
      → AreBack slots (slots_of hooks')
  undone-AreBack [] [] [] back u = tt
  undone-AreBack [] [] (h' ∷ hooks') back u = absurd u
  undone-AreBack [] (h ∷ hooks) hooks' back u = absurd back
  undone-AreBack (slot ∷ slots) [] hooks' back u = absurd back
  undone-AreBack (slot ∷ slots) (h ∷ hooks) [] back u = absurd u
  undone-AreBack (slot ∷ slots) (h ∷ hooks) (h' ∷ hooks') (one, back) (e, u) =
      (undone-IsBack slot h h' one e, undone-AreBack slots hooks hooks' back u)
