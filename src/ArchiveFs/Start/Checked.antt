-- ===== src/ArchiveFs/Start/Checked.antt =====
-- The check of the game's import slots by `validate_gta_and_iat` of win32_archive_fs.c.
use libsamp.Common.{
  ℕ, ◌≡◌, refl, ap, arith, Bool, true, false, Option, none, some, List, [], ◌∷◌, if◌then◌else◌,
}
use libsamp.ArchiveFs.Hooks.{Hook}
use libsamp.ArchiveFs.Hooks.Whole.{AreReady, AreUninstalled}
use libsamp.ArchiveFs.Setup.Game.{check_slots, is_expected}
use libsamp.ArchiveFs.Hooks.Back.{Slot, slots_of}

-- Every hook found the kernel's function of its name in its slot.
abbrev pub AreExpected : (ℕ → Option ℕ) → List Hook → Type 0
AreExpected proc_address [] = Unit
AreExpected proc_address (h ∷ hooks) =
    (proc_address h.name ≡ some h.original) × AreExpected proc_address hooks

is_expected-some : (o : Option ℕ) (n : ℕ) → is_expected o n ≡ true → o ≡ some n
unfolding is_expected
is_expected-some none n e = cc
is_expected-some (some m) n e = ap some (ground (arith, e))

-- The check changes no slot and installs nothing; where it succeeds, the hooks are ready.
pub check_slots-keeps :
    (proc_address : ℕ → Option ℕ) (hooks : List Hook)
    → AreUninstalled hooks
    → (let r = check_slots proc_address hooks in
        (slots_of r.1 ≡ slots_of hooks)
        × AreUninstalled r.1
        × (r.0 ≡ true → AreReady r.1 × AreExpected proc_address r.1))
unfolding check_slots
check_slots-keeps proc_address [] off = (refl, tt, λ e. (tt, tt))
check_slots-keeps proc_address (h ∷ hooks) (one, off) =
    let rest = check_slots-keeps proc_address hooks off in
    by_test (is_expected (proc_address h.name) h.current) refl rest
  where
    h' : Hook
    h' = record h { slot = true; original = h.current }

    slot : Slot
    slot = (h.name, h.slot_rva, h.replacement, h.current)

    Kept : List Hook → Bool × List Hook → Type 0
    Kept old r =
        (slots_of r.1 ≡ slots_of old)
        × AreUninstalled r.1
        × (r.0 ≡ true → AreReady r.1 × AreExpected proc_address r.1)

    by_test :
        (b : Bool)
        → is_expected (proc_address h.name) h.current ≡ b
        → Kept hooks (check_slots proc_address hooks)
        → Kept (h ∷ hooks) (
            let rest = check_slots proc_address hooks in
            if b then (rest.0, h' ∷ rest.1) else (false, h' ∷ hooks))
    by_test false e rest = (refl, (one, off), λ never. absurd cc)
    by_test true e (same, rest_off, ready) = (
      ap (λ x. slot ∷ x) same,
      (one, rest_off),
      λ ok.
          let r = ready ok in
          (((refl, one), r.0), (is_expected-some (proc_address h.name) h.current e, r.1)),
    )
