-- ===== src/ArchiveFs/Hooks.antt =====
-- The import slots of the game that win32_archive_fs.c writes: `write_iat_slot`,
-- `install_iat_hooks` and `restore_iat_hooks`. A hook holds, besides the fields of
-- `samp_iat_hook`, what its slot in the game's memory holds; the six slots are different words.
pub mod Whole
pub mod Back
use libsamp.Common.{
  ℕ, Bool, true, false, not, Option, none, some, List, [], ◌∷◌, ◌==◌, ◌||◌, if◌then◌else◌,
}

-- `samp_iat_hook`. The name is the index of the function, and `slot` says that the pointer to the
-- slot is not NULL.
pub record Hook : Type 0 where
  pub name : ℕ
  pub slot_rva : ℕ
  pub replacement : ℕ
  pub slot : Bool
  pub current : ℕ
  pub original : ℕ
  pub installed : Bool

-- `VirtualProtect` of a slot with the protection that is asked for: the old one, `none` if it
-- fails. `flush` is `FlushInstructionCache`.
pub record Memory (Os : Type 0) : Type 0 where
  pub virtual_protect : ℕ → ℕ → Os → Option ℕ × Os
  pub flush : ℕ → Os → Os

abbrev pub page_readwrite : ℕ
page_readwrite = 4

module _ {Os : Type 0} (memory : Memory Os) where
  -- The write of a slot that may be written, whose old protection is put back; that this may fail
  -- changes nothing.
  unfoldable pub store : Hook → ℕ → Option ℕ × Os → Bool × (Hook × Os)
  store h replacement (none, os) = (false, (h, os))
  store h replacement (some old, os) = (
    true,
    (
      record h { current = replacement },
      (memory.virtual_protect h.slot_rva old (memory.flush h.slot_rva os)).1,
    ),
  )

  unfoldable pub write_iat_slot : Hook → ℕ → ℕ → Os → Bool × (Hook × Os)
  write_iat_slot h expected replacement os =
      if not h.slot || not (h.current == expected)
      then (false, (h, os))
      else store h replacement (memory.virtual_protect h.slot_rva page_readwrite os)

  unfoldable pub restore_slot : Hook → Os → Hook × Os
  restore_slot h os =
      let r = (write_iat_slot h h.replacement h.original os).1 in
      if h.installed then (record r.0 { installed = false }, r.1) else (h, os)

  -- The loop from the last hook to the first.
  unfoldable pub restore_iat_hooks : List Hook → Os → List Hook × Os
  restore_iat_hooks [] os = ([], os)
  restore_iat_hooks (h ∷ hooks) os =
      let rest = restore_iat_hooks hooks os in let r = restore_slot h rest.1 in (r.0 ∷ rest.0, r.1)

  -- The loop that installs, up to the first hook that fails.
  unfoldable pub install_slots : List Hook → Os → Bool × (List Hook × Os)
  install_slots [] os = (true, ([], os))
  install_slots (h ∷ hooks) os =
      let r = write_iat_slot h h.original h.replacement os in
      let rest = install_slots hooks r.1.1 in
      if r.0
      then (rest.0, (record (r.1.0) { installed = true } ∷ rest.1.0, rest.1.1))
      else (false, (r.1.0 ∷ hooks, r.1.1))

  unfoldable pub install_iat_hooks : List Hook → Os → Bool × (List Hook × Os)
  install_iat_hooks hooks os =
      let r = install_slots hooks os in
      if r.0 then (true, r.1) else (false, restore_iat_hooks r.1.0 r.1.1)
