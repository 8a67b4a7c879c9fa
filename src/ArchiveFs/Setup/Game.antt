-- ===== src/ArchiveFs/Setup/Game.antt =====
-- `validate_gta_and_iat` of win32_archive_fs.c: the game's headers are the known ones, and its six
-- import slots hold the kernel's functions. `current` of a hook is what its slot holds.
use libsamp.Common.{
  ℕ, ◌-◌, Bool, true, false, ◌&&◌, ◌||◌, Option, none, some, List, [], ◌∷◌, leb, ◌==◌,
  if◌then◌else◌,
}
use libsamp.Common.Int.{pos, negsuc}
use libsamp.Common.Outcome.{done, fail}
use libsamp.ArchiveFs.Hooks.{Hook}
use libsamp.ArchiveFs.Setup.State.{System, NtHeaders, Image, Step}

-- `samp_gta_pe_profile` without its name, which is only traced.
pub record GtaPeProfile : Type 0 where
  pub timestamp : ℕ
  pub file_characteristics : ℕ
  pub dll_characteristics : ℕ

abbrev pub gta_pe_profiles : List GtaPeProfile
gta_pe_profiles =
    record { timestamp = 0x427101CA; file_characteristics = 0x010F; dll_characteristics = 0 }
    ∷ record { timestamp = 0x437101CA; file_characteristics = 0x012F; dll_characteristics = 0x0100 }
    ∷ []

abbrev pub dos_header_bytes : ℕ
dos_header_bytes = 64

abbrev pub nt_headers_bytes : ℕ
nt_headers_bytes = 248

abbrev pub gta_image_size : ℕ
gta_image_size = 0x01177000

unfoldable pub has_profile : NtHeaders → List GtaPeProfile → Bool
has_profile nt [] = false
has_profile nt (p ∷ profiles) =
    (nt.time_date_stamp == p.timestamp
      && nt.characteristics == p.file_characteristics
      && nt.dll_characteristics == p.dll_characteristics)
    || has_profile nt profiles

-- The tests on `nt`.
unfoldable pub accepts_nt : NtHeaders → Bool
accepts_nt nt =
    nt.signature == 0x00004550
    && nt.machine == 0x014C
    && nt.magic == 0x010B
    && nt.entry_point == 0x00424570
    && nt.size_of_image == gta_image_size
    && nt.check_sum == 0x00DC5BEA
    && has_profile nt gta_pe_profiles

-- The tests on `dos`, and those on the headers that it points to.
unfoldable pub accepts_image : Image → Bool
accepts_image image = elim image.e_lfanew [
  | negsuc n ↦ false
  | pos n ↦
      image.e_magic == 0x5A4D
      && leb dos_header_bytes n
      && leb n (gta_image_size - nt_headers_bytes)
      && accepts_nt (image.nt n)
]

unfoldable pub is_expected : Option ℕ → ℕ → Bool
is_expected none original = false
is_expected (some expected) original = original == expected

-- The loop over the hooks, up to the first slot that holds something else.
unfoldable pub check_slots : (ℕ → Option ℕ) → List Hook → Bool × List Hook
check_slots proc_address [] = (true, [])
check_slots proc_address (h ∷ hooks) =
    let h' = record h { slot = true; original = h.current } in
    let rest = check_slots proc_address hooks in
    if is_expected (proc_address h.name) h.current
    then (rest.0, h' ∷ rest.1)
    else (false, h' ∷ hooks)

unfoldable pub validate_gta_and_iat : {Os : Type 0} → System Os → Step Os (Unit {0})
validate_gta_and_iat system s = elim system.game_image [
  | none ↦ (fail, s)
  | some image ↦ elim (accepts_image image) [
    | false ↦ (fail, s)
    | true ↦
        let r = check_slots system.proc_address s.hooks in
        (if r.0 then done tt else fail, record s { hooks = r.1 })
  ]
]
