-- ===== src/ArchiveFs/Setup/Verify.antt =====
-- `verify_archive_signature` of win32_archive_fs.c. What its `cleanup` releases is what was taken,
-- the last first.
use libsamp.Common.{
  ℕ, ◌+◌, ◌-◌, Bool, true, false, ◌&&◌, not, Option, none, some, List, [], ◌∷◌, map, bit_xor, ltb,
  ◌==◌,
}
use libsamp.Common.Outcome.{Outcome, done, fail, fault}
use libsamp.Saa.Bytes.{slice}
use libsamp.Saa.Layout.{Layout}
use libsamp.ArchiveFs.Setup.State.{State, System, Step, ◌>>=◌, ◌>>◌, answer, require, call}

abbrev pub public_key_obfuscated : List ℕ
public_key_obfuscated =
    0xAC ∷ 0xA8 ∷ 0xAA ∷ 0xAA ∷ 0xAA ∷ 0x8E ∷ 0xAA ∷ 0xAA ∷ 0xF8 ∷ 0xF9 ∷ 0xEB ∷ 0x9B ∷ 0xAA ∷ 0xAE
    ∷ 0xAA ∷ 0xAA ∷ 0xAB ∷ 0xAA ∷ 0xAB ∷ 0xAA ∷ 0x45 ∷ 0x7F ∷ 0xED ∷ 0xCD ∷ 0x03 ∷ 0x0A ∷ 0x2A
    ∷ 0x39 ∷ 0xF8 ∷ 0xC1 ∷ 0xCE ∷ 0xB1 ∷ 0x9C ∷ 0xC5 ∷ 0x86 ∷ 0x5A ∷ 0xA2 ∷ 0x1D ∷ 0x0B ∷ 0xBE
    ∷ 0xE4 ∷ 0xF5 ∷ 0xF4 ∷ 0xA6 ∷ 0xE2 ∷ 0x44 ∷ 0x12 ∷ 0x06 ∷ 0xEE ∷ 0x4C ∷ 0xC7 ∷ 0x4A ∷ 0x76
    ∷ 0xB9 ∷ 0xEC ∷ 0xEC ∷ 0x70 ∷ 0xC6 ∷ 0x22 ∷ 0x6A ∷ 0x3C ∷ 0x9F ∷ 0x30 ∷ 0x42 ∷ 0x15 ∷ 0xCB
    ∷ 0x97 ∷ 0x88 ∷ 0xA9 ∷ 0x09 ∷ 0x1A ∷ 0xA2 ∷ 0xE2 ∷ 0x0A ∷ 0x70 ∷ 0x5D ∷ 0xDF ∷ 0x71 ∷ 0x2E
    ∷ 0x1E ∷ 0xFF ∷ 0x73 ∷ 0x13 ∷ 0xB1 ∷ 0xE8 ∷ 0xE5 ∷ 0x93 ∷ 0x9F ∷ 0x74 ∷ 0xF3 ∷ 0x4C ∷ 0xE9
    ∷ 0x98 ∷ 0xA4 ∷ 0x38 ∷ 0xD7 ∷ 0x03 ∷ 0xC5 ∷ 0x88 ∷ 0x14 ∷ 0x8A ∷ 0x59 ∷ 0x30 ∷ 0x55 ∷ 0xEB
    ∷ 0x21 ∷ 0x4F ∷ 0xDB ∷ 0xB5 ∷ 0xFE ∷ 0x11 ∷ 0xEA ∷ 0x7A ∷ 0xBB ∷ 0x2C ∷ 0x94 ∷ 0x30 ∷ 0x9C
    ∷ 0x7D ∷ 0xD8 ∷ 0x40 ∷ 0x29 ∷ 0x6D ∷ 0x4E ∷ 0x1E ∷ 0x1D ∷ 0x35 ∷ 0xBE ∷ 0xA0 ∷ 0x5C ∷ 0x33
    ∷ 0x79 ∷ 0xEC ∷ 0xAC ∷ 0x4C ∷ 0x2D ∷ 0x8C ∷ 0x7C ∷ 0x03 ∷ 0x02 ∷ 0xAA ∷ 0x2F ∷ 0x12 ∷ 0x33
    ∷ 0x03 ∷ 0x5E ∷ 0xC6 ∷ 0x17 ∷ []

abbrev pub public_key : List ℕ
public_key = map (λ b. bit_xor b 0xAA) public_key_obfuscated

-- A read through a pointer.
abbrev pub pointed : Option (List ℕ) → Outcome (List ℕ)
pointed none = fault
pointed (some bytes) = done bytes

unfoldable pub release : {Os A : Type 0} → (Os → Os) → Outcome A × State Os → Outcome A × State Os
release close r = (r.0, record (r.1) { os = close r.1.os; held = r.1.held - 1 })

-- A step between taking an object and releasing it; nothing is released that was not taken.
unfoldable pub bracket : {Os A : Type 0} → (Os → Bool × Os) → (Os → Os) → Step Os A → Step Os A
bracket acquire close body s =
    let r = acquire s.os in
    elim r.0 [
      | false ↦ (fail, record s { os = r.1 })
      | true ↦ release close (body (record s { os = r.1; held = s.held + 1 }))
    ]

module _ {Os : Type 0} (system : System Os) where
  unfoldable pub check_signature : List ℕ → List ℕ → Step Os (Unit {0})
  check_signature signed signature =
      bracket system.crypt.acquire_context system.crypt.release_context (
        bracket system.crypt.create_hash system.crypt.destroy_hash (do
          hashed ← call (system.crypt.hash_data signed)
          require hashed
          bracket (system.crypt.import_key public_key) system.crypt.destroy_key
              (do verified ← call (system.crypt.verify_signature signature); require verified)))

  unfoldable pub verify_archive_signature : Layout → Step Os (Unit {0})
  verify_archive_signature layout s =
      (do
        require (
            layout.signature_size == 128
            && not (ltb layout.signature_offset layout.header_size)
            && not (ltb s.archive_size layout.signature_offset))
        bytes ← answer (pointed s.archive_data)
        signed ←
            answer (slice bytes layout.header_size (layout.signature_offset - layout.header_size))
        signature ← answer (slice bytes layout.signature_offset layout.signature_size)
        check_signature signed signature)
        s
