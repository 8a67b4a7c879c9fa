-- ===== src/ArchiveFs/Start.antt =====
-- `extract_required_file`, `free_archive_data`, `samp_archive_fs_win32_start` and
-- `samp_archive_fs_win32_stop` of win32_archive_fs.c. The calls of the system are those of a
-- `System`; what is traced is left out.
pub mod Left
pub mod Stage
pub mod Reading
pub mod Filled
pub mod Loaded
pub mod Verified
pub mod Extracted
pub mod Prepared
pub mod Checked
pub mod Steps
pub mod Session
mod Served
mod Tests
use libsamp.Common.{
  ℕ, ◌+◌, ◌-◌, Bool, true, false, ◌&&◌, not, Option, none, some, List, [], ◌∷◌, replicate, get_or,
  leb, ◌==◌, if◌then◌else◌,
}
use libsamp.Common.Outcome.{Outcome, done, fail, fault}
use libsamp.Saa.Layout.{Layout, samp_saa_parse_layout}
use libsamp.Saa.Archive.{Archive, File, samp_saa_open_verified, samp_saa_find, samp_saa_extract}
use libsamp.ArchiveFs.Table.{handle_base, open_records, cleared}
use libsamp.ArchiveFs.Handlers.{Fs, main_hash, script_hash}
use libsamp.ArchiveFs.Hooks.{install_iat_hooks, restore_iat_hooks}
use libsamp.ArchiveFs.Setup.State.{
  State, System, Step, clear_state, and_then, ◌>>=◌, ◌>>◌, answer, require, put,
}
use libsamp.ArchiveFs.Setup.Load.{resolve_kernel_apis, load_archive}
use libsamp.ArchiveFs.Setup.Verify.{verify_archive_signature}
use libsamp.ArchiveFs.Setup.Game.{validate_gta_and_iat}

-- `samp_archive_fs_status` of a start that succeeds; one that fails leaves zeros.
pub record Status : Type 0 where
  pub archive_size : ℕ
  pub signature_size : ℕ
  pub main_size : ℕ
  pub script_size : ℕ
  pub signature_verified : Bool
  pub hooks_installed : Bool

-- The tests on the first bytes of the two files: 02 00 01, and "VER2".
unfoldable pub is_sane : Fs → Bool
is_sane fs =
    leb 3 fs.main_size
    && get_or fs.main_data 0 0 == 0x02
    && get_or fs.main_data 1 0 == 0x00
    && get_or fs.main_data 2 0 == 0x01
    && leb 4 fs.script_size
    && get_or fs.script_data 0 0 == 86
    && get_or fs.script_data 1 0 == 69
    && get_or fs.script_data 2 0 == 82
    && get_or fs.script_data 3 0 == 50

module _ {Os : Type 0} (system : System Os) where
  unfoldable pub free_block : State Os → State Os
  free_block s = record s { os = system.heap_free s.os; held = s.held - 1 }

  unfoldable pub alloc_block : ℕ → Step Os (Unit {0})
  alloc_block size s =
      let r = system.heap_alloc size s.os in
      elim r.0 [
        | none ↦ (fail, record s { os = r.1 })
        | some block ↦ (done tt, record s { os = r.1; held = s.held + 1 })
      ]

  -- A block that was not filled is freed.
  unfoldable pub freeing : {A : Type 0} → Outcome A → Step Os A
  freeing (done a) s = (done a, s)
  freeing fail s = (fail, free_block s)
  freeing fault s = (fault, s)

  unfoldable pub extract_required_file : Archive → ℕ → Step Os (List ℕ × ℕ)
  extract_required_file archive hash = do
    file ← answer (samp_saa_find archive hash)
    require (not (file.size == 0))
    alloc_block file.size
    bytes ← freeing (samp_saa_extract archive file file.size)
    answer (done (bytes, file.size))

  -- What is stored through `out_data` and `out_size`.
  abbrev pub put_main : List ℕ × ℕ → State Os → State Os
  put_main (bytes, size) s = record s {
    fs = record (s.fs) { main_data = bytes; main_size = size };
    main_held = true;
  }

  abbrev pub put_script : List ℕ × ℕ → State Os → State Os
  put_script (bytes, size) s = record s {
    fs = record (s.fs) { script_data = bytes; script_size = size };
    script_held = true;
  }

  abbrev pub set_active : Bool → State Os → State Os
  set_active b s = record s { fs = record (s.fs) { active = b } }

  unfoldable pub install_hooks : Step Os (Unit {0})
  install_hooks s =
      let r = install_iat_hooks system.memory s.hooks s.os in
      (if r.0 then done tt else fail, record s { hooks = r.1.0; os = r.1.1 })

  unfoldable pub restore_hooks : State Os → State Os
  restore_hooks s =
      let r = restore_iat_hooks system.memory s.hooks s.os in record s { hooks = r.0; os = r.1 }

  -- The part of the start that reads the archive.
  unfoldable pub prepare_files : List ℕ → Step Os Layout
  prepare_files path = do
    resolve_kernel_apis system
    load_archive system path
    layout ← λ s. (samp_saa_parse_layout s.archive_data s.archive_size, s)
    verify_archive_signature system layout
    archive ← λ s. (samp_saa_open_verified s.archive_data s.archive_size true, s)
    main ← extract_required_file archive main_hash
    put (put_main main)
    script ← extract_required_file archive script_hash
    put (put_script script)
    λ s. require (is_sane s.fs) s
    answer (done layout)

  unfoldable pub start_steps : List ℕ → Step Os Status
  start_steps path = do
    layout ← prepare_files path
    validate_gta_and_iat system
    put (λ s. record s { record_lock_initialized = true })
    install_hooks
    put (set_active true)
    λ s. (
      done (record {
        archive_size = s.archive_size;
        signature_size = layout.signature_size;
        main_size = s.fs.main_size;
        script_size = s.fs.script_size;
        signature_verified = true;
        hooks_installed = true;
      }),
      s,
    )

  -- Each of the three pointers that is not NULL.
  unfoldable pub free_script : State Os → State Os
  free_script s = elim s.script_held [
    | false ↦ s
    | true ↦ free_block (record s { fs = record (s.fs) { script_data = [] }; script_held = false })
  ]

  unfoldable pub free_main : State Os → State Os
  free_main s = elim s.main_held [
    | false ↦ s
    | true ↦ free_block (record s { fs = record (s.fs) { main_data = [] }; main_held = false })
  ]

  unfoldable pub free_archive : State Os → State Os
  free_archive s = elim s.archive_data [
    | none ↦ s
    | some bytes ↦ free_block (record s { archive_data = none })
  ]

  unfoldable pub free_archive_data : State Os → State Os
  free_archive_data s = free_archive (free_main (free_script s))

  -- From `fail:` on.
  unfoldable pub clean_up : State Os → State Os
  clean_up s =
      free_archive_data
        (record (restore_hooks (set_active false s)) { record_lock_initialized = false })

  unfoldable pub finish : {A : Type 0} → Outcome A × State Os → Outcome A × State Os
  finish (done a, s) = (done a, s)
  finish (fail, s) = (fail, clean_up s)
  finish (fault, s) = (fault, s)

  unfoldable pub samp_archive_fs_win32_start : Option (List ℕ) → Step Os Status
  samp_archive_fs_win32_start none s = (fail, s)
  samp_archive_fs_win32_start (some []) s = (fail, s)
  samp_archive_fs_win32_start (some (c ∷ path)) s = elim s.fs.active [
    | true ↦ (fail, s)
    | false ↦ finish (start_steps (c ∷ path) (clear_state handle_base s))
  ]

  -- The records are cleared where there is a lock.
  unfoldable pub clear_records : State Os → State Os
  clear_records s = elim s.record_lock_initialized [
    | false ↦ s
    | true ↦ record s {
      fs = record (s.fs) {
        table = record (s.fs.table) { records = replicate open_records cleared };
      };
      record_lock_initialized = false;
    }
  ]

  unfoldable pub samp_archive_fs_win32_stop : State Os → State Os
  samp_archive_fs_win32_stop s =
      clear_state 0 (free_archive_data (clear_records (restore_hooks (set_active false s))))
