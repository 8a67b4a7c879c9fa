-- ===== src/ArchiveFs/Start/Tests.antt =====
-- The start and the stop of win32_archive_fs.c on that game and archive.
use libsamp.Common.{ℕ, refl, arith, true, false, some, List, [], ◌∷◌, map}
use libsamp.Saa.Layout.{Layout}
use libsamp.ArchiveFs.Table.Empty.{empty_table-IsTable}
use libsamp.ArchiveFs.Hooks.{Hook, install_iat_hooks}
use libsamp.ArchiveFs.Setup.State.{State, Ends}
use libsamp.ArchiveFs.Setup.Load.{load_archive}
use libsamp.ArchiveFs.Setup.Verify.{verify_archive_signature}
use libsamp.ArchiveFs.Start.{samp_archive_fs_win32_start, samp_archive_fs_win32_stop}
use libsamp.ArchiveFs.Hooks.Whole.{IsWhole, install_iat_hooks-IsWhole}
use libsamp.ArchiveFs.Handlers.Views.{IsFs}
use libsamp.ArchiveFs.Handlers.Calls.{Call, get_type, close}
use libsamp.ArchiveFs.Start.Stage.{IsStage, HasBuffer}
use libsamp.ArchiveFs.Start.Reading.{IsLoaded}
use libsamp.ArchiveFs.Start.Loaded.{HasArchive, load_archive-Ends}
use libsamp.ArchiveFs.Start.Verified.{IsSame, HasSignature, verify_archive_signature-Ends}
use libsamp.ArchiveFs.Start.Steps.{IsStarted}
use libsamp.ArchiveFs.Start.Session.{
  after_calls, samp_archive_fs_win32_start-IsStarted, samp_archive_fs_win32_stop-start,
}
use libsamp.ArchiveFs.Start.Left.{IsLeft, IsStopped}
use libsamp.ArchiveFs.Start.Served.{
  disk, length-disk, disk_bytes, test_system, hooks, stopped, saa_path, served_status,
  test_system-IsSystem, stopped-IsStopped, running, started,
}
use libsamp.ArchiveFs.Hooks.Back.{Slot, slots_of, AreBack}

abbrev Back : List Slot → Type 0
Back = AreBack test_system.memory (slots_of hooks)

samp_archive_fs_win32_start-IsStarted_example :
    Ends
      (IsStarted test_system (slots_of hooks))
      (IsStopped Back)
      (samp_archive_fs_win32_start test_system saa_path stopped)
samp_archive_fs_win32_start-IsStarted_example =
    samp_archive_fs_win32_start-IsStarted test_system test_system-IsSystem (slots_of hooks) saa_path
      stopped stopped-IsStopped

-- The game asks for a type and closes a handle in between.
abbrev calls : List Call
calls = get_type 0x44 ∷ close 0x44 ∷ []

samp_archive_fs_win32_stop-start_example :
    IsFs (after_calls test_system calls running).fs
    × IsStopped Back
        (samp_archive_fs_win32_stop test_system (after_calls test_system calls running))
samp_archive_fs_win32_stop-start_example =
    samp_archive_fs_win32_stop-start test_system test_system-IsSystem (slots_of hooks) saa_path
      calls stopped running served_status stopped-IsStopped started

stopped-IsStage : IsStage Back 0 false false stopped
stopped-IsStage = record {
  left = stopped-IsStopped.left;
  valid = record {
    table = empty_table-IsTable;
    main = (omega arith, omega arith);
    script = (omega arith, omega arith);
  };
  main_is = refl;
  script_is = refl;
}

load_archive-Ends_example :
    Ends {A = Unit {0}}
      (λ _ s. HasArchive Back s × IsLoaded test_system (120 ∷ []) stopped s)
      (IsLeft Back 0)
      (load_archive test_system (120 ∷ []) stopped)
load_archive-Ends_example =
    load_archive-Ends test_system test_system-IsSystem Back (120 ∷ []) stopped stopped-IsStage refl

-- The archive in its buffer.
abbrev loaded : State ℕ
loaded = record stopped { archive_data = some disk; archive_size = 6528 }

loaded-HasBuffer : HasBuffer 6528 loaded
loaded-HasBuffer = record { bytes = disk; is = refl; room = length-disk; all = disk_bytes }

abbrev disk_layout : Layout
disk_layout = record {
  header_size = 256;
  entry_offset = 4352;
  signature_offset = 6400;
  signature_size = 128;
  invalid_index = 5;
}

verify_archive_signature-Ends_example :
    Ends {A = Unit {0}}
      (λ _ s. IsSame loaded s × HasSignature test_system disk_layout disk 0)
      (IsSame loaded)
      (verify_archive_signature test_system disk_layout loaded)
verify_archive_signature-Ends_example =
    verify_archive_signature-Ends test_system disk_layout loaded loaded-HasBuffer (omega arith)

ready : List Hook
ready = map (λ (h : Hook). record h { original = h.current; slot = true }) hooks

install_iat_hooks-IsWhole_example :
    IsWhole test_system.memory ready (install_iat_hooks test_system.memory ready 0)
unfolding ready
install_iat_hooks-IsWhole_example = install_iat_hooks-IsWhole test_system.memory ready 0 (
  (refl, refl),
  ((refl, refl), ((refl, refl), ((refl, refl), ((refl, refl), ((refl, refl), tt))))),
)
