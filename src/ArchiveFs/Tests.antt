-- ===== src/ArchiveFs/Tests.antt =====
-- The hooks of win32_archive_fs.c on concrete calls: a virtual main.scm of seven bytes.
use libsamp.Common.{
  ℕ, ◌+◌, ◌<◌, ◌≡◌, ◌⊎◌, ◌++◌, refl, arith, true, false, Option, none, some, List, [], ◌∷◌, length,
  replicate, subst, take, drop,
}
use libsamp.Common.Int.{negsuc}
use libsamp.Saa.Hash.{
  hash_mix, hash_bytes, hash_loop, hash_tail, add_tail, mix_third, mix_left, mix_right, to_lower,
  is_separator, samp_saa_hash_filename, samp_saa_hash_path, base_name, until_separator,
}
use libsamp.ArchiveFs.Table.{
  Record, cleared, Table, handle_base, find_record, free_slot, try_handles, next_handle,
  allocate_record, open_records,
}
use libsamp.ArchiveFs.Table.Lookup.{at}
use libsamp.ArchiveFs.Table.Allocate.{IsAllocated, allocate_record_total, fresh_record}
use libsamp.ArchiveFs.Table.Empty.{empty_table, empty_table-IsTable}
use libsamp.ArchiveFs.Handlers.{
  Fs, Kernel, CreateArgs, virtual_record, select_virtual_file, archive_create_file_a,
  archive_read_file, archive_close_handle, error_too_many_open_files,
}
use libsamp.ArchiveFs.Handlers.Views.{IsFs}
use libsamp.ArchiveFs.Handlers.Read.{
  readable, plain, moved, after_error, archive_read_file_lem, archive_read_file-read_file,
}
use libsamp.ArchiveFs.Handlers.Close.{archive_close_handle_lem}
use libsamp.ArchiveFs.Handlers.Calls.{
  Call, create, read, seek, close, after, after_all, archive_create_file_a_lem, after_all-IsFs,
}

-- A kernel that counts its calls and fails them.
abbrev test_kernel : Kernel ℕ
test_kernel = record {
  create_file_a = λ path args os. (0xFFFFFFFF, os + 1);
  read_file = λ h args os. (record { ok = false; copied = []; count = none }, os + 1);
  get_file_size = λ h wants_high os. ((0xFFFFFFFF, none), os + 1);
  set_file_pointer = λ h d high method os. ((0xFFFFFFFF, none), os + 1);
  close_handle = λ h os. (true, os + 1);
  get_file_type = λ h os. (0, os + 1);
}

abbrev main_bytes : List ℕ
main_bytes = 2 ∷ 0 ∷ 1 ∷ 7 ∷ 8 ∷ 9 ∷ 10 ∷ []

abbrev fresh_fs : Fs
fresh_fs = record {
  main_data = main_bytes;
  main_size = 7;
  script_data = [];
  script_size = 0;
  table = empty_table;
  active = true;
  last_error = 0;
  events = [];
}

-- "MAIN.scm"
abbrev main_path : Option (List ℕ)
main_path = some (77 ∷ 65 ∷ 73 ∷ 78 ∷ 46 ∷ 115 ∷ 99 ∷ 109 ∷ [])

abbrev read_only : CreateArgs
read_only = record {
  desired_access = 0x80000000;
  share_mode = 1;
  security_attributes = 0;
  creation_disposition = 3;
  flags_and_attributes = 0x80;
  template_file = 0;
}

fresh_fs-IsFs : IsFs fresh_fs
fresh_fs-IsFs = record {
  table = empty_table-IsTable;
  main = (omega arith, omega arith);
  script = (omega arith, omega arith);
}

-- The state with the file open, at the first handle.
abbrev open_fs : Fs
open_fs = record fresh_fs {
  table = record {
    records = fresh_record handle_base main_bytes 7 ∷ replicate 49 cleared;
    next_fake_handle = handle_base + 2;
  };
}

selects_main : select_virtual_file fresh_fs main_path ≡ some (main_bytes, 7)
unfolding select_virtual_file samp_saa_hash_path base_name until_separator is_separator
    samp_saa_hash_filename hash_bytes hash_loop hash_tail add_tail hash_mix mix_third mix_left
    mix_right to_lower
selects_main = refl

allocates : allocate_record empty_table main_bytes 7 ≡ (some handle_base, open_fs.table)
unfolding allocate_record free_slot try_handles find_record next_handle
allocates = refl

opens_main :
    archive_create_file_a test_kernel main_path read_only (fresh_fs, 0)
    ≡ (handle_base, (open_fs, 0))
unfolding archive_create_file_a
opens_main = ground (arith, selects_main, allocates)

open_fs-IsFs : IsFs open_fs
unfolding after_all after
open_fs-IsFs =
    subst (λ (x : ℕ × (Fs × ℕ)). IsFs x.1.0) opens_main
      (after_all-IsFs test_kernel (create main_path read_only ∷ []) fresh_fs 0 fresh_fs-IsFs)

abbrev main_record : Record
main_record = fresh_record handle_base main_bytes 7

known_main : virtual_record open_fs handle_base ≡ some (0, main_record)
unfolding virtual_record find_record
known_main = refl

allocate_record_total_example :
    (((i : ℕ) → i < open_records → (at empty_table.records i).active ≡ true)
      × (allocate_record empty_table main_bytes 7 ≡ (none, empty_table)))
    ⊎ ((h : ℕ) × (t' : Table) × (allocate_record empty_table main_bytes 7 ≡ (some h, t'))
        × IsAllocated empty_table t' h main_bytes 7)
allocate_record_total_example =
    allocate_record_total empty_table empty_table-IsTable main_bytes 7 (omega arith, omega arith)

archive_create_file_a_lem_example :
    (let x = archive_create_file_a test_kernel main_path read_only (fresh_fs, 0) in
      (((i : ℕ) → i < open_records → (at fresh_fs.table.records i).active ≡ true)
        × (x ≡ (0, (record fresh_fs { last_error = error_too_many_open_files }, 0))))
      ⊎ ((t : Table) × (x.1 ≡ (record fresh_fs { table = t }, 0))
          × IsAllocated fresh_fs.table t x.0 main_bytes 7))
archive_create_file_a_lem_example =
    archive_create_file_a_lem test_kernel fresh_fs 0 fresh_fs-IsFs main_path read_only main_bytes 7
      refl selects_main

archive_read_file_lem_example :
    (let x = archive_read_file test_kernel handle_base (plain 3) (open_fs, 0) in
      (x.0.ok ≡ true)
      × (x.0.copied ≡ take (readable main_record 3) (drop 0 main_bytes))
      × (length x.0.copied ≡ readable main_record 3)
      × (virtual_record x.1.0 handle_base ≡ some (0, moved main_record 3))
      × (virtual_record x.1.0 5 ≡ virtual_record open_fs 5)
      × (x.1.0.last_error ≡ after_error open_fs 0 main_record 3)
      × (x.1.1 ≡ 0)
      × IsFs x.1.0)
archive_read_file_lem_example =
    archive_read_file_lem test_kernel open_fs 0 open_fs-IsFs handle_base 0 main_record known_main 3
      5 (λ e. omega arith)

archive_read_file-read_file_example :
    (let x = archive_read_file test_kernel handle_base (plain 3) (open_fs, 0) in
      let y = archive_read_file test_kernel handle_base (plain 9) x.1 in
      let z = archive_read_file test_kernel handle_base (plain (3 + 9)) (open_fs, 0) in
      (x.0.copied ++ y.0.copied ≡ z.0.copied)
      × (virtual_record y.1.0 handle_base ≡ virtual_record z.1.0 handle_base))
archive_read_file-read_file_example =
    archive_read_file-read_file test_kernel open_fs 0 handle_base 0 main_record 3 9 open_fs-IsFs
      known_main

archive_close_handle_lem_example :
    (let x = archive_close_handle test_kernel handle_base (open_fs, 0) in
      (x.0 ≡ true)
      × (virtual_record x.1.0 handle_base ≡ none)
      × (virtual_record x.1.0 5 ≡ virtual_record open_fs 5)
      × (x.1.1 ≡ 0)
      × IsFs x.1.0)
archive_close_handle_lem_example =
    archive_close_handle_lem test_kernel open_fs 0 open_fs-IsFs handle_base 0 main_record known_main
      5 (λ e. omega arith)

abbrev a_session : List Call
a_session =
    create main_path read_only
    ∷ read handle_base (plain 3)
    ∷ seek handle_base (negsuc 1) none 1
    ∷ read handle_base (plain 20)
    ∷ close handle_base
    ∷ []

after_all-IsFs_example : IsFs (after_all test_kernel a_session (fresh_fs, 0)).0
after_all-IsFs_example = after_all-IsFs test_kernel a_session fresh_fs 0 fresh_fs-IsFs
