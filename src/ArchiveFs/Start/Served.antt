-- ===== src/ArchiveFs/Start/Served.antt =====
-- A game and an archive with the two files, on which the start of win32_archive_fs.c succeeds.
use libsamp.Common.{
  ℕ, zero, ◌+◌, ◌*◌, ◌<◌, ◌≡◌, refl, ap, sym, subst, arith, Bool, true, false, ◌&&◌, Option, none,
  some, List, [], ◌∷◌, ◌++◌, take, drop, length, length-take, replicate, ltb, bit_xor,
  length-replicate, get_or, get_or-replicate, ◌∙◌, inl,
}
use libsamp.Common.Int.{pos}
use libsamp.Common.Outcome.{done}
use libsamp.Saa.Bytes.Laws.{
  obfuscate_u32, AreBytes, AreBytes-nil, AreBytes-cons, AreBytes-take, AreBytes-drop,
}
use libsamp.Saa.Tea.Inverse.{tea_encrypt_with_key, encrypt_block, encrypt_rounds, encrypt_round}
use libsamp.Saa.Bytes.{le32, store_le32, load_le32, read, slice, unobfuscate_u32, round_block_size}
use libsamp.Saa.Layout.{samp_saa_parse_layout, layout_of_header}
use libsamp.Saa.Tea.{
  tea_mix, key_at, chain_key, tea_load_key, tea_decrypt, tea_decrypt_with_key, decrypt_block,
  decrypt_rounds, decrypt_round,
}
use libsamp.Saa.Tea.Shape.{loaded_key}
use libsamp.Saa.Archive.{
  Archive, table_key_obfuscated, samp_saa_open_verified, find_entry, locate_entry, sum_previous,
  decode_entry, fresh_visited, samp_saa_find, extract_blocks, samp_saa_extract,
}
use libsamp.Saa.Archive.Extract.{file_key}
use libsamp.ArchiveFs.Table.Empty.{empty_table}
use libsamp.ArchiveFs.Handlers.{Kernel, main_hash, script_hash}
use libsamp.ArchiveFs.Hooks.{Hook, install_iat_hooks, install_slots, write_iat_slot, store}
use libsamp.ArchiveFs.Setup.State.{State, System, Crypt, Image, clear_state, call}
use libsamp.ArchiveFs.Setup.Load.{
  resolve_kernel_apis, all_resolved, load_archive, read_archive, alloc_archive, read_loop,
  read_chunk, closing, close_file,
}
use libsamp.ArchiveFs.Setup.Verify.{verify_archive_signature, check_signature, bracket, release}
use libsamp.ArchiveFs.Setup.Game.{
  validate_gta_and_iat, accepts_image, accepts_nt, has_profile, check_slots, is_expected,
}
use libsamp.ArchiveFs.Start.{
  Status, samp_archive_fs_win32_start, start_steps, prepare_files, finish, extract_required_file,
  alloc_block, freeing, is_sane, install_hooks,
}
use libsamp.ArchiveFs.Start.Left.{IsStopped, IsSystem}
use libsamp.ArchiveFs.Hooks.Back.{slots_of, AreBack}

all_bytes : List ℕ → Bool
all_bytes [] = true
all_bytes (b ∷ buf) = ltb b 256 && all_bytes buf

AreBytes-check : (buf : List ℕ) → all_bytes buf ≡ true → AreBytes buf
unfolding all_bytes
AreBytes-check [] e = AreBytes-nil
AreBytes-check (b ∷ buf) e =
    let both : (b < 256) × (all_bytes buf ≡ true) = ground arith in
    AreBytes-cons b buf both.0 (AreBytes-check buf both.1)

-- Two files of 8 bytes: main.scm stands first, script.img behind it.
entry_bytes_of : ℕ → ℕ → ℕ → List ℕ
entry_bytes_of hash previous size =
    store_le32 hash ++ store_le32 (obfuscate_u32 (bit_xor (size * 256 + previous) hash))

table : List ℕ
table = entry_bytes_of main_hash 5 8 ++ (entry_bytes_of script_hash 0 8 ++ replicate 2032 0)

table_of : Archive
table_of = record {
  bytes = [];
  data_size = 0;
  layout = record {
    header_size = 256;
    entry_offset = 4352;
    signature_offset = 6400;
    signature_size = 128;
    invalid_index = 5;
  };
  entries = table;
  ready = true;
}

block_of : ℕ → List ℕ → List ℕ
block_of hash bytes = (tea_encrypt_with_key (bytes ++ replicate 2040 0) (file_key table_of hash)).0

pub disk : List ℕ
disk =
    replicate 248 0
    ++ (0x93
        ∷ 0x34
        ∷ 0x28
        ∷ 0x40
        ∷ 0xA0
        ∷ 0
        ∷ 0
        ∷ 0
        ∷ (block_of main_hash (2 ∷ 0 ∷ 1 ∷ 4 ∷ 5 ∷ 6 ∷ 7 ∷ 8 ∷ [])
            ++ (block_of script_hash (86 ∷ 69 ∷ 82 ∷ 50 ∷ 5 ∷ 6 ∷ 7 ∷ 8 ∷ [])
                ++ ((tea_encrypt_with_key table (loaded_key table_key_obfuscated 0xAA)).0
                    ++ replicate 128 0))))

pub length-disk : length disk ≡ 6528
unfolding disk block_of table table_of entry_bytes_of store_le32 obfuscate_u32 tea_encrypt_with_key
    encrypt_block encrypt_rounds encrypt_round file_key loaded_key tea_mix key_at chain_key le32
length-disk = refl

pub disk_bytes : AreBytes disk
unfolding all_bytes disk block_of table table_of entry_bytes_of store_le32 obfuscate_u32
    tea_encrypt_with_key encrypt_block encrypt_rounds encrypt_round file_key loaded_key tea_mix
    key_at chain_key le32
disk_bytes = AreBytes-check disk refl

-- A kernel whose state is the number of bytes of the file that were read.
abbrev served_kernel : Kernel ℕ
served_kernel = record {
  create_file_a = λ path args os. (0x44, 0);
  read_file = λ h args os.
      let bytes = take args.bytes_to_read (drop os disk) in
      (record { ok = true; copied = bytes; count = some (length bytes) }, os + args.bytes_to_read);
  get_file_size = λ h wants_high os. ((6528, some 0), os);
  set_file_pointer = λ h d high method os. ((0xFFFFFFFF, none), os);
  close_handle = λ h os. (true, os);
  get_file_type = λ h os. (0, os);
}

abbrev game : Image
game = record {
  e_magic = 0x5A4D;
  e_lfanew = pos 0x80;
  nt = λ offset. record {
    signature = 0x00004550;
    machine = 0x014C;
    magic = 0x010B;
    entry_point = 0x00424570;
    size_of_image = 0x01177000;
    check_sum = 0x00DC5BEA;
    time_date_stamp = 0x437101CA;
    characteristics = 0x012F;
    dll_characteristics = 0x0100;
  };
}

abbrev trusting : Crypt ℕ
trusting = record {
  acquire_context = λ os. (true, os);
  create_hash = λ os. (true, os);
  hash_data = λ bytes os. (true, os);
  import_key = λ key os. (true, os);
  verify_signature = λ signature os. (true, os);
  destroy_key = λ os. os;
  destroy_hash = λ os. os;
  release_context = λ os. os;
}

abbrev pub test_system : System ℕ
test_system = record {
  kernel = served_kernel;
  memory = record { virtual_protect = λ rva protection os. (some 2, os); flush = λ rva os. os };
  crypt = trusting;
  kernel_module = true;
  proc_address = λ name. some (0x7000 + name);
  game_image = some game;
  heap_alloc = λ size os. (some (replicate size 0), os);
  heap_free = λ os. os;
}

abbrev pub hook : ℕ → ℕ → Hook
hook name rva = record {
  name = name;
  slot_rva = rva;
  replacement = 0x9000 + name;
  slot = false;
  current = 0x7000 + name;
  original = 0;
  installed = false;
}

abbrev pub hooks : List Hook
hooks =
    hook 0 0x00458074
    ∷ hook 1 0x00458078
    ∷ hook 2 0x00458090
    ∷ hook 3 0x00458098
    ∷ hook 4 0x004580A0
    ∷ hook 5 0x004581B4
    ∷ []

abbrev pub stopped : State ℕ
stopped = record {
  fs = record {
    main_data = [];
    main_size = 0;
    script_data = [];
    script_size = 0;
    table = empty_table;
    active = false;
    last_error = 0;
    events = [];
  };
  archive_data = none;
  archive_size = 0;
  main_held = false;
  script_held = false;
  record_lock_initialized = false;
  hooks = hooks;
  held = 0;
  os = 0;
}

-- "samp.saa"
abbrev pub saa_path : Option (List ℕ)
saa_path = some (115 ∷ 97 ∷ 109 ∷ 112 ∷ 46 ∷ 115 ∷ 97 ∷ 97 ∷ [])

abbrev pub served_status : Status
served_status = record {
  archive_size = 6528;
  signature_size = 128;
  main_size = 8;
  script_size = 8;
  signature_verified = true;
  hooks_installed = true;
}

start-succeeds : (samp_archive_fs_win32_start test_system saa_path stopped).0 ≡ done served_status
unfolding samp_archive_fs_win32_start start_steps prepare_files finish clear_state
    resolve_kernel_apis all_resolved call load_archive read_archive alloc_archive read_loop
    read_chunk closing close_file samp_saa_parse_layout layout_of_header load_le32 read
    verify_archive_signature slice check_signature bracket release samp_saa_open_verified
    tea_decrypt tea_load_key tea_decrypt_with_key decrypt_block decrypt_rounds decrypt_round
    extract_required_file alloc_block freeing samp_saa_find find_entry locate_entry sum_previous
    decode_entry unobfuscate_u32 fresh_visited round_block_size samp_saa_extract extract_blocks
    is_sane validate_gta_and_iat accepts_image accepts_nt has_profile check_slots is_expected
    install_hooks install_iat_hooks install_slots write_iat_slot store disk block_of table table_of
    entry_bytes_of store_le32 obfuscate_u32 tea_encrypt_with_key encrypt_block encrypt_rounds
    encrypt_round file_key loaded_key tea_mix key_at chain_key le32
start-succeeds = refl

AreBytes-replicate : (n : ℕ) → AreBytes (replicate n 0)
AreBytes-replicate n i =
    let e : get_or (replicate n 0) i 0 ≡ zero = get_or-replicate n i 0 in omega (arith, e)

some-inj : (x y : List ℕ) → some x ≡ some y → x ≡ y
some-inj x y e = cc

pub test_system-IsSystem : IsSystem test_system
test_system-IsSystem = record {
  reads = λ file n os ok. (
    refl,
    omega (arith, length-take n (drop os disk)),
    AreBytes-take n (drop os disk) (AreBytes-drop os disk disk_bytes),
  );
  allocates = λ size os bytes e.
      let is = some-inj (replicate size 0) bytes e in
      (ap length (sym is) ∙ length-replicate size 0, subst AreBytes is (AreBytes-replicate size));
}

pub stopped-IsStopped : IsStopped (AreBack test_system.memory (slots_of hooks)) stopped
stopped-IsStopped = record {
  left = record {
    inactive = refl;
    balanced = refl;
    uninstalled = (refl, (refl, (refl, (refl, (refl, (refl, tt))))));
    same = (inl refl, (inl refl, (inl refl, (inl refl, (inl refl, (inl refl, tt))))));
  };
  archive = refl;
  main = refl;
  script = refl;
  lock = refl;
}

-- The state after the start.
pub running : State ℕ
running = (samp_archive_fs_win32_start test_system saa_path stopped).1

pub started :
    samp_archive_fs_win32_start test_system saa_path stopped ≡ (done served_status, running)
unfolding running
started = ap (λ o. (o, (samp_archive_fs_win32_start test_system saa_path stopped).1)) start-succeeds
