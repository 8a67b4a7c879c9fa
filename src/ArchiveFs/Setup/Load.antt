-- ===== src/ArchiveFs/Setup/Load.antt =====
-- `resolve_kernel_apis` and `load_archive` of win32_archive_fs.c. An API's name is its index in
-- `g_iat_hooks`, as in a hook.
use libsamp.Common.{
  ℕ, zero, suc, ◌+◌, ◌-◌, ◌*◌, Bool, true, false, ◌&&◌, not, Option, none, some, List, [], ◌∷◌,
  ◌++◌, u32, length, take, drop, ltb, leb, ◌==◌,
}
use libsamp.Common.Outcome.{Outcome, done, fail, fault}
use libsamp.ArchiveFs.Handlers.{ReadArgs, CreateArgs}
use libsamp.ArchiveFs.Setup.State.{
  State, System, Step, ◌>>=◌, ◌>>◌, answer, require, put, call, taken, given_back,
}

abbrev pub archive_max_bytes : ℕ
archive_max_bytes = 32 * 1024 * 1024

abbrev pub invalid_handle_value : ℕ
invalid_handle_value = 0xFFFFFFFF

-- CreateFileA, ReadFile, GetFileSize, SetFilePointer, CloseHandle, GetFileType
abbrev pub api_names : List ℕ
api_names = 4 ∷ 3 ∷ 0 ∷ 2 ∷ 1 ∷ 5 ∷ []

-- GENERIC_READ, FILE_SHARE_READ, OPEN_EXISTING,
-- FILE_ATTRIBUTE_NORMAL | FILE_FLAG_SEQUENTIAL_SCAN
abbrev pub load_args : CreateArgs
load_args = record {
  desired_access = 0x80000000;
  share_mode = 1;
  security_attributes = 0;
  creation_disposition = 3;
  flags_and_attributes = 0x08000080;
  template_file = 0;
}

abbrev pub or_zero : Option ℕ → ℕ
or_zero none = 0
or_zero (some n) = n

-- `data + total` takes the bytes.
abbrev pub write_at : ℕ → List ℕ → List ℕ → List ℕ
write_at total copied buffer = take total buffer ++ (copied ++ drop (total + length copied) buffer)

abbrev pub write_archive : ℕ → List ℕ → Option (List ℕ) → Option (List ℕ)
write_archive total copied none = none
write_archive total copied (some buffer) = some (write_at total copied buffer)

unfoldable pub all_resolved : (ℕ → Option ℕ) → List ℕ → Bool
all_resolved proc_address [] = true
all_resolved proc_address (name ∷ names) = elim (proc_address name) [
  | none ↦ false
  | some proc ↦ all_resolved proc_address names
]

module _ {Os : Type 0} (system : System Os) where
  -- From then on a call of a stored pointer is a call of the kernel's function.
  unfoldable pub resolve_kernel_apis : Step Os (Unit {0})
  resolve_kernel_apis = require (system.kernel_module && all_resolved system.proc_address api_names)

  unfoldable pub close_file : ℕ → Step Os Bool
  close_file file = do
    closed ← call (system.kernel.close_handle file)
    put given_back
    answer (done closed)

  -- The state after `HeapAlloc` of `archive_data`.
  unfoldable pub alloc_archive : ℕ → Step Os (Unit {0})
  alloc_archive size s =
      let r = system.heap_alloc size s.os in
      elim r.0 [
        | none ↦ (fail, record s { os = r.1; archive_data = none })
        | some block ↦
            (done tt, record s { os = r.1; archive_data = some block; held = s.held + 1 })
      ]

  abbrev pub load_read : ℕ → ReadArgs
  load_read n = record { buffer = true; bytes_to_read = n; wants_count = true; overlapped = none }

  -- The state after one `ReadFile` of the loop, and whether the loop goes on, and the chunk.
  unfoldable pub read_chunk : ℕ → ℕ → ℕ → State Os → (Bool × ℕ) × State Os
  read_chunk file size total s =
      let r = system.kernel.read_file file (load_read (size - total)) s.os in
      let chunk = or_zero r.0.count in
      (
        (r.0.ok && not (chunk == 0), chunk),
        record s { os = r.1; archive_data = write_archive total r.0.copied s.archive_data },
      )

  -- The `while` loop, on fuel.
  unfoldable pub read_loop : ℕ → ℕ → ℕ → ℕ → Step Os (Unit {0})
  read_loop zero file size total s = (fault, s)
  read_loop (suc fuel) file size total s = elim (ltb total size) [
    | false ↦ (done tt, s)
    | true ↦
        let r = read_chunk file size total s in
        elim r.0.0 [
          | false ↦ (fail, r.1)
          | true ↦ read_loop fuel file size (u32 (total + r.0.1)) r.1
        ]
  ]

  -- The size, the block and its bytes. Each round reads a byte or more, so `size + 1` rounds are
  -- enough.
  unfoldable pub read_archive : ℕ → Step Os ℕ
  read_archive file = do
    size ← call (system.kernel.get_file_size file true)
    require (or_zero size.1 == 0 && not (size.0 == 0) && leb size.0 archive_max_bytes)
    alloc_archive size.0
    read_loop (size.0 + 1) file size.0 0
    answer (done size.0)

  -- Every early return of the code closes the file.
  unfoldable pub closing : {A : Type 0} → ℕ → Outcome A × State Os → Outcome A × State Os
  closing file (done a, s) = (done a, s)
  closing file (fail, s) = (fail, (close_file file s).1)
  closing file (fault, s) = (fault, s)

  unfoldable pub load_archive : List ℕ → Step Os (Unit {0})
  load_archive path = do
    file ← call (system.kernel.create_file_a (some path) load_args)
    require (not (file == invalid_handle_value))
    put taken
    size ← λ s. closing file (read_archive file s)
    closed ← close_file file
    require closed
    put (λ s. record s { archive_size = size })
