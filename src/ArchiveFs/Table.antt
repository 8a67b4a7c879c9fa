-- ===== src/ArchiveFs/Table.antt =====
-- The table of open virtual files of win32_archive_fs.c: `find_record`, `allocate_record`.
-- A handle is its 32-bit value, and NULL is 0. A pointer into the table is an index.
pub mod Lookup
pub mod Pigeonhole
pub mod Allocate
pub mod Empty
use libsamp.Common.{
  ℕ, zero, suc, ◌+◌, Bool, true, false, ◌&&◌, Option, none, some, List, [], ◌∷◌, map, u32,
  get_elem?, set, leb, ◌==◌, if◌then◌else◌,
}
use mathlib.Core.Option

-- `samp_archive_record`
pub record Record : Type 0 where
  pub handle : ℕ
  pub bytes : List ℕ
  pub size : ℕ
  pub position : ℕ
  pub active : Bool

-- `memset(record, 0, sizeof(*record))`
abbrev pub cleared : Record
cleared = record { handle = 0; bytes = []; size = 0; position = 0; active = false }

abbrev pub open_records : ℕ
open_records = 50

abbrev pub handle_base : ℕ
handle_base = 0xFF000001

abbrev pub handle_limit : ℕ
handle_limit = 0xFF000101

-- `records` and `next_fake_handle` of `samp_archive_fs_state`.
pub record Table : Type 0 where
  pub records : List Record
  pub next_fake_handle : ℕ

unfoldable pub find_record : List Record → ℕ → Option ℕ
find_record [] handle = none
find_record (r ∷ records) handle =
    let rest = Option.map suc (find_record records handle) in
    if r.active && r.handle == handle then some 0 else rest

-- The first slot that is not active.
unfoldable pub free_slot : List Record → Option ℕ
free_slot [] = none
free_slot (r ∷ records) =
    let rest = Option.map suc (free_slot records) in if r.active then rest else some 0

unfoldable pub next_handle : ℕ → ℕ
next_handle h = let h' = u32 (h + 2) in if leb handle_limit h' then handle_base else h'

-- The inner loop of `allocate_record`: the candidate that is taken, and `next_fake_handle` after
-- the loop.
unfoldable pub try_handles : List Record → ℕ → ℕ → Option ℕ × ℕ
try_handles records zero next = (none, next)
try_handles records (suc attempts) next = elim (find_record records next) [
  | none ↦ (some next, next_handle next)
  | some _ ↦ try_handles records attempts (next_handle next)
]

abbrev pub max_attempts : ℕ
max_attempts = 128

unfoldable pub allocate_record : Table → List ℕ → ℕ → Option ℕ × Table
allocate_record t bytes size = elim (free_slot t.records) [
  | none ↦ (none, t)
  | some slot ↦
      let (candidate, next) = try_handles t.records max_attempts t.next_fake_handle in
      elim candidate [
        | none ↦ (none, record t { next_fake_handle = next })
        | some handle ↦ (
          some handle,
          record {
            records = set t.records slot (record {
              handle = handle;
              bytes = bytes;
              size = size;
              position = 0;
              active = true;
            });
            next_fake_handle = next;
          },
        )
      ]
]
