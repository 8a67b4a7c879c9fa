-- ===== src/ArchiveFs/Handlers.antt =====
-- The six hooked functions of win32_archive_fs.c. What the kernel's own functions do is a
-- parameter; so is its state `Os`. A call holds `record_lock` while it uses the table, so calls
-- take their effect one after the other.
pub mod Views
pub mod Read
pub mod Close
pub mod Calls
use libsamp.Common.{
  ℕ, ◌+◌, ◌-◌, Bool, true, false, ◌&&◌, ◌||◌, not, Option, none, some, List, [], ◌∷◌, u32, get_or,
  set, take, drop, ltb, leb, ◌==◌, if◌then◌else◌,
}
use libsamp.Common.Int.{ℤ, pos, negsuc, ◌+ℤ◌}
use libsamp.Saa.Hash.{samp_saa_hash_path}
use libsamp.ArchiveFs.Table.{Record, cleared, Table, find_record, allocate_record}

-- The part of `samp_archive_fs_state` that the hooks use, with the last error that the hooks
-- themselves set and the events that they set. What the kernel's functions do to the thread's last
-- error is in the state of the system, `Os`.
pub record Fs : Type 0 where
  pub main_data : List ℕ
  pub main_size : ℕ
  pub script_data : List ℕ
  pub script_size : ℕ
  pub table : Table
  pub active : Bool
  pub last_error : ℕ
  pub events : List ℕ

abbrev pub error_invalid_parameter : ℕ
error_invalid_parameter = 87

abbrev pub error_negative_seek : ℕ
error_negative_seek = 131

abbrev pub error_too_many_open_files : ℕ
error_too_many_open_files = 4

abbrev pub error_handle_eof : ℕ
error_handle_eof = 38

abbrev pub invalid_set_file_pointer : ℕ
invalid_set_file_pointer = 0xFFFFFFFF

abbrev pub file_type_disk : ℕ
file_type_disk = 1

abbrev pub main_hash : ℕ
main_hash = 0xD83F24DD

abbrev pub script_hash : ℕ
script_hash = 0x11A462D1

-- The arguments of a `ReadFile`: is there a buffer, how many bytes, is there a place for the
-- count, and the offset and event (0 for none) of an OVERLAPPED.
pub record ReadArgs : Type 0 where
  pub buffer : Bool
  pub bytes_to_read : ℕ
  pub wants_count : Bool
  pub overlapped : Option (ℕ × ℕ)

-- What a `ReadFile` answers: its result, the bytes that it puts into the buffer, and the count
-- that it stores.
pub record ReadReply : Type 0 where
  pub ok : Bool
  pub copied : List ℕ
  pub count : Option ℕ

-- The arguments of a `CreateFileA` besides the path, which the hook only passes on.
pub record CreateArgs : Type 0 where
  pub desired_access : ℕ
  pub share_mode : ℕ
  pub security_attributes : ℕ
  pub creation_disposition : ℕ
  pub flags_and_attributes : ℕ
  pub template_file : ℕ

-- The kernel's functions, as the hooks call them. For a size, the flag says whether there is a
-- place for the high word, and the answer holds what is stored there. For a seek, the high word of
-- the distance is `none` for NULL, and the answer holds what is stored there.
pub record Kernel (Os : Type 0) : Type 0 where
  pub create_file_a : Option (List ℕ) → CreateArgs → Os → ℕ × Os
  pub read_file : ℕ → ReadArgs → Os → ReadReply × Os
  pub get_file_size : ℕ → Bool → Os → (ℕ × Option ℕ) × Os
  pub set_file_pointer : ℕ → ℤ → Option ℤ → ℕ → Os → (ℕ × Option ℤ) × Os
  pub close_handle : ℕ → Os → Bool × Os
  pub get_file_type : ℕ → Os → ℕ × Os

-- `none` is the answer 0; otherwise the bytes and the size of the virtual file.
unfoldable pub select_virtual_file : Fs → Option (List ℕ) → Option (List ℕ × ℕ)
select_virtual_file s path = elim (samp_saa_hash_path path) [
  | none ↦ none
  | some hash ↦
      if hash == main_hash
      then some (s.main_data, s.main_size)
      else if hash == script_hash
      then some (s.script_data, s.script_size)
      else none
]

-- The record of a handle, with its index, where the hooks are active.
unfoldable pub virtual_record : Fs → ℕ → Option (ℕ × Record)
virtual_record s file =
    if s.active
    then elim (find_record s.table.records file) [
      | none ↦ none
      | some i ↦ some (i, get_or s.table.records i cleared)
    ]
    else none

unfoldable pub put_record : Fs → ℕ → Record → Fs
put_record s i r = record s { table = record (s.table) { records = set s.table.records i r } }

-- `record->position` after the OVERLAPPED was read.
unfoldable pub read_from : Record → Option (ℕ × ℕ) → ℕ
read_from r none = r.position
read_from r (some (offset, event)) = offset

-- The bytes that a read takes from `position` on.
unfoldable pub copy_size : Record → ℕ → ℕ → ℕ
copy_size r position bytes_to_read =
    if leb r.size position
    then 0
    else if ltb bytes_to_read (r.size - position)
    then bytes_to_read
    else r.size - position

-- `record->position` after `n` bytes were copied; with none the field is not written.
unfoldable pub advanced : ℕ → ℕ → ℕ
advanced position n = if n == 0 then position else u32 (position + n)

unfoldable pub set_event : Fs → Option (ℕ × ℕ) → Fs
set_event s none = s
set_event s (some (offset, event)) =
    if event == 0 then s else record s { events = event ∷ s.events }

unfoldable pub read_record : Fs → ℕ → Record → ReadArgs → ReadReply × Fs
read_record s i r a =
    let position = read_from r a.overlapped in
    let n = copy_size r position a.bytes_to_read in
    let count = if a.wants_count then some n else none in
    let none_read = if a.wants_count then some 0 else none in
    let at_end = leb r.size position || leb (r.size - position) a.bytes_to_read in
    if not (n == 0) && not a.buffer
    then (
      record { ok = false; copied = []; count = none_read },
      record (put_record s i (record r { position = position })) {
        last_error = error_invalid_parameter;
      },
    )
    else let s' =
        set_event (put_record s i (record r { position = advanced position n })) a.overlapped in
      (
        record { ok = true; copied = take n (drop position r.bytes); count = count },
        if at_end then record s' { last_error = error_handle_eof } else s',
      )

-- Where a `SetFilePointer` goes: `none` for an unknown method.
unfoldable pub seek_target : Record → ℤ → ℕ → Option ℤ
seek_target r distance method =
    if method == 0
    then some distance
    else if method == 1
    then some (pos r.position +ℤ distance)
    else if method == 2
    then some (pos r.size)
    else none

unfoldable pub seek_record : Fs → ℕ → Record → Option ℤ → ℕ × Fs
seek_record s i r none =
    (invalid_set_file_pointer, record s { last_error = error_invalid_parameter })
seek_record s i r (some (negsuc n)) =
    (invalid_set_file_pointer, record s { last_error = error_negative_seek })
seek_record s i r (some (pos n)) =
    if ltb 0xFFFFFFFF n
    then (invalid_set_file_pointer, record s { last_error = error_negative_seek })
    else (n, put_record s i (record r { position = n }))

module _ {Os : Type 0} (kernel : Kernel Os) where
  open kernel use {
    create_file_a, read_file, get_file_size, set_file_pointer, close_handle, get_file_type,
  }

  unfoldable pub archive_create_file_a : Option (List ℕ) → CreateArgs → Fs × Os → ℕ × (Fs × Os)
  archive_create_file_a path args (s, os) =
      let pass : ℕ × (Fs × Os) = (let (h, os') = create_file_a path args os in (h, (s, os'))) in
      if s.active
      then elim (select_virtual_file s path) [
        | none ↦ pass
        | some (bytes, size) ↦
            let (handle, table) = allocate_record s.table bytes size in
            elim handle [
              | some h ↦ (h, (record s { table = table }, os))
              | none ↦ (0, (record s { table = table; last_error = error_too_many_open_files }, os))
            ]
      ]
      else pass

  unfoldable pub archive_read_file : ℕ → ReadArgs → Fs × Os → ReadReply × (Fs × Os)
  archive_read_file file args (s, os) = elim (virtual_record s file) [
    | none ↦ let (reply, os') = read_file file args os in (reply, (s, os'))
    | some (i, r) ↦ let (reply, s') = read_record s i r args in (reply, (s', os))
  ]

  unfoldable pub archive_get_file_size : ℕ → Bool → Fs × Os → (ℕ × Option ℕ) × (Fs × Os)
  archive_get_file_size file wants_high (s, os) = elim (virtual_record s file) [
    | none ↦ let (size, os') = get_file_size file wants_high os in (size, (s, os'))
    | some (i, r) ↦ ((r.size, if wants_high then some 0 else none), (s, os))
  ]

  unfoldable pub archive_set_file_pointer :
      ℕ → ℤ → Option ℤ → ℕ → Fs × Os → (ℕ × Option ℤ) × (Fs × Os)
  archive_set_file_pointer file distance high_distance method (s, os) =
      elim (virtual_record s file) [
        | none ↦
            let (position, os') = set_file_pointer file distance high_distance method os in
            (position, (s, os'))
        | some (i, r) ↦
            let (position, s') = seek_record s i r (seek_target r distance method) in
            ((position, none), (s', os))
      ]

  unfoldable pub archive_close_handle : ℕ → Fs × Os → Bool × (Fs × Os)
  archive_close_handle object (s, os) = elim (virtual_record s object) [
    | none ↦ let (ok, os') = close_handle object os in (ok, (s, os'))
    | some (i, r) ↦ (true, (put_record s i cleared, os))
  ]

  unfoldable pub archive_get_file_type : ℕ → Fs × Os → ℕ × (Fs × Os)
  archive_get_file_type file (s, os) = elim (virtual_record s file) [
    | none ↦ let (type, os') = get_file_type file os in (type, (s, os'))
    | some (i, r) ↦ (file_type_disk, (s, os))
  ]
