-- ===== src/ArchiveFs/Handlers/Calls.antt =====
-- Theorems on every call of the hooks of win32_archive_fs.c, and on any sequence of them.
use libsamp.Common.{
  ℕ, ◌-◌, ◌<◌, ◌≡◌, ◌⊎◌, refl, ap, sym, subst, arith, ◌||◌, ◌&&◌, not, leb, Bool, true, false,
  Option, none, some, List, [], ◌∷◌, ltb, ◌==◌, if◌then◌else◌, Bool-cases, Option-cases, inl, inr,
}
use libsamp.Common.Int.{ℤ, pos, negsuc}
use libsamp.ArchiveFs.Table.{Record, cleared, Table, allocate_record, open_records}
use libsamp.ArchiveFs.Table.Lookup.{at}
use libsamp.ArchiveFs.Table.Allocate.{Fits, IsTable, IsAllocated, allocate_record_total}
use libsamp.ArchiveFs.Handlers.{
  Fs, Kernel, CreateArgs, ReadArgs, ReadReply, virtual_record, put_record, advanced, read_from,
  read_record, copy_size, set_event, seek_target, seek_record, select_virtual_file,
  archive_create_file_a, archive_read_file, archive_get_file_size, archive_set_file_pointer,
  archive_close_handle, archive_get_file_type, error_too_many_open_files, error_invalid_parameter,
  error_negative_seek, error_handle_eof,
}
use libsamp.ArchiveFs.Handlers.Views.{IsFs, IsOpened, virtual_record-some, put_record-IsFs}

-- The calls that the game makes through the hooked import slots.
pub data Call : Type 0 where
  create : Option (List ℕ) → CreateArgs → Call
  read : ℕ → ReadArgs → Call
  get_size : ℕ → Bool → Call
  seek : ℕ → ℤ → Option ℤ → ℕ → Call
  close : ℕ → Call
  get_type : ℕ → Call

module _ {Os : Type 0} (kernel : Kernel Os) where
  -- The state after a call.
  unfoldable pub after : Call → Fs × Os → Fs × Os
  after (create path args) x = (archive_create_file_a kernel path args x).1
  after (read h args) x = (archive_read_file kernel h args x).1
  after (get_size h wants_high) x = (archive_get_file_size kernel h wants_high x).1
  after (seek h d high method) x = (archive_set_file_pointer kernel h d high method x).1
  after (close h) x = (archive_close_handle kernel h x).1
  after (get_type h) x = (archive_get_file_type kernel h x).1

  unfoldable pub after_all : List Call → Fs × Os → Fs × Os
  after_all [] x = x
  after_all (c ∷ calls) x = after_all calls (after c x)

pick {ℓ} : {A : Type ℓ} (P : A → Type 0) (b : Bool) (x y : A) → P x → P y → P (if b then x else y)
pick P true x y p q = p
pick P false x y p q = q

IsFs-error : (s : Fs) (e : ℕ) → IsFs s → IsFs (record s { last_error = e })
IsFs-error s e v = record { table = v.table; main = v.main; script = v.script }

IsFs-event : (s : Fs) (o : Option (ℕ × ℕ)) → IsFs s → IsFs (set_event s o)
unfolding set_event
IsFs-event s none v = v
IsFs-event s (some (offset, event)) v =
    pick IsFs (event == 0) s (record s { events = event ∷ s.events }) v
      (record { table = v.table; main = v.main; script = v.script })

module _ (s : Fs) (v : IsFs s) (h i : ℕ) (r : Record) (o : IsOpened s h i r) where
  moved-IsFs : (p : ℕ) → IsFs (put_record s i (record r { position = p }))
  moved-IsFs p =
      put_record-IsFs s v h i r (record r { position = p }) o
        (subst (λ (x : Record). Fits x.bytes x.size) (sym o.is_record) (v.table.sizes i)) (λ k m. m)

  read_record-IsFs : (a : ReadArgs) → IsFs (read_record s i r a).1
  unfolding read_record
  read_record-IsFs a =
      let p : ℕ = read_from r a.overlapped in
      let n : ℕ = copy_size r p a.bytes_to_read in
      let s' : Fs =
        set_event (put_record s i (record r { position = advanced p n })) a.overlapped in
      let w : IsFs s' =
        IsFs-event (put_record s i (record r { position = advanced p n })) a.overlapped
          (moved-IsFs (advanced p n)) in
      let at_end : Bool = leb r.size p || leb (r.size - p) a.bytes_to_read in
      pick (λ (z : ReadReply × Fs). IsFs z.1) (not (n == 0) && not a.buffer) _ _
        (IsFs-error (put_record s i (record r { position = p })) error_invalid_parameter
          (moved-IsFs p))
        (pick IsFs at_end _ _ (IsFs-error s' error_handle_eof w) w)

  seek_record-IsFs : (t : Option ℤ) → IsFs (seek_record s i r t).1
  unfolding seek_record
  seek_record-IsFs none = IsFs-error s error_invalid_parameter v
  seek_record-IsFs (some (negsuc n)) = IsFs-error s error_negative_seek v
  seek_record-IsFs (some (pos n)) =
      pick (λ (z : ℕ × Fs). IsFs z.1) (ltb 0xFFFFFFFF n) _ _ (IsFs-error s error_negative_seek v)
        (moved-IsFs n)

  close-IsFs : IsFs (put_record s i cleared)
  close-IsFs = put_record-IsFs s v h i r cleared o (omega arith, omega arith) (λ k m. absurd (cc))

select_virtual_file-Fits :
    (s : Fs) (path : Option (List ℕ)) (bytes : List ℕ) (size : ℕ)
    → IsFs s
    → select_virtual_file s path ≡ some (bytes, size)
    → Fits bytes size
unfolding select_virtual_file
select_virtual_file-Fits s path bytes size v e = ground (arith, v.main, v.script)

module _ {Os : Type 0} (kernel : Kernel Os) (s : Fs) (os : Os) (v : IsFs s) where
  -- A call on a handle, whose effect on a virtual file keeps the state valid.
  on_handle :
      (h : ℕ) (f : Fs × Os) (g : ℕ → Record → Fs)
      → (virtual_record s h ≡ none → f.0 ≡ s)
      → ((i : ℕ) (r : Record) → virtual_record s h ≡ some (i, r) → f.0 ≡ g i r)
      → ((i : ℕ) (r : Record) → IsOpened s h i r → IsFs (g i r))
      → IsFs f.0
  on_handle h f g none_lem some_lem keeps = elim (Option-cases (virtual_record s h)) [
    | inl n ↦ subst IsFs (sym (none_lem n)) v
    | inr ((i, r), e) ↦
        subst IsFs (sym (some_lem i r e)) (keeps i r (virtual_record-some s h i r e))
  ]

  allocated :
      (path : Option (List ℕ)) (args : CreateArgs) (bytes : List ℕ) (size h : ℕ) (t : Table)
      → s.active ≡ true
      → select_virtual_file s path ≡ some (bytes, size)
      → allocate_record s.table bytes size ≡ (some h, t)
      → archive_create_file_a kernel path args (s, os) ≡ (h, (record s { table = t }, os))
  unfolding archive_create_file_a
  allocated path args bytes size h t a e k = ground (arith, a, e, k)

  refused :
      (path : Option (List ℕ)) (args : CreateArgs) (bytes : List ℕ) (size : ℕ)
      → s.active ≡ true
      → select_virtual_file s path ≡ some (bytes, size)
      → allocate_record s.table bytes size ≡ (none, s.table)
      → archive_create_file_a kernel path args (s, os)
        ≡ (0, (record s { last_error = error_too_many_open_files }, os))
  unfolding archive_create_file_a
  refused path args bytes size a e k = ground (arith, a, e, k)

  passed :
      (path : Option (List ℕ)) (args : CreateArgs)
      → (s.active ≡ false) ⊎ (select_virtual_file s path ≡ none)
      → (archive_create_file_a kernel path args (s, os)).1.0 ≡ s
  unfolding archive_create_file_a
  passed path args (inl a) = ground (arith, a)
  passed path args (inr e) = ground (arith, e)

  IsFs-table : (t : Table) → IsTable t → IsFs (record s { table = t })
  IsFs-table t w = record { table = w; main = v.main; script = v.script }

  -- Opening a virtual file answers NULL, with the error for too many open files, only when all 50
  -- records are in use; otherwise it answers a handle that was unknown, and from then on stands for
  -- the file at its start, while the other handles keep their records.
  pub archive_create_file_a_lem :
      (path : Option (List ℕ)) (args : CreateArgs) (bytes : List ℕ) (size : ℕ)
      → s.active ≡ true
      → select_virtual_file s path ≡ some (bytes, size)
      → (let x = archive_create_file_a kernel path args (s, os) in
          (((i : ℕ) → i < open_records → (at s.table.records i).active ≡ true)
            × (x ≡ (0, (record s { last_error = error_too_many_open_files }, os))))
          ⊎ ((t : Table) × (x.1 ≡ (record s { table = t }, os))
              × IsAllocated s.table t x.0 bytes size))
  archive_create_file_a_lem path args bytes size a e =
      elim (allocate_record_total s.table v.table bytes size
        (select_virtual_file-Fits s path bytes size v e)) [
          | inl (full, k) ↦ inl (full, refused path args bytes size a e k)
          | inr (h, t, k, w) ↦ inr (rw (allocated path args bytes size h t a e k) (t, refl, w))
        ]

  create-IsFs :
      (path : Option (List ℕ)) (args : CreateArgs)
      → IsFs (archive_create_file_a kernel path args (s, os)).1.0
  create-IsFs path args = elim (Bool-cases s.active) [
    | inr n ↦ subst IsFs (sym (passed path args (inl n))) v
    | inl a ↦ elim (Option-cases (select_virtual_file s path)) [
      | inl n ↦ subst IsFs (sym (passed path args (inr n))) v
      | inr ((bytes, size), e) ↦ elim (archive_create_file_a_lem path args bytes size a e) [
        | inl (full, x) ↦
            subst IsFs (sym (ap (λ (y : ℕ × (Fs × Os)). y.1.0) x))
              (IsFs-error s error_too_many_open_files v)
        | inr (t, x, w) ↦ subst IsFs (sym (ap (λ (y : Fs × Os). y.0) x)) (IsFs-table t w.valid)
      ]
    ]
  ]

  after-IsFs : (c : Call) → IsFs (after kernel c (s, os)).0
  unfolding after archive_read_file archive_get_file_size archive_set_file_pointer
      archive_close_handle archive_get_file_type
  after-IsFs (create path args) = create-IsFs path args
  after-IsFs (read h args) =
      on_handle h (archive_read_file kernel h args (s, os)).1 (λ i r. (read_record s i r args).1)
        (λ n. ground (arith, n)) (λ i r e. ground (arith, e))
        (λ i r o. read_record-IsFs s v h i r o args)
  after-IsFs (get_size h wants_high) =
      on_handle h (archive_get_file_size kernel h wants_high (s, os)).1 (λ i r. s)
        (λ n. ground (arith, n)) (λ i r e. ground (arith, e)) (λ i r o. v)
  after-IsFs (seek h d high method) =
      on_handle h (archive_set_file_pointer kernel h d high method (s, os)).1
        (λ i r. (seek_record s i r (seek_target r d method)).1) (λ n. ground (arith, n))
        (λ i r e. ground (arith, e))
        (λ i r o. seek_record-IsFs s v h i r o (seek_target r d method))
  after-IsFs (close h) =
      on_handle h (archive_close_handle kernel h (s, os)).1 (λ i r. put_record s i cleared)
        (λ n. ground (arith, n)) (λ i r e. ground (arith, e)) (λ i r o. close-IsFs s v h i r o)
  after-IsFs (get_type h) =
      on_handle h (archive_get_file_type kernel h (s, os)).1 (λ i r. s) (λ n. ground (arith, n))
        (λ i r e. ground (arith, e)) (λ i r o. v)

-- Any sequence of hooked calls keeps the state valid: 50 records, no handle twice, every open file's
-- bytes there, and the next handle a legal one.
pub after_all-IsFs :
    {Os : Type 0} (kernel : Kernel Os) (calls : List Call) (s : Fs) (os : Os)
    → IsFs s
    → IsFs (after_all kernel calls (s, os)).0
unfolding after_all
after_all-IsFs kernel [] s os v = v
after_all-IsFs kernel (c ∷ calls) s os v =
    after_all-IsFs kernel calls (after kernel c (s, os)).0 (after kernel c (s, os)).1
      (after-IsFs kernel s os v c)
