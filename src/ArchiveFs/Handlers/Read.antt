-- ===== src/ArchiveFs/Handlers/Read.antt =====
-- Theorems on `archive_read_file` of win32_archive_fs.c for a virtual handle.
use libsamp.Common.{
  ℕ, zero, suc, ◌+◌, ◌-◌, ◌^◌, ◌<◌, ◌≡◌, ◌≢◌, refl, ap, sym, ◌∙◌, subst, arith, min, ◌||◌, true,
  none, some, List, [], ◌∷◌, ◌++◌, length, take, drop, leb, ◌==◌, if◌then◌else◌, Bool-cases, inl,
  inr, length-take, length-drop, drop-drop,
}
use libsamp.ArchiveFs.Table.{Record}
use libsamp.ArchiveFs.Table.Lookup.{Matches}
use libsamp.ArchiveFs.Table.Allocate.{Fits}
use libsamp.ArchiveFs.Handlers.{
  Fs, Kernel, ReadArgs, ReadReply, virtual_record, put_record, copy_size, advanced, read_from,
  read_record, set_event, archive_read_file, error_handle_eof,
}
use libsamp.ArchiveFs.Handlers.Views.{
  IsFs, IsOpened, virtual_record-some, put_record-IsFs, virtual_record-put, virtual_record-put_ne,
}

-- How far a read of `m` bytes at the record's position goes.
abbrev pub readable : Record → ℕ → ℕ
readable r m = min m (r.size - r.position)

copy_size-readable : (r : Record) (m : ℕ) → copy_size r r.position m ≡ readable r m
unfolding copy_size
copy_size-readable r m = ground arith

advanced-readable :
    (r : Record) (m : ℕ)
    → r.size < 2 ^ 32
    → advanced r.position (readable r m) ≡ r.position + readable r m
unfolding advanced
advanced-readable r m h = ground arith

-- `ReadFile(h, buffer, m, &count, NULL)`.
abbrev pub plain : ℕ → ReadArgs
plain m = record { buffer = true; bytes_to_read = m; wants_count = true; overlapped = none }

abbrev pub moved : Record → ℕ → Record
moved r m = record r { position = r.position + readable r m }

abbrev pub after_error : Fs → ℕ → Record → ℕ → ℕ
after_error s i r m = if leb r.size (r.position + m) then error_handle_eof else s.last_error

-- The whole effect of such a read: the reply, and the state but for the last error.
abbrev pub read_effect : Fs → ℕ → Record → ℕ → ReadReply × Fs
read_effect s i r m = (
  record {
    ok = true;
    copied = take (readable r m) (drop r.position r.bytes);
    count = some (readable r m);
  },
  record (put_record s i (moved r m)) { last_error = after_error s i r m },
)

last_error-put_record : (s : Fs) (i : ℕ) (r : Record) → (put_record s i r).last_error ≡ s.last_error
unfolding put_record
last_error-put_record s i r = refl

eof-readable :
    (r : Record) (m : ℕ)
    → (leb r.size r.position || leb (r.size - r.position) m) ≡ leb r.size (r.position + m)
eof-readable r m = ground arith

read_record-plain :
    (s : Fs) (i : ℕ) (r : Record) (m : ℕ)
    → r.size < 2 ^ 32
    → read_record s i r (plain m) ≡ read_effect s i r m
unfolding read_record read_from set_event put_record
read_record-plain s i r m h =
    rw (copy_size-readable r m, advanced-readable r m h, eof-readable r m)
      (elim (Bool-cases (readable r m == 0)) [
        | inl e ↦ elim (Bool-cases (leb r.size (r.position + m))) [
          | inl t ↦ ground (arith, e, t)
          | inr t ↦ ground (arith, e, t)
        ]
        | inr e ↦ elim (Bool-cases (leb r.size (r.position + m))) [
          | inl t ↦ ground (arith, e, t)
          | inr t ↦ ground (arith, e, t)
        ]
      ])

module _ {Os : Type 0} (kernel : Kernel Os) (s : Fs) (os : Os) (v : IsFs s) (h i : ℕ) (r : Record)
    (known : virtual_record s h ≡ some (i, r)) where
  abbrev o : IsOpened s h i r
  o = virtual_record-some s h i r known

  record-Fits : Fits r.bytes r.size
  record-Fits = subst (λ (x : Record). Fits x.bytes x.size) (sym o.is_record) (v.table.sizes i)

  archive_read_file-plain :
      (m : ℕ)
      → archive_read_file kernel h (plain m) (s, os)
        ≡ ((read_effect s i r m).0, ((read_effect s i r m).1, os))
  unfolding archive_read_file
  archive_read_file-plain m = ground (arith, known, read_record-plain s i r m record-Fits.1)

  moved_keeps : (m k : ℕ) → Matches (moved r m) k → Matches r k
  moved_keeps m k e = e

  after_read-IsFs : (m : ℕ) → IsFs (read_effect s i r m).1
  after_read-IsFs m =
      let w = put_record-IsFs s v h i r (moved r m) o record-Fits (moved_keeps m) in
      record { table = w.table; main = w.main; script = w.script }

  after_read-view : (m : ℕ) → virtual_record (read_effect s i r m).1 h ≡ some (i, moved r m)
  unfolding virtual_record
  after_read-view m =
      virtual_record-put s v h i r (moved r m) o record-Fits (moved_keeps m) o.matched

  after_read-others :
      (m k : ℕ) → k ≢ h → virtual_record (read_effect s i r m).1 k ≡ virtual_record s k
  unfolding virtual_record
  after_read-others m k ne =
      virtual_record-put_ne s v h i r (moved r m) o record-Fits (moved_keeps m) k ne

  -- A read of a virtual handle copies the bytes from its position up to the end of the file, moves
  -- the position past them and reports the end of the file when it is reached. The state stays
  -- valid, and the other handles and the kernel are left alone.
  pub archive_read_file_lem :
      (m k : ℕ)
      → k ≢ h
      → (let x = archive_read_file kernel h (plain m) (s, os) in
          (x.0.ok ≡ true)
          × (x.0.copied ≡ take (readable r m) (drop r.position r.bytes))
          × (length x.0.copied ≡ readable r m)
          × (virtual_record x.1.0 h ≡ some (i, moved r m))
          × (virtual_record x.1.0 k ≡ virtual_record s k)
          × (x.1.0.last_error ≡ after_error s i r m)
          × (x.1.1 ≡ os)
          × IsFs x.1.0)
  archive_read_file_lem m k ne = rw (archive_read_file-plain m) (
    refl,
    refl,
    omega (
      arith,
      record-Fits.0,
      length-take (readable r m) (drop r.position r.bytes),
      length-drop r.position r.bytes,
    ),
    after_read-view m,
    after_read-others m k ne,
    refl,
    refl,
    after_read-IsFs m,
  )

take_nil : (n : ℕ) → take {A = ℕ} n [] ≡ []
take_nil zero = refl
take_nil (suc n) = refl

take-add : (a b : ℕ) (xs : List ℕ) → take a xs ++ take b (drop a xs) ≡ take (a + b) xs
take-add zero b xs = ap (λ (n : ℕ). take n xs) (omega arith)
take-add (suc a) b [] = take_nil b ∙ sym (take_nil (suc a + b))
take-add (suc a) b (x ∷ xs) =
    let e : suc a + b ≡ suc (a + b) = omega arith in
    rw e (ap (λ (ys : List ℕ). x ∷ ys) (take-add a b xs))

take-drop_add :
    (a b p : ℕ) (xs : List ℕ)
    → take a (drop p xs) ++ take b (drop (p + a) xs) ≡ take (a + b) (drop p xs)
take-drop_add a b p xs =
    ap (λ (ys : List ℕ). take a (drop p xs) ++ take b ys) (sym (drop-drop p a xs))
    ∙ take-add a b (drop p xs)

readable_add : (r : Record) (m n : ℕ) → readable r (m + n) ≡ readable r m + readable (moved r m) n
readable_add r m n = omega arith

-- Two reads of a virtual handle, one after the other, copy what one read of both lengths copies,
-- and leave the handle at the same place.
pub archive_read_file-read_file :
    {Os : Type 0} (kernel : Kernel Os) (s : Fs) (os : Os) (h i : ℕ) (r : Record) (m n : ℕ)
    → IsFs s
    → virtual_record s h ≡ some (i, r)
    → (let x = archive_read_file kernel h (plain m) (s, os) in
        let y = archive_read_file kernel h (plain n) x.1 in
        let z = archive_read_file kernel h (plain (m + n)) (s, os) in
        (x.0.copied ++ y.0.copied ≡ z.0.copied) × (virtual_record y.1.0 h ≡ virtual_record z.1.0 h))
archive_read_file-read_file kernel s os h i r m n v known =
    let s' : Fs = (read_effect s i r m).1 in
    let known' = after_read-view kernel s os v h i r known m in
    let v' = after_read-IsFs kernel s os v h i r known m in
    let r' : Record = moved r m in
    rw
      (
        archive_read_file-plain kernel s os v h i r known m,
        archive_read_file-plain kernel s' os v' h i r' known' n,
        archive_read_file-plain kernel s os v h i r known (m + n),
      )
      (
        take-drop_add (readable r m) (readable r' n) r.position r.bytes
            ∙ ap (λ (a : ℕ). take a (drop r.position r.bytes)) (sym (readable_add r m n)),
        after_read-view kernel s' os v' h i r' known' n
            ∙ ap (λ (p : ℕ). some (i, record r { position = p }))
                (omega (arith, readable_add r m n))
            ∙ sym (after_read-view kernel s os v h i r known (m + n)),
      )
