-- ===== src/ArchiveFs/Handlers/Close.antt =====
-- Theorems on `archive_close_handle` and `archive_set_file_pointer` of win32_archive_fs.c for a
-- virtual handle.
use libsamp.Common.{ℕ, ◌≡◌, ◌≢◌, refl, arith, true, none, some}
use libsamp.ArchiveFs.Table.{Record, cleared}
use libsamp.ArchiveFs.Table.Lookup.{Matches}
use libsamp.ArchiveFs.Table.Allocate.{Fits}
use libsamp.ArchiveFs.Handlers.{Fs, Kernel, virtual_record, put_record, archive_close_handle}
use libsamp.ArchiveFs.Handlers.Views.{
  IsFs, IsOpened, virtual_record-some, put_record-IsFs, virtual_record-put_ne,
  virtual_record-cleared,
}

module _ {Os : Type 0} (kernel : Kernel Os) (s : Fs) (os : Os) (v : IsFs s) (h i : ℕ) (r : Record)
    (known : virtual_record s h ≡ some (i, r)) where
  abbrev o : IsOpened s h i r
  o = virtual_record-some s h i r known

  cleared-Fits : Fits cleared.bytes cleared.size
  cleared-Fits = (omega arith, omega arith)

  cleared_gone : (k : ℕ) → ¬ Matches cleared k
  cleared_gone k m = cc

  closes : archive_close_handle kernel h (s, os) ≡ (true, (put_record s i cleared, os))
  unfolding archive_close_handle
  closes = ground (arith, known)

  -- Closing a virtual handle succeeds without the kernel: the handle is then unknown, every other
  -- handle means what it did, and the state stays valid.
  pub archive_close_handle_lem :
      (k : ℕ)
      → k ≢ h
      → (let x = archive_close_handle kernel h (s, os) in
          (x.0 ≡ true)
          × (virtual_record x.1.0 h ≡ none)
          × (virtual_record x.1.0 k ≡ virtual_record s k)
          × (x.1.1 ≡ os)
          × IsFs x.1.0)
  archive_close_handle_lem k ne =
      let keeps : (k : ℕ) → Matches cleared k → Matches r k = λ k m. absurd (cleared_gone k m) in
      rw closes (
        refl,
        virtual_record-cleared s v h i r cleared o cleared-Fits keeps (cleared_gone h),
        virtual_record-put_ne s v h i r cleared o cleared-Fits keeps k ne,
        refl,
        put_record-IsFs s v h i r cleared o cleared-Fits keeps,
      )

  abbrev placed : ℕ → Record
  placed n = record r { position = n }
