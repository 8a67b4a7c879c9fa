-- ===== src/ArchiveFs/Start/Reading.antt =====
-- What the reads of `load_archive` of win32_archive_fs.c put into its buffer.
use libsamp.Common.{
  ℕ, ◌+◌, ◌-◌, ◌≤◌, ◌≡◌, refl, sym, ap, ◌∙◌, subst, arith, true, some, List, [], ◌∷◌, ◌++◌, length,
  take, drop, length-append, length-take, take-append_self, take_all,
}
use libsamp.ArchiveFs.Setup.State.{State, System}
use libsamp.ArchiveFs.Setup.Load.{write_at, load_read, load_args}

-- `ReadFile`s of a file that take the system from one state to another: each asks for the bytes
-- that are missing and succeeds, and their bytes, one after the other, are as many as were missing.
pub data IsRead {Os : Type 0} (system : System Os) (file : ℕ) : ℕ → Os → List ℕ → Os → Type 0 where
  all : {n : ℕ} {os : Os} → n ≡ 0 → IsRead system file n os [] os
  chunk :
      {n m : ℕ} {os os' : Os} {rest : List ℕ}
      → (system.kernel.read_file file (load_read system n) os).0.ok ≡ true
      → length (system.kernel.read_file file (load_read system n) os).0.copied + m ≡ n
      → IsRead system file m (system.kernel.read_file file (load_read system n) os).1 rest os'
      → IsRead system file n os
          ((system.kernel.read_file file (load_read system n) os).0.copied ++ rest)
          os'

append_assoc : (xs ys zs : List ℕ) → (xs ++ ys) ++ zs ≡ xs ++ (ys ++ zs)
append_assoc [] ys zs = refl
append_assoc (x ∷ xs) ys zs = ap (λ t. x ∷ t) (append_assoc xs ys zs)

append_nil : (xs : List ℕ) → xs ++ [] ≡ xs
append_nil [] = refl
append_nil (x ∷ xs) = ap (λ t. x ∷ t) (append_nil xs)

-- What stands in the buffer up to the end of what was written.
pub take-write_at :
    (total n : ℕ) (copied buffer : List ℕ)
    → total ≤ length buffer
    → n ≡ total + length copied
    → take n (write_at total copied buffer) ≡ take total buffer ++ copied
take-write_at total n copied buffer low e =
    let rest = drop (total + length copied) buffer in
    ap (take n) (sym (append_assoc (take total buffer) copied rest))
    ∙ take-append_self n (take total buffer ++ copied) rest
        (omega (arith, length-append (take total buffer) copied, length-take total buffer, e))

module _ {Os : Type 0} (system : System Os) (file : ℕ) where
  -- What stood in the buffer up to `total`, and behind it all the bytes that the reads between two
  -- states delivered.
  abbrev pub HasRead : ℕ → ℕ → List ℕ → State Os → State Os → Type 0
  HasRead size total bytes s s' =
      (rest : List ℕ) × IsRead system file (size - total) s.os rest s'.os
      × (s'.archive_data ≡ some (take total bytes ++ rest))

  pub HasRead-end :
      (size total : ℕ) (bytes : List ℕ) (s : State Os)
      → size ≤ total
      → length bytes ≤ total
      → s.archive_data ≡ some bytes
      → HasRead size total bytes s s
  HasRead-end size total bytes s low room e = (
    [],
    all (omega (arith, low)),
    e ∙ ap some (sym (append_nil (take total bytes) ∙ take_all total bytes room)),
  )

  pub HasRead-chunk :
      (size total total' : ℕ) (bytes bytes' : List ℕ) (s s1 s' : State Os)
      → (let r = system.kernel.read_file file (load_read system (size - total)) s.os in
          r.0.ok ≡ true
          → s1.os ≡ r.1
          → total' ≡ total + length r.0.copied
          → total' ≤ size
          → total ≤ length bytes
          → bytes' ≡ write_at total r.0.copied bytes
          → HasRead size total' bytes' s1 s'
          → HasRead size total bytes s s')
  HasRead-chunk size total total' bytes bytes' s s1 s' ok next count low room e (rest, read, is) =
      let copied = (system.kernel.read_file file (load_read system (size - total)) s.os).0.copied in
      (
        copied ++ rest,
        chunk {m = size - total'} ok (omega (arith, count, low))
            (subst (λ os. IsRead system file (size - total') os rest s'.os) next read),
        is
            ∙ ap (λ x. some (take total' x ++ rest)) e
            ∙ ap (λ x. some (x ++ rest)) (take-write_at total total' copied bytes room count)
            ∙ ap some (append_assoc (take total bytes) copied rest),
      )

-- The file that was opened, all of its size, is in the buffer.
abbrev pub IsLoaded : {Os : Type 0} → System Os → List ℕ → State Os → State Os → Type 0
IsLoaded {Os = Os} system path s s' =
    let file = system.kernel.create_file_a (some path) load_args s.os in
    let size = system.kernel.get_file_size file.0 true file.1 in
    let block = system.heap_alloc s'.archive_size size.1 in
    (bytes : List ℕ) × (os : Os) × (s'.archive_size ≡ size.0.0)
    × (s'.archive_data ≡ some bytes)
    × (length bytes ≡ s'.archive_size)
    × IsRead system file.0 s'.archive_size block.1 bytes os
    × (s'.os ≡ (system.kernel.close_handle file.0 os).1)
