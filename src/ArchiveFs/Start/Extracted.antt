-- ===== src/ArchiveFs/Start/Extracted.antt =====
-- `extract_required_file` of win32_archive_fs.c, on an archive that was opened.
use libsamp.Common.{
  ℕ, ◌+◌, ◌<◌, ◌≡◌, ◌^◌, refl, sym, subst, arith, not, Option, none, some, List, length, ◌==◌,
}
use libsamp.Common.Outcome.{done, fail}
use libsamp.Saa.Archive.{Archive, File, samp_saa_find, samp_saa_extract}
use libsamp.Saa.Archive.Open.{IsOpen, entry_at_bounds}
use libsamp.Saa.Archive.Find.{samp_saa_find-Returns, samp_saa_find_iff}
use libsamp.Saa.Archive.Extract.{samp_saa_extract_total}
use libsamp.ArchiveFs.Setup.State.{State, System, Ends, Ends-require, Ends-outcome, and_then}
use libsamp.ArchiveFs.Start.{free_block, alloc_block, freeing, extract_required_file}
use libsamp.ArchiveFs.Start.Left.{block}
use libsamp.ArchiveFs.Start.Verified.{IsSame}

-- The file of the hash in the archive, and what it decrypts to.
pub record IsContent (archive : Archive) (hash : ℕ) (bytes : List ℕ) (size : ℕ) : Type 0 where
  pub file : File
  pub found : samp_saa_find archive hash ≡ done file
  pub extracted : samp_saa_extract archive file file.size ≡ done bytes
  pub size_is : size ≡ file.size
  pub room : length bytes ≡ size
  pub word : size < 2 ^ 24

module _ {Os : Type 0} (system : System Os) where
  -- A state that holds one thing more.
  abbrev pub IsGrown : State Os → State Os → Type 0
  IsGrown s s' = (os : Os) × (s' ≡ record s { os = os; held = s.held + 1 })

  abbrev pub Extracted : Archive → ℕ → State Os → List ℕ × ℕ → State Os → Type 0
  Extracted archive hash s r s' = IsGrown s s' × IsContent archive hash r.0 r.1

  -- A file that the code extracts is one of the archive; a block is kept only with a file in it.
  pub extract_required_file-Ends :
      (archive : Archive) (hash : ℕ) (s : State Os)
      → IsOpen archive
      → Ends (Extracted archive hash s) (IsSame s) (extract_required_file system archive hash s)
  unfolding extract_required_file alloc_block freeing free_block
  extract_required_file-Ends archive hash s v =
      Ends-outcome (Extracted archive hash s) (IsSame s) (samp_saa_find archive hash) s _
        (samp_saa_find-Returns archive hash v) (s.os, refl)
        λ file found.
          Ends-require (Extracted archive hash s) (IsSame s) (not (file.size == 0)) s _ (s.os, refl)
            λ _. by_block file found (system.heap_alloc file.size s.os)
    where
      by_block :
          (file : File)
          → samp_saa_find archive hash ≡ done file
          → (r : Option (List ℕ) × Os)
          → Ends (Extracted archive hash s) (IsSame s) (
              and_then {A = Unit {0}}
                (λ _ s'.
                  and_then
                    (λ bytes s''. (done (bytes, file.size), s''))
                    (freeing system (samp_saa_extract archive file file.size) s'))
                (elim r.0 [
                  | none ↦ (fail, record s { os = r.1 })
                  | some block ↦ (done tt, record s { os = r.1; held = s.held + 1 })
                ]))
      by_block file found (none, os) = (os, refl)
      by_block file found (some b, os) =
          let is_file = (samp_saa_find_iff archive hash v file).0 found in
          let out = samp_saa_extract_total archive hash file.size file v is_file (omega arith) in
          subst
            (λ o. Ends (Extracted archive hash s) (IsSame s) (
              and_then (λ bytes s''. (done (bytes, file.size), s''))
                (freeing system o (record s { os = os; held = s.held + 1 }))))
            (sym out.1)
            (
              (os, refl),
              record {
                file = file;
                found = found;
                extracted = out.1;
                size_is = refl;
                room = out.2;
                word =
                    omega
                      (arith, is_file.entry_size, (entry_at_bounds archive file.entry_index v).2);
              },
            )
