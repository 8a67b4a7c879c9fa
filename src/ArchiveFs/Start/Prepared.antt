-- ===== src/ArchiveFs/Start/Prepared.antt =====
-- Theorems on the part of the start of win32_archive_fs.c that reads the archive and its two files.
use libsamp.Common.{
  ℕ, ◌+◌, ◌<◌, ◌≤◌, ◌≡◌, ◌^◌, refl, ap, sym, ◌∙◌, subst, arith, Bool, true, false, ◌&&◌, Option,
  none, some, List,
}
use libsamp.Common.Outcome.{Outcome, done, Returns}
use libsamp.Saa.Layout.{Layout, samp_saa_parse_layout}
use libsamp.Saa.Layout.Accepts.{samp_saa_parse_layout_iff, samp_saa_parse_layout-Returns}
use libsamp.Saa.Archive.{Archive, samp_saa_open_verified}
use libsamp.Saa.Archive.Open.{
  IsOpen, samp_saa_open_verified-IsOpen, samp_saa_open_verified-Returns,
  samp_saa_open_verified-bytes,
}
use libsamp.ArchiveFs.Handlers.{main_hash, script_hash}
use libsamp.ArchiveFs.Setup.State.{
  State, System, Ends, Ends-and_then, Ends-require, Ends-weaken, Ends-outcome, ◌>>=◌, ◌>>◌, require,
  answer, put,
}
use libsamp.ArchiveFs.Setup.Load.{resolve_kernel_apis, all_resolved, api_names, load_archive}
use libsamp.ArchiveFs.Setup.Verify.{verify_archive_signature}
use libsamp.ArchiveFs.Start.{extract_required_file, put_main, put_script, is_sane, prepare_files}
use libsamp.ArchiveFs.Hooks.Back.{Slot}
use libsamp.ArchiveFs.Start.Left.{IsLeft, IsSystem}
use libsamp.ArchiveFs.Start.Stage.{IsStage, IsStage-change, HasBuffer, HasBuffer-change}
use libsamp.ArchiveFs.Start.Reading.{IsLoaded}
use libsamp.ArchiveFs.Start.Loaded.{HasArchive, load_archive-Ends}
use libsamp.ArchiveFs.Start.Verified.{IsSame, HasSignature, verify_archive_signature-Ends}
use libsamp.ArchiveFs.Start.Extracted.{IsContent, Extracted, extract_required_file-Ends}

-- What the start has read.
pub record IsServed {Os : Type 0} (system : System Os) (layout : Layout) (s : State Os)
    : Type 0 where
  pub archive : Archive
  pub opened : IsOpen archive
  pub whole : s.archive_data ≡ some archive.bytes
  pub parsed : samp_saa_parse_layout s.archive_data s.archive_size ≡ done layout
  pub checked_at : Os
  pub signed : HasSignature system layout archive.bytes checked_at
  pub main : IsContent archive main_hash s.fs.main_data s.fs.main_size
  pub script : IsContent archive script_hash s.fs.script_data s.fs.script_size
  pub sane : is_sane s.fs ≡ true

module _ {Os : Type 0} (system : System Os) (IsBack : List Slot → Type 0) where
  -- The pointer to a file that was extracted is stored.
  put_main-IsStage :
      (archive : Archive) (hash : ℕ) (script : Bool) (r : List ℕ × ℕ) (s s' : State Os)
      → IsStage IsBack 0 false script s
      → Extracted system archive hash s r s'
      → IsStage IsBack 0 true script (put_main system r s')
  put_main-IsStage archive hash script r s s' v ((os, e), c) =
      subst (λ (x : State Os). IsStage IsBack 0 true script (put_main system r x)) (sym e)
        (record {
          left = record {
            inactive = v.left.inactive;
            balanced = ground (arith, v.left.balanced, v.main_is);
            uninstalled = v.left.uninstalled;
            same = v.left.same;
          };
          valid = record {
            table = v.valid.table;
            main = (omega (arith, c.room), omega (arith, c.word));
            script = v.valid.script;
          };
          main_is = refl;
          script_is = v.script_is;
        })

  put_script-IsStage :
      (archive : Archive) (hash : ℕ) (main : Bool) (r : List ℕ × ℕ) (s s' : State Os)
      → IsStage IsBack 0 main false s
      → Extracted system archive hash s r s'
      → IsStage IsBack 0 main true (put_script system r s')
  put_script-IsStage archive hash main r s s' v ((os, e), c) =
      subst (λ (x : State Os). IsStage IsBack 0 main true (put_script system r x)) (sym e)
        (record {
          left = record {
            inactive = v.left.inactive;
            balanced = ground (arith, v.left.balanced, v.script_is);
            uninstalled = v.left.uninstalled;
            same = v.left.same;
          };
          valid = record {
            table = v.valid.table;
            main = v.valid.main;
            script = (omega (arith, c.room), omega (arith, c.word));
          };
          main_is = v.main_is;
          script_is = refl;
        })

  -- What holds after the archive is read and its layout is known does not depend on the system.
  abbrev Parsed : Layout → State Os → Type 0
  Parsed layout s =
      IsStage IsBack 0 false false s
      × HasBuffer s.archive_size s
      × (s.archive_size < 2 ^ 32)
      × (samp_saa_parse_layout s.archive_data s.archive_size ≡ done layout)

  Parsed-IsSame :
      (layout : Layout) (s s' : State Os) → Parsed layout s → IsSame s s' → Parsed layout s'
  Parsed-IsSame layout s s' (v, b, word, e) (os, is) = subst (Parsed layout) (sym is) (
    IsStage-change IsBack 0 0 s.held s.archive_size false false s os v (λ x. x),
    HasBuffer-change s.held s.archive_size s.archive_size s os b,
    word,
    e,
  )

  IsLeft-IsSame :
      (main script : Bool) (s s' : State Os)
      → IsStage IsBack 0 main script s
      → IsSame s s'
      → IsLeft IsBack 0 s'
  IsLeft-IsSame main script s s' v (os, is) =
      subst (IsLeft IsBack 0) (sym is)
        (IsStage-change IsBack 0 0 s.held s.archive_size main script s os v (λ x. x)).left

  parse-Returns :
      (s : State Os)
      → HasBuffer s.archive_size s
      → s.archive_size < 2 ^ 32
      → Returns (samp_saa_parse_layout s.archive_data s.archive_size)
  parse-Returns s b word =
      subst (λ o. Returns (samp_saa_parse_layout o s.archive_size)) (sym b.is)
        (samp_saa_parse_layout-Returns b.bytes s.archive_size b.all (omega (arith, b.room)) word)

  -- The signature ends the archive.
  parse-fits :
      (layout : Layout) (s : State Os)
      → Parsed layout s
      → layout.signature_offset + layout.signature_size ≤ s.archive_size
  parse-fits layout s (v, b, word, e) =
      let parsed =
        (samp_saa_parse_layout_iff b.bytes s.archive_size b.all (omega (arith, b.room)) word
            layout).0
          (subst (λ o. samp_saa_parse_layout o s.archive_size ≡ done layout) b.is e) in
      omega (arith, parsed.1)

  open-Returns :
      (s : State Os)
      → HasBuffer s.archive_size s
      → s.archive_size < 2 ^ 32
      → Returns (samp_saa_open_verified s.archive_data s.archive_size true)
  open-Returns s b word =
      subst (λ o. Returns (samp_saa_open_verified o s.archive_size true)) (sym b.is)
        (samp_saa_open_verified-Returns b.bytes s.archive_size b.all (omega (arith, b.room)) word
          true)

  open-IsOpen :
      (archive : Archive) (s : State Os)
      → HasBuffer s.archive_size s
      → s.archive_size < 2 ^ 32
      → samp_saa_open_verified s.archive_data s.archive_size true ≡ done archive
      → IsOpen archive × (s.archive_data ≡ some archive.bytes)
  open-IsOpen archive s b word e =
      let e' = subst (λ o. samp_saa_open_verified o s.archive_size true ≡ done archive) b.is e in
      (
        (samp_saa_open_verified-IsOpen b.bytes s.archive_size b.all (omega (arith, b.room)) word
            true archive e').0,
        b.is
            ∙ ap some (
                sym (
                  samp_saa_open_verified-bytes b.bytes s.archive_size b.all (omega (arith, b.room))
                    word archive e')),
      )

  -- The archive that is opened is the one that was checked.
  same_bytes :
      (s s' : State Os) (archive : Archive) (bytes : List ℕ)
      → IsSame s s'
      → s.archive_data ≡ some bytes
      → s'.archive_data ≡ some archive.bytes
      → bytes ≡ archive.bytes
  same_bytes s s' archive bytes (os, is) e e' =
      let same : s'.archive_data ≡ s.archive_data = ap (λ (x : State Os). x.archive_data) is in cc

  abbrev pub Prepared : Layout → State Os → Type 0
  Prepared layout s = IsStage IsBack 0 true true s × IsServed system layout s

  -- The two files, once the archive is open.
  extract_files-Ends :
      (layout : Layout) (archive : Archive) (checked_at : Os) (s : State Os)
      → Parsed layout s
      → HasSignature system layout archive.bytes checked_at
      → IsOpen archive
      → s.archive_data ≡ some archive.bytes
      → Ends Prepared (IsLeft IsBack 0) (
          (extract_required_file system archive main_hash >>= λ main.
          put (put_main system main)
          >> (extract_required_file system archive script_hash >>= λ script.
              put (put_script system script)
              >> ((λ s'. require (is_sane s'.fs) s') >> answer (done layout))))
            s)
  extract_files-Ends layout archive checked_at s (v, b, word, e) signed opened whole =
      Ends-and_then (Extracted system archive main_hash s) Prepared (IsLeft IsBack 0)
        (extract_required_file system archive main_hash s) _
        (Ends-weaken (Extracted system archive main_hash s) (Extracted system archive main_hash s)
          (IsSame s) (IsLeft IsBack 0) (extract_required_file system archive main_hash s)
          (extract_required_file-Ends system archive main_hash s opened) (λ r s' x. x)
          (λ s' same. IsLeft-IsSame false false s s' v same))
        λ main s1 (g1, c1).
          let s2 = put_main system main s1 in
          let v2 = put_main-IsStage archive main_hash false main s s1 v (g1, c1) in
          Ends-and_then (Extracted system archive script_hash s2) Prepared (IsLeft IsBack 0)
            (extract_required_file system archive script_hash s2) _
            (Ends-weaken (Extracted system archive script_hash s2)
              (Extracted system archive script_hash s2) (IsSame s2) (IsLeft IsBack 0)
              (extract_required_file system archive script_hash s2)
              (extract_required_file-Ends system archive script_hash s2 opened) (λ r s' x. x)
              (λ s' same. IsLeft-IsSame true false s2 s' v2 same))
            λ script s3 (g3, c3).
              let s4 = put_script system script s3 in
              let v4 = put_script-IsStage archive script_hash true script s2 s3 v2 (g3, c3) in
              Ends-require Prepared (IsLeft IsBack 0) (is_sane s4.fs) s4 _ v4.left λ sane.
                let data_of : State Os → Option (List ℕ) = λ x. x.archive_data in
                let parse_of : State Os → Outcome Layout =
                  λ x. samp_saa_parse_layout x.archive_data x.archive_size in
                (
                  v4,
                  record {
                    archive = archive;
                    opened = opened;
                    whole = ap data_of g3.1 ∙ ap data_of g1.1 ∙ whole;
                    parsed = ap parse_of g3.1 ∙ ap parse_of g1.1 ∙ e;
                    checked_at = checked_at;
                    signed = signed;
                    main =
                        subst
                          (λ (x : State Os).
                            IsContent archive main_hash x.fs.main_data x.fs.main_size)
                          (sym g3.1) c1;
                    script = c3;
                    sane = sane;
                  },
                )

module _ {Os : Type 0} (system : System Os) (valid : IsSystem system)
    (IsBack : List Slot → Type 0) where
  -- Reading the archive returns, and leaves its two files or what the cleanup undoes.
  pub prepare_files-Ends :
      (path : List ℕ) (s : State Os)
      → IsStage IsBack 0 false false s
      → s.archive_data ≡ none
      → Ends (Prepared system IsBack) (IsLeft IsBack 0) (prepare_files system path s)
  unfolding prepare_files resolve_kernel_apis
  prepare_files-Ends path s v empty =
      let Q : Layout → State Os → Type 0 = Prepared system IsBack in
      let F : State Os → Type 0 = IsLeft IsBack 0 in
      Ends-require Q F (system.kernel_module && all_resolved system.proc_address api_names) s _
        v.left
        λ _.
          Ends-and_then (λ _ s'. HasArchive IsBack s' × IsLoaded system path s s') Q F
            (load_archive system path s) _ (load_archive-Ends system valid IsBack path s v empty)
            λ _ s1 ((v1, b1, word), loaded).
              Ends-outcome Q F (samp_saa_parse_layout s1.archive_data s1.archive_size) s1 _
                (parse-Returns system IsBack s1 b1 word) v1.left
                λ layout e1.
                  let p1 : Parsed system IsBack layout s1 = (v1, b1, word, e1) in
                  Ends-and_then (λ _ s'. IsSame s1 s' × HasSignature system layout b1.bytes s1.os) Q
                    F (verify_archive_signature system layout s1) _
                    (Ends-weaken {A = Unit {0}}
                      (λ _ s'. IsSame s1 s' × HasSignature system layout b1.bytes s1.os)
                      (λ _ s'. IsSame s1 s' × HasSignature system layout b1.bytes s1.os) (IsSame s1)
                      F (verify_archive_signature system layout s1)
                      (verify_archive_signature-Ends system layout s1 b1
                        (parse-fits system IsBack layout s1 p1))
                      (λ _ s' x. x)
                      (λ s' same. IsLeft-IsSame system IsBack false false s1 s' v1 same))
                    λ _ s2 (same, signed).
                      let p2 = Parsed-IsSame system IsBack layout s1 s2 p1 same in
                      let b2 = p2.1 in
                      Ends-outcome Q F (samp_saa_open_verified s2.archive_data s2.archive_size true)
                        s2 _ (open-Returns system IsBack s2 b2 p2.2) p2.0.left
                        λ archive e2.
                          let opened = open-IsOpen system IsBack archive s2 b2 p2.2 e2 in
                          extract_files-Ends system IsBack layout archive s1.os s2 p2
                            (subst (λ x. HasSignature system layout x s1.os)
                              (same_bytes system IsBack s1 s2 archive b1.bytes same b1.is opened.1)
                              signed)
                            opened.0 opened.1
