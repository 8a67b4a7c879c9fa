-- ===== src/ArchiveFs/Start/Loaded.antt =====
-- Theorems on `load_archive` of win32_archive_fs.c.
use libsamp.Common.{
  ℕ, ◌+◌, ◌-◌, ◌<◌, ◌≡◌, ◌^◌, refl, sym, ap, ◌∙◌, subst, length, arith, Bool, true, false, Option,
  none, some, List, leb, ◌==◌, not, ◌&&◌,
}
use libsamp.Common.Outcome.{Outcome, done, fail, fault}
use libsamp.ArchiveFs.Setup.State.{State, System, Ends, Ends-and_then, Ends-require, call, taken}
use libsamp.ArchiveFs.Setup.Load.{
  or_zero, read_loop, read_archive, alloc_archive, close_file, closing, load_archive, load_args,
  archive_max_bytes, invalid_handle_value,
}
use libsamp.ArchiveFs.Hooks.Back.{Slot}
use libsamp.ArchiveFs.Start.Left.{bit, block, IsLeft, IsSystem}
use libsamp.ArchiveFs.Start.Stage.{IsStage, HasBuffer, IsStage-change, HasBuffer-change}
use libsamp.ArchiveFs.Start.Filled.{Filled, Complete, read_loop-Ends}
use libsamp.ArchiveFs.Start.Reading.{IsRead, IsLoaded}

-- An archive in the buffer, all of it.
abbrev pub HasArchive : {Os : Type 0} → (List Slot → Type 0) → State Os → Type 0
HasArchive IsBack s =
    IsStage IsBack 0 false false s × HasBuffer s.archive_size s × (s.archive_size < 2 ^ 32)

module _ {Os : Type 0} (system : System Os) (valid : IsSystem system)
    (IsBack : List Slot → Type 0) where
  abbrev Allocated : ℕ → ℕ → Bool → Bool → State Os → Unit {0} → State Os → Type 0
  Allocated size extra main script s _ s' =
      Filled IsBack size extra main script s' × (s'.os ≡ (system.heap_alloc size s.os).1)

  alloc_archive-Ends :
      (size extra : ℕ) (main script : Bool) (s : State Os)
      → IsStage IsBack extra main script s
      → s.archive_data ≡ none
      → Ends
          (Allocated size extra main script s)
          (IsLeft IsBack extra)
          (alloc_archive system size s)
  unfolding alloc_archive
  alloc_archive-Ends size extra main script s v empty =
      by_block (system.heap_alloc size s.os).0 refl
    where
      counted : s.held ≡ extra + (0 + bit s.main_held + bit s.script_held)
      counted =
          v.left.balanced ∙ ap (λ o. extra + (block o + bit s.main_held + bit s.script_held)) empty

      by_block :
          (o : Option (List ℕ))
          → (system.heap_alloc size s.os).0 ≡ o
          → Ends {Os = Os} {A = Unit {0}}
              (Allocated size extra main script s)
              (IsLeft IsBack extra)
              (let os = (system.heap_alloc size s.os).1 in
                elim o [
                  | none ↦ (fail, record s { os = os; archive_data = none })
                  | some block ↦
                      (done tt, record s { os = os; archive_data = some block; held = s.held + 1 })
                ])
      by_block none e = record {
        inactive = v.left.inactive;
        balanced = counted;
        uninstalled = v.left.uninstalled;
        same = v.left.same;
      }
      by_block (some bytes) e =
          let new = valid.allocates size s.os bytes e in
          (
            (
              record {
                left = record {
                  inactive = v.left.inactive;
                  balanced = omega (arith, counted);
                  uninstalled = v.left.uninstalled;
                  same = v.left.same;
                };
                valid = v.valid;
                main_is = v.main_is;
                script_is = v.script_is;
              },
              record { bytes = bytes; is = refl; room = new.0; all = new.1 },
            ),
            refl,
          )

  -- The bytes of the buffer are those that reads delivered, which asked for the size of the file
  -- and went on from the state in which the block was there.
  abbrev FromFile : ℕ → ℕ → State Os → State Os → Type 0
  FromFile file n s s' =
      let size = system.kernel.get_file_size file true s.os in
      (bytes : List ℕ) × (n ≡ size.0.0)
      × IsRead system file n (system.heap_alloc n size.1).1 bytes s'.os
      × (s'.archive_data ≡ some bytes)

  abbrev Loaded : ℕ → ℕ → State Os → ℕ → State Os → Type 0
  Loaded file extra s n s' =
      Filled IsBack n extra false false s' × (n < 2 ^ 32) × FromFile file n s s'

  read_archive-Ends :
      (file extra : ℕ) (s : State Os)
      → IsStage IsBack extra false false s
      → s.archive_data ≡ none
      → Ends (Loaded file extra s) (IsLeft IsBack extra) (read_archive system file s)
  unfolding read_archive call
  read_archive-Ends file extra s v empty =
      let r = system.kernel.get_file_size file true s.os in
      let n = r.0.0 in
      let s1 = record s { os = r.1 } in
      let v1 =
        IsStage-change IsBack extra extra s.held s.archive_size false false s r.1 v (λ e. e) in
      let Q = Loaded file extra s in
      let F = IsLeft IsBack extra in
      Ends-require Q F (or_zero r.0.1 == 0 && not (n == 0) && leb n archive_max_bytes) s1 _ v1.left
        λ t.
          let word : n < 2 ^ 32 = ground (arith, t) in
          Ends-and_then (Allocated n extra false false s1) Q F (alloc_archive system n s1) _
            (alloc_archive-Ends n extra false false s1 v1 empty)
            λ _ s2 (f2, os2).
              Ends-and_then (Complete system valid IsBack file n 0 extra false false f2.1.bytes s2)
                Q F (read_loop system (n + 1) file n 0 s2) _
                (read_loop-Ends system valid IsBack (n + 1) file n 0 extra false false s2 word
                  (omega arith) (omega arith) f2)
                λ _ s3 (f3, (bytes, read, is)).
                  let all_of_it : n - 0 ≡ n = omega arith in
                  (
                    f3,
                    word,
                    (
                      bytes,
                      refl,
                      subst (λ os. IsRead system file n os bytes s3.os) os2
                          (subst (λ m. IsRead system file m s2.os bytes s3.os) all_of_it read),
                      is,
                    ),
                  )

  -- Every path closes the file that was opened.
  closing-Ends :
      (file : ℕ) (s : State Os) (r : Outcome ℕ × State Os)
      → Ends (Loaded file 1 s) (IsLeft IsBack 1) r
      → Ends (Loaded file 1 s) (IsLeft IsBack 0) (closing system file r)
  unfolding closing close_file call
  closing-Ends file s0 (done n, s) v = v
  closing-Ends file s0 (fail, s) v = record {
    inactive = v.inactive;
    balanced = omega (arith, v.balanced);
    uninstalled = v.uninstalled;
    same = v.same;
  }
  closing-Ends file s0 (fault, s) v = v

  -- On a system as in `IsSystem`, loading the archive returns: its loop ends within its fuel. With 1
  -- the archive's size is the one that `GetFileSize` answered, below 2^32, and the buffer holds that
  -- many bytes, which are those that the `ReadFile`s of the opened file delivered, each asked for what
  -- was missing and in their order; with 0 nothing is held but the block that the cleanup frees; and
  -- on both the file is closed.
  pub load_archive-Ends :
      (path : List ℕ) (s : State Os)
      → IsStage IsBack 0 false false s
      → s.archive_data ≡ none
      → Ends {Os = Os} {A = Unit {0}}
          (λ _ s'. HasArchive IsBack s' × IsLoaded system path s s')
          (IsLeft IsBack 0)
          (load_archive system path s)
  unfolding load_archive close_file call
  load_archive-Ends path s v empty =
      let r = system.kernel.create_file_a (some path) load_args s.os in
      let s1 = record s { os = r.1 } in
      let s2 = taken s1 in
      let v1 = IsStage-change IsBack 0 0 s.held s.archive_size false false s r.1 v (λ e. e) in
      let v2 =
        IsStage-change IsBack 0 1 (s.held + 1) s.archive_size false false s r.1 v
          (λ e. omega (arith, e)) in
      let Q : Unit {0} → State Os → Type 0 =
        λ _ s'. HasArchive IsBack s' × IsLoaded system path s s' in
      let F = IsLeft IsBack 0 in
      Ends-require Q F (not (r.0 == invalid_handle_value)) s1 _ v1.left λ t.
        Ends-and_then (Loaded r.0 1 s2) Q F (closing system r.0 (read_archive system r.0 s2)) _
          (closing-Ends r.0 s2 (read_archive system r.0 s2) (read_archive-Ends r.0 1 s2 v2 empty))
          λ n s3 ((v3, b3), word, (bytes, size, read, is)).
            let c = system.kernel.close_handle r.0 s3.os in
            let s4 = record s3 { held = s3.held - 1; os = c.1 } in
            let same : b3.bytes ≡ bytes = some-inj b3.bytes bytes (sym b3.is ∙ is) in
            Ends-require Q F c.0 s4 _
              (IsStage-change IsBack 1 0 (s3.held - 1) s3.archive_size false false s3 c.1 v3
                (λ e. omega (arith, e))).left
              λ closed. (
                (
                  IsStage-change IsBack 1 0 (s3.held - 1) n false false s3 c.1 v3
                      (λ e. omega (arith, e)),
                  HasBuffer-change (s3.held - 1) n n s3 c.1 b3,
                  word,
                ),
                (bytes, s3.os, size, is, sym (ap length same) ∙ b3.room, read, refl),
              )
    where
      some-inj : (xs ys : List ℕ) → some xs ≡ some ys → xs ≡ ys
      some-inj xs ys e = cc
