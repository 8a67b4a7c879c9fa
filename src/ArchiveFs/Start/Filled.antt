-- ===== src/ArchiveFs/Start/Filled.antt =====
-- The loop of `load_archive` of win32_archive_fs.c.
use libsamp.Common.{
  ℕ, zero, suc, ◌+◌, ◌-◌, ◌<◌, ◌≤◌, ◌≡◌, ◌^◌, refl, sym, ap, ◌∙◌, arith, Bool, true, false, Option,
  none, some, List, length, u32, ltb,
}
use libsamp.Common.Outcome.{done, fail}
use libsamp.ArchiveFs.Setup.State.{State, System, Ends, Ends-weaken}
use libsamp.ArchiveFs.Setup.Load.{
  or_zero, write_at, write_archive, load_read, read_chunk, read_loop,
}
use libsamp.ArchiveFs.Hooks.Back.{Slot}
use libsamp.ArchiveFs.Start.Left.{bit, block, IsLeft, IsSystem}
use libsamp.ArchiveFs.Start.Stage.{IsStage, HasBuffer, write_at-AreBytes, length-write_at}
use libsamp.ArchiveFs.Start.Reading.{HasRead, HasRead-end, HasRead-chunk}

-- The buffer, in a state on the way.
abbrev pub Filled : {Os : Type 0} → (List Slot → Type 0) → ℕ → ℕ → Bool → Bool → State Os → Type 0
Filled IsBack size extra main script s = IsStage IsBack extra main script s × HasBuffer size s

module _ {Os : Type 0} (system : System Os) (valid : IsSystem system)
    (IsBack : List Slot → Type 0) where
  some-inj : (xs ys : List ℕ) → some xs ≡ some ys → xs ≡ ys
  some-inj xs ys e = cc

  block-write_archive :
      (total : ℕ) (copied : List ℕ) (o : Option (List ℕ))
      → block o ≡ block (write_archive total copied o)
  block-write_archive total copied none = refl
  block-write_archive total copied (some buffer) = refl

  read_chunk-IsStage :
      (file size total extra : ℕ) (main script : Bool) (s : State Os)
      → IsStage IsBack extra main script s
      → IsStage IsBack extra main script (read_chunk system file size total s).1
  unfolding read_chunk
  read_chunk-IsStage file size total extra main script s v =
      let r = (system.kernel.read_file file (load_read system (size - total)) s.os).0 in
      record {
        left = record {
          inactive = v.left.inactive;
          balanced =
              v.left.balanced
              ∙ ap (λ (n : ℕ). extra + (n + bit s.main_held + bit s.script_held))
                  (block-write_archive total r.copied s.archive_data);
          uninstalled = v.left.uninstalled;
          same = v.left.same;
        };
        valid = v.valid;
        main_is = v.main_is;
        script_is = v.script_is;
      }

  -- After a chunk with which the loop goes on, the buffer is one of bytes, and the chunk was in it.
  read_chunk-HasBuffer :
      (file size total : ℕ) (s : State Os)
      → total < size
      → (b : HasBuffer size s)
      → (let r = read_chunk system file size total s in
          r.0.0 ≡ true
          → (0 < r.0.1)
            × (total + r.0.1 ≤ size)
            × HasBuffer size r.1
            × ((system.kernel.read_file file (load_read system (size - total)) s.os).0.ok ≡ true)
            × (r.0.1
                ≡ length
                    (system.kernel.read_file file (load_read system (size - total)) s.os).0.copied)
            × (r.1.archive_data
                ≡ some (
                    write_at total
                      (system.kernel.read_file file (load_read system (size - total)) s.os).0.copied
                      b.bytes))
            × (r.1.os ≡ (system.kernel.read_file file (load_read system (size - total)) s.os).1))
  unfolding read_chunk
  read_chunk-HasBuffer file size total s low b go =
      let r = (system.kernel.read_file file (load_read system (size - total)) s.os).0 in
      let good = valid.reads file (size - total) s.os (ground (arith, go)) in
      let chunk : or_zero r.count ≡ length r.copied = ap or_zero good.0 in
      (
        ground (arith, go),
        omega (arith, chunk, good.1, low),
        record {
          bytes = write_at total r.copied b.bytes;
          is = ap (write_archive total r.copied) b.is;
          room =
              length-write_at total r.copied b.bytes (omega (arith, good.1, low, b.room)) ∙ b.room;
          all = write_at-AreBytes total r.copied b.bytes good.2 b.all;
        },
        ground (arith, go),
        chunk,
        ap (write_archive total r.copied) b.is,
        refl,
      )

  -- What the loop leaves: the rest of the buffer is what its reads delivered.
  abbrev pub Complete :
      ℕ → ℕ → ℕ → ℕ → Bool → Bool → List ℕ → State Os → Unit {0} → State Os → Type 0
  Complete file size total extra main script bytes s _ s' =
      Filled IsBack size extra main script s' × HasRead system file size total bytes s s'

  -- The loop returns: what is left to read gets less, so enough fuel is given.
  pub read_loop-Ends :
      (fuel file size total extra : ℕ) (main script : Bool) (s : State Os)
      → size < 2 ^ 32
      → total ≤ size
      → size - total < fuel
      → (v : Filled IsBack size extra main script s)
      → Ends {Os = Os} {A = Unit {0}}
          (Complete file size total extra main script v.1.bytes s)
          (IsLeft IsBack extra)
          (read_loop system fuel file size total s)
  unfolding read_loop
  read_loop-Ends zero file size total extra main script s word low enough v =
      absurd (omega (arith, enough))
  read_loop-Ends (suc fuel) file size total extra main script s word low enough (v, b) =
      by_test
        (λ total' s' low' enough' v'.
          read_loop-Ends fuel file size total' extra main script s' word low' enough' v')
        (ltb total size) refl
    where
      Q : Unit {0} → State Os → Type 0
      Q = Complete file size total extra main script b.bytes s

      Rest : Type 0
      Rest =
          (total' : ℕ) (s' : State Os)
          → total' ≤ size
          → size - total' < fuel
          → (v' : Filled IsBack size extra main script s')
          → Ends {Os = Os} {A = Unit {0}}
              (Complete file size total' extra main script v'.1.bytes s') (IsLeft IsBack extra)
              (read_loop system fuel file size total' s')

      by_chunk :
          Rest
          → (go : Bool) → (read_chunk system file size total s).0.0 ≡ go
          → total < size
          → Ends {Os = Os} {A = Unit {0}} Q (IsLeft IsBack extra) (
              let r = read_chunk system file size total s in
              elim go [
                | false ↦ (fail, r.1)
                | true ↦ read_loop system fuel file size (u32 (total + r.0.1)) r.1
              ])
      by_chunk rest false e more = (read_chunk-IsStage file size total extra main script s v).left
      by_chunk rest true e more =
          let r = read_chunk system file size total s in
          let good = read_chunk-HasBuffer file size total s more b e in
          let b' = good.2 in
          let same = some-inj b'.bytes _ (sym b'.is ∙ good.5) in
          let n : u32 (total + r.0.1) ≡ total + r.0.1 = omega (arith, good.1, word) in
          Ends-weaken {A = Unit {0}}
            (Complete file size (u32 (total + r.0.1)) extra main script b'.bytes r.1) Q
            (IsLeft IsBack extra) (IsLeft IsBack extra)
            (read_loop system fuel file size (u32 (total + r.0.1)) r.1)
            (rest (u32 (total + r.0.1)) r.1 (omega (arith, good.1, word))
              (omega (arith, good.0, good.1, enough, word))
              (read_chunk-IsStage file size total extra main script s v, b'))
            (λ _ s' c. (
              c.0,
              HasRead-chunk system file size total (u32 (total + r.0.1)) b.bytes b'.bytes s r.1 s'
                  good.3 good.6 (n ∙ ap (λ x. total + x) good.4) (omega (arith, good.1, n))
                  (omega (arith, b.room, low)) same c.1,
            ))
            (λ s' c. c)

      by_test :
          Rest
          → (more : Bool) → ltb total size ≡ more
          → Ends {Os = Os} {A = Unit {0}} Q (IsLeft IsBack extra) (elim more [
            | false ↦ (done tt, s)
            | true ↦
                let r = read_chunk system file size total s in
                elim r.0.0 [
                  | false ↦ (fail, r.1)
                  | true ↦ read_loop system fuel file size (u32 (total + r.0.1)) r.1
                ]
          ])
      by_test rest false e =
          let over : size ≤ total = ground (arith, e) in
          (
            (v, b),
            HasRead-end system file size total b.bytes s over (omega (arith, b.room, over)) b.is,
          )
      by_test rest true e =
          by_chunk rest (read_chunk system file size total s).0.0 refl (ground (arith, e))
