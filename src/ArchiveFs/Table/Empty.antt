-- ===== src/ArchiveFs/Table/Empty.antt =====
-- The table of win32_archive_fs.c after a start: no file is open.
use libsamp.Common.{ℕ, ◌≡◌, refl, sym, subst, arith, replicate, get_or-replicate}
use libsamp.ArchiveFs.Table.{Record, cleared, Table, handle_base, open_records}
use libsamp.ArchiveFs.Table.Lookup.{at, Matches}
use libsamp.ArchiveFs.Table.Allocate.{Fits, IsTable}

abbrev pub empty_table : Table
empty_table = record { records = replicate open_records cleared; next_fake_handle = handle_base }

empty_at : (i : ℕ) → at (replicate open_records cleared) i ≡ cleared
empty_at i = get_or-replicate open_records i cleared

never : (i h : ℕ) → ¬ Matches (at (replicate open_records cleared) i) h
never i h m = let e : Matches cleared h = subst (λ (x : Record). Matches x h) (empty_at i) m in cc

pub empty_table-IsTable : IsTable empty_table
empty_table-IsTable = record {
  slots = refl;
  place = 0;
  next_place = refl;
  distinct = λ i j h m k. absurd (never i h m);
  sizes = λ i.
      subst (λ (x : Record). Fits x.bytes x.size) (sym (empty_at i)) (omega arith, omega arith);
  nonzero = λ i h m. absurd (never i h m);
}
