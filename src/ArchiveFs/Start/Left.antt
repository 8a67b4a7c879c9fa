-- ===== src/ArchiveFs/Start/Left.antt =====
-- What the steps of the start of win32_archive_fs.c leave to its cleanup, and the cleanup.
use libsamp.Common.{
  ℕ, ◌+◌, ◌-◌, ◌≡◌, refl, sym, ◌∙◌, subst, arith, Bool, true, false, Option, none, some, List,
  length, ◌≤◌,
}
use libsamp.Saa.Bytes.Laws.{AreBytes}
use libsamp.ArchiveFs.Setup.Load.{load_read}
use libsamp.ArchiveFs.Hooks.{Hook}
use libsamp.ArchiveFs.Hooks.Whole.{AreUninstalled, restore-AreUninstalled}
use libsamp.ArchiveFs.Hooks.Back.{Slot, slots_of}
use libsamp.ArchiveFs.Setup.State.{State, System}
use libsamp.ArchiveFs.Start.{
  free_block, free_script, free_main, free_archive, free_archive_data, restore_hooks, set_active,
  clean_up,
}

abbrev pub bit : Bool → ℕ
bit false = 0
bit true = 1

abbrev pub block : Option (List ℕ) → ℕ
block none = 0
block (some bytes) = 1

-- The blocks that the three pointers hold.
abbrev pub blocks : {Os : Type 0} → State Os → ℕ
blocks s = block s.archive_data + bit s.main_held + bit s.script_held

-- No hook is installed, the slots are as `IsBack` says, and besides the blocks of the pointers the code
-- holds `extra` things.
pub record IsLeft {Os : Type 0} (IsBack : List Slot → Type 0) (extra : ℕ) (s : State Os)
    : Type 0 where
  pub inactive : s.fs.active ≡ false
  pub balanced : s.held ≡ extra + blocks s
  pub uninstalled : AreUninstalled s.hooks
  pub same : IsBack (slots_of s.hooks)

-- The state in which the program starts, and which a stop leaves.
pub record IsStopped {Os : Type 0} (IsBack : List Slot → Type 0) (s : State Os) : Type 0 where
  pub left : IsLeft IsBack 0 s
  pub archive : s.archive_data ≡ none
  pub main : s.main_held ≡ false
  pub script : s.script_held ≡ false
  pub lock : s.record_lock_initialized ≡ false

-- The pointers are NULL, their blocks were given back, and neither the hooks nor the two flags
-- changed.
abbrev pub IsFreed : {Os : Type 0} → State Os → State Os → Type 0
IsFreed s s' =
    (s'.fs.active ≡ s.fs.active)
    × (s'.record_lock_initialized ≡ s.record_lock_initialized)
    × (s'.hooks ≡ s.hooks)
    × (s'.held ≡ s.held - blocks s)
    × (s'.archive_data ≡ none)
    × (s'.main_held ≡ false)
    × (s'.script_held ≡ false)

-- What the start relies on: a `ReadFile` that succeeds answers the count of the bytes that it stored,
-- at most those asked for, and a new block has its size.
pub record IsSystem {Os : Type 0} (system : System Os) : Type 0 where
  pub reads :
      (file n : ℕ) (os : Os)
      → (let r = (system.kernel.read_file file (load_read system n) os).0 in
          r.ok ≡ true
          → (r.count ≡ some (length r.copied)) × (length r.copied ≤ n) × AreBytes r.copied)
  pub allocates :
      (size : ℕ) (os : Os) (bytes : List ℕ)
      → (system.heap_alloc size os).0 ≡ some bytes
      → (length bytes ≡ size) × AreBytes bytes

module _ {Os : Type 0} (system : System Os) where
  pub free_archive_data-IsFreed : (s : State Os) → IsFreed s (free_archive_data system s)
  unfolding free_archive_data free_archive free_main free_script free_block
  free_archive_data-IsFreed s = by_pointers s.archive_data s.main_held s.script_held
    where
      by_pointers :
          (a : Option (List ℕ)) (m n : Bool)
          → (let s' = record s { archive_data = a; main_held = m; script_held = n } in
              IsFreed s' (free_archive_data system s'))
      by_pointers none false false = (refl, refl, refl, omega arith, refl, refl, refl)
      by_pointers none false true = (refl, refl, refl, omega arith, refl, refl, refl)
      by_pointers none true false = (refl, refl, refl, omega arith, refl, refl, refl)
      by_pointers none true true = (refl, refl, refl, omega arith, refl, refl, refl)
      by_pointers (some b) false false = (refl, refl, refl, omega arith, refl, refl, refl)
      by_pointers (some b) false true = (refl, refl, refl, omega arith, refl, refl, refl)
      by_pointers (some b) true false = (refl, refl, refl, omega arith, refl, refl, refl)
      by_pointers (some b) true true = (refl, refl, refl, omega arith, refl, refl, refl)

  -- A state without pointers that holds what it should is one of a program that was stopped.
  pub freed-IsStopped :
      (IsBack : List Slot → Type 0) (s s' : State Os)
      → IsLeft IsBack 0 s
      → s.record_lock_initialized ≡ false
      → IsFreed s s'
      → IsStopped IsBack s'
  freed-IsStopped IsBack s s' v lock (active, same_lock, hooks, held, archive, main, script) =
      record {
        left = record {
          inactive = active ∙ v.inactive;
          balanced = ground (arith, held, v.balanced, archive, main, script);
          uninstalled = subst AreUninstalled (sym hooks) v.uninstalled;
          same = subst (λ (x : List Hook). IsBack (slots_of x)) (sym hooks) v.same;
        };
        archive = archive;
        main = main;
        script = script;
        lock = same_lock ∙ lock;
      }

  -- The cleanup of a start that failed undoes the start.
  pub clean_up-IsStopped :
      (IsBack : List Slot → Type 0) (s : State Os)
      → IsLeft IsBack 0 s
      → IsStopped IsBack (clean_up system s)
  unfolding clean_up restore_hooks
  clean_up-IsStopped IsBack s v =
      let s' = record (restore_hooks system (set_active system false s)) {
        record_lock_initialized = false;
      } in
      let kept = restore-AreUninstalled system.memory s.hooks s.os v.uninstalled in
      freed-IsStopped IsBack s' (free_archive_data system s')
        (record {
          inactive = refl;
          balanced = v.balanced;
          uninstalled = subst AreUninstalled (sym kept) v.uninstalled;
          same = subst (λ (x : List Hook). IsBack (slots_of x)) (sym kept) v.same;
        })
        refl (free_archive_data-IsFreed s')
