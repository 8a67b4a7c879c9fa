-- ===== src/ArchiveFs/Start/Session.antt =====
-- Theorems on `samp_archive_fs_win32_start` and `samp_archive_fs_win32_stop` of win32_archive_fs.c.
use libsamp.Common.{
  ℕ, ◌≡◌, refl, sym, ◌∙◌, subst, arith, Bool, true, false, Option, none, some, List, [], ◌∷◌,
}
use libsamp.Common.Outcome.{Outcome, done, fail, fault}
use libsamp.ArchiveFs.Table.{handle_base}
use libsamp.ArchiveFs.Table.Empty.{empty_table-IsTable}
use libsamp.ArchiveFs.Handlers.Views.{IsFs}
use libsamp.ArchiveFs.Handlers.Calls.{Call, after_all, after_all-IsFs}
use libsamp.ArchiveFs.Hooks.{Hook, restore_iat_hooks}
use libsamp.ArchiveFs.Hooks.Whole.{
  AreUninstalled, AreReady-AreUninstalled, AreUndone, AreUndone-AreUninstalled, restore-AreUndone,
}
use libsamp.ArchiveFs.Setup.State.{State, System, Ends, clear_state}
use libsamp.ArchiveFs.Start.{
  Status, set_active, restore_hooks, start_steps, finish, clear_records,
  samp_archive_fs_win32_start, samp_archive_fs_win32_stop,
}
use libsamp.ArchiveFs.Hooks.Back.{Slot, slots_of, AreBack, undone-AreBack}
use libsamp.ArchiveFs.Start.Left.{
  blocks, IsLeft, IsStopped, IsSystem, free_archive_data-IsFreed, clean_up-IsStopped,
}
use libsamp.ArchiveFs.Start.Stage.{IsStage}
use libsamp.ArchiveFs.Start.Steps.{IsRunning, IsStarted, start_steps-Ends}

module _ {Os : Type 0} (system : System Os) where
  -- The state after calls of the game, which change the hooks' state and the system's.
  abbrev pub after_calls : List Call → State Os → State Os
  after_calls calls s =
      let r = after_all system.kernel calls (s.fs, s.os) in record s { fs = r.0; os = r.1 }

module _ {Os : Type 0} (system : System Os) (valid : IsSystem system) (slots : List Slot) where
  cleared-IsStage :
      (s : State Os)
      → IsStopped (AreBack system.memory slots) s
      → IsStage (AreBack system.memory slots) 0 false false (clear_state handle_base s)
  unfolding clear_state
  cleared-IsStage s v = record {
    left = record {
      inactive = refl;
      balanced = ground (arith, v.left.balanced, v.archive, v.main, v.script);
      uninstalled = v.left.uninstalled;
      same = v.left.same;
    };
    valid = record {
      table = empty_table-IsTable;
      main = (omega arith, omega arith);
      script = (omega arith, omega arith);
    };
    main_is = refl;
    script_is = refl;
  }

  finish-Ends :
      (r : Outcome Status × State Os)
      → Ends (IsStarted system slots) (IsLeft (AreBack system.memory slots) 0) r
      → Ends (IsStarted system slots) (IsStopped (AreBack system.memory slots)) (finish system r)
  unfolding finish
  finish-Ends (done status, s) v = v
  finish-Ends (fail, s) v = clean_up-IsStopped system (AreBack system.memory slots) s v
  finish-Ends (fault, s) v = v

  -- On a system as in `IsSystem`, a start of the stopped layer returns. With 1 all the calls of the
  -- signature check answered TRUE for the bytes that the archive in memory has signed, its signature
  -- of 128 bytes and the public key, the two files are those of this archive, the game's slots held
  -- the kernel's functions, and all the hooks are installed; with 0 the layer is stopped as before,
  -- every block, file and object that was taken is given back, and every slot of the game holds what
  -- it held, except one that `VirtualProtect` let be written at one time and refused at another: it
  -- may hold its replacement.
  pub samp_archive_fs_win32_start-IsStarted :
      (path : Option (List ℕ)) (s : State Os)
      → IsStopped (AreBack system.memory slots) s
      → Ends
          (IsStarted system slots)
          (IsStopped (AreBack system.memory slots))
          (samp_archive_fs_win32_start system path s)
  unfolding samp_archive_fs_win32_start clear_state
  samp_archive_fs_win32_start-IsStarted none s v = v
  samp_archive_fs_win32_start-IsStarted (some []) s v = v
  samp_archive_fs_win32_start-IsStarted (some (c ∷ path)) s v = rw v.left.inactive (
      finish-Ends (start_steps system (c ∷ path) (clear_state handle_base s)) (
        start_steps-Ends system valid slots (c ∷ path) (clear_state handle_base s)
          (cleared-IsStage s v) refl))

  clear_records-keeps :
      (s : State Os)
      → (let s' = clear_records system s in
          (s'.hooks ≡ s.hooks) × (s'.held ≡ s.held) × (blocks s' ≡ blocks s))
  unfolding clear_records
  clear_records-keeps s = by_lock s.record_lock_initialized
    where
      by_lock :
          (b : Bool)
          → (let s' = clear_records system (record s { record_lock_initialized = b }) in
              (s'.hooks ≡ s.hooks) × (s'.held ≡ s.held) × (blocks s' ≡ blocks s))
      by_lock false = (refl, refl, refl)
      by_lock true = (refl, refl, refl)

  -- A stop with the hooks installed, whatever the state of the virtual files.
  stop-IsStopped :
      (s : State Os)
      → IsRunning system slots s.hooks
      → s.held ≡ blocks s
      → IsStopped (AreBack system.memory slots) (samp_archive_fs_win32_stop system s)
  unfolding samp_archive_fs_win32_stop restore_hooks clear_state
  stop-IsStopped s v balanced =
      let s1 = restore_hooks system (set_active system false s) in
      let s2 = clear_records system s1 in
      let kept = clear_records-keeps s1 in
      let freed = free_archive_data-IsFreed system s2 in
      let undone : AreUndone system.memory v.ready s1.hooks =
        subst
          (λ (hooks : List Hook).
            AreUndone system.memory v.ready (restore_iat_hooks system.memory hooks s.os).0)
          (sym v.installed) (restore-AreUndone system.memory v.ready s.os v.are_ready v.may) in
      let hooks_are = freed.2 ∙ kept.0 in
      record {
        left = record {
          inactive = refl;
          balanced = omega (arith, freed.3, kept.1, kept.2, balanced);
          uninstalled = subst AreUninstalled (sym hooks_are) (
              AreUndone-AreUninstalled system.memory v.ready s1.hooks
                (AreReady-AreUninstalled v.ready v.are_ready) undone);
          same =
              subst (λ (x : List Hook). AreBack system.memory slots (slots_of x)) (sym hooks_are)
                (undone-AreBack system.memory slots v.ready s1.hooks v.same undone);
        };
        archive = refl;
        main = refl;
        script = refl;
        lock = refl;
      }

  -- On a system as in `IsSystem`, whatever calls the game makes after a start of the stopped layer
  -- that answered 1, the state of the virtual files stays valid, and a stop takes the layer back to where it was: no
  -- hook is installed, nothing is held, and every slot of the game holds what it held before the
  -- start, except one that `VirtualProtect` let be written at one time and refused at another: it may
  -- hold its replacement.
  pub samp_archive_fs_win32_stop-start :
      (path : Option (List ℕ)) (calls : List Call) (s s1 : State Os) (status : Status)
      → IsStopped (AreBack system.memory slots) s
      → samp_archive_fs_win32_start system path s ≡ (done status, s1)
      → IsFs (after_calls system calls s1).fs
        × IsStopped
            (AreBack system.memory slots)
            (samp_archive_fs_win32_stop system (after_calls system calls s1))
  samp_archive_fs_win32_stop-start path calls s s1 status v e =
      let started : IsStarted system slots status s1 =
        subst (Ends (IsStarted system slots) (IsStopped (AreBack system.memory slots))) e
          (samp_archive_fs_win32_start-IsStarted path s v) in
      (
        after_all-IsFs system.kernel calls s1.fs s1.os started.valid,
        stop-IsStopped (after_calls system calls s1) started.running started.balanced,
      )
