-- ===== src/ArchiveFs/Start/Steps.antt =====
-- The steps of `samp_archive_fs_win32_start` of win32_archive_fs.c from the check of the game on.
use libsamp.Common.{
  ℕ, ◌≡◌, refl, ap, sym, subst, arith, Bool, true, false, Option, none, some, List, map,
  if◌then◌else◌,
}
use libsamp.Common.Outcome.{done, fail}
use libsamp.Saa.Layout.{Layout}
use libsamp.ArchiveFs.Handlers.Views.{IsFs}
use libsamp.ArchiveFs.Hooks.{Hook, install_iat_hooks}
use libsamp.ArchiveFs.Hooks.Whole.{
  AreReady, AreUninstalled, AreGranted, installed_hook, AreUndone-AreUninstalled, IsWhole,
  install_iat_hooks-IsWhole,
}
use libsamp.ArchiveFs.Setup.State.{State, System, Image, Ends, Ends-and_then}
use libsamp.ArchiveFs.Setup.Game.{check_slots, accepts_image, validate_gta_and_iat}
use libsamp.ArchiveFs.Start.{Status, is_sane, install_hooks, prepare_files, start_steps}
use libsamp.ArchiveFs.Hooks.Back.{Slot, slots_of, AreBack, undone-AreBack}
use libsamp.ArchiveFs.Start.Left.{blocks, IsLeft, IsSystem}
use libsamp.ArchiveFs.Start.Stage.{IsStage}
use libsamp.ArchiveFs.Start.Prepared.{IsServed, Prepared, prepare_files-Ends}
use libsamp.ArchiveFs.Start.Checked.{AreExpected, check_slots-keeps}

-- The six slots hold the replacements, and the hooks remember what was in them.
pub record IsRunning {Os : Type 0} (system : System Os) (slots : List Slot) (hooks : List Hook)
    : Type 0 where
  pub ready : List Hook
  pub same : AreBack system.memory slots (slots_of ready)
  pub are_ready : AreReady ready
  pub expected : AreExpected system.proc_address ready
  pub may : AreGranted system.memory ready
  pub installed : hooks ≡ map installed_hook ready

-- What a start that answers 1 has done: the hooks are active and all installed over the kernel's
-- functions, their state is valid, the two files are those of the archive whose signature was
-- verified, three blocks are held and nothing else, and the status says so.
pub record IsStarted {Os : Type 0} (system : System Os) (slots : List Slot) (status : Status)
    (s : State Os) : Type 0 where
  pub active : s.fs.active ≡ true
  pub lock : s.record_lock_initialized ≡ true
  pub valid : IsFs s.fs
  pub held : s.held ≡ 3
  pub balanced : s.held ≡ blocks s
  pub running : IsRunning system slots s.hooks
  pub layout : Layout
  pub served : IsServed system layout s
  pub status_is : status ≡ record {
    archive_size = s.archive_size;
    signature_size = 128;
    main_size = s.fs.main_size;
    script_size = s.fs.script_size;
    signature_verified = true;
    hooks_installed = true;
  }

module _ {Os : Type 0} (system : System Os) (valid : IsSystem system) (slots : List Slot) where
  abbrev pub IsBack : List Slot → Type 0
  IsBack = AreBack system.memory slots

  -- What was read does not depend on the hooks.
  abbrev with_hooks : List Hook → Os → Bool → State Os → State Os
  with_hooks hooks os lock s = record s { hooks = hooks; os = os; record_lock_initialized = lock }

  Prepared-with_hooks :
      (layout : Layout) (s : State Os) (hooks : List Hook) (os : Os) (lock : Bool)
      → Prepared system IsBack layout s
      → slots_of hooks ≡ slots_of s.hooks
      → AreUninstalled hooks
      → Prepared system IsBack layout (with_hooks hooks os lock s)
  Prepared-with_hooks layout s hooks os lock (v, p) same off = (
    record {
      left = record {
        inactive = v.left.inactive;
        balanced = v.left.balanced;
        uninstalled = off;
        same = subst IsBack (sym same) v.left.same;
      };
      valid = v.valid;
      main_is = v.main_is;
      script_is = v.script_is;
    },
    record {
      archive = p.archive;
      opened = p.opened;
      whole = p.whole;
      parsed = p.parsed;
      checked_at = p.checked_at;
      signed = p.signed;
      main = p.main;
      script = p.script;
      sane = p.sane;
    },
  )

  abbrev Validated : Layout → State Os → Type 0
  Validated layout s =
      Prepared system IsBack layout s × AreReady s.hooks × AreExpected system.proc_address s.hooks

  validate-Ends :
      (layout : Layout) (s : State Os)
      → Prepared system IsBack layout s
      → Ends {A = Unit {0}}
          (λ _ s'. Validated layout s')
          (IsLeft IsBack 0)
          (validate_gta_and_iat system s)
  unfolding validate_gta_and_iat
  validate-Ends layout s p = by_image system.game_image
    where
      kept :
          (r : Bool × List Hook)
          → (slots_of r.1 ≡ slots_of s.hooks)
            × AreUninstalled r.1
            × (r.0 ≡ true → AreReady r.1 × AreExpected system.proc_address r.1)
          → Ends {A = Unit {0}}
              (λ _ s'. Validated layout s')
              (IsLeft IsBack 0)
              (if r.0 then done tt else fail, record s { hooks = r.1 })
      kept (true, hooks) (same, off, ready) =
          let p' = Prepared-with_hooks layout s hooks s.os s.record_lock_initialized p same off in
          let r = ready refl in (p', r.0, r.1)
      kept (false, hooks) (same, off, ready) =
          (Prepared-with_hooks layout s hooks s.os s.record_lock_initialized p same off).0.left

      by_verdict :
          (b : Bool)
          → Ends {A = Unit {0}}
              (λ _ s'. Validated layout s')
              (IsLeft IsBack 0)
              (elim b [
                | false ↦ (fail, s)
                | true ↦
                    let r = check_slots system.proc_address s.hooks in
                    (if r.0 then done tt else fail, record s { hooks = r.1 })
              ])
      by_verdict false = p.0.left
      by_verdict true =
          kept (check_slots system.proc_address s.hooks)
            (check_slots-keeps system.proc_address s.hooks p.0.left.uninstalled)

      by_image :
          (o : Option Image)
          → Ends {A = Unit {0}}
              (λ _ s'. Validated layout s')
              (IsLeft IsBack 0)
              (elim o [
                | none ↦ (fail, s)
                | some image ↦ elim (accepts_image image) [
                  | false ↦ (fail, s)
                  | true ↦
                      let r = check_slots system.proc_address s.hooks in
                      (if r.0 then done tt else fail, record s { hooks = r.1 })
                ]
              ])
      by_image none = p.0.left
      by_image (some image) = by_verdict (accepts_image image)

  -- The state after the hooks are installed, before they are active.
  record IsInstalled (layout : Layout) (s : State Os) : Type 0 where
    lock : s.record_lock_initialized ≡ true
    valid_fs : IsFs s.fs
    held : s.held ≡ 3
    balanced : s.held ≡ blocks s
    running : IsRunning system slots s.hooks
    served : IsServed system layout s

  install_hooks-Ends :
      (layout : Layout) (s : State Os)
      → Validated layout s
      → s.record_lock_initialized ≡ true
      → Ends {A = Unit {0}}
          (λ _ s'. IsInstalled layout s')
          (IsLeft IsBack 0)
          (install_hooks system s)
  unfolding install_hooks
  install_hooks-Ends layout s ((v, p), ready, expected) lock =
      by_result (install_iat_hooks system.memory s.hooks s.os)
        (install_iat_hooks-IsWhole system.memory s.hooks s.os ready)
    where
      three : s.held ≡ 3
      three = ground (arith, v.left.balanced, p.whole, v.main_is, v.script_is)

      by_result :
          (r : Bool × (List Hook × Os))
          → IsWhole system.memory s.hooks r
          → Ends {A = Unit {0}}
              (λ _ s'. IsInstalled layout s')
              (IsLeft IsBack 0)
              (if r.0 then done tt else fail, record s { hooks = r.1.0; os = r.1.1 })
      by_result (true, r) (all, may) = record {
        lock = lock;
        valid_fs = v.valid;
        held = three;
        balanced = omega (arith, v.left.balanced);
        running = record {
          ready = s.hooks;
          same = v.left.same;
          are_ready = ready;
          expected = expected;
          may = may;
          installed = all;
        };
        served = record {
          archive = p.archive;
          opened = p.opened;
          whole = p.whole;
          parsed = p.parsed;
          checked_at = p.checked_at;
          signed = p.signed;
          main = p.main;
          script = p.script;
          sane = p.sane;
        };
      }
      by_result (false, r) undone = record {
        inactive = v.left.inactive;
        balanced = v.left.balanced;
        uninstalled = AreUndone-AreUninstalled system.memory s.hooks r.0 v.left.uninstalled undone;
        same = undone-AreBack system.memory slots s.hooks r.0 v.left.same undone;
      }

  -- Every step of a start returns, and the start ends with all done, or with what the cleanup undoes.
  pub start_steps-Ends :
      (path : List ℕ) (s : State Os)
      → IsStage IsBack 0 false false s
      → s.archive_data ≡ none
      → Ends (IsStarted system slots) (IsLeft IsBack 0) (start_steps system path s)
  unfolding start_steps
  start_steps-Ends path s v empty =
      let Q : Status → State Os → Type 0 = IsStarted system slots in
      let F : State Os → Type 0 = IsLeft IsBack 0 in
      Ends-and_then (Prepared system IsBack) Q F (prepare_files system path s) _
        (prepare_files-Ends system valid IsBack path s v empty)
        λ layout s1 p1.
          Ends-and_then (λ _ s'. Validated layout s') Q F (validate_gta_and_iat system s1) _
            (validate-Ends layout s1 p1)
            λ _ s2 (p2, ready, expected).
              let s3 = with_hooks s2.hooks s2.os true s2 in
              let p3 =
                Prepared-with_hooks layout s2 s2.hooks s2.os true p2 refl p2.0.left.uninstalled in
              Ends-and_then (λ _ s'. IsInstalled layout s') Q F (install_hooks system s3) _
                (install_hooks-Ends layout s3 (p3, ready, expected) refl)
                λ _ s4 p4. record {
                  active = refl;
                  lock = p4.lock;
                  valid = record {
                    table = p4.valid_fs.table;
                    main = p4.valid_fs.main;
                    script = p4.valid_fs.script;
                  };
                  held = p4.held;
                  balanced = p4.balanced;
                  running = p4.running;
                  layout = layout;
                  served =
                      unfold is_sane in
                      record {
                        archive = p4.served.archive;
                        opened = p4.served.opened;
                        whole = p4.served.whole;
                        parsed = p4.served.parsed;
                        checked_at = p4.served.checked_at;
                        signed = p4.served.signed;
                        main = p4.served.main;
                        script = p4.served.script;
                        sane = p4.served.sane;
                      };
                  status_is =
                      ap
                        (λ (n : ℕ). record {
                          archive_size = s4.archive_size;
                          signature_size = n;
                          main_size = s4.fs.main_size;
                          script_size = s4.fs.script_size;
                          signature_verified = true;
                          hooks_installed = true;
                        })
                        p4.served.signed.0;
                }
