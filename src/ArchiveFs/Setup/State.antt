-- ===== src/ArchiveFs/Setup/State.antt =====
-- The whole state of win32_archive_fs.c and the system that it runs on; steps that may fail. A
-- pointer is `none` or false for NULL. `held` counts what the code has taken from the system and
-- not given back: blocks of the heap, open files, and the objects of the signature check.
use libsamp.Common.{
  ℕ, ◌+◌, ◌-◌, ◌≡◌, refl, sym, subst, Bool, true, false, Option, none, List, [], replicate,
}
use libsamp.Common.Int.{ℤ}
use libsamp.Common.Outcome.{Outcome, done, fail, fault, Returns}
use libsamp.ArchiveFs.Table.{cleared, open_records}
use libsamp.ArchiveFs.Handlers.{Fs, Kernel}
use libsamp.ArchiveFs.Hooks.{Hook, Memory}

-- `samp_archive_fs_state` with `g_iat_hooks`. `fs` has the fields that the hooks use; of
-- `main_data` and `script_data` it has the bytes, and the two flags say that they are not NULL.
pub record State (Os : Type 0) : Type 0 where
  pub fs : Fs
  pub archive_data : Option (List ℕ)
  pub archive_size : ℕ
  pub main_held : Bool
  pub script_held : Bool
  pub record_lock_initialized : Bool
  pub hooks : List Hook
  pub held : ℕ
  pub os : Os

-- The calls of the signature check: is the answer TRUE. The state of the system has the objects.
pub record Crypt (Os : Type 0) : Type 0 where
  pub acquire_context : Os → Bool × Os
  pub create_hash : Os → Bool × Os
  pub hash_data : List ℕ → Os → Bool × Os
  pub import_key : List ℕ → Os → Bool × Os
  pub verify_signature : List ℕ → Os → Bool × Os
  pub destroy_key : Os → Os
  pub destroy_hash : Os → Os
  pub release_context : Os → Os

-- The fields of `IMAGE_NT_HEADERS32` that are tested.
pub record NtHeaders : Type 0 where
  pub signature : ℕ
  pub machine : ℕ
  pub magic : ℕ
  pub entry_point : ℕ
  pub size_of_image : ℕ
  pub check_sum : ℕ
  pub time_date_stamp : ℕ
  pub characteristics : ℕ
  pub dll_characteristics : ℕ

-- The image of the game: the headers at each offset.
pub record Image : Type 0 where
  pub e_magic : ℕ
  pub e_lfanew : ℤ
  pub nt : ℕ → NtHeaders

-- What the code calls. `kernel_module` says that kernel32.dll was found, `proc_address` is
-- `GetProcAddress` on it, `game_image` is `GetModuleHandleA(NULL)`, and `heap_alloc` answers the
-- bytes of the new block.
pub record System (Os : Type 0) : Type 0 where
  pub kernel : Kernel Os
  pub memory : Memory Os
  pub crypt : Crypt Os
  pub kernel_module : Bool
  pub proc_address : ℕ → Option ℕ
  pub game_image : Option Image
  pub heap_alloc : ℕ → Os → Option (List ℕ) × Os
  pub heap_free : Os → Os

-- `memset(&g_archive_fs, 0, sizeof(g_archive_fs))`, with the next handle that is then stored.
unfoldable pub clear_state : {Os : Type 0} → ℕ → State Os → State Os
clear_state next s = record s {
  fs = record (s.fs) {
    main_data = [];
    main_size = 0;
    script_data = [];
    script_size = 0;
    table = record { records = replicate open_records cleared; next_fake_handle = next };
    active = false;
  };
  archive_data = none;
  archive_size = 0;
  main_held = false;
  script_held = false;
  record_lock_initialized = false;
}

-- A step answers, and leaves a state.
abbrev pub Step : (Os : Type 0) → Type 0 → Type 0
Step Os A = State Os → Outcome A × State Os

module _ {Os : Type 0} where
  infixl 5 ◌>>=◌ ◌>>◌
  abbrev pub and_then :
      {A B : Type 0} → (A → Step Os B) → Outcome A × State Os → Outcome B × State Os
  and_then f (done a, s) = f a s
  and_then f (fail, s) = (fail, s)
  and_then f (fault, s) = (fault, s)

  abbrev pub ◌>>=◌ : {A B : Type 0} → Step Os A → (A → Step Os B) → Step Os B
  m >>= f = λ s. and_then f (m s)

  abbrev pub ◌>>◌ : {B : Type 0} → Step Os (Unit {0}) → Step Os B → Step Os B
  m >> k = m >>= λ _. k

  -- A step that only answers.
  abbrev pub answer : {A : Type 0} → Outcome A → Step Os A
  answer o s = (o, s)

  -- `if (!test) return 0;`
  abbrev pub require : Bool → Step Os (Unit {0})
  require true s = (done tt, s)
  require false s = (fail, s)

  -- A step that only writes the state.
  abbrev pub put : (State Os → State Os) → Step Os (Unit {0})
  put f s = (done tt, f s)

  -- A call of the system.
  unfoldable pub call : {A : Type 0} → (Os → A × Os) → Step Os A
  call f s = let r = f s.os in (done r.0, record s { os = r.1 })

  abbrev pub taken : State Os → State Os
  taken s = record s { held = s.held + 1 }

  abbrev pub given_back : State Os → State Os
  given_back s = record s { held = s.held - 1 }

  -- The step returned: with 1 it left `Q`, with 0 it left `F`.
  abbrev pub Ends :
      {A : Type 0} → (A → State Os → Type 0) → (State Os → Type 0) → Outcome A × State Os → Type 0
  Ends Q F (done a, s) = Q a s
  Ends Q F (fail, s) = F s
  Ends Q F (fault, s) = ⊥

  pub Ends-and_then :
      {A B : Type 0} (Q : A → State Os → Type 0) (R : B → State Os → Type 0) (F : State Os → Type 0)
      (r : Outcome A × State Os) (f : A → Step Os B)
      → Ends Q F r
      → ((a : A) (s : State Os) → Q a s → Ends R F (f a s))
      → Ends R F (and_then f r)
  Ends-and_then Q R F (done a, s) f q next = next a s q
  Ends-and_then Q R F (fail, s) f q next = q
  Ends-and_then Q R F (fault, s) f q next = absurd q

  pub Ends-require :
      {B : Type 0} (R : B → State Os → Type 0) (F : State Os → Type 0) (b : Bool) (s : State Os)
      (k : Step Os B)
      → F s
      → (b ≡ true → Ends R F (k s))
      → Ends R F ((require b >> k) s)
  Ends-require R F true s k left next = next refl
  Ends-require R F false s k left next = left

  -- An answer that is known.
  pub Ends-answer :
      {A B : Type 0} (R : B → State Os → Type 0) (F : State Os → Type 0) (o : Outcome A) (a : A)
      (s : State Os) (f : A → Step Os B)
      → o ≡ done a
      → Ends R F (f a s)
      → Ends R F (and_then f (o, s))
  Ends-answer R F o a s f e v = subst (λ x. Ends R F (and_then f (x, s))) (sym e) v

  -- An answer that is computed without a step.
  pub Ends-outcome :
      {A B : Type 0} (R : B → State Os → Type 0) (F : State Os → Type 0) (o : Outcome A)
      (s : State Os) (f : A → Step Os B)
      → Returns o
      → F s
      → ((a : A) → o ≡ done a → Ends R F (f a s))
      → Ends R F (and_then f (o, s))
  Ends-outcome R F (done a) s f returns left next = next a refl
  Ends-outcome R F fail s f returns left next = left
  Ends-outcome R F fault s f returns left next = absurd (returns refl)

  -- Weaker results are left too.
  pub Ends-weaken :
      {A : Type 0} (Q R : A → State Os → Type 0) (F G : State Os → Type 0)
      (r : Outcome A × State Os)
      → Ends Q F r
      → ((a : A) (s : State Os) → Q a s → R a s)
      → ((s : State Os) → F s → G s)
      → Ends R G r
  Ends-weaken Q R F G (done a, s) q on_done on_fail = on_done a s q
  Ends-weaken Q R F G (fail, s) q on_done on_fail = on_fail s q
  Ends-weaken Q R F G (fault, s) q on_done on_fail = absurd q
