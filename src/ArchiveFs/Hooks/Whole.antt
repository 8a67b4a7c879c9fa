-- ===== src/ArchiveFs/Hooks/Whole.antt =====
-- Installing and restoring the hooks of win32_archive_fs.c. Between a write of a slot and its
-- restoration nobody else writes it.
use libsamp.Common.{
  ℕ, ◌≡◌, ◌⊎◌, refl, sym, ap, ◌∙◌, subst, arith, Bool, true, false, not, Option, none, some, List,
  [], ◌∷◌, map, ◌==◌, ◌||◌, if◌then◌else◌, if-cases, inl, inr,
}
use libsamp.ArchiveFs.Hooks.{
  Hook, Memory, page_readwrite, store, write_iat_slot, restore_slot, restore_iat_hooks,
  install_slots, install_iat_hooks,
}

-- A hook before it is installed, with the pointer that it found in its slot.
abbrev pub IsReady : Hook → Type 0
IsReady h = (h.current ≡ h.original) × (h.installed ≡ false)

abbrev pub AreReady : List Hook → Type 0
AreReady [] = Unit
AreReady (h ∷ hooks) = IsReady h × AreReady hooks

abbrev pub AreUninstalled : List Hook → Type 0
AreUninstalled [] = Unit
AreUninstalled (h ∷ hooks) = (h.installed ≡ false) × AreUninstalled hooks

pub AreReady-AreUninstalled : (hooks : List Hook) → AreReady hooks → AreUninstalled hooks
AreReady-AreUninstalled [] ready = tt
AreReady-AreUninstalled (h ∷ hooks) (one, ready) = (one.1, AreReady-AreUninstalled hooks ready)

-- A hook that is installed, and one that could not be taken out of its slot again.
abbrev pub installed_hook : Hook → Hook
installed_hook h = record h { current = h.replacement; installed = true }

abbrev pub stuck_hook : Hook → Hook
stuck_hook h = record h { current = h.replacement }

not_installed : (h : Hook) → IsReady h → record h { current = h.original; installed = false } ≡ h
not_installed h (same, off) =
    ap (λ (c : ℕ). record h { current = c; installed = false }) (sym same)
    ∙ ap (λ (b : Bool). record h { installed = b }) (sym off)

module _ {Os : Type 0} (memory : Memory Os) where
  -- `VirtualProtect` of a slot for writing, at some time.
  abbrev pub IsGranted : ℕ → Type 0
  IsGranted rva =
      (os : Os) × (old : ℕ) × ((memory.virtual_protect rva page_readwrite os).0 ≡ some old)

  abbrev pub IsRefused : ℕ → Type 0
  IsRefused rva = (os : Os) × ((memory.virtual_protect rva page_readwrite os).0 ≡ none)

  -- The slots of the hooks are known, and could be written.
  abbrev pub AreGranted : List Hook → Type 0
  AreGranted [] = Unit
  AreGranted (h ∷ hooks) = ((h.slot ≡ true) × IsGranted h.slot_rva) × AreGranted hooks

  -- What has become of a hook: it is as it was, or its slot still holds the replacement, since
  -- `VirtualProtect` let it be written once and did not at another time.
  abbrev pub IsUndone : Hook → Hook → Type 0
  IsUndone h h' = (h' ≡ h) ⊎ ((h' ≡ stuck_hook h) × IsGranted h.slot_rva × IsRefused h.slot_rva)

  abbrev pub AreUndone : List Hook → List Hook → Type 0
  AreUndone [] [] = Unit
  AreUndone [] (h' ∷ hooks') = ⊥
  AreUndone (h ∷ hooks) [] = ⊥
  AreUndone (h ∷ hooks) (h' ∷ hooks') = IsUndone h h' × AreUndone hooks hooks'

  AreUndone-refl : (hooks : List Hook) → AreUndone hooks hooks
  AreUndone-refl [] = tt
  AreUndone-refl (h ∷ hooks) = (inl refl, AreUndone-refl hooks)

  pub AreUndone-AreUninstalled :
      (hooks hooks' : List Hook)
      → AreUninstalled hooks
      → AreUndone hooks hooks'
      → AreUninstalled hooks'
  AreUndone-AreUninstalled [] [] off u = tt
  AreUndone-AreUninstalled [] (h' ∷ hooks') off u = absurd u
  AreUndone-AreUninstalled (h ∷ hooks) [] off u = absurd u
  AreUndone-AreUninstalled (h ∷ hooks) (h' ∷ hooks') (one, off) (inl e, u) =
      (ap (λ (x : Hook). x.installed) e ∙ one, AreUndone-AreUninstalled hooks hooks' off u)
  AreUndone-AreUninstalled (h ∷ hooks) (h' ∷ hooks') (one, off) (inr (e, may, refused), u) =
      (ap (λ (x : Hook). x.installed) e ∙ one, AreUndone-AreUninstalled hooks hooks' off u)

  restore_uninstalled :
      (h : Hook) (os : Os) → h.installed ≡ false → (restore_slot memory h os).0 ≡ h
  unfolding restore_slot
  restore_uninstalled h os off = rw off refl

  -- Hooks that are not installed are left alone.
  pub restore-AreUninstalled :
      (hooks : List Hook) (os : Os)
      → AreUninstalled hooks
      → (restore_iat_hooks memory hooks os).0 ≡ hooks
  unfolding restore_iat_hooks
  restore-AreUninstalled [] os off = refl
  restore-AreUninstalled (h ∷ hooks) os (one, off) =
      let rest = restore_iat_hooks memory hooks os in
      ap (λ t. t ∷ rest.0) (restore_uninstalled h rest.1 one)
      ∙ ap (λ t. h ∷ t) (restore-AreUninstalled hooks os off)

  -- What a write of a slot comes to.
  abbrev IsWritten : Hook → ℕ → Bool × (Hook × Os) → Type 0
  IsWritten h value (true, r) =
      (r.0 ≡ record h { current = value }) × (h.slot ≡ true) × IsGranted h.slot_rva
  IsWritten h value (false, r) = r.0 ≡ h

  write-IsWritten :
      (h : Hook) (expected value : ℕ) (os : Os)
      → IsWritten h value (write_iat_slot memory h expected value os)
  unfolding write_iat_slot store
  write-IsWritten h expected value os =
      if-cases (IsWritten h value) (not h.slot || not (h.current == expected)) _ _ (λ t. refl)
        λ t.
          by_protection (memory.virtual_protect h.slot_rva page_readwrite os).0
            (memory.virtual_protect h.slot_rva page_readwrite os).1 refl (ground (arith, t))
    where
      by_protection :
          (o : Option ℕ) (os' : Os)
          → (memory.virtual_protect h.slot_rva page_readwrite os).0 ≡ o
          → h.slot ≡ true
          → IsWritten h value (store memory h value (o, os'))
      by_protection none os' e known = refl
      by_protection (some old) os' e known = (refl, known, (os, old, e))

  -- A known slot that holds the pointer that is expected is written, or it is refused.
  write-known :
      (h : Hook) (value : ℕ) (os : Os)
      → h.slot ≡ true
      → (let r = (write_iat_slot memory h h.current value os).1.0 in
          (r ≡ record h { current = value }) ⊎ ((r ≡ h) × IsRefused h.slot_rva))
  unfolding write_iat_slot store
  write-known h value os known =
      if-cases
        (λ (r : Bool × (Hook × Os)).
          (r.1.0 ≡ record h { current = value }) ⊎ ((r.1.0 ≡ h) × IsRefused h.slot_rva))
        (not h.slot || not (h.current == h.current)) _ _ (λ t. absurd (ground (arith, t, known)))
        (λ t.
          by_protection (memory.virtual_protect h.slot_rva page_readwrite os).0
            (memory.virtual_protect h.slot_rva page_readwrite os).1 refl)
    where
      by_protection :
          (o : Option ℕ) (os' : Os)
          → (memory.virtual_protect h.slot_rva page_readwrite os).0 ≡ o
          → (let r = (store memory h value (o, os')).1.0 in
              (r ≡ record h { current = value }) ⊎ ((r ≡ h) × IsRefused h.slot_rva))
      by_protection none os' e = inr (refl, (os, e))
      by_protection (some old) os' e = inl refl

  restore_installed :
      (h : Hook) (os : Os)
      → IsReady h
      → h.slot ≡ true
      → IsGranted h.slot_rva
      → IsUndone h (restore_slot memory (installed_hook h) os).0
  unfolding restore_slot
  restore_installed h os ready known may =
      elim (write-known (installed_hook h) h.original os known) [
        | inl e ↦ inl (ap (λ (x : Hook). record x { installed = false }) e ∙ not_installed h ready)
        | inr (e, refused) ↦ inr (
          ap (λ (x : Hook). record x { installed = false }) e
              ∙ ap (λ (b : Bool). record h { current = h.replacement; installed = b })
                  (sym ready.1),
          may,
          refused,
        )
      ]

  pub restore-AreUndone :
      (hooks : List Hook) (os : Os)
      → AreReady hooks
      → AreGranted hooks
      → AreUndone hooks (restore_iat_hooks memory (map installed_hook hooks) os).0
  unfolding restore_iat_hooks
  restore-AreUndone [] os ready may = tt
  restore-AreUndone (h ∷ hooks) os (one, ready) ((known, may), rest_may) =
      let rest = restore_iat_hooks memory (map installed_hook hooks) os in
      (restore_installed h rest.1 one known may, restore-AreUndone hooks os ready rest_may)

  -- The loop that installs: all of them, or hooks that the other loop restores.
  abbrev IsInstalled : List Hook → Bool × (List Hook × Os) → Type 0
  IsInstalled hooks (true, r) = (r.0 ≡ map installed_hook hooks) × AreGranted hooks
  IsInstalled hooks (false, r) = (os : Os) → AreUndone hooks (restore_iat_hooks memory r.0 os).0

  -- One hook before the rest.
  installed_before :
      (h : Hook) (hooks : List Hook) (r : Hook) (q : Bool × (List Hook × Os))
      → IsReady h
      → (r ≡ record h { current = h.replacement }) × (h.slot ≡ true) × IsGranted h.slot_rva
      → IsInstalled hooks q
      → IsInstalled (h ∷ hooks) (q.0, (record r { installed = true } ∷ q.1.0, q.1.1))
  unfolding restore_iat_hooks
  installed_before h hooks r (true, q) one (is, known, may) (all, rest_may) = (
    ap (λ (x : Hook). record x { installed = true } ∷ q.0) is ∙ ap (λ t. installed_hook h ∷ t) all,
    ((known, may), rest_may),
  )
  installed_before h hooks r (false, q) one (is, known, may) back = λ os.
      let rest = restore_iat_hooks memory q.0 os in
      (
        subst
            (λ (x : Hook).
              IsUndone h (restore_slot memory (record x { installed = true }) rest.1).0)
            (sym is) (restore_installed h rest.1 one known may),
        back os,
      )

  install_slots-IsInstalled :
      (hooks : List Hook) (os : Os)
      → AreReady hooks
      → IsInstalled hooks (install_slots memory hooks os)
  unfolding install_slots
  install_slots-IsInstalled [] os ready = (refl, tt)
  install_slots-IsInstalled (h ∷ hooks) os (one, ready) =
      by_write (write_iat_slot memory h h.original h.replacement os)
        (write-IsWritten h h.original h.replacement os)
        (λ os'. install_slots-IsInstalled hooks os' ready)
    where
      by_write :
          (r : Bool × (Hook × Os))
          → IsWritten h h.replacement r
          → ((os' : Os) → IsInstalled hooks (install_slots memory hooks os'))
          → IsInstalled (h ∷ hooks) (
              let rest = install_slots memory hooks r.1.1 in
              if r.0
              then (rest.0, (record (r.1.0) { installed = true } ∷ rest.1.0, rest.1.1))
              else (false, (r.1.0 ∷ hooks, r.1.1)))
      by_write (true, r) w all =
          installed_before h hooks r.0 (install_slots memory hooks r.1) one w (all r.1)
      by_write (false, r) w all = λ os'.
          let old : (restore_iat_hooks memory (r.0 ∷ hooks) os').0 ≡ h ∷ hooks =
            ap (λ (x : Hook). (restore_iat_hooks memory (x ∷ hooks) os').0) w
            ∙ restore-AreUninstalled (h ∷ hooks) os'
                (AreReady-AreUninstalled (h ∷ hooks) (one, ready)) in
          subst (AreUndone (h ∷ hooks)) (sym old) (AreUndone-refl (h ∷ hooks))

  -- The result 1 with all hooks installed, or 0 with the hooks undone.
  abbrev pub IsWhole : List Hook → Bool × (List Hook × Os) → Type 0
  IsWhole hooks (true, r) = (r.0 ≡ map installed_hook hooks) × AreGranted hooks
  IsWhole hooks (false, r) = AreUndone hooks r.0

  -- Installing hooks that are ready puts every replacement into its slot and answers 1; or it answers
  -- 0, no hook is installed, and every slot holds what it held, except one that `VirtualProtect` let
  -- be written at one time and refused at another: that one may hold its replacement still.
  pub install_iat_hooks-IsWhole :
      (hooks : List Hook) (os : Os)
      → AreReady hooks
      → IsWhole hooks (install_iat_hooks memory hooks os)
  unfolding install_iat_hooks
  install_iat_hooks-IsWhole hooks os ready =
      by_result (install_slots memory hooks os) (install_slots-IsInstalled hooks os ready)
    where
      by_result :
          (r : Bool × (List Hook × Os))
          → IsInstalled hooks r
          → IsWhole hooks
              (if r.0 then (true, r.1) else (false, restore_iat_hooks memory r.1.0 r.1.1))
      by_result (true, r) w = w
      by_result (false, r) w = w r.1
