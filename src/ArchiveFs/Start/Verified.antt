-- ===== src/ArchiveFs/Start/Verified.antt =====
-- Theorems on `verify_archive_signature` of win32_archive_fs.c.
use libsamp.Common.{
  ℕ, ◌+◌, ◌-◌, ◌≤◌, ◌≡◌, refl, ap, ◌∙◌, arith, Bool, true, false, ◌&&◌, not, List, ltb, ◌==◌, take,
  drop,
}
use libsamp.Common.Outcome.{Outcome, done, fail, fault}
use libsamp.Saa.Bytes.{slice}
use libsamp.Saa.Bytes.Laws.{slice_lem}
use libsamp.Saa.Layout.{Layout}
use libsamp.ArchiveFs.Setup.State.{
  State, System, Step, Ends, Ends-require, Ends-weaken, Ends-answer, ◌>>=◌, ◌>>◌, require, call,
}
use libsamp.ArchiveFs.Setup.Verify.{
  release, bracket, check_signature, verify_archive_signature, pointed, public_key,
}
use libsamp.ArchiveFs.Start.Stage.{HasBuffer}

-- At most the system changed.
abbrev pub IsSame : {Os : Type 0} → State Os → State Os → Type 0
IsSame {Os = Os} s s' = (os : Os) × (s' ≡ record s { os = os })

-- The calls of the check, one after the other from a state of the system on, all answer TRUE: a hash
-- of the signed bytes was made, and the signature was verified with the public key.
abbrev pub IsVerified : {Os : Type 0} → System Os → List ℕ → List ℕ → Os → Type 0
IsVerified system signed signature os =
    let context = system.crypt.acquire_context os in
    let hash = system.crypt.create_hash context.1 in
    let hashed = system.crypt.hash_data signed hash.1 in
    let key = system.crypt.import_key public_key hashed.1 in
    let verified = system.crypt.verify_signature signature key.1 in
    (context.0 ≡ true) × (hash.0 ≡ true) × (hashed.0 ≡ true) × (key.0 ≡ true) × (verified.0 ≡ true)

-- What an archive of a layout has signed, and its signature.
abbrev pub signed_of : Layout → List ℕ → List ℕ
signed_of layout bytes =
    take (layout.signature_offset - layout.header_size) (drop layout.header_size bytes)

abbrev pub signature_of : Layout → List ℕ → List ℕ
signature_of layout bytes = take layout.signature_size (drop layout.signature_offset bytes)

module _ {Os : Type 0} where
  -- At most the system changed, and `P` holds if the step succeeded.
  abbrev Keeps : Type 0 → State Os → Outcome (Unit {0}) × State Os → Type 0
  Keeps P s r = Ends {A = Unit {0}} (λ _ s'. IsSame s s' × P) (IsSame s) r

  released :
      (close : Os → Os) (s s' : State Os) (os : Os)
      → IsSame (record s { os = os; held = s.held + 1 }) s'
      → IsSame s (record s' { os = close s'.os; held = s'.held - 1 })
  released close s s' os (x, e) = (
    close x,
    ap (λ (t : State Os). record t { os = close t.os; held = t.held - 1 }) e
        ∙ ap (λ (n : ℕ). record s { os = close x; held = n }) (omega arith),
  )

  release-Keeps :
      (P : Type 0) (close : Os → Os) (s : State Os) (os : Os) (r : Outcome (Unit {0}) × State Os)
      → Keeps P (record s { os = os; held = s.held + 1 }) r
      → Keeps P s (release close r)
  unfolding release
  release-Keeps P close s os (done a, s') (v, p) = (released close s s' os v, p)
  release-Keeps P close s os (fail, s') v = released close s s' os v
  release-Keeps P close s os (fault, s') v = v

  bracket-Keeps :
      (P : Type 0) (acquire : Os → Bool × Os) (close : Os → Os) (body : Step Os (Unit {0}))
      (s : State Os)
      → ((acquire s.os).0 ≡ true
          → (let s' = record s { os = (acquire s.os).1; held = s.held + 1 } in
              Keeps P s' (body s')))
      → Keeps P s (bracket acquire close body s)
  unfolding bracket
  bracket-Keeps P acquire close body s keeps = by_result (acquire s.os).0 refl
    where
      os : Os
      os = (acquire s.os).1

      by_result :
          (b : Bool)
          → (acquire s.os).0 ≡ b
          → Keeps P s (elim b [
            | false ↦ (fail, record s { os = (acquire s.os).1 })
            | true ↦ release close (body (record s { os = (acquire s.os).1; held = s.held + 1 }))
          ])
      by_result false e = (os, refl)
      by_result true e =
          release-Keeps P close s os (body (record s { os = os; held = s.held + 1 })) (keeps e)

  -- A call whose answer has to be TRUE.
  require-Keeps :
      (P : Type 0) (f : Os → Bool × Os) (s : State Os)
      → ((f s.os).0 ≡ true → P)
      → Keeps P s ((call f >>= λ b. require b) s)
  unfolding call
  require-Keeps P f s p = by_result (f s.os).0 refl
    where
      by_result : (b : Bool) → (f s.os).0 ≡ b → Keeps P s (require b (record s { os = (f s.os).1 }))
      by_result false e = ((f s.os).1, refl)
      by_result true e = (((f s.os).1, refl), p e)

  then-Keeps :
      (P : Type 0) (f : Os → Bool × Os) (k : Step Os (Unit {0})) (s : State Os)
      → ((f s.os).0 ≡ true → (let s' = record s { os = (f s.os).1 } in Keeps P s' (k s')))
      → Keeps P s ((call f >>= λ b. (require b >> k)) s)
  unfolding call
  then-Keeps P f k s keeps = by_result (f s.os).0 refl
    where
      by_result :
          (b : Bool) → (f s.os).0 ≡ b → Keeps P s ((require b >> k) (record s { os = (f s.os).1 }))
      by_result false e = ((f s.os).1, refl)
      by_result true e = keeps e

module _ {Os : Type 0} (system : System Os) where
  check_signature-Keeps :
      (signed signature : List ℕ) (s : State Os)
      → Keeps
          (IsVerified system signed signature s.os)
          s
          (check_signature system signed signature s)
  unfolding check_signature
  check_signature-Keeps signed signature s =
      let P = IsVerified system signed signature s.os in
      bracket-Keeps P system.crypt.acquire_context system.crypt.release_context _ s λ context.
        bracket-Keeps P system.crypt.create_hash system.crypt.destroy_hash _ _ λ hash.
          then-Keeps P (system.crypt.hash_data signed) _ _ λ hashed.
            bracket-Keeps P (system.crypt.import_key public_key) system.crypt.destroy_key _ _ λ key.
              require-Keeps P (system.crypt.verify_signature signature) _
                λ verified. (context, hash, hashed, key, verified)

  -- What a check that answers 1 has found.
  abbrev pub HasSignature : Layout → List ℕ → Os → Type 0
  HasSignature layout bytes os =
      (layout.signature_size ≡ 128)
      × IsVerified system (signed_of layout bytes) (signature_of layout bytes) os

  -- The check of the signature of a layout inside the archive returns: it hashes and compares bytes of
  -- the archive only, gives back every object that it took, and changes nothing else. It answers 1
  -- only for a signature of 128 bytes, and only if all the calls for the bytes from the header to the
  -- signature, the public key and the signature, `CryptVerifySignatureA` the last, answered TRUE.
  pub verify_archive_signature-Ends :
      (layout : Layout) (s : State Os) (b : HasBuffer s.archive_size s)
      → layout.signature_offset + layout.signature_size ≤ s.archive_size
      → Ends {A = Unit {0}}
          (λ _ s'. IsSame s s' × HasSignature layout b.bytes s.os)
          (IsSame s)
          (verify_archive_signature system layout s)
  unfolding verify_archive_signature
  verify_archive_signature-Ends layout s b fits =
      Ends-require Q (IsSame s)
        (layout.signature_size == 128
          && not (ltb layout.signature_offset layout.header_size)
          && not (ltb s.archive_size layout.signature_offset))
        s _ (s.os, refl)
        λ t.
          let header = layout.header_size in
          let offset = layout.signature_offset in
          let first = slice_lem b.bytes header (offset - header) (ground (arith, t, b.room)) in
          let second =
            slice_lem b.bytes offset layout.signature_size (omega (arith, fits, b.room)) in
          let signed = signed_of layout b.bytes in
          let signature = signature_of layout b.bytes in
          let P = IsVerified system signed signature s.os in
          Ends-answer Q (IsSame s) (pointed s.archive_data) b.bytes s _ (ap pointed b.is) (
            Ends-answer Q (IsSame s) (slice b.bytes header (offset - header)) signed s _ first.0 (
              Ends-answer Q (IsSame s) (slice b.bytes offset layout.signature_size) signature s _
                second.0
                (Ends-weaken (λ _ s'. IsSame s s' × P) Q (IsSame s) (IsSame s) _
                  (check_signature-Keeps signed signature s)
                  (λ _ s' v. (v.0, (ground (arith, t), v.1))) (λ s' v. v))))
    where
      Q : Unit {0} → State Os → Type 0
      Q _ s' = IsSame s s' × HasSignature layout b.bytes s.os
