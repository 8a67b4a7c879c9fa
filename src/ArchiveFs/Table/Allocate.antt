-- ===== src/ArchiveFs/Table/Allocate.antt =====
-- Theorems on `allocate_record`: it fails only when every slot is taken, and then changes nothing.
use libsamp.Common.{
  ℕ, zero, suc, ◌+◌, ◌*◌, ◌%◌, ◌^◌, ◌≤◌, ◌<◌, ◌≡◌, ◌≢◌, ◌⊎◌, inl, inr, refl, ap, sym, ◌∙◌, subst,
  arith, true, false, Option, none, some, List, length, set, length-set, get_or-set_self,
  get_or-set_ne, Option-cases,
}
use native.Mathlib.Decide.{ℕ_discrete}
use libsamp.ArchiveFs.Table.{
  Record, cleared, Table, find_record, free_slot, next_handle, try_handles, allocate_record,
  handle_base, open_records, max_attempts,
}
use libsamp.ArchiveFs.Table.Lookup.{
  at, Matches, AreDistinct, find_record-some, find_record-none, free_slot-some, free_slot-none,
  find_record-Matches, find_record-set_ne, AreDistinct-set,
}
use libsamp.ArchiveFs.Table.Pigeonhole.{pigeonhole}

-- The handles that `next_fake_handle` goes round.
abbrev pub candidate : ℕ → ℕ
candidate k = handle_base + 2 * (k % 128)

next_handle-candidate : (k : ℕ) → next_handle (candidate k) ≡ candidate (suc k)
unfolding next_handle
next_handle-candidate k = ground arith

-- The bytes of a file are there, and its size is a DWORD.
abbrev pub Fits : List ℕ → ℕ → Type 0
Fits bytes size = (size ≤ length bytes) × (size < 2 ^ 32)

-- The invariant of the table.
pub record IsTable (t : Table) : Type 0 where
  pub slots : length t.records ≡ open_records
  pub place : ℕ
  pub next_place : t.next_fake_handle ≡ candidate place
  pub distinct : AreDistinct t.records
  pub sizes : (i : ℕ) → Fits (at t.records i).bytes (at t.records i).size
  pub nonzero : (i h : ℕ) → Matches (at t.records i) h → h ≢ 0

try_handles-some :
    (records : List Record) (n k h next : ℕ)
    → try_handles records n (candidate k) ≡ (some h, next)
    → (i : ℕ) × (find_record records h ≡ none) × (h ≡ candidate i) × (next ≡ candidate (suc i))
unfolding try_handles
try_handles-some records zero k h next e = cc
try_handles-some records (suc n) k h next e =
    elim (Option-cases (find_record records (candidate k))) [
      | inl f ↦
          let split : (candidate k ≡ h) × (next_handle (candidate k) ≡ next) =
            (ground (arith, f)) in
          (
            k,
            subst (λ (x : ℕ). find_record records x ≡ none) split.0 f,
            sym split.0,
            sym split.1 ∙ next_handle-candidate k,
          )
      | inr (j, s) ↦
          try_handles-some records n (suc k) h next (ground (arith, s, next_handle-candidate k))
    ]

try_handles-none :
    (records : List Record) (n k next : ℕ)
    → try_handles records n (candidate k) ≡ (none, next)
    → (i : ℕ) → i < n
    → (j : ℕ) × (find_record records (candidate (k + i)) ≡ some j)
unfolding try_handles
try_handles-none records zero k next e i h = absurd (omega arith)
try_handles-none records (suc n) k next e i h =
    elim (Option-cases (find_record records (candidate k))) [
      | inl f ↦ absurd (ground (arith, f))
      | inr (j, s) ↦
          at_place i h (j, s)
            (λ i l.
              try_handles-none records n (suc k) next (ground (arith, s, next_handle-candidate k)) i
                l)
    ]
  where
    at_place :
        (i : ℕ)
        → i < suc n
        → (j : ℕ) × (find_record records (candidate k) ≡ some j)
        → ((i : ℕ) → i < n → (j : ℕ) × (find_record records (candidate (suc k + i)) ≡ some j))
        → (j : ℕ) × (find_record records (candidate (k + i)) ≡ some j)
    at_place zero l found rest =
        subst (λ (x : ℕ). (j : ℕ) × (find_record records (candidate x) ≡ some j)) (omega arith)
          found
    at_place (suc i) l found rest =
        subst (λ (x : ℕ). (j : ℕ) × (find_record records (candidate x) ≡ some j)) (omega arith)
          (rest i (omega arith))

-- A table of 50 records does not take all of the 128 candidates.
try_handles-found :
    (records : List Record) (k next : ℕ)
    → length records ≤ open_records
    → try_handles records max_attempts (candidate k) ≢ (none, next)
try_handles-found records k next few e =
    let total : (i : ℕ) → i < 128 → (j : ℕ) × (find_record records (candidate (k + i)) ≡ some j) =
      try_handles-none records max_attempts k next e in
    let slot : ℕ → ℕ = λ i. slot_of (find_record records (candidate (k + i))) in
    let found : (i : ℕ) → i < 128 → find_record records (candidate (k + i)) ≡ some (slot i) =
      λ i l. (ground (arith, (total i l).1)) in
    omega (
      arith,
      pigeonhole 128 50 slot
          (λ i l.
            omega (arith, (find_record-some records (candidate (k + i)) (slot i) (found i l)).0))
          (λ i j li lj e. same i j li lj (
            sym (find_record-some records (candidate (k + i)) (slot i) (found i li)).1.1
            ∙ ap (λ (x : ℕ). (at records x).handle) e
            ∙ (find_record-some records (candidate (k + j)) (slot j) (found j lj)).1.1)),
    )
  where
    slot_of : Option ℕ → ℕ
    slot_of none = 0
    slot_of (some i) = i

    same : (i j : ℕ) → i < 128 → j < 128 → candidate (k + i) ≡ candidate (k + j) → i ≡ j
    same i j li lj e = omega arith

abbrev pub fresh_record : ℕ → List ℕ → ℕ → Record
fresh_record h bytes size = record {
  handle = h;
  bytes = bytes;
  size = size;
  position = 0;
  active = true;
}

-- What an allocation that succeeds with the handle `h` does to the table.
pub record IsAllocated (t t' : Table) (h : ℕ) (bytes : List ℕ) (size : ℕ) : Type 0 where
  pub slot : ℕ
  pub slot_low : slot < open_records
  pub was_free : (at t.records slot).active ≡ false
  pub not_null : h ≢ 0
  pub was_unknown : find_record t.records h ≡ none
  pub written : t'.records ≡ set t.records slot (fresh_record h bytes size)
  pub now_known : find_record t'.records h ≡ some slot
  pub others : (k : ℕ) → k ≢ h → find_record t'.records k ≡ find_record t.records k
  pub valid : IsTable t'

module _ (t : Table) (v : IsTable t) (bytes : List ℕ) (size : ℕ) where
  abbrev fill : (slot i : ℕ) → Table
  fill slot i = record {
    records = set t.records slot (fresh_record (candidate i) bytes size);
    next_fake_handle = candidate (suc i);
  }

  fill-IsAllocated :
      (slot i : ℕ)
      → Fits bytes size
      → slot < open_records
      → (at t.records slot).active ≡ false
      → find_record t.records (candidate i) ≡ none
      → IsAllocated t (fill slot i) (candidate i) bytes size
  fill-IsAllocated slot i fits low free unknown =
      let h : ℕ = candidate i in
      let r : Record = fresh_record h bytes size in
      let inside : slot < length t.records = omega (arith, v.slots) in
      let here : at (set t.records slot r) slot ≡ r =
        get_or-set_self t.records slot r cleared inside in
      let there : (j : ℕ) → slot ≢ j → at (set t.records slot r) j ≡ at t.records j =
        λ j ne. get_or-set_ne t.records slot j r cleared ne in
      let distinct : AreDistinct (set t.records slot r) =
        AreDistinct-set t.records slot r v.distinct inside
          (λ j k ne m mj. find_record-none t.records h j unknown (mj.0, mj.1 ∙ sym m.1)) in
      record {
        slot = slot;
        slot_low = low;
        was_free = free;
        not_null = λ e. omega arith;
        was_unknown = unknown;
        written = refl;
        now_known =
            find_record-Matches (set t.records slot r) h slot distinct
              (ap (λ (x : Record). x.active) here, ap (λ (x : Record). x.handle) here);
        others = λ k ne.
            find_record-set_ne t.records slot k r distinct v.distinct inside (λ m. cc)
              (λ m. ne (sym m.1));
        valid = record {
          slots = length-set t.records slot r ∙ v.slots;
          place = suc i;
          next_place = refl;
          distinct = distinct;
          sizes = λ j. elim (ℕ_discrete slot j) [
            | yes e ↦
                subst (λ (x : Record). Fits x.bytes x.size)
                  (sym here ∙ ap (λ (x : ℕ). at (set t.records slot r) x) e) fits
            | no ne ↦ subst (λ (x : Record). Fits x.bytes x.size) (sym (there j ne)) (v.sizes j)
          ];
          nonzero = λ j k m. elim (ℕ_discrete slot j) [
            | yes e ↦ λ z. omega (
              arith,
              subst (λ (x : Record). Matches x k)
                  (sym (ap (λ (x : ℕ). at (set t.records slot r) x) e) ∙ here) m,
            )
            | no ne ↦ v.nonzero j k (subst (λ (x : Record). Matches x k) (there j ne) m)
          ];
        };
      }

  allocate_record-full : free_slot t.records ≡ none → allocate_record t bytes size ≡ (none, t)
  unfolding allocate_record
  allocate_record-full e = ground (arith, e)

  allocate_record-fill :
      (slot i : ℕ)
      → free_slot t.records ≡ some slot
      → (next : ℕ)
      → try_handles t.records max_attempts t.next_fake_handle ≡ (some (candidate i), next)
      → next ≡ candidate (suc i)
      → allocate_record t bytes size ≡ (some (candidate i), fill slot i)
  unfolding allocate_record
  allocate_record-fill slot i e next tried n = ground (arith, e, tried, n)

  tries :
      (o : Option ℕ × ℕ)
      → try_handles t.records max_attempts t.next_fake_handle ≡ o
      → (slot : ℕ) → free_slot t.records ≡ some slot
      → Fits bytes size
      → (h : ℕ) × (t' : Table) × (allocate_record t bytes size ≡ (some h, t'))
        × IsAllocated t t' h bytes size
  tries (none, next) e slot f fits = absurd (
      try_handles-found t.records v.place next (omega (arith, v.slots))
        (ap (λ (x : ℕ). try_handles t.records max_attempts x) (sym v.next_place) ∙ e))
  tries (some h, next) e slot f fits =
      let free = free_slot-some t.records slot f in
      let (i, unknown, is_h, is_next) =
        try_handles-some t.records max_attempts v.place h next
          (ap (λ (x : ℕ). try_handles t.records max_attempts x) (sym v.next_place) ∙ e) in
      (
        candidate i,
        fill slot i,
        allocate_record-fill slot i f next (e ∙ ap (λ (x : ℕ). (some x, next)) is_h) is_next,
        fill-IsAllocated slot i fits (omega (arith, free.0, v.slots)) free.1
            (subst (λ (x : ℕ). find_record t.records x ≡ none) is_h unknown),
      )

  -- With every slot taken the allocation fails and leaves the table; otherwise it succeeds.
  pub allocate_record_total :
      Fits bytes size
      → (((i : ℕ) → i < open_records → (at t.records i).active ≡ true)
          × (allocate_record t bytes size ≡ (none, t)))
        ⊎ ((h : ℕ) × (t' : Table) × (allocate_record t bytes size ≡ (some h, t'))
            × IsAllocated t t' h bytes size)
  allocate_record_total fits = elim (Option-cases (free_slot t.records)) [
    | inl n ↦
        inl ((λ i l. free_slot-none t.records i n (omega (arith, v.slots))), allocate_record-full n)
    | inr (slot, f) ↦
        inr (tries (try_handles t.records max_attempts t.next_fake_handle) refl slot f fits)
  ]
