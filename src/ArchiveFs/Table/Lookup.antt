-- ===== src/ArchiveFs/Table/Lookup.antt =====
-- `find_record` as a finite map from handles to records, under the invariant of the table.
use libsamp.Common.{
  ℕ, zero, suc, ◌<◌, ◌≡◌, ◌≢◌, inl, inr, ap, sym, ◌∙◌, subst, arith, true, false, ◌&&◌, none, some,
  List, [], ◌∷◌, length, get_or, set, get_or-set_self, get_or-set_ne, ◌==◌, Option-cases,
  Bool-cases,
}
use native.Mathlib.Decide.{ℕ_discrete}
use libsamp.ArchiveFs.Table.{Record, cleared, find_record, free_slot}

-- The record at an index; past the end, one that is not active.
abbrev pub at : List Record → ℕ → Record
at records i = get_or records i cleared

abbrev pub Matches : Record → ℕ → Type 0
Matches r h = (r.active ≡ true) × (r.handle ≡ h)

pub find_record-some :
    (records : List Record) (h i : ℕ)
    → find_record records h ≡ some i
    → (i < length records) × Matches (at records i) h
unfolding find_record
find_record-some [] h i e = cc
find_record-some (r ∷ records) h i e = elim (Bool-cases (r.active && r.handle == h)) [
  | inl t ↦ let z : i ≡ 0 = (ground (arith, t)) in rw z (ground (arith, t))
  | inr t ↦ elim (Option-cases (find_record records h)) [
    | inl n ↦ ground (arith, t, n)
    | inr (j, s) ↦
        let z : i ≡ suc j = (ground (arith, t, s)) in
        let rest = find_record-some records h j s in rw z (omega (arith, rest.0), rest.1)
  ]
]

pub find_record-none :
    (records : List Record) (h i : ℕ) → find_record records h ≡ none → ¬ Matches (at records i) h
unfolding find_record
find_record-none [] h i e m = cc
find_record-none (r ∷ records) h zero e m = ground arith
find_record-none (r ∷ records) h (suc i) e m = elim (Option-cases (find_record records h)) [
  | inl n ↦ find_record-none records h i n m
  | inr (j, s) ↦ ground (arith, s)
]

pub free_slot-some :
    (records : List Record) (i : ℕ)
    → free_slot records ≡ some i
    → (i < length records) × ((at records i).active ≡ false)
unfolding free_slot
free_slot-some [] i e = cc
free_slot-some (r ∷ records) i e = elim (Bool-cases r.active) [
  | inr t ↦ let z : i ≡ 0 = (ground (arith, t)) in rw z (omega arith, t)
  | inl t ↦ elim (Option-cases (free_slot records)) [
    | inl n ↦ ground (arith, t, n)
    | inr (j, s) ↦
        let z : i ≡ suc j = (ground (arith, t, s)) in
        let rest = free_slot-some records j s in rw z (omega (arith, rest.0), rest.1)
  ]
]

pub free_slot-none :
    (records : List Record) (i : ℕ)
    → free_slot records ≡ none
    → i < length records
    → (at records i).active ≡ true
unfolding free_slot
free_slot-none [] i e h = absurd (omega arith)
free_slot-none (r ∷ records) zero e h = ground arith
free_slot-none (r ∷ records) (suc i) e h = elim (Option-cases (free_slot records)) [
  | inl n ↦ free_slot-none records i n (omega arith)
  | inr (j, s) ↦ ground (arith, s)
]

-- No handle belongs to two active records.
abbrev pub AreDistinct : List Record → Type 0
AreDistinct records = (i j h : ℕ) → Matches (at records i) h → Matches (at records j) h → i ≡ j

pub find_record-Matches :
    (records : List Record) (h i : ℕ)
    → AreDistinct records
    → Matches (at records i) h
    → find_record records h ≡ some i
find_record-Matches records h i once m = elim (Option-cases (find_record records h)) [
  | inl n ↦ absurd (find_record-none records h i n m)
  | inr (j, s) ↦ let e : i ≡ j = (once i j h m (find_record-some records h j s).1) in rw (e, s)
]

-- A write into a slot, where the old record there is not that of `h` and the new one is not.
pub find_record-set_ne :
    (records : List Record) (slot h : ℕ) (r : Record)
    → AreDistinct (set records slot r)
    → AreDistinct records
    → slot < length records
    → ¬ Matches (at records slot) h
    → ¬ Matches r h
    → find_record (set records slot r) h ≡ find_record records h
find_record-set_ne records slot h r after before low old new =
    elim (Option-cases (find_record records h)) [
      | inr (j, s) ↦
          let found = find_record-some records h j s in
          elim (ℕ_discrete slot j) [
            | yes e ↦ absurd (old (rw e found.1))
            | no ne ↦
                find_record-Matches (set records slot r) h j after
                  (rw (get_or-set_ne records slot j r cleared ne) found.1)
                ∙ sym s
          ]
      | inl n ↦ elim (Option-cases (find_record (set records slot r) h)) [
        | inl n' ↦ n' ∙ sym n
        | inr (j, s) ↦
            let found = find_record-some (set records slot r) h j s in
            elim (ℕ_discrete slot j) [
              | yes e ↦ absurd (
                  new (
                    subst (λ (x : Record). Matches x h)
                      (ap (λ (x : ℕ). at (set records slot r) x) (sym e)
                        ∙ get_or-set_self records slot r cleared low)
                      found.1))
              | no ne ↦ absurd (
                  find_record-none records h j n (
                    subst (λ (x : Record). Matches x h) (get_or-set_ne records slot j r cleared ne)
                      found.1))
            ]
      ]
    ]

-- Writing a record that is inactive, or whose handle no other slot has, keeps the handles distinct.
pub AreDistinct-set :
    (records : List Record) (slot : ℕ) (r : Record)
    → AreDistinct records
    → slot < length records
    → ((j h : ℕ) → slot ≢ j → Matches r h → ¬ Matches (at records j) h)
    → AreDistinct (set records slot r)
AreDistinct-set records slot r once low apart i j h m k = elim (ℕ_discrete slot i) [
  | yes ei ↦ elim (ℕ_discrete slot j) [
    | yes ej ↦ sym ei ∙ ej
    | no nj ↦ absurd (apart j h nj (here i ei m) (there j nj k))
  ]
  | no ni ↦ elim (ℕ_discrete slot j) [
    | yes ej ↦ absurd (apart i h ni (here j ej k) (there i ni m))
    | no nj ↦ once i j h (there i ni m) (there j nj k)
  ]
]
  where
    here : (i : ℕ) → slot ≡ i → Matches (at (set records slot r) i) h → Matches r h
    here i e m =
        subst (λ (x : Record). Matches x h)
          (ap (λ (x : ℕ). at (set records slot r) x) (sym e)
            ∙ get_or-set_self records slot r cleared low)
          m

    there : (i : ℕ) → slot ≢ i → Matches (at (set records slot r) i) h → Matches (at records i) h
    there i ne m = subst (λ (x : Record). Matches x h) (get_or-set_ne records slot i r cleared ne) m
