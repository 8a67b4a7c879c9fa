-- ===== src/ArchiveFs/Handlers/Views.antt =====
-- What a handle means to the hooks of win32_archive_fs.c, and how a write to a record changes it.
use libsamp.Common.{
  ℕ, ◌<◌, ◌≡◌, ◌≢◌, refl, ap, sym, ◌∙◌, subst, arith, true, none, some, length, set, length-set,
  get_or-set_self, get_or-set_ne, Option-cases, Bool-cases, inl, inr,
}
use native.Mathlib.Decide.{ℕ_discrete}
use libsamp.ArchiveFs.Table.{Record, cleared, find_record}
use libsamp.ArchiveFs.Table.Lookup.{
  at, Matches, AreDistinct, find_record-some, find_record-Matches, find_record-set_ne,
  AreDistinct-set,
}
use libsamp.ArchiveFs.Table.Allocate.{Fits, IsTable}
use libsamp.ArchiveFs.Handlers.{Fs, virtual_record, put_record}

-- The invariant of the hooks' state.
pub record IsFs (s : Fs) : Type 0 where
  pub table : IsTable s.table
  pub main : Fits s.main_data s.main_size
  pub script : Fits s.script_data s.script_size

-- The record of a virtual handle.
pub record IsOpened (s : Fs) (h i : ℕ) (r : Record) : Type 0 where
  pub active : s.active ≡ true
  pub found : find_record s.table.records h ≡ some i
  pub is_record : r ≡ at s.table.records i
  pub low : i < length s.table.records
  pub matched : Matches r h

pub virtual_record-some :
    (s : Fs) (h i : ℕ) (r : Record) → virtual_record s h ≡ some (i, r) → IsOpened s h i r
unfolding virtual_record
virtual_record-some s h i r e = elim (Bool-cases s.active) [
  | inr n ↦ absurd (ground (arith, n))
  | inl a ↦ elim (Option-cases (find_record s.table.records h)) [
    | inl n ↦ absurd (ground (arith, a, n))
    | inr (j, f) ↦
        let same : (j ≡ i) × (at s.table.records j ≡ r) = (ground (arith, a, f)) in
        let place = find_record-some s.table.records h j f in
        let is : r ≡ at s.table.records i =
          sym same.1 ∙ ap (λ (x : ℕ). at s.table.records x) same.0 in
        record {
          active = a;
          found = f ∙ ap some same.0;
          is_record = is;
          low = subst (λ (x : ℕ). x < length s.table.records) same.0 place.0;
          matched = subst (λ (x : Record). Matches x h) same.1 place.1;
        }
  ]
]

virtual_record-found :
    (s : Fs) (h i : ℕ)
    → s.active ≡ true
    → find_record s.table.records h ≡ some i
    → virtual_record s h ≡ some (i, at s.table.records i)
unfolding virtual_record
virtual_record-found s h i a f = ground (arith, a, f)

virtual_record-lost :
    (s : Fs) (h : ℕ) → find_record s.table.records h ≡ none → virtual_record s h ≡ none
unfolding virtual_record
virtual_record-lost s h f = ground (arith, f)

-- Tables that find the same handles, with the same records there, look alike.
virtual_record-ext :
    (s s' : Fs) (h : ℕ)
    → s.active ≡ s'.active
    → find_record s.table.records h ≡ find_record s'.table.records h
    → ((i : ℕ)
        → find_record s.table.records h ≡ some i
        → at s.table.records i ≡ at s'.table.records i)
    → virtual_record s h ≡ virtual_record s' h
unfolding virtual_record
virtual_record-ext s s' h a f same = elim (Option-cases (find_record s.table.records h)) [
  | inl n ↦ ground (arith, a, f, n)
  | inr (i, e) ↦ ground (arith, a, f, e, same i e)
]

module _ (s : Fs) (v : IsFs s) (h i : ℕ) (r r' : Record) (o : IsOpened s h i r) where
  abbrev pub put : Fs
  put = put_record s i r'

  -- A record that keeps its handle or loses it, and whose bytes are there, may be written.
  pub put_record-IsFs :
      Fits r'.bytes r'.size → ((k : ℕ) → Matches r' k → Matches r k) → IsFs (put_record s i r')
  unfolding put_record
  put_record-IsFs fits keeps = record {
    main = v.main;
    script = v.script;
    table = record {
      slots = length-set s.table.records i r' ∙ v.table.slots;
      place = v.table.place;
      next_place = v.table.next_place;
      distinct = AreDistinct-set s.table.records i r' v.table.distinct o.low apart;
      sizes = λ j. all (λ (x : Record). Fits x.bytes x.size) j fits (v.table.sizes j);
      nonzero = λ j k.
          all (λ (x : Record). Matches x k → k ≢ 0) j
            (λ m. v.table.nonzero i k (subst (λ (x : Record). Matches x k) o.is_record (keeps k m)))
            (v.table.nonzero j k);
    };
  }
    where
      apart : (j k : ℕ) → i ≢ j → Matches r' k → ¬ Matches (at s.table.records j) k
      apart j k ne m mj =
          ne (
            v.table.distinct i j k (subst (λ (x : Record). Matches x k) o.is_record (keeps k m)) mj)

      all :
          (P : Record → Type 0) (j : ℕ)
          → P r'
          → P (at s.table.records j)
          → P (at (set s.table.records i r') j)
      all P j here there = elim (ℕ_discrete i j) [
        | yes e ↦
            subst P
              (sym (get_or-set_self s.table.records i r' cleared o.low)
                ∙ ap (λ (x : ℕ). at (set s.table.records i r') x) e)
              here
        | no ne ↦ subst P (sym (get_or-set_ne s.table.records i j r' cleared ne)) there
      ]

  module _ (fits : Fits r'.bytes r'.size) (keeps : (k : ℕ) → Matches r' k → Matches r k) where
    put_distinct : AreDistinct (set s.table.records i r')
    unfolding put_record
    put_distinct = (put_record-IsFs fits keeps).table.distinct

    -- The handle then has the new record.
    pub virtual_record-put : Matches r' h → virtual_record (put_record s i r') h ≡ some (i, r')
    unfolding put_record
    virtual_record-put m =
        let here : at (set s.table.records i r') i ≡ r' =
          get_or-set_self s.table.records i r' cleared o.low in
        virtual_record-found put h i o.active (
          find_record-Matches (set s.table.records i r') h i put_distinct
            (subst (λ (x : Record). Matches x h) (sym here) m))
        ∙ ap (λ (x : Record). some (i, x)) here

    -- The other handles keep theirs.
    pub virtual_record-put_ne :
        (k : ℕ) → k ≢ h → virtual_record (put_record s i r') k ≡ virtual_record s k
    unfolding put_record
    virtual_record-put_ne k ne =
        let other : ¬ Matches r k = (λ m. ne (sym m.1 ∙ o.matched.1)) in
        let found : find_record (set s.table.records i r') k ≡ find_record s.table.records k =
          find_record-set_ne s.table.records i k r' put_distinct v.table.distinct o.low
            (λ m. other (subst (λ (x : Record). Matches x k) (sym o.is_record) m))
            (λ m. other (keeps k m)) in
        sym (
          virtual_record-ext s put k refl (sym found) (λ j f. sym (
            get_or-set_ne s.table.records i j r' cleared (λ e. other (
              subst (λ (x : Record). Matches x k)
                (ap (λ (x : ℕ). at s.table.records x) (sym e) ∙ sym o.is_record)
                (find_record-some s.table.records k j f).1)))))

    -- A handle whose record is gone is no longer known.
    pub virtual_record-cleared : ¬ Matches r' h → virtual_record (put_record s i r') h ≡ none
    unfolding put_record
    virtual_record-cleared gone = elim (Option-cases (find_record (set s.table.records i r') h)) [
      | inl n ↦ virtual_record-lost put h n
      | inr (j, f) ↦ absurd (elsewhere j (find_record-some (set s.table.records i r') h j f).1)
    ]
      where
        elsewhere : (j : ℕ) → ¬ Matches (at (set s.table.records i r') j) h
        elsewhere j m = elim (ℕ_discrete i j) [
          | yes e ↦ gone (
              subst (λ (x : Record). Matches x h)
                (ap (λ (x : ℕ). at (set s.table.records i r') x) (sym e)
                  ∙ get_or-set_self s.table.records i r' cleared o.low)
                m)
          | no ne ↦ ne (
              v.table.distinct i j h (subst (λ (x : Record). Matches x h) o.is_record o.matched) (
                subst (λ (x : Record). Matches x h)
                  (get_or-set_ne s.table.records i j r' cleared ne) m))
        ]
