-- ===== src/Saa/Archive/Find.antt =====
-- The search of `samp_saa_find`: it ends, reads nothing out of range, and adds up the entries on
-- the way to the invalid index.
use libsamp.Common.{
  ℕ, zero, suc, ◌+◌, ◌<◌, ◌≤◌, ◌≡◌, ◌≢◌, ◌↔◌, refl, ap, subst, sym, ◌∙◌, arith, List, Bool, true,
  false, add32, length, get_or, set, length-set, length-replicate, get_or-replicate,
}
use libsamp.Common.Outcome.{
  guard, guard-true, Outcome, done, Returns, guard-Returns, >>=-Returns, ◌>>=◌, >>=-eq-done,
}
use libsamp.Saa.Bytes.{round_block_size}
use libsamp.Saa.Archive.{
  Archive, Entry, File, find_entry, sum_previous, samp_saa_find, find_fuel, locate_entry,
  fresh_visited,
}
use libsamp.Saa.Archive.Marks.{unmarked, unmarked-set, unmarked-replicate}
use native.Mathlib.Decide.{ℕ_discrete}
use libsamp.Saa.Archive.Chain.{Chain, blocks_of, rounded, sum_previous-Chain, sum_previous_done}
use libsamp.Saa.Archive.Open.{IsOpen, entry_at, entry_at_bounds, decode_entry_lem}

find_entry-Returns :
    (a : Archive) (hash n i : ℕ) → IsOpen a → i + n ≤ 256 → Returns (find_entry a hash n i)
unfolding find_entry
find_entry-Returns a hash zero i v h = λ e. cc
find_entry-Returns a hash (suc n) i v h =
    rw (decode_entry_lem a i v (omega arith))
      (ground (arith, find_entry-Returns a hash n (i + 1) v (omega arith)))

sum_previous-Returns :
    (a : Archive) (fuel : ℕ) (visited : List Bool) (previous offset : ℕ)
    → IsOpen a
    → length visited ≡ 256
    → previous < 256
    → unmarked visited < fuel
    → Returns (sum_previous a fuel visited previous offset)
unfolding sum_previous
sum_previous-Returns a zero visited previous offset v len p few = absurd (omega arith)
sum_previous-Returns a (suc fuel) visited previous offset v len p few = ground (
  arith,
  decode_entry_lem a previous v p,
  entry_at_bounds a previous v,
  unmarked-set visited previous,
  length-set visited previous true,
  sum_previous-Returns a fuel (set visited previous true) (entry_at a previous).previous
      (add32 offset (round_block_size (entry_at a previous).size)) v,
)

-- The file that `samp_saa_find` answers with: the first entry of that hash, after the chain of the
-- entries before it, and with its own blocks below the table.
pub record IsFile (a : Archive) (hash : ℕ) (f : File) : Type 0 where
  pub index_low : f.entry_index < 256
  pub same_hash : f.hash ≡ hash
  pub entry_hash : (entry_at a f.entry_index).hash ≡ hash
  pub first : (j : ℕ) → j < f.entry_index → (entry_at a j).hash ≢ hash
  pub entry_size : f.size ≡ (entry_at a f.entry_index).size
  pub nonempty : f.size ≢ 0
  pub not_itself : (entry_at a f.entry_index).previous ≢ f.entry_index
  pub count : ℕ
  pub before : ℕ
  pub chain : Chain a count (entry_at a f.entry_index).previous before
  pub offset : f.data_offset ≡ 256 + before
  pub fits : f.data_offset + blocks_of f.size ≤ a.layout.entry_offset

module _ (a : Archive) (hash : ℕ) (v : IsOpen a) where
  find_here :
      (n i : ℕ)
      → i < 256
      → (entry_at a i).hash ≡ hash
      → find_entry a hash (suc n) i ≡ done (i, entry_at a i)
  unfolding find_entry
  find_here n i h e = rw (decode_entry_lem a i v h) (ground arith)

  find_later :
      (n i : ℕ)
      → i < 256
      → (entry_at a i).hash ≢ hash
      → find_entry a hash (suc n) i ≡ find_entry a hash n (i + 1)
  unfolding find_entry
  find_later n i h e = rw (decode_entry_lem a i v h) (ground arith)

  -- What the scan has found: the first index at or after `i` whose entry has the hash.
  IsFirst : ℕ → ℕ → Type 0
  IsFirst i k =
      (i ≤ k)
      × ((entry_at a k).hash ≡ hash)
      × ((j : ℕ) → i ≤ j → j < k → (entry_at a j).hash ≢ hash)

  find_entry-IsFirst :
      (n i : ℕ) (r : ℕ × Entry)
      → i + n ≤ 256
      → find_entry a hash n i ≡ done r
      → (r.0 < i + n) × (r.1 ≡ entry_at a r.0) × IsFirst i r.0
  unfolding IsFirst
  find_entry-IsFirst zero i r h f = absurd (unfold find_entry in cc)
  find_entry-IsFirst (suc n) i r h f = elim (ℕ_discrete (entry_at a i).hash hash) [
    | yes e ↦
        let r_here : r ≡ (i, entry_at a i) = found (sym (find_here n i (omega arith) e) ∙ f) in
        rw r_here (omega arith, refl, (omega arith, e, λ j p q. absurd (omega arith)))
    | no ne ↦
        let rest =
          find_entry-IsFirst n (i + 1) r (omega arith)
            (sym (find_later n i (omega arith) ne) ∙ f) in
        (
          omega (arith, rest.0),
          rest.1,
          (
            omega (arith, rest.2.0),
            rest.2.1,
            λ j p q. elim (ℕ_discrete i j) [
              | yes same ↦ λ e. ne (ap (λ (x : ℕ). (entry_at a x).hash) same ∙ e)
              | no later ↦ rest.2.2 j (omega arith) q
            ],
          ),
        )
  ]
    where
      found : {x y : ℕ × Entry} → done x ≡ done y → y ≡ x
      found e = cc

  find_entry_done :
      (n i k : ℕ)
      → k < i + n
      → i + n ≤ 256
      → IsFirst i k
      → find_entry a hash n i ≡ done (k, entry_at a k)
  unfolding IsFirst
  find_entry_done zero i k high top h = absurd (omega arith)
  find_entry_done (suc n) i k high top h = elim (ℕ_discrete i k) [
    | yes same ↦
        find_here n i (omega arith) (ap (λ (x : ℕ). (entry_at a x).hash) same ∙ h.1)
        ∙ ap (λ (x : ℕ). done (x, entry_at a x)) same
    | no ne ↦
        find_later n i (omega arith) (h.2 i (omega arith) (omega arith))
        ∙ find_entry_done n (i + 1) k (omega arith) (omega arith)
            (omega arith, h.1, λ j p q. h.2 j (omega arith) q)
  ]

  length-fresh : length fresh_visited ≡ 256
  unfolding fresh_visited
  length-fresh = length-replicate 256 false

  fresh_unmarked : (q : ℕ) → get_or fresh_visited q false ≡ false
  unfolding fresh_visited
  fresh_unmarked q = get_or-replicate 256 q false

  unmarked-fresh : unmarked fresh_visited ≡ 256
  unfolding fresh_visited
  unmarked-fresh = unmarked-replicate 256

  locate_entry-Returns : (k : ℕ) → Returns (locate_entry a hash k (entry_at a k))
  unfolding locate_entry
  locate_entry-Returns k = ground (
    arith,
    sum_previous-Returns a find_fuel fresh_visited (entry_at a k).previous a.layout.header_size v,
    length-fresh,
    entry_at_bounds a k v,
    unmarked-fresh,
  )

  -- In an open archive the search never reads out of range, and the 257 rounds that its loop is
  -- given are enough.
  pub samp_saa_find-Returns : Returns (samp_saa_find a hash)
  unfolding samp_saa_find
  samp_saa_find-Returns = guard-Returns a.ready _ λ _.
      >>=-Returns (find_entry a hash 256 0) _ (find_entry-Returns a hash 256 0 v (omega arith))
        λ r e.
          let found = find_entry-IsFirst 256 0 r (omega arith) e in
          rw found.1 (locate_entry-Returns r.0)

  -- What `samp_saa_find` has checked of the entry when it succeeds.
  locate_done :
      (k : ℕ) (f : File)
      → k < 256
      → locate_entry a hash k (entry_at a k) ≡ done f
      → (sum_previous a find_fuel fresh_visited (entry_at a k).previous a.layout.header_size
          ≡ done f.data_offset)
        × (f.hash ≡ hash)
        × (f.entry_index ≡ k)
        × (f.size ≡ (entry_at a k).size)
        × (f.size ≢ 0)
        × ((entry_at a k).previous ≢ k)
        × (f.data_offset ≤ a.layout.entry_offset
            → f.data_offset + blocks_of f.size ≤ a.layout.entry_offset)
  unfolding locate_entry
  locate_done k f h e = ground (arith, rounded a k v, entry_at_bounds a k v)

  locate_entry-IsFile :
      (k : ℕ) (f : File)
      → k < 256
      → IsFirst 0 k
      → locate_entry a hash k (entry_at a k) ≡ done f
      → IsFile a hash f
  unfolding IsFirst
  locate_entry-IsFile k f h first e =
      let d = locate_done k f h e in
      let at = d.2 in
      let c =
        sum_previous-Chain a v find_fuel fresh_visited (entry_at a k).previous a.layout.header_size
          (entry_at_bounds a k v).1 (omega arith) d.0 in
      record {
        index_low = omega arith;
        same_hash = d.1;
        entry_hash = ap (λ (x : ℕ). (entry_at a x).hash) at ∙ first.1;
        first = λ j p. first.2 j (omega arith) (omega arith);
        entry_size = d.3 ∙ sym (ap (λ (x : ℕ). (entry_at a x).size) at);
        nonempty = d.4;
        not_itself = λ q. d.5 (sym (ap (λ (x : ℕ). (entry_at a x).previous) at) ∙ q ∙ at);
        count = c.0;
        before = c.1;
        chain = subst (λ x. Chain a c.0 (entry_at a x).previous c.1) (sym at) c.2;
        offset = omega (arith, c.3);
        fits = d.6 c.4;
      }

  -- What `samp_saa_find` answers with is the file of that hash.
  samp_saa_find-IsFile : (f : File) → samp_saa_find a hash ≡ done f → IsFile a hash f
  unfolding samp_saa_find
  samp_saa_find-IsFile f e =
      let opened = >>=-eq-done (guard a.ready) _ e in
      let scan = >>=-eq-done (find_entry a hash 256 0) _ opened.2 in
      let r = scan.0 in
      let found = find_entry-IsFirst 256 0 r (omega arith) scan.1 in
      locate_entry-IsFile r.0 f (omega (arith, found.0)) found.2
        (subst (λ x. locate_entry a hash r.0 x ≡ done f) found.1 scan.2)

  locate_entry_done :
      (f : File)
      → IsFile a hash f
      → locate_entry a hash f.entry_index (entry_at a f.entry_index) ≡ done f
  unfolding locate_entry
  locate_entry_done f h = ground (
    arith,
    entry_at_bounds a f.entry_index v,
    rounded a f.entry_index v,
    sum_previous_done a v find_fuel fresh_visited 256 h.chain (entry_at_bounds a f.entry_index v).1
        length-fresh (omega (arith, unmarked-fresh))
        (λ q e. absurd (true_false (sym e ∙ fresh_unmarked q))) (omega arith),
  )
    where
      true_false : true ≡ false → ⊥
      true_false e = cc

  -- A file of that hash, whose chain ends and whose blocks fit below the table, is found.
  IsFile-samp_saa_find : (f : File) → IsFile a hash f → samp_saa_find a hash ≡ done f
  unfolding samp_saa_find IsFirst
  IsFile-samp_saa_find f h =
      let first : IsFirst 0 f.entry_index = (omega arith, h.entry_hash, λ j p q. h.first j q) in
      guard-true _ v.is_ready
      ∙ ap (λ (m : Outcome (ℕ × Entry)). m >>= λ r. locate_entry a hash r.0 r.1)
          (find_entry_done 256 0 f.entry_index (omega arith) (omega arith) first)
      ∙ locate_entry_done f h

  -- `samp_saa_find` answers 1 with a file exactly when it is the first of that hash, its chain of
  -- entries ends at the invalid index, and its blocks end below the table.
  pub samp_saa_find_iff : (f : File) → (samp_saa_find a hash ≡ done f) ↔ IsFile a hash f
  samp_saa_find_iff f = (samp_saa_find-IsFile f, IsFile-samp_saa_find f)
