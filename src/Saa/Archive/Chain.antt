-- ===== src/Saa/Archive/Chain.antt =====
-- The chain of entries that stand before a file, as a relation, and the loop of `samp_saa_find`
-- against it.
use libsamp.Common.{
  ℕ, zero, suc, ◌+◌, ◌*◌, ◌/◌, ◌<◌, ◌≤◌, ◌≡◌, ◌≢◌, refl, ap, subst, sym, ◌∙◌, arith, List, Bool,
  true, false, inl, inr, length, get_or, set, length-set, get_or-set_ne, Bool-cases,
}
use native.Mathlib.Decide.{ℕ_discrete}
use libsamp.Common.Outcome.{done}
use libsamp.Saa.Bytes.{round_block_size}
use libsamp.Saa.Bytes.Laws.{round_block_size_lem}
use libsamp.Saa.Archive.{Archive, sum_previous}
use libsamp.Saa.Archive.Open.{IsOpen, entry_at, entry_at_bounds, decode_entry_lem}
use libsamp.Saa.Archive.Marks.{unmarked, unmarked-set}

-- Whole blocks that hold `size` bytes.
abbrev pub blocks_of : ℕ → ℕ
blocks_of size = (size + 2047) / 2048 * 2048

-- From `p` it is `n` entries back to the invalid index, and they take `total` bytes.
pub data Chain (a : Archive) : ℕ → ℕ → ℕ → Type 0 where
  root : {p : ℕ} → p ≡ a.layout.invalid_index → Chain a zero p 0
  link :
      {n p q t total : ℕ}
      → p ≢ a.layout.invalid_index
      → q ≡ (entry_at a p).previous
      → q ≢ p
      → (entry_at a p).size ≢ 0
      → total ≡ blocks_of (entry_at a p).size + t
      → Chain a n q t
      → Chain a (suc n) p total

-- The number of entries is determined by where the chain starts.
Chain-length : (a : Archive) {n m p q s t : ℕ} → p ≡ q → Chain a n p s → Chain a m q t → n ≡ m
Chain-length a e (root i) (root j) = refl
Chain-length a e (root i) (link ne _ _ _ _ _) = absurd (ne (sym e ∙ i))
Chain-length a e (link ne _ _ _ _ _) (root j) = absurd (ne (e ∙ j))
Chain-length a e (link _ i _ _ _ c) (link _ j _ _ _ d) =
    ap suc (Chain-length a (i ∙ ap (λ (x : ℕ). (entry_at a x).previous) e ∙ sym j) c d)

pub rounded :
    (a : Archive) (p : ℕ)
    → IsOpen a
    → round_block_size (entry_at a p).size ≡ blocks_of (entry_at a p).size
rounded a p v = round_block_size_lem _ (omega (arith, (entry_at_bounds a p v).2))

module _ (a : Archive) (v : IsOpen a) where
  open a use {layout}

  -- What one round of the loop has checked when the search succeeds.
  round_done :
      (fuel : ℕ) (visited : List Bool) (p offset : ℕ) {end : ℕ}
      → p < 256
      → offset ≤ layout.entry_offset
      → p ≢ layout.invalid_index
      → sum_previous a (suc fuel) visited p offset ≡ done end
      → ((entry_at a p).previous ≢ p)
        × ((entry_at a p).size ≢ 0)
        × (offset + blocks_of (entry_at a p).size ≤ layout.entry_offset)
        × (sum_previous a fuel
              (set visited p true)
              (entry_at a p).previous
              (offset + blocks_of (entry_at a p).size)
            ≡ done end)
  unfolding sum_previous
  round_done fuel visited p offset h low ne e =
      ground (arith, decode_entry_lem a p v h, rounded a p v, entry_at_bounds a p v)

  -- What the loop adds up is the chain, and it stays below the table.
  pub sum_previous-Chain :
      (fuel : ℕ) (visited : List Bool) (p offset : ℕ) {end : ℕ}
      → p < 256
      → offset ≤ layout.entry_offset
      → sum_previous a fuel visited p offset ≡ done end
      → (n : ℕ) × (t : ℕ) × Chain a n p t × (end ≡ offset + t) × (end ≤ layout.entry_offset)
  sum_previous-Chain zero visited p offset h low e = absurd (unfold sum_previous in cc)
  sum_previous-Chain (suc fuel) visited p offset {end} h low e =
      elim (ℕ_discrete p layout.invalid_index) [
        | yes i ↦ (0, 0, root i, at_root i, omega (arith, at_root i))
        | no ne ↦
            let r = round_done fuel visited p offset h low ne e in
            let size = (entry_at a p).size in
            let rest =
              sum_previous-Chain fuel (set visited p true) (entry_at a p).previous
                (offset + blocks_of size) (entry_at_bounds a p v).1 r.2 r.3 in
            (
              suc rest.0,
              blocks_of size + rest.1,
              link ne refl r.0 r.1 refl rest.2,
              omega (arith, rest.3),
              rest.4,
            )
      ]
    where
      at_root : p ≡ layout.invalid_index → end ≡ offset + 0
      at_root i = unfold sum_previous in ground arith

  -- Every index visited so far is further from the end of the chain than `n` entries.
  abbrev Behind : List Bool → ℕ → Type 0
  Behind visited n =
      (q : ℕ) → get_or visited q false ≡ true → (m : ℕ) × (s : ℕ) × Chain a m q s × (n < m)

  Behind-set :
      (visited : List Bool) (n p t : ℕ)
      → p < length visited
      → Chain a (suc n) p t
      → Behind visited (suc n)
      → Behind (set visited p true) n
  Behind-set visited n p t h c b q e = elim (ℕ_discrete p q) [
    | yes i ↦ (suc n, t, subst (λ x. Chain a (suc n) x t) i c, omega arith)
    | no ne ↦
        let old = b q (sym (get_or-set_ne visited p q true false ne) ∙ e) in
        (old.0, old.1, old.2, omega (arith, old.3))
  ]

  not_visited :
      (visited : List Bool) (n p t : ℕ)
      → Chain a n p t
      → Behind visited n
      → get_or visited p false ≡ false
  not_visited visited n p t c b = elim (Bool-cases (get_or visited p false)) [
    | inl e ↦ let old = b p e in absurd (omega (arith, old.3, Chain-length a refl c old.2))
    | inr e ↦ e
  ]

  -- One round on an entry of the chain goes on with the entry before it.
  round_link :
      (fuel : ℕ) (visited : List Bool) (p offset : ℕ)
      → p < 256
      → p ≢ layout.invalid_index
      → get_or visited p false ≡ false
      → (entry_at a p).previous ≢ p
      → (entry_at a p).size ≢ 0
      → offset + blocks_of (entry_at a p).size ≤ layout.entry_offset
      → sum_previous a (suc fuel) visited p offset
        ≡ sum_previous a fuel
            (set visited p true)
            (entry_at a p).previous
            (offset + blocks_of (entry_at a p).size)
  unfolding sum_previous
  round_link fuel visited p offset h ne fresh q_ne nonzero fits =
      ground (arith, decode_entry_lem a p v h, rounded a p v, entry_at_bounds a p v)

  -- A chain that fits below the table is added up: no entry of it is met twice.
  pub sum_previous_done :
      (fuel : ℕ) (visited : List Bool) (offset : ℕ) {n p t : ℕ}
      → Chain a n p t
      → p < 256
      → length visited ≡ 256
      → unmarked visited < fuel
      → Behind visited n
      → offset + t ≤ layout.entry_offset
      → sum_previous a fuel visited p offset ≡ done (offset + t)
  sum_previous_done zero visited offset c h len few b fits = absurd (omega arith)
  sum_previous_done (suc fuel) visited offset (root i) h len few b fits =
      unfold sum_previous in ground arith
  sum_previous_done (suc fuel) visited offset (link {n} {p} {q} {t} {total} ne e q_ne nonzero sum c)
        h len few b fits =
      let fresh = not_visited visited (suc n) p total (link ne e q_ne nonzero sum c) b in
      round_link fuel visited p offset h ne fresh (λ x. q_ne (e ∙ x)) nonzero (omega arith)
      ∙ sum_previous_done fuel (set visited p true) (offset + blocks_of (entry_at a p).size)
          (subst (λ x. Chain a n x t) e c) (entry_at_bounds a p v).1
          (length-set visited p true ∙ len)
          (omega (arith, unmarked-set visited p (omega arith) fresh))
          (Behind-set visited n p total (omega arith) (link ne e q_ne nonzero sum c) b)
          (omega arith)
      ∙ ap done (omega arith)
