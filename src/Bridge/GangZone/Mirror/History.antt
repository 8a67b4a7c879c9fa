-- ===== src/Bridge/GangZone/Mirror/History.antt =====
-- The gang zones of the adapter over time, and the client that follows them by snapshots.
use libsamp.Common.{
  ℕ, zero, suc, ◌+◌, ◌-◌, ◌%◌, ◌^◌, ◌<◌, ◌≤◌, ◌≡◌, ◌≢◌, ◌⊎◌, refl, sym, ap, subst, ◌∙◌, arith,
  Bool-cases, true, false, not, Option, none, some, List, [], ◌∷◌, length, get_or, take, ltb, ◌==◌,
  if◌then◌else◌, sub32, if-cases, inl, inr, u32, replicate,
}
use native.Mathlib.Decide.{ℕ_discrete}
use libsamp.Bridge.GangZone.{
  Zones, Event, State, max_gang_zones, event_ring, apply_events, after_events, snapshot_events,
  gang_zone_compat_apply_event, gang_zone_compat_resync_from_snapshot,
  gang_zone_compat_update_from_snapshot,
}
use libsamp.Bridge.GangZone.Adapter.{Probe, no_event, no_state, copy_events, snapshot_of}
use libsamp.Bridge.GangZone.Mirror.{
  mirror, IsDecoded, next_states, apply_event-mirror, apply_event-synced,
}

-- The states after the events of the sequence numbers up to `k`.
abbrev pub states_from : (ℕ → Event) → ℕ → List State
states_from event_at zero = replicate max_gang_zones no_state
states_from event_at (suc k) = next_states (event_at (suc k)) (states_from event_at k)

-- What the adapter went through, as the event of each sequence number.
pub record IsHistory (p : Probe) (event_at : ℕ → Event) : Type 0 where
  pub low : p.event_seq + 1 < 2 ^ 32
  pub numbered : (k : ℕ) → (event_at k).seq ≡ k
  pub decoded : (k : ℕ) → IsDecoded (event_at k)
  pub latest : p.states ≡ states_from event_at p.event_seq
  pub ring_size : length p.events ≡ event_ring
  pub same_seq : p.state_seq ≡ p.event_seq
  pub ring :
      (i : ℕ)
      → let e = get_or p.events i no_event in
        (e.seq ≡ 0) ⊎ ((e ≡ event_at e.seq) × (e.seq ≤ p.event_seq))

module _ (p : Probe) (event_at : ℕ → Event) (v : IsHistory p event_at) where
  abbrev states_at : ℕ → List State
  states_at = states_from event_at

  -- The events of a list are events of the history.
  abbrev AreKnown : List Event → Type 0
  AreKnown [] = Unit
  AreKnown (e ∷ events) =
      (e.seq ≢ 0) × (e ≡ event_at e.seq) × (e.seq ≤ p.event_seq) × AreKnown events

  AreKnown-take : (n : ℕ) (events : List Event) → AreKnown events → AreKnown (take n events)
  AreKnown-take zero events k = tt
  AreKnown-take (suc n) [] k = tt
  AreKnown-take (suc n) (e ∷ events) (a, b, c, k) = (a, b, c, AreKnown-take n events k)

  known :
      (e : Event) (events : List Event)
      → e.seq ≢ 0
      → (e.seq ≡ 0) ⊎ ((e ≡ event_at e.seq) × (e.seq ≤ p.event_seq))
      → AreKnown events
      → AreKnown (e ∷ events)
  known e events nz (inl z) rest = absurd (nz z)
  known e events nz (inr (same, low)) rest = (nz, same, low, rest)

  copy_events-AreKnown :
      (seq available : ℕ)
      → seq ≢ 0
      → seq + available < 2 ^ 32
      → AreKnown (copy_events p seq available)
  unfolding copy_events
  copy_events-AreKnown seq zero n low = tt
  copy_events-AreKnown seq (suc available) n low =
      let e : Event = get_or p.events ((seq - 1) % event_ring) no_event in
      let wrap : u32 (seq + 1) ≡ seq + 1 = omega arith in
      let rest : AreKnown (copy_events p (u32 (seq + 1)) available) =
        rw wrap (copy_events-AreKnown (seq + 1) available (λ z. omega arith) (omega arith)) in
      if-cases AreKnown (e.seq == seq) (e ∷ copy_events p (u32 (seq + 1)) available)
        (copy_events p (u32 (seq + 1)) available)
        (λ t.
          known e (copy_events p (u32 (seq + 1)) available) (ground (arith, t, n))
            (v.ring ((seq - 1) % event_ring)) rest)
        (λ t. rest)

  apply_events-lt :
      (e : Event) (events : List Event) (expected : ℕ) (z : Zones)
      → e.seq < expected
      → apply_events (e ∷ events) expected z ≡ apply_events events expected z
  unfolding apply_events
  apply_events-lt e events expected z h = ground (arith, h)

  apply_events-eq :
      (e : Event) (events : List Event) (expected : ℕ) (z : Zones)
      → e.seq ≡ expected
      → apply_events (e ∷ events) expected z
        ≡ apply_events events (u32 (expected + 1)) (gang_zone_compat_apply_event e z)
  unfolding apply_events
  apply_events-eq e events expected z h = ground (arith, h)

  apply_events-gt :
      (e : Event) (events : List Event) (expected : ℕ) (z : Zones)
      → expected < e.seq
      → apply_events (e ∷ events) expected z ≡ (none, z)
  unfolding apply_events
  apply_events-gt e events expected z h = ground (arith, h)

  -- The loop ends at a gap, or at a state of the history.
  abbrev StandsAt : Option ℕ × Zones → Type 0
  StandsAt (none, z) = z.synced ≡ true
  StandsAt (some expected, z) =
      (z.synced ≡ true)
      × ((j : ℕ) × (expected ≡ suc j) × (j ≤ p.event_seq) × (z.slots ≡ mirror (states_at j)))

  apply_events-StandsAt :
      (events : List Event) (k : ℕ) (z : Zones)
      → AreKnown events
      → k ≤ p.event_seq
      → z.synced ≡ true
      → z.slots ≡ mirror (states_at k)
      → StandsAt (apply_events events (suc k) z)
  unfolding apply_events
  apply_events-StandsAt [] k z known low s same = (s, (k, refl, low, same))
  apply_events-StandsAt (e ∷ events) k z (nz, is, seq_low, known) low s same =
      elim (ℕ_discrete e.seq (suc k)) [
        | yes q ↦
            let at_k : e ≡ event_at (suc k) = is ∙ ap event_at q in
            let wrap : u32 (suc k + 1) ≡ suc (suc k) = omega (arith, v.low, seq_low, q) in
            subst StandsAt
              (sym (
                apply_events-eq e events (suc k) z q
                ∙ ap (λ (n : ℕ). apply_events events n (gang_zone_compat_apply_event e z)) wrap))
              (apply_events-StandsAt events (suc k) (gang_zone_compat_apply_event e z) known
                (omega (arith, seq_low, q)) (apply_event-synced e z ∙ s)
                (apply_event-mirror e z (states_at k) (subst IsDecoded (sym is) (v.decoded e.seq))
                    nz same
                  ∙ ap (λ (x : Event). mirror (next_states x (states_at k))) at_k))
        | no ne ↦ elim (Bool-cases (ltb e.seq (suc k))) [
          | inl l ↦
              subst StandsAt (sym (apply_events-lt e events (suc k) z (ground (arith, l))))
                (apply_events-StandsAt events k z known low s same)
          | inr g ↦
              subst StandsAt (sym (apply_events-gt e events (suc k) z (ground (arith, g, ne)))) s
        ]
      ]

  -- The client shows the adapter's present state.
  abbrev pub IsCurrent : Zones → Type 0
  IsCurrent z = (z.slots ≡ mirror p.states) × (z.event_seq ≡ p.state_seq) × (z.synced ≡ true)

  resync-IsCurrent : IsCurrent (gang_zone_compat_resync_from_snapshot (snapshot_of p))
  unfolding gang_zone_compat_resync_from_snapshot snapshot_of
  resync-IsCurrent = (refl, refl, refl)

  after_events-IsCurrent :
      (r : Option ℕ × Zones) → StandsAt r → IsCurrent (after_events (snapshot_of p) r)
  unfolding after_events snapshot_of
  after_events-IsCurrent (none, z) s = resync-IsCurrent
  after_events-IsCurrent (some expected, z) (s, (j, e, low, same)) =
      if-cases IsCurrent (sub32 expected 1 == p.state_seq) _ _
        (λ t.
          let now : j ≡ p.event_seq = (ground (arith, t, e, low, v.low, v.same_seq)) in
          (same ∙ ap (λ (n : ℕ). mirror (states_at n)) now ∙ ap mirror (sym v.latest), refl, s))
        (λ t. resync-IsCurrent)

  snapshot-AreKnown : AreKnown (snapshot_events (snapshot_of p))
  unfolding snapshot_events snapshot_of
  snapshot-AreKnown =
      let available : ℕ = if ltb p.event_seq event_ring then p.event_seq else event_ring in
      let start : ℕ = u32 (p.event_seq - available + 1) in
      let low : available ≤ p.event_seq = ground arith in
      let from : start ≡ p.event_seq - available + 1 = omega (arith, v.low) in
      let n : ℕ = length (copy_events p start available) in
      AreKnown-take (if ltb event_ring n then event_ring else n) (copy_events p start available) (
        copy_events-AreKnown start available (λ z. omega (arith, from))
          (omega (arith, from, low, v.low)))

  -- Where a client may stand before an update: not synchronised yet, ahead after a restart of the
  -- adapter, or at the adapter's state of some earlier sequence number.
  abbrev pub MayFollow : Zones → Type 0
  MayFollow z =
      (z.synced ≡ false)
      ⊎ ((p.event_seq < z.event_seq) ⊎ (z.slots ≡ mirror (states_at z.event_seq)))

  shown :
      (z : Zones)
      → MayFollow z
      → z.synced ≡ true
      → z.event_seq ≤ p.event_seq
      → z.slots ≡ mirror (states_at z.event_seq)
  shown z (inl n) on late = absurd (cc)
  shown z (inr (inl l)) on late = absurd (omega (arith, l, late))
  shown z (inr (inr same)) on late = same

  -- A client that has not synchronised yet, or is ahead, or shows the state of the adapter at some
  -- earlier sequence number, shows the adapter's present state after an update from a snapshot: by
  -- the events in the ring where they reach back far enough, or else by copying the states.
  pub update_from_snapshot-IsCurrent :
      (z : Zones)
      → MayFollow z
      → IsCurrent (gang_zone_compat_update_from_snapshot (snapshot_of p) z)
  unfolding gang_zone_compat_update_from_snapshot snapshot_of
  update_from_snapshot-IsCurrent z before =
      if-cases IsCurrent (not z.synced) _ _ (λ t. resync-IsCurrent)
        λ t.
          let on : z.synced ≡ true = ground (arith, t) in
          if-cases IsCurrent (p.state_seq == z.event_seq) _ _
            (λ e.
              let q : p.state_seq ≡ z.event_seq = ground (arith, e) in
              let same = shown z before on (omega (arith, q, v.same_seq)) in
              (
                same
                    ∙ ap (λ (n : ℕ). mirror (states_at n)) (sym q ∙ v.same_seq)
                    ∙ ap mirror (sym v.latest),
                sym q,
                on,
              ))
            λ e.
              if-cases IsCurrent (ltb p.state_seq z.event_seq) _ _ (λ l. resync-IsCurrent)
                λ l.
                  let late : z.event_seq ≤ p.event_seq = ground (arith, l, v.same_seq) in
                  let wrap : u32 (z.event_seq + 1) ≡ suc z.event_seq = omega (arith, late, v.low) in
                  rw wrap (
                    after_events-IsCurrent
                      (apply_events (snapshot_events (snapshot_of p)) (suc z.event_seq) z)
                      (apply_events-StandsAt (snapshot_events (snapshot_of p)) z.event_seq z
                        snapshot-AreKnown late on (shown z before on late)))
