-- ===== src/Bridge/DeathWindow/Once.antt =====
-- Kills are taken from snapshots once.
use libsamp.Common.{
  ℕ, ◌<◌, ◌≤◌, ◌≡◌, refl, sym, ap, subst, ◌∙◌, inl, inr, arith, Bool-cases, List, [], ◌∷◌, ltb,
}
use libsamp.Bridge.DeathWindow.{
  Event, Window, Snapshot, death_window_compat_push_event, push_events, snapshot_events,
  death_window_compat_update_from_snapshot,
}

-- The sequence numbers of the events rise, from above `low`.
abbrev IsOrdered : ℕ → List Event → Type 0
IsOrdered low [] = Unit
IsOrdered low (e ∷ events) = (low < e.seq) × IsOrdered e.seq events

abbrev AreTaken : ℕ → List Event → Type 0
AreTaken latest [] = Unit
AreTaken latest (e ∷ events) = (e.seq ≤ latest) × AreTaken latest events

push_new :
    (previous : ℕ) (e : Event) (events : List Event) (latest : ℕ) (w : Window)
    → previous < e.seq
    → push_events previous (e ∷ events) latest w
      ≡ push_events previous events e.seq (death_window_compat_push_event e w)
unfolding push_events
push_new previous e events latest w h = ground (arith, h)

push_old :
    (previous : ℕ) (e : Event) (events : List Event) (latest : ℕ) (w : Window)
    → e.seq ≤ previous
    → push_events previous (e ∷ events) latest w ≡ push_events previous events latest w
unfolding push_events
push_old previous e events latest w h = ground (arith, h)

push_none : (previous latest : ℕ) (w : Window) → push_events previous [] latest w ≡ (latest, w)
unfolding push_events
push_none previous latest w = refl

push_events-AreTaken :
    (previous : ℕ) (events : List Event) (low latest : ℕ) (w : Window)
    → IsOrdered low events
    → previous ≤ latest
    → (previous < latest → latest ≤ low)
    → (let r = push_events previous events latest w in (latest ≤ r.0) × AreTaken r.0 events)
push_events-AreTaken previous [] low latest w o p q =
    (omega (arith, ap (λ (r : ℕ × Window). r.0) (push_none previous latest w)), tt)
push_events-AreTaken previous (e ∷ events) low latest w (above, o) p q =
    elim (Bool-cases (ltb previous e.seq)) [
      | inl t ↦
          let new : previous < e.seq = ground (arith, t) in
          let w' : Window = death_window_compat_push_event e w in
          let rest =
            push_events-AreTaken previous events e.seq e.seq w' o (omega (arith, new))
              (λ h. omega arith) in
          let reached : latest ≤ e.seq = elim (Bool-cases (ltb previous latest)) [
            | inl u ↦ omega (arith, q (ground (arith, u)), above)
            | inr u ↦ ground (arith, u, new)
          ] in
          subst (λ (r : ℕ × Window). (latest ≤ r.0) × ((e.seq ≤ r.0) × AreTaken r.0 events))
            (sym (push_new previous e events latest w new))
            (omega (arith, reached, rest.0), (rest.0, rest.1))
      | inr t ↦
          let old : e.seq ≤ previous = ground (arith, t) in
          let still : previous < latest → latest ≤ e.seq = λ h. omega (arith, q h, above) in
          let rest = push_events-AreTaken previous events e.seq latest w o p still in
          subst (λ (r : ℕ × Window). (latest ≤ r.0) × ((e.seq ≤ r.0) × AreTaken r.0 events))
            (sym (push_old previous e events latest w old))
            (rest.0, (omega (arith, old, p, rest.0), rest.1))
    ]

push_events-taken :
    (previous : ℕ) (events : List Event) (latest : ℕ) (w : Window)
    → AreTaken previous events
    → push_events previous events latest w ≡ (latest, w)
push_events-taken previous [] latest w all = push_none previous latest w
push_events-taken previous (e ∷ events) latest w (old, all) =
    push_old previous e events latest w old ∙ push_events-taken previous events latest w all

-- Taking the same snapshot again changes nothing, if the sequence numbers of its events rise.
update-update :
    (snapshot : Snapshot) (w : Window)
    → IsOrdered 0 (snapshot_events snapshot)
    → (let w' = death_window_compat_update_from_snapshot snapshot w in
        death_window_compat_update_from_snapshot snapshot w' ≡ w')
unfolding death_window_compat_update_from_snapshot
update-update snapshot w o =
    let events : List Event = snapshot_events snapshot in
    let r : ℕ × Window = push_events w.event_seq events w.event_seq w in
    let taken =
      (push_events-AreTaken w.event_seq events 0 w.event_seq w o (omega arith)
        (λ h. absurd (omega (arith, h)))).1 in
    ap (λ (q : ℕ × Window). record q.1 { event_seq = q.0 })
      (push_events-taken r.0 events r.0 (record r.1 { event_seq = r.0 }) taken)
