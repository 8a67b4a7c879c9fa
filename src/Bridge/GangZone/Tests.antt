-- ===== src/Bridge/GangZone/Tests.antt =====
-- The gang zones on concrete messages.
use libsamp.Common.{
  ◌⊎◌, ◌≤◌, ℕ, ◌≡◌, refl, arith, true, false, List, [], ◌∷◌, replicate, get_or-replicate, inl,
  subst, sym,
}
use libsamp.Bridge.GangZone.{
  Zones, Event, cleared, max_gang_zones, event_ring, action_destroy, slot_of_state,
  gang_zone_compat_reset, gang_zone_compat_update_from_snapshot, bound_plausible,
}
use libsamp.Bridge.GangZone.Counts.{IsCounted, update_from_snapshot-IsCounted, reset-IsCounted}
use libsamp.Bridge.GangZone.Adapter.{Probe, no_event, no_state, snapshot_of}
use libsamp.Bridge.GangZone.Mirror.{mirror, IsDecoded}
use libsamp.Bridge.GangZone.Mirror.History.{IsHistory}
use libsamp.Bridge.GangZone.Mirror.Session.{Follows, receive, update-receive}

abbrev empty_probe : Probe
empty_probe = record {
  event_seq = 0;
  events = replicate event_ring no_event;
  state_seq = 0;
  states = replicate max_gang_zones no_state;
}

-- A client after its first snapshot.
abbrev synced_client : Zones
synced_client = record {
  slots = replicate max_gang_zones cleared;
  active_count = 0;
  event_seq = 0;
  synced = true;
}

no_history : ℕ → Event
no_history k = record no_event { seq = k; action = action_destroy }

no_history-IsDecoded : (k : ℕ) → IsDecoded (no_history k)
unfolding no_history
no_history-IsDecoded k = record {
  zone_low = omega arith;
  known = (omega arith, omega arith);
  plausible = λ e. absurd (omega (arith, e));
}

empty_probe-IsHistory : IsHistory empty_probe no_history
unfolding no_history
empty_probe-IsHistory = record {
  low = omega arith;
  numbered = λ k. refl;
  decoded = no_history-IsDecoded;
  latest = refl;
  ring_size = refl;
  same_seq = refl;
  ring = λ i.
      subst (λ (e : Event). (e.seq ≡ 0) ⊎ ((e ≡ no_history e.seq) × (e.seq ≤ 0)))
        (sym (get_or-replicate event_ring i no_event)) (inl refl);
}

synced_client-Follows : Follows empty_probe synced_client
unfolding slot_of_state
synced_client-Follows = record {
  event_at = no_history;
  history = empty_probe-IsHistory;
  reached = omega arith;
  shown = refl;
}

-- Zone 3 from (0, 0) to (100, 100), a message that is too short, and its destruction.
abbrev messages : List (ℕ × List ℕ)
messages =
    (
      108,
      3 ∷ 0 ∷ 0 ∷ 0 ∷ 0 ∷ 0 ∷ 0 ∷ 0 ∷ 0 ∷ 0 ∷ 0 ∷ 0 ∷ 0xC8 ∷ 0x42 ∷ 0 ∷ 0 ∷ 0xC8 ∷ 0x42 ∷ 0xFF ∷ 0
          ∷ 0 ∷ 0x80 ∷ [],
    )
    ∷ (121, 3 ∷ 0 ∷ 1 ∷ [])
    ∷ (120, 3 ∷ 0 ∷ [])
    ∷ []

update-receive_example :
    (let p' = receive messages empty_probe in
      let z' = gang_zone_compat_update_from_snapshot (snapshot_of p') synced_client in
      (z'.slots ≡ mirror p'.states)
      × (z'.event_seq ≡ p'.state_seq)
      × (z'.synced ≡ true)
      × Follows p' z')
update-receive_example =
    update-receive messages empty_probe synced_client synced_client-Follows (omega arith)

update_from_snapshot-IsCounted_example :
    IsCounted
      (gang_zone_compat_update_from_snapshot (snapshot_of empty_probe) gang_zone_compat_reset)
unfolding snapshot_of
update_from_snapshot-IsCounted_example =
    update_from_snapshot-IsCounted (snapshot_of empty_probe) gang_zone_compat_reset refl
      reset-IsCounted

-- 100000.0, 100000.0078125, infinity, and -3.5.
limits :
    (bound_plausible 0x47C35000 ≡ true)
    × (bound_plausible 0x47C35001 ≡ false)
    × (bound_plausible 0x7F800000 ≡ false)
    × (bound_plausible 0xC0600000 ≡ true)
unfolding bound_plausible
limits = (refl, refl, refl, refl)
