-- ===== src/Bridge/GangZone/Counts.antt =====
-- The count of the active gang zones of runtime_bridge.c.
use libsamp.Common.{
  ℕ, zero, suc, ◌+◌, ◌<◌, ◌≡◌, refl, ◌∙◌, arith, true, ◌||◌, not, ltb, Option, none, some, List, [],
  ◌∷◌, length, get_or, set, leb, ◌==◌, if◌then◌else◌, length-set, length-map, sub32, if-cases, u32,
}
use Prim.Native.Nat.{compare, Ordering}
use libsamp.Bridge.GangZone.{
  Zones, Slot, Event, Snapshot, cleared, max_gang_zones, put_slot, created, action_create,
  action_destroy, action_flash, action_stop_flash, gang_zone_compat_bounds_plausible, count_active,
  slot_of_state, apply_events, after_events, snapshot_events,
  gang_zone_compat_decrement_active_count, gang_zone_compat_apply_event,
  gang_zone_compat_resync_from_snapshot, gang_zone_compat_update_from_snapshot,
  gang_zone_compat_reset,
}

-- The invariant: 1024 slots, and the count is that of the active ones.
pub record IsCounted (z : Zones) : Type 0 where
  pub size : length z.slots ≡ max_gang_zones
  pub counted : z.active_count ≡ count_active z.slots

abbrev bit : Slot → ℕ
bit slot = if slot.active then 1 else 0

count_active-set :
    (slots : List Slot) (i : ℕ) (slot : Slot)
    → i < length slots
    → count_active (set slots i slot) + bit (get_or slots i cleared) ≡ count_active slots + bit slot
unfolding count_active
count_active-set [] i slot h = absurd (omega arith)
count_active-set (x ∷ slots) zero slot h = ground arith
count_active-set (x ∷ slots) (suc i) slot h = ground (arith, count_active-set slots i slot)

put_slot-IsCounted :
    (z : Zones) (i : ℕ) (slot : Slot) (count : ℕ)
    → IsCounted z
    → i < max_gang_zones
    → count + bit (get_or z.slots i cleared) ≡ z.active_count + bit slot
    → IsCounted (put_slot z i slot count)
unfolding put_slot
put_slot-IsCounted z i slot count v low e = record {
  size = length-set z.slots i slot ∙ v.size;
  counted = omega (arith, count_active-set z.slots i slot (omega (arith, v.size)), v.counted, e);
}

count_active-some :
    (slots : List Slot) (i : ℕ) → (get_or slots i cleared).active ≡ true → 0 < count_active slots
unfolding count_active
count_active-some [] i e = absurd (cc)
count_active-some (x ∷ slots) zero e = ground arith
count_active-some (x ∷ slots) (suc i) e = ground (arith, count_active-some slots i e)

apply_event-IsCounted :
    (e : Event) (z : Zones) → IsCounted z → IsCounted (gang_zone_compat_apply_event e z)
unfolding gang_zone_compat_apply_event gang_zone_compat_decrement_active_count created
apply_event-IsCounted e z v =
    if-cases IsCounted (leb max_gang_zones e.zone_id || e.seq == 0) _ _ (λ t. v)
      λ inside.
        let low : e.zone_id < max_gang_zones = (ground (arith, inside)) in
        let slot : Slot = get_or z.slots e.zone_id cleared in
        let some_active : slot.active ≡ true → 0 < z.active_count =
          λ t. omega (arith, count_active-some z.slots e.zone_id t, v.counted) in
        if-cases IsCounted (e.action == action_create) _ _
          (λ t.
            if-cases IsCounted (gang_zone_compat_bounds_plausible e.bounds) _ _
              (λ p. put_slot-IsCounted z e.zone_id _ _ v low (ground arith)) (λ p. v))
          λ t.
            if-cases IsCounted (e.action == action_destroy) _ _
              (λ d. put_slot-IsCounted z e.zone_id _ _ v low (ground (arith, some_active)))
              λ d.
                if-cases IsCounted (e.action == action_flash) _ _
                  (λ f.
                    if-cases IsCounted slot.active _ _
                      (λ a. put_slot-IsCounted z e.zone_id _ _ v low (ground (arith, a))) (λ a. v))
                  λ f.
                    if-cases IsCounted (e.action == action_stop_flash) _ _
                      (λ g.
                        if-cases IsCounted slot.active _ _
                          (λ a. put_slot-IsCounted z e.zone_id _ _ v low (ground (arith, a)))
                          (λ a. v))
                      (λ g. v)

resync-IsCounted :
    (snapshot : Snapshot)
    → length snapshot.states ≡ max_gang_zones
    → IsCounted (gang_zone_compat_resync_from_snapshot snapshot)
unfolding gang_zone_compat_resync_from_snapshot
resync-IsCounted snapshot size = record {
  size = length-map slot_of_state snapshot.states ∙ size;
  counted = refl;
}

apply_events-IsCounted :
    (events : List Event) (expected : ℕ) (z : Zones)
    → IsCounted z
    → IsCounted (apply_events events expected z).1
unfolding apply_events
apply_events-IsCounted [] expected z v = v
apply_events-IsCounted (e ∷ events) expected z v =
    elim (compare e.seq expected)
      as (λ o.
        IsCounted
          (elim o as (λ x. Option ℕ × Zones) [
            | Ordering.lt ↦ apply_events events expected z
            | Ordering.eq ↦
                apply_events events (u32 (expected + 1)) (gang_zone_compat_apply_event e z)
            | Ordering.gt ↦ (none, z)
          ]).1) [
            | Ordering.lt ↦ apply_events-IsCounted events expected z v
            | Ordering.eq ↦
                apply_events-IsCounted events (u32 (expected + 1))
                  (gang_zone_compat_apply_event e z) (apply_event-IsCounted e z v)
            | Ordering.gt ↦ v
          ]

after_events-IsCounted :
    (snapshot : Snapshot) (r : Option ℕ × Zones)
    → length snapshot.states ≡ max_gang_zones
    → IsCounted r.1
    → IsCounted (after_events snapshot r)
unfolding after_events
after_events-IsCounted snapshot (none, z) size v = resync-IsCounted snapshot size
after_events-IsCounted snapshot (some expected, z) size v =
    if-cases IsCounted (sub32 expected 1 == snapshot.state_seq) _ _
      (λ t. record { size = v.size; counted = v.counted }) (λ t. resync-IsCounted snapshot size)

-- Whatever snapshot with its 1024 states arrives, in order, after a gap or after a rewind, the count stays that of the
-- active zones.
pub update_from_snapshot-IsCounted :
    (snapshot : Snapshot) (z : Zones)
    → length snapshot.states ≡ max_gang_zones
    → IsCounted z
    → IsCounted (gang_zone_compat_update_from_snapshot snapshot z)
unfolding gang_zone_compat_update_from_snapshot
update_from_snapshot-IsCounted snapshot z size v =
    if-cases IsCounted (not z.synced) _ _ (λ t. resync-IsCounted snapshot size)
      λ t.
        if-cases IsCounted (snapshot.state_seq == z.event_seq) _ _ (λ e. v)
          λ e.
            if-cases IsCounted (ltb snapshot.state_seq z.event_seq) _ _
              (λ l. resync-IsCounted snapshot size)
              λ l.
                let r = apply_events (snapshot_events snapshot) (u32 (z.event_seq + 1)) z in
                after_events-IsCounted snapshot r size
                  (apply_events-IsCounted (snapshot_events snapshot) (u32 (z.event_seq + 1)) z v)

pub reset-IsCounted : IsCounted gang_zone_compat_reset
unfolding gang_zone_compat_reset count_active
reset-IsCounted = record { size = refl; counted = refl }
