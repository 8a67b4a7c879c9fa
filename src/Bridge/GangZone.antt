-- ===== src/Bridge/GangZone.antt =====
-- The gang zones of runtime_bridge.c: `gang_zone_compat_apply_event` and the functions around it.
-- A float is its 32 IEEE bits. The arrays have 1024 slots and states.
pub mod Adapter
pub mod Counts
pub mod Mirror
mod Tests
use libsamp.Common.{
  ℕ, ◌+◌, ◌-◌, ◌%◌, ◌^◌, Bool, true, false, ◌&&◌, ◌||◌, not, Option, none, some, List, [], ◌∷◌, map,
  u32, sub32, shr, get_or, set, take, replicate, ltb, leb, ◌==◌, if◌then◌else◌,
}
use Prim.Native.Nat.{compare, Ordering}

abbrev pub max_gang_zones : ℕ
max_gang_zones = 1024

abbrev pub event_ring : ℕ
event_ring = 128

abbrev pub action_create : ℕ
action_create = 1

abbrev pub action_destroy : ℕ
action_destroy = 2

abbrev pub action_flash : ℕ
action_flash = 3

abbrev pub action_stop_flash : ℕ
action_stop_flash = 4

pub record Bounds : Type 0 where
  pub bound0 : ℕ
  pub bound1 : ℕ
  pub bound2 : ℕ
  pub bound3 : ℕ

-- `samp_gang_zone_slot_compat`
pub record Slot : Type 0 where
  pub active : Bool
  pub revision : ℕ
  pub gta_bounds : Bounds
  pub base_color : ℕ
  pub alternate_color : ℕ

-- `samp_raknet_gang_zone_event`
pub record Event : Type 0 where
  pub seq : ℕ
  pub zone_id : ℕ
  pub action : ℕ
  pub bounds : Bounds
  pub color : ℕ

-- `samp_raknet_gang_zone_state`
pub record State : Type 0 where
  pub revision : ℕ
  pub active : Bool
  pub bounds : Bounds
  pub base_color : ℕ
  pub alternate_color : ℕ

-- The fields of a snapshot that the gang zones read.
pub record Snapshot : Type 0 where
  pub event_count : ℕ
  pub events : List Event
  pub state_seq : ℕ
  pub states : List State

-- The fields of `g_runtime` that belong to the gang zones.
pub record Zones : Type 0 where
  pub slots : List Slot
  pub active_count : ℕ
  pub event_seq : ℕ
  pub synced : Bool

abbrev pub zero_bounds : Bounds
zero_bounds = record { bound0 = 0; bound1 = 0; bound2 = 0; bound3 = 0 }

-- `memset` of a slot.
abbrev pub cleared : Slot
cleared = record {
  active = false;
  revision = 0;
  gta_bounds = zero_bounds;
  base_color = 0;
  alternate_color = 0;
}

-- `isfinite(x) && !(fabsf(x) > 100000.0f)`: the exponent is not all ones, and without the sign the
-- bits are in the order of the numbers.
unfoldable pub bound_plausible : ℕ → Bool
bound_plausible bits = not (shr bits 23 % 2 ^ 8 == 255) && leb (bits % 2 ^ 31) 0x47C35000

unfoldable pub gang_zone_compat_bounds_plausible : Bounds → Bool
gang_zone_compat_bounds_plausible b =
    bound_plausible b.bound0
    && bound_plausible b.bound1
    && bound_plausible b.bound2
    && bound_plausible b.bound3

unfoldable pub gang_zone_compat_store_bounds : Bounds → Bounds
gang_zone_compat_store_bounds b = record {
  bound0 = b.bound0;
  bound1 = b.bound3;
  bound2 = b.bound2;
  bound3 = b.bound1;
}

unfoldable pub put_slot : Zones → ℕ → Slot → ℕ → Zones
put_slot z i slot count = record z { slots = set z.slots i slot; active_count = count }

unfoldable pub created : Event → Slot
created e = record {
  active = true;
  revision = e.seq;
  gta_bounds = gang_zone_compat_store_bounds e.bounds;
  base_color = e.color;
  alternate_color = e.color;
}

-- The decrement that stops at 0 is `-` on ℕ.
unfoldable pub gang_zone_compat_decrement_active_count : ℕ → ℕ
gang_zone_compat_decrement_active_count count = count - 1

unfoldable pub gang_zone_compat_apply_event : Event → Zones → Zones
gang_zone_compat_apply_event e z =
    let slot = get_or z.slots e.zone_id cleared in
    if leb max_gang_zones e.zone_id || e.seq == 0
    then z
    else if e.action == action_create
    then if gang_zone_compat_bounds_plausible e.bounds
      then put_slot z e.zone_id (created e)
          (if slot.active then z.active_count else z.active_count + 1)
      else z
    else if e.action == action_destroy
    then put_slot z e.zone_id cleared (
        if slot.active
        then gang_zone_compat_decrement_active_count z.active_count
        else z.active_count)
    else if e.action == action_flash
    then if slot.active
      then put_slot z e.zone_id (record slot { revision = e.seq; alternate_color = e.color })
          z.active_count
      else z
    else if e.action == action_stop_flash
    then if slot.active
      then put_slot z e.zone_id
          (record slot { revision = e.seq; alternate_color = slot.base_color }) z.active_count
      else z
    else z

-- The slot that a resync makes of a state.
unfoldable pub slot_of_state : State → Slot
slot_of_state s =
    if s.active && gang_zone_compat_bounds_plausible s.bounds
    then record {
      active = true;
      revision = s.revision;
      gta_bounds = gang_zone_compat_store_bounds s.bounds;
      base_color = s.base_color;
      alternate_color = s.alternate_color;
    }
    else cleared

unfoldable pub count_active : List Slot → ℕ
count_active [] = 0
count_active (slot ∷ slots) = let n = count_active slots in if slot.active then n + 1 else n

unfoldable pub gang_zone_compat_resync_from_snapshot : Snapshot → Zones
gang_zone_compat_resync_from_snapshot snapshot = record {
  slots = map slot_of_state snapshot.states;
  active_count = count_active (map slot_of_state snapshot.states);
  event_seq = snapshot.state_seq;
  synced = true;
}

-- The loop over the events: the sequence number that is expected next, `none` at a gap.
unfoldable pub apply_events : List Event → ℕ → Zones → Option ℕ × Zones
apply_events [] expected z = (some expected, z)
apply_events (e ∷ events) expected z = elim (compare e.seq expected) [
  | Ordering.lt ↦ apply_events events expected z
  | Ordering.eq ↦ apply_events events (u32 (expected + 1)) (gang_zone_compat_apply_event e z)
  | Ordering.gt ↦ (none, z)
]

unfoldable pub after_events : Snapshot → Option ℕ × Zones → Zones
after_events snapshot (none, z) = gang_zone_compat_resync_from_snapshot snapshot
after_events snapshot (some expected, z) =
    if sub32 expected 1 == snapshot.state_seq
    then record z { event_seq = snapshot.state_seq }
    else gang_zone_compat_resync_from_snapshot snapshot

-- `count` of the loop.
unfoldable pub snapshot_events : Snapshot → List Event
snapshot_events snapshot =
    take (if ltb event_ring snapshot.event_count then event_ring else snapshot.event_count)
      snapshot.events

unfoldable pub gang_zone_compat_update_from_snapshot : Snapshot → Zones → Zones
gang_zone_compat_update_from_snapshot snapshot z =
    if not z.synced
    then gang_zone_compat_resync_from_snapshot snapshot
    else if snapshot.state_seq == z.event_seq
    then z
    else if ltb snapshot.state_seq z.event_seq
    then gang_zone_compat_resync_from_snapshot snapshot
    else after_events snapshot (apply_events (snapshot_events snapshot) (u32 (z.event_seq + 1)) z)

unfoldable pub gang_zone_compat_reset : Zones
gang_zone_compat_reset = record {
  slots = replicate max_gang_zones cleared;
  active_count = 0;
  event_seq = 0;
  synced = false;
}
