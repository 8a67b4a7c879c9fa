-- ===== src/Bridge/GangZone/Adapter.antt =====
-- The gang zones of reimpl/src/net/raknet_client_adapter.cpp: the server's messages become states
-- and events, and a snapshot copies them for the client.
use libsamp.Common.{
  ℕ, zero, suc, ◌+◌, ◌-◌, ◌*◌, ◌%◌, Bool, true, false, Option, none, some, List, [], ◌∷◌, length,
  u32, get_or, set, ltb, leb, ◌==◌, if◌then◌else◌,
}
use libsamp.Saa.Bytes.{le32}
use libsamp.Bridge.GangZone.{
  Bounds, Event, State, Snapshot, zero_bounds, max_gang_zones, event_ring, action_create,
  action_destroy, action_flash, action_stop_flash, gang_zone_compat_bounds_plausible,
}

-- The fields of `g_rpc_probe` that belong to the gang zones.
pub record Probe : Type 0 where
  pub event_seq : ℕ
  pub events : List Event
  pub state_seq : ℕ
  pub states : List State

abbrev pub no_event : Event
no_event = record { seq = 0; zone_id = 0; action = 0; bounds = zero_bounds; color = 0 }

abbrev pub no_state : State
no_state = record {
  revision = 0;
  active = false;
  bounds = zero_bounds;
  base_color = 0;
  alternate_color = 0;
}

unfoldable pub bump_seq : ℕ → ℕ
bump_seq seq = let next = u32 (seq + 1) in if next == 0 then 1 else next

-- The state of a zone after an event on it.
unfoldable pub next_state : Event → State → State
next_state e s =
    if e.action == action_create
    then record {
      revision = e.seq;
      active = true;
      bounds = e.bounds;
      base_color = e.color;
      alternate_color = e.color;
    }
    else if e.action == action_destroy
    then record no_state { revision = e.seq }
    else if e.action == action_flash
    then record s {
      revision = e.seq;
      alternate_color = if s.active then e.color else s.alternate_color;
    }
    else if e.action == action_stop_flash
    then record s {
      revision = e.seq;
      alternate_color = if s.active then s.base_color else s.alternate_color;
    }
    else record s { revision = e.seq }

unfoldable pub queue_event : Event → Probe → Probe
queue_event e p =
    let events = set p.events ((e.seq - 1) % event_ring) e in
    if ltb e.zone_id max_gang_zones
    then record {
      event_seq = e.seq;
      events = events;
      state_seq = e.seq;
      states = set p.states e.zone_id (next_state e (get_or p.states e.zone_id no_state));
    }
    else record p { event_seq = e.seq; events = events }

unfoldable pub queue_gang_zone_event : ℕ → ℕ → Bounds → ℕ → Probe → Probe
queue_gang_zone_event action zone_id bounds color p =
    queue_event
      (record {
        seq = bump_seq p.event_seq;
        zone_id = zone_id;
        action = action;
        bounds = bounds;
        color = color;
      })
      p

unfoldable pub word_at : List ℕ → ℕ → ℕ
word_at payload i =
    le32 (get_or payload i 0) (get_or payload (i + 1) 0) (get_or payload (i + 2) 0)
      (get_or payload (i + 3) 0)

-- The message of a `decode_gang_zone_payload`, `none` for false: action, bounds and color.
unfoldable pub decode_action : ℕ → List ℕ → Option (ℕ × Bounds × ℕ)
decode_action rpc_id payload =
    let bounds : Bounds = record {
      bound0 = word_at payload 2;
      bound1 = word_at payload 6;
      bound2 = word_at payload 10;
      bound3 = word_at payload 14;
    } in
    if rpc_id == 108
    then if ltb (length payload) 22
      then none
      else if gang_zone_compat_bounds_plausible bounds
      then some (action_create, bounds, word_at payload 18)
      else none
    else if rpc_id == 120
    then some (action_destroy, zero_bounds, 0)
    else if rpc_id == 121
    then if ltb (length payload) 6
      then none
      else some (action_flash, zero_bounds, word_at payload 2)
    else if rpc_id == 85
    then some (action_stop_flash, zero_bounds, 0)
    else none

-- The probe after a message; one that is not decoded changes nothing.
unfoldable pub decode_gang_zone_payload : ℕ → List ℕ → Probe → Bool × Probe
decode_gang_zone_payload rpc_id payload p =
    let zone_id = get_or payload 0 0 + 256 * get_or payload 1 0 in
    if ltb (length payload) 2
    then (false, p)
    else if leb max_gang_zones zone_id
    then (false, p)
    else elim (decode_action rpc_id payload) [
      | none ↦ (false, p)
      | some (action, bounds, color) ↦ (true, queue_gang_zone_event action zone_id bounds color p)
    ]

-- The loop that copies `available` events from sequence number `seq` on.
unfoldable pub copy_events : Probe → ℕ → ℕ → List Event
copy_events p seq zero = []
copy_events p seq (suc available) =
    let e = get_or p.events ((seq - 1) % event_ring) no_event in
    let rest = copy_events p (u32 (seq + 1)) available in if e.seq == seq then e ∷ rest else rest

unfoldable pub snapshot_of : Probe → Snapshot
snapshot_of p =
    let available = if ltb p.event_seq event_ring then p.event_seq else event_ring in
    let events = copy_events p (u32 (p.event_seq - available + 1)) available in
    record {
      event_count = length events;
      events = events;
      state_seq = p.state_seq;
      states = p.states;
    }
