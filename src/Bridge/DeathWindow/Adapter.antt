-- ===== src/Bridge/DeathWindow/Adapter.antt =====
-- The kills in reimpl/src/net/raknet_client_adapter.cpp: the server's messages become events, and a
-- snapshot copies the last ones for the client.
use libsamp.Common.{
  ℕ, zero, suc, ◌+◌, ◌-◌, ◌*◌, ◌%◌, Bool, true, false, Option, none, some, List, [], ◌∷◌, length,
  u32, get_or, set, ltb, ◌==◌, if◌then◌else◌,
}
use libsamp.Bridge.GangZone.Adapter.{bump_seq}
use libsamp.Bridge.DeathWindow.{Event, Snapshot, event_ring, action_add}

-- The fields of `g_rpc_probe` that belong to the kills.
pub record KillProbe : Type 0 where
  pub event_seq : ℕ
  pub events : List Event

pub record DeathMessagePayload : Type 0 where
  pub killer_id : ℕ
  pub killee_id : ℕ
  pub reason : ℕ

abbrev pub no_kill : Event
no_kill = record { seq = 0; action = 0; reason = 0; killer_id = 0; killee_id = 0 }

-- `none` is the answer false. A message is its bytes.
unfoldable pub decode_death_message : List ℕ → Option DeathMessagePayload
decode_death_message payload =
    if ltb (length payload) 5
    then none
    else some (record {
      killer_id = get_or payload 0 0 + 256 * get_or payload 1 0;
      killee_id = get_or payload 2 0 + 256 * get_or payload 3 0;
      reason = get_or payload 4 0;
    })

-- The event of a message.
unfoldable pub kill_event : ℕ → DeathMessagePayload → Event
kill_event seq m = record {
  seq = seq;
  action = action_add;
  reason = m.reason;
  killer_id = m.killer_id;
  killee_id = m.killee_id;
}

unfoldable pub queue_death_window_event : DeathMessagePayload → KillProbe → KillProbe
queue_death_window_event m p =
    let seq = bump_seq p.event_seq in
    record { event_seq = seq; events = set p.events ((seq - 1) % event_ring) (kill_event seq m) }

unfoldable pub decode_death_message_payload : List ℕ → KillProbe → Bool × KillProbe
decode_death_message_payload payload p = elim (decode_death_message payload) [
  | none ↦ (false, p)
  | some m ↦ (true, queue_death_window_event m p)
]

-- The loop that copies `available` events from sequence number `seq` on.
unfoldable pub copy_kills : KillProbe → ℕ → ℕ → List Event
copy_kills p seq zero = []
copy_kills p seq (suc available) =
    let e = get_or p.events ((seq - 1) % event_ring) no_kill in
    let rest = copy_kills p (u32 (seq + 1)) available in if e.seq == seq then e ∷ rest else rest

unfoldable pub kill_snapshot : KillProbe → Snapshot
kill_snapshot p =
    let available = if ltb p.event_seq event_ring then p.event_seq else event_ring in
    let events = copy_kills p (u32 (p.event_seq - available + 1)) available in
    record { event_count = length events; events = events }
