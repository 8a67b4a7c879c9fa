-- ===== src/Bridge/DeathWindow.antt =====
-- The list of kills in runtime_bridge.c: `death_window_compat_push_event` and the functions around
-- it.
pub mod Kills
pub mod Once
pub mod Adapter
pub mod Mirror
pub mod Following
mod Tests
use libsamp.Common.{
  ℕ, zero, suc, ◌+◌, Bool, true, false, ◌&&◌, ◌||◌, not, List, [], ◌∷◌, ◌++◌, set, take, replicate,
  ltb, ◌==◌, if◌then◌else◌, bit_and,
}

abbrev pub max_entries : ℕ
max_entries = 5

abbrev pub event_ring : ℕ
event_ring = 16

abbrev pub action_add : ℕ
action_add = 1

abbrev pub action_clear : ℕ
action_clear = 2

abbrev pub invalid_player : ℕ
invalid_player = 0xFFFF

-- `samp_raknet_death_window_event`
pub record Event : Type 0 where
  pub seq : ℕ
  pub action : ℕ
  pub reason : ℕ
  pub killer_id : ℕ
  pub killee_id : ℕ

-- `samp_death_window_entry_compat`
pub record Entry : Type 0 where
  pub active : Bool
  pub seq : ℕ
  pub killer_id : ℕ
  pub killee_id : ℕ
  pub reason : ℕ

-- The fields of `g_runtime` that belong to the list.
pub record Window : Type 0 where
  pub event_seq : ℕ
  pub active_count : ℕ
  pub enabled : Bool
  pub entries : List Entry

-- The fields of a snapshot that the list reads.
pub record Snapshot : Type 0 where
  pub event_count : ℕ
  pub events : List Event

abbrev pub no_entry : Entry
no_entry = record { active = false; seq = 0; killer_id = 0; killee_id = 0; reason = 0 }

unfoldable pub death_window_compat_clear_entries : Window → Window
death_window_compat_clear_entries w = record w {
  active_count = 0;
  entries = replicate max_entries no_entry;
}

unfoldable pub entry_of : Event → Entry
entry_of e = record {
  active = true;
  seq = e.seq;
  killer_id = e.killer_id;
  killee_id = e.killee_id;
  reason = e.reason;
}

-- The loop that moves the entries down by one.
unfoldable pub shift_entries : List Entry → List Entry
shift_entries [] = []
shift_entries (x ∷ []) = x ∷ []
shift_entries (x ∷ (y ∷ entries)) = y ∷ shift_entries (y ∷ entries)

-- The loop that counts.
unfoldable pub count_active : List Entry → ℕ
count_active [] = 0
count_active (x ∷ entries) = let n = count_active entries in if x.active then n + 1 else n

-- The entries after a kill.
unfoldable pub with_entry : Entry → List Entry → List Entry
with_entry entry entries = set (shift_entries entries) 4 entry

unfoldable pub death_window_compat_push_event : Event → Window → Window
death_window_compat_push_event e w =
    if e.seq == 0
    then w
    else if e.action == action_clear
    then death_window_compat_clear_entries w
    else if not (e.action == action_add)
    then w
    else if e.killee_id == invalid_player
    then w
    else record w {
      entries = with_entry (entry_of e) w.entries;
      active_count = count_active (with_entry (entry_of e) w.entries);
    }

-- The loop over the events: the latest sequence number and the window.
unfoldable pub push_events : ℕ → List Event → ℕ → Window → ℕ × Window
push_events previous [] latest w = (latest, w)
push_events previous (e ∷ events) latest w =
    if not (e.seq == 0) && ltb previous e.seq
    then push_events previous events e.seq (death_window_compat_push_event e w)
    else push_events previous events latest w

unfoldable pub snapshot_events : Snapshot → List Event
snapshot_events snapshot =
    take (if ltb event_ring snapshot.event_count then event_ring else snapshot.event_count)
      snapshot.events

-- Writing a sequence number that has not changed changes nothing.
unfoldable pub death_window_compat_update_from_snapshot : Snapshot → Window → Window
death_window_compat_update_from_snapshot snapshot w =
    let r = push_events w.event_seq (snapshot_events snapshot) w.event_seq w in
    record r.1 { event_seq = r.0 }

unfoldable pub death_window_compat_active : Window → Bool
death_window_compat_active w = w.enabled && ltb 0 w.active_count

unfoldable pub death_window_compat_reset : Window → Window
death_window_compat_reset w = record (death_window_compat_clear_entries w) { event_seq = 0 }

abbrev wm_keydown : ℕ
wm_keydown = 0x100

abbrev wm_keyup : ℕ
wm_keyup = 0x101

abbrev vk_f9 : ℕ
vk_f9 = 0x78

-- The first part is the answer. Bit 30 of `lparam` tells a key that is held down.
unfoldable pub death_window_compat_handle_key : ℕ → ℕ → ℕ → Window → Bool × Window
death_window_compat_handle_key msg wparam lparam w =
    if (not (msg == wm_keydown) && not (msg == wm_keyup)) || not (wparam == vk_f9)
    then (false, w)
    else if msg == wm_keydown && bit_and lparam 0x40000000 == 0
    then (true, record w { enabled = not w.enabled })
    else (true, w)
