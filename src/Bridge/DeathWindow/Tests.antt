-- ===== src/Bridge/DeathWindow/Tests.antt =====
-- The list of kills on concrete events.
use libsamp.Common.{ℕ, List, arith, refl, true, [], ◌∷◌, replicate}
use libsamp.Bridge.DeathWindow.{
  Window, Snapshot, max_entries, no_entry, snapshot_events,
  death_window_compat_update_from_snapshot,
}
use libsamp.Bridge.DeathWindow.Adapter.{KillProbe, no_kill, kill_snapshot}
use libsamp.Bridge.DeathWindow.Following.{
  IsFollowing, receive_all, log_messages, update-receive_all,
}
use libsamp.Bridge.DeathWindow.Kills.{IsWindow, log_events, update_from_snapshot-IsWindow}

abbrev empty_window : Window
empty_window = record {
  event_seq = 0;
  active_count = 0;
  enabled = true;
  entries = replicate max_entries no_entry;
}

-- A kill, a kill of nobody, clearing, and another kill.
abbrev four_events : Snapshot
four_events = record {
  event_count = 4;
  events =
      record { seq = 1; action = 1; reason = 24; killer_id = 3; killee_id = 4 }
      ∷ record { seq = 2; action = 1; reason = 24; killer_id = 3; killee_id = 0xFFFF }
      ∷ record { seq = 3; action = 2; reason = 0; killer_id = 0; killee_id = 0 }
      ∷ record { seq = 4; action = 1; reason = 30; killer_id = 4; killee_id = 3 }
      ∷ [];
}

empty_window-IsWindow : IsWindow empty_window []
empty_window-IsWindow = record { shown = refl; counted = refl; kills = tt }

update_from_snapshot-IsWindow_example :
    IsWindow
      (death_window_compat_update_from_snapshot four_events empty_window)
      (log_events 0 (snapshot_events four_events) [])
update_from_snapshot-IsWindow_example =
    update_from_snapshot-IsWindow four_events empty_window [] empty_window-IsWindow

-- The adapter before any message, and a client that has seen none.
abbrev empty_probe : KillProbe
empty_probe = record { event_seq = 0; events = replicate 16 no_kill }

empty-IsFollowing : IsFollowing 0 empty_probe empty_window []
empty-IsFollowing = record {
  history = [];
  is_history = record {
    low = omega arith;
    count = refl;
    ring_size = refl;
    numbered = λ i below. absurd (omega (arith, below));
    ring = λ i small below. absurd (omega (arith, below));
  };
  logged = refl;
  shown = empty_window-IsWindow;
  late = refl;
}

-- A kill, a short message, and a kill of nobody.
abbrev three_messages : List (List ℕ)
three_messages = (1 ∷ 0 ∷ 2 ∷ 0 ∷ 30 ∷ []) ∷ (1 ∷ []) ∷ (1 ∷ 0 ∷ 0xFF ∷ 0xFF ∷ 30 ∷ []) ∷ []

update-receive_all_example :
    (let p = receive_all three_messages empty_probe in
      IsFollowing 0 p
        (death_window_compat_update_from_snapshot (kill_snapshot p) empty_window)
        (log_messages 0 three_messages []))
update-receive_all_example =
    update-receive_all three_messages empty_probe empty_window [] empty-IsFollowing (omega arith)
      (omega arith)
