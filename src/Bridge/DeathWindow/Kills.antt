-- ===== src/Bridge/DeathWindow/Kills.antt =====
-- The list of kills against a log of all kills since the last time it was cleared.
use libsamp.Common.{
  ℕ, zero, suc, ◌+◌, ◌-◌, ◌≤◌, ◌≡◌, refl, sym, ap, ◌∙◌, arith, min, Bool, true, false, ◌&&◌, not,
  List, [], ◌∷◌, ◌++◌, length, set, drop, replicate, ltb, ◌==◌, if◌then◌else◌, Bool-cases, inl, inr,
  length-append, length-drop, drop-drop, drop-append_le,
}
use mathlib.Core.List.{append_assoc}
use libsamp.Bridge.DeathWindow.{
  Event, Entry, Window, Snapshot, max_entries, action_add, action_clear, invalid_player, no_entry,
  entry_of, shift_entries, with_entry, count_active, death_window_compat_clear_entries,
  death_window_compat_push_event, push_events, snapshot_events,
  death_window_compat_update_from_snapshot,
}

-- A kill is logged, clearing empties the log, and anything else is passed over.
unfoldable pub log_event : Event → List Entry → List Entry
log_event e log =
    if e.seq == 0
    then log
    else if e.action == action_clear
    then []
    else if e.action == action_add && not (e.killee_id == invalid_player)
    then log ++ (entry_of e ∷ [])
    else log

-- The events after sequence number `previous`.
unfoldable pub log_events : ℕ → List Event → List Entry → List Entry
log_events previous [] log = log
log_events previous (e ∷ events) log =
    if ltb previous e.seq
    then log_events previous events (log_event e log)
    else log_events previous events log

abbrev pub AllActive : List Entry → Type 0
AllActive [] = Unit
AllActive (x ∷ entries) = (x.active ≡ true) × AllActive entries

-- The window shows the last five kills of the log, with empty entries before them.
abbrev pub last_kills : List Entry → List Entry
last_kills log = drop (length log) (replicate max_entries no_entry ++ log)

pub record IsWindow (w : Window) (log : List Entry) : Type 0 where
  pub shown : w.entries ≡ last_kills log
  pub counted : w.active_count ≡ min max_entries (length log)
  pub kills : AllActive log

AllActive-append :
    (log : List Entry) (x : Entry) → AllActive log → x.active ≡ true → AllActive (log ++ (x ∷ []))
AllActive-append [] x all on = (on, tt)
AllActive-append (y ∷ log) x (one, all) on = (one, AllActive-append log x all on)

count-active :
    (log : List Entry) (k : ℕ) → AllActive log → count_active (drop k log) ≡ length log - k
unfolding count_active
count-active [] zero all = refl
count-active [] (suc k) all = omega arith
count-active (x ∷ log) zero (one, all) = rw (one, count-active log 0 all) (omega arith)
count-active (x ∷ log) (suc k) (one, all) = omega (arith, count-active log k all)

count-last :
    (n m : ℕ) (log : List Entry)
    → AllActive log
    → count_active (drop n (replicate m no_entry ++ log)) ≡ length log - (n - m)
unfolding count_active
count-last n zero log all = count-active log n all ∙ omega arith
count-last zero (suc m) log all = omega (arith, count-last 0 m log all)
count-last (suc n) (suc m) log all = omega (arith, count-last n m log all)

set-shift :
    (n : ℕ) (xs : List Entry) (x : Entry)
    → length xs ≡ suc n
    → set (shift_entries xs) n x ≡ drop 1 xs ++ (x ∷ [])
unfolding shift_entries
set-shift n [] x h = absurd (omega arith)
set-shift zero (y ∷ []) x h = refl
set-shift zero (y ∷ (z ∷ xs)) x h = absurd (omega arith)
set-shift (suc n) (y ∷ []) x h = absurd (omega arith)
set-shift (suc n) (y ∷ (z ∷ xs)) x h = ap (λ t. z ∷ t) (set-shift n (z ∷ xs) x (omega arith))

length-last_kills : (log : List Entry) → length (last_kills log) ≡ 5
length-last_kills log = omega (
  arith,
  length-drop (length log) (replicate max_entries no_entry ++ log),
  length-append (replicate max_entries no_entry) log,
)

with_entry-last :
    (x : Entry) (log : List Entry) → with_entry x (last_kills log) ≡ last_kills (log ++ (x ∷ []))
unfolding with_entry
with_entry-last x log =
    let all : List Entry = replicate max_entries no_entry ++ log in
    let grown : length (log ++ (x ∷ [])) ≡ length log + 1 = length-append log (x ∷ []) in
    let room : length log + 1 ≤ length all =
      omega (arith, length-append (replicate max_entries no_entry) log) in
    set-shift 4 (last_kills log) x (length-last_kills log)
    ∙ ap (λ t. t ++ (x ∷ [])) (drop-drop (length log) 1 all)
    ∙ sym (drop-append_le (length log + 1) all (x ∷ []) room)
    ∙ ap (λ (n : ℕ). drop n (all ++ (x ∷ []))) (sym grown)
    ∙ ap (drop (length (log ++ (x ∷ []))))
        (append_assoc (replicate max_entries no_entry) log (x ∷ []))

entry-active : (e : Event) → (entry_of e).active ≡ true
unfolding entry_of
entry-active e = refl

clear-IsWindow : (w : Window) → IsWindow (death_window_compat_clear_entries w) []
unfolding death_window_compat_clear_entries
clear-IsWindow w = record { shown = refl; counted = refl; kills = tt }

added-IsWindow :
    (e : Event) (w : Window) (log : List Entry)
    → IsWindow w log
    → IsWindow
        (record w {
          entries = with_entry (entry_of e) w.entries;
          active_count = count_active (with_entry (entry_of e) w.entries);
        })
        (log ++ (entry_of e ∷ []))
added-IsWindow e w log v =
    let after : List Entry = log ++ (entry_of e ∷ []) in
    let all : AllActive after = AllActive-append log (entry_of e) v.kills (entry-active e) in
    let shows : with_entry (entry_of e) w.entries ≡ last_kills after =
      ap (with_entry (entry_of e)) v.shown ∙ with_entry-last (entry_of e) log in
    record {
      shown = shows;
      counted = ap count_active shows ∙ count-last (length after) 5 after all ∙ omega arith;
      kills = all;
    }

either_way :
    {w w' : Window} {log log' : List Entry} (b : Bool)
    → IsWindow w log
    → IsWindow w' log'
    → IsWindow (if b then w else w') (if b then log else log')
either_way true v u = v
either_way false v u = u

-- The last two tests, of which the code asks one after the other.
two_tests :
    {w w' : Window} {log log' : List Entry} (a b : Bool)
    → IsWindow w log
    → IsWindow w' log'
    → IsWindow (if not a then w else if b then w else w') (if a && not b then log' else log)
two_tests true true v u = v
two_tests true false v u = u
two_tests false b v u = v

push_event-IsWindow :
    (e : Event) (w : Window) (log : List Entry)
    → IsWindow w log
    → IsWindow (death_window_compat_push_event e w) (log_event e log)
unfolding death_window_compat_push_event log_event
push_event-IsWindow e w log v = either_way (e.seq == 0) v (
    either_way (e.action == action_clear) (clear-IsWindow w) (
      two_tests (e.action == action_add) (e.killee_id == invalid_player) v
        (added-IsWindow e w log v)))

push_events-IsWindow :
    (previous : ℕ) (events : List Event) (latest : ℕ) (w : Window) (log : List Entry)
    → IsWindow w log
    → IsWindow (push_events previous events latest w).1 (log_events previous events log)
unfolding push_events log_events
push_events-IsWindow previous [] latest w log v = v
push_events-IsWindow previous (e ∷ events) latest w log v =
    let tests : (not (e.seq == 0) && ltb previous e.seq) ≡ ltb previous e.seq = ground arith in
    rw tests (elim (Bool-cases (ltb previous e.seq)) [
      | inl t ↦ rw t (
          push_events-IsWindow previous events e.seq (death_window_compat_push_event e w)
            (log_event e log) (push_event-IsWindow e w log v))
      | inr t ↦ rw t (push_events-IsWindow previous events latest w log v)
    ])

-- An update shows the last five kills of the log, after the snapshot's new events were added to
-- it, and counts them; events that an earlier update took are passed over.
pub update_from_snapshot-IsWindow :
    (snapshot : Snapshot) (w : Window) (log : List Entry)
    → IsWindow w log
    → IsWindow
        (death_window_compat_update_from_snapshot snapshot w)
        (log_events w.event_seq (snapshot_events snapshot) log)
unfolding death_window_compat_update_from_snapshot
update_from_snapshot-IsWindow snapshot w log v =
    let u = push_events-IsWindow w.event_seq (snapshot_events snapshot) w.event_seq w log v in
    record { shown = u.shown; counted = u.counted; kills = u.kills }
