-- ===== src/Bridge/DeathWindow/Following.antt =====
-- A client that takes snapshots of the adapter's kills, over any messages of the server.
use libsamp.Common.{
  ℕ, suc, ◌+◌, ◌^◌, ◌<◌, ◌≤◌, ◌≡◌, sym, ap, subst, ◌∙◌, arith, min, Bool, true, false, Option, none,
  some, List, [], ◌∷◌, ◌++◌, length, drop, ◌==◌, if◌then◌else◌,
}
use libsamp.Bridge.DeathWindow.{
  Event, Entry, Window, event_ring, invalid_player, entry_of, push_events, snapshot_events,
  death_window_compat_update_from_snapshot,
}
use libsamp.Bridge.DeathWindow.Kills.{
  log_event, log_events, IsWindow, update_from_snapshot-IsWindow,
}
use libsamp.Bridge.DeathWindow.Adapter.{
  KillProbe, DeathMessagePayload, kill_event, decode_death_message, queue_death_window_event,
  decode_death_message_payload, kill_snapshot,
}
use libsamp.Bridge.DeathWindow.Mirror.{
  log_of, last_events, IsHistory, queued, queue-IsHistory, kill_snapshot_lem, log_events-last,
  push_events-last,
}

-- The adapter after the messages of the server.
unfoldable pub receive_all : List (List ℕ) → KillProbe → KillProbe
receive_all [] p = p
receive_all (payload ∷ payloads) p = receive_all payloads (decode_death_message_payload payload p).1

-- The kill of a message; nobody's is not shown.
abbrev pub log_kill : ℕ → DeathMessagePayload → List Entry → List Entry
log_kill seq m log =
    if m.killee_id == invalid_player then log else log ++ (entry_of (kill_event seq m) ∷ [])

-- The log of all kills, with the messages of five bytes or more numbered on from `seq`.
abbrev pub log_messages : ℕ → List (List ℕ) → List Entry → List Entry
log_messages seq [] log = log
log_messages seq (payload ∷ payloads) log = elim (decode_death_message payload) [
  | none ↦ log_messages seq payloads log
  | some m ↦ log_messages (seq + 1) payloads (log_kill (seq + 1) m log)
]

-- The client shows the last kills of the log and is `behind` events late.
pub record IsFollowing (behind : ℕ) (p : KillProbe) (w : Window) (log : List Entry) : Type 0 where
  pub history : List Event
  pub is_history : IsHistory p history
  pub logged : log ≡ log_of history
  pub shown : IsWindow w (log_of (drop behind history))
  pub late : w.event_seq + behind ≡ p.event_seq

log_kill_lem :
    (seq : ℕ) (m : DeathMessagePayload) (log : List Entry)
    → log_event (kill_event (seq + 1) m) log ≡ log_kill (seq + 1) m log
unfolding log_event kill_event
log_kill_lem seq m log = ground arith

-- A message makes the client later by one event, or by none.
queue-IsFollowing :
    (m : DeathMessagePayload) (behind : ℕ) (p : KillProbe) (w : Window) (log : List Entry)
    → IsFollowing behind p w log
    → p.event_seq + 1 < 2 ^ 32
    → IsFollowing (suc behind) (queue_death_window_event m p) w (log_kill (p.event_seq + 1) m log)
queue-IsFollowing m behind p w log f low =
    subst (λ (p' : KillProbe). IsFollowing (suc behind) p' w (log_kill (p.event_seq + 1) m log))
      (sym (queued m p f.history f.is_history low))
      (record {
        history = kill_event (p.event_seq + 1) m ∷ f.history;
        is_history = queue-IsHistory m p f.history f.is_history low;
        logged =
            ap (log_kill (p.event_seq + 1) m) f.logged
            ∙ sym (log_kill_lem p.event_seq m (log_of f.history));
        shown = f.shown;
        late = omega (arith, f.late);
      })

up_to_date :
    (p : KillProbe) (w : Window) (history : List Event)
    → IsHistory p history
    → (behind : ℕ) → w.event_seq + behind ≡ length history
    → behind ≤ event_ring
    → (death_window_compat_update_from_snapshot (kill_snapshot p) w).event_seq ≡ p.event_seq
unfolding death_window_compat_update_from_snapshot
up_to_date p w history v behind at few =
    let n : ℕ = min event_ring p.event_seq in
    ap (λ (es : List Event). (push_events w.event_seq es w.event_seq w).0)
      (kill_snapshot_lem p history v)
    ∙ push_events-last p history v n w.event_seq behind w.event_seq w (omega (arith, v.count)) at
        (omega (arith, at, few, v.count))
    ∙ v.count

-- An update brings the client up to date, if the ring still has all events that it is late.
caught_up :
    (behind : ℕ) (p : KillProbe) (w : Window) (log : List Entry)
    → IsFollowing behind p w log
    → behind ≤ event_ring
    → IsFollowing 0 p (death_window_compat_update_from_snapshot (kill_snapshot p) w) log
caught_up behind p w log f few =
    let v = f.is_history in
    let n : ℕ = min event_ring p.event_seq in
    let events = kill_snapshot_lem p f.history v in
    let at : w.event_seq + behind ≡ length f.history = f.late ∙ sym v.count in
    let below : n ≤ length f.history = omega (arith, v.count) in
    let enough : behind ≡ min n behind = omega (arith, few, f.late) in
    let shown : IsWindow (death_window_compat_update_from_snapshot (kill_snapshot p) w) _ =
      update_from_snapshot-IsWindow (kill_snapshot p) w (log_of (drop behind f.history)) f.shown in
    let same : log_events w.event_seq (snapshot_events (kill_snapshot p))
          (log_of (drop behind f.history))
        ≡ log_of f.history =
      ap (λ (es : List Event). log_events w.event_seq es (log_of (drop behind f.history))) events
      ∙ ap (λ (k : ℕ). log_events w.event_seq (last_events f.history n) (log_of (drop k f.history)))
          enough
      ∙ log_events-last p f.history v n w.event_seq behind below at in
    record {
      history = f.history;
      is_history = v;
      logged = f.logged;
      shown =
          subst
            (λ (l : List Entry).
              IsWindow (death_window_compat_update_from_snapshot (kill_snapshot p) w) l)
            same shown;
      late = omega (arith, up_to_date p w f.history v behind at few);
    }

receive_all-IsFollowing :
    (payloads : List (List ℕ)) (behind : ℕ) (p : KillProbe) (w : Window) (log : List Entry)
    → IsFollowing behind p w log
    → p.event_seq + length payloads < 2 ^ 32
    → (later : ℕ) × (later ≤ behind + length payloads)
      × IsFollowing later (receive_all payloads p) w (log_messages p.event_seq payloads log)
unfolding receive_all decode_death_message_payload
receive_all-IsFollowing [] behind p w log f low = (behind, omega arith, f)
receive_all-IsFollowing (payload ∷ payloads) behind p w log f low =
    by_message
      (λ behind' p' log' f' low'. receive_all-IsFollowing payloads behind' p' w log' f' low')
      (decode_death_message payload)
  where
    -- What the rest of the messages does.
    Rest : Type 0
    Rest =
        (behind' : ℕ) (p' : KillProbe) (log' : List Entry)
        → IsFollowing behind' p' w log'
        → p'.event_seq + length payloads < 2 ^ 32
        → (later : ℕ) × (later ≤ behind' + length payloads)
          × IsFollowing later (receive_all payloads p') w (log_messages p'.event_seq payloads log')

    by_message :
        Rest
        → (o : Option DeathMessagePayload)
        → (later : ℕ) × (later ≤ behind + length (payload ∷ payloads))
          × IsFollowing later
              (let r : Bool × KillProbe = elim o [
                | none ↦ (false, p)
                | some m ↦ (true, queue_death_window_event m p)
              ] in
                receive_all payloads r.1)
              w
              (elim o [
                | none ↦ log_messages p.event_seq payloads log
                | some m ↦
                    log_messages (p.event_seq + 1) payloads (log_kill (p.event_seq + 1) m log)
              ])
    by_message rest none =
        let (later, bound, g) = rest behind p log f (omega (arith, low)) in
        (later, omega (arith, bound), g)
    by_message rest (some m) =
        let log' = log_kill (p.event_seq + 1) m log in
        let p' = queue_death_window_event m p in
        let next : p'.event_seq ≡ p.event_seq + 1 =
          ap (λ (x : KillProbe). x.event_seq)
            (queued m p f.history f.is_history (omega (arith, low))) in
        let (later, bound, g) =
          rest (suc behind) p' log' (queue-IsFollowing m behind p w log f (omega (arith, low)))
            (omega (arith, low, next)) in
        (
          later,
          omega (arith, bound),
          subst
              (λ (seq : ℕ).
                IsFollowing later (receive_all payloads p') w (log_messages seq payloads log'))
              next g,
        )

-- A client that follows the adapter, and takes its next snapshot after at most 16 messages, of which
-- those of five bytes or more are kills, shows and counts the last five kills of the log of all
-- messages and follows on, while sequence numbers stay below 2^32.
pub update-receive_all :
    (payloads : List (List ℕ)) (p : KillProbe) (w : Window) (log : List Entry)
    → IsFollowing 0 p w log
    → length payloads ≤ event_ring
    → p.event_seq + length payloads < 2 ^ 32
    → (let p' = receive_all payloads p in
        IsFollowing 0 p'
          (death_window_compat_update_from_snapshot (kill_snapshot p') w)
          (log_messages p.event_seq payloads log))
update-receive_all payloads p w log f few low =
    let (later, bound, g) = receive_all-IsFollowing payloads 0 p w log f low in
    caught_up later (receive_all payloads p) w (log_messages p.event_seq payloads log) g
      (omega (arith, bound, few))
