-- ===== src/Bridge/DeathWindow/Mirror.antt =====
-- A client that takes snapshots of the adapter's kills shows the last kills of all messages.
use libsamp.Common.{
  ℕ, zero, suc, ◌+◌, ◌-◌, ◌%◌, ◌^◌, ◌<◌, ◌≤◌, ◌≡◌, refl, sym, ap, ◌∙◌, arith, min, not, ◌&&◌, List,
  [], ◌∷◌, length, get_or, set, take, take_all, drop, ltb, ◌==◌, if◌then◌else◌, u32, length-set,
  get_or-set_self, get_or-set_ne, if-cases,
}
use libsamp.Bridge.GangZone.Adapter.{bump_seq}
use libsamp.Bridge.DeathWindow.{
  Event, Entry, Window, event_ring, push_events, snapshot_events, death_window_compat_push_event,
}
use libsamp.Bridge.DeathWindow.Kills.{log_event, log_events}
use libsamp.Bridge.DeathWindow.Adapter.{
  KillProbe, DeathMessagePayload, no_kill, kill_event, queue_death_window_event, copy_kills,
  kill_snapshot,
}

-- The log after all events of a history, the last event first.
abbrev pub log_of : List Event → List Entry
log_of [] = []
log_of (e ∷ history) = log_event e (log_of history)

-- The adapter's events since it started, the last one first.
pub record IsHistory (p : KillProbe) (history : List Event) : Type 0 where
  pub low : p.event_seq < 2 ^ 32
  pub count : length history ≡ p.event_seq
  pub ring_size : length p.events ≡ event_ring
  pub numbered : (i : ℕ) → i < length history → (get_or history i no_kill).seq ≡ length history - i
  pub ring :
      (i : ℕ)
      → i < event_ring
      → i < length history
      → get_or p.events ((p.event_seq - 1 - i) % event_ring) no_kill ≡ get_or history i no_kill

module _ (m : DeathMessagePayload) (p : KillProbe) (history : List Event) (v : IsHistory p history)
    (low : p.event_seq + 1 < 2 ^ 32) where
  abbrev pub new : Event
  new = kill_event (p.event_seq + 1) m

  -- The number of the new event does not wrap.
  pub queued :
      queue_death_window_event m p
      ≡ record { event_seq = p.event_seq + 1; events = set p.events (p.event_seq % event_ring) new }
  unfolding queue_death_window_event bump_seq
  queued =
      let next : u32 (p.event_seq + 1) ≡ p.event_seq + 1 = omega (arith, low) in
      let place : p.event_seq + 1 - 1 ≡ p.event_seq = omega arith in ground (arith, next, place)

  pub queue-IsHistory :
      IsHistory
        (record {
          event_seq = p.event_seq + 1;
          events = set p.events (p.event_seq % event_ring) new;
        })
        (new ∷ history)
  unfolding kill_event
  queue-IsHistory = record {
    low = low;
    count = omega (arith, v.count);
    ring_size = length-set p.events (p.event_seq % event_ring) new ∙ v.ring_size;
    numbered = numbered;
    ring = ring;
  }
    where
      numbered :
          (i : ℕ)
          → i < length (new ∷ history)
          → (get_or (new ∷ history) i no_kill).seq ≡ length (new ∷ history) - i
      numbered zero below = omega (arith, v.count)
      numbered (suc i) below = v.numbered i (omega (arith, below)) ∙ omega arith

      ring :
          (i : ℕ)
          → i < event_ring
          → i < length (new ∷ history)
          → get_or
              (set p.events (p.event_seq % event_ring) new)
              ((p.event_seq + 1 - 1 - i) % event_ring)
              no_kill
            ≡ get_or (new ∷ history) i no_kill
      ring zero small below =
          let place : (p.event_seq + 1 - 1 - 0) % event_ring ≡ p.event_seq % event_ring =
            omega arith in
          ap (λ (j : ℕ). get_or (set p.events (p.event_seq % event_ring) new) j no_kill) place
          ∙ get_or-set_self p.events (p.event_seq % event_ring) new no_kill
              (omega (arith, v.ring_size))
      ring (suc i) small below =
          let below' : i < length history = omega (arith, below) in
          let place : (p.event_seq + 1 - 1 - suc i) % event_ring
              ≡ (p.event_seq - 1 - i) % event_ring =
            omega arith in
          ap (λ (j : ℕ). get_or (set p.events (p.event_seq % event_ring) new) j no_kill) place
          ∙ get_or-set_ne p.events (p.event_seq % event_ring) ((p.event_seq - 1 - i) % event_ring)
              new no_kill (λ e. omega (arith, e, small, below', v.count))
          ∙ v.ring i (omega (arith, small)) below'

-- The last `n` events of a history, the first one of them first.
pub last_events : List Event → ℕ → List Event
last_events history zero = []
last_events history (suc n) = get_or history n no_kill ∷ last_events history n

length-last_events : (history : List Event) (n : ℕ) → length (last_events history n) ≡ n
unfolding last_events
length-last_events history zero = refl
length-last_events history (suc n) = omega (arith, length-last_events history n)

module _ (p : KillProbe) (history : List Event) (v : IsHistory p history) where
  -- No number that is looked for wraps.
  copy_kills-next :
      (n seq : ℕ)
      → (1 ≤ n → seq + 1 < 2 ^ 32)
      → copy_kills p (u32 (seq + 1)) n ≡ copy_kills p (seq + 1) n
  unfolding copy_kills
  copy_kills-next zero seq low = refl
  copy_kills-next (suc n) seq low =
      let next : u32 (seq + 1) ≡ seq + 1 = omega (arith, low (omega arith)) in
      ap (λ (k : ℕ). copy_kills p k (suc n)) next

  copy_kills_lem :
      (n seq : ℕ)
      → n ≤ event_ring
      → n ≤ p.event_seq
      → seq + n ≡ p.event_seq + 1
      → copy_kills p seq n ≡ last_events history n
  unfolding copy_kills last_events
  copy_kills_lem zero seq small below at = refl
  copy_kills_lem (suc n) seq small below at =
      let place : (seq - 1) % event_ring ≡ (p.event_seq - 1 - n) % event_ring =
        omega (arith, at, below) in
      let found : get_or p.events ((seq - 1) % event_ring) no_kill ≡ get_or history n no_kill =
        ap (λ (j : ℕ). get_or p.events j no_kill) place
        ∙ v.ring n (omega (arith, small)) (omega (arith, below, v.count)) in
      let number : (get_or history n no_kill).seq ≡ seq =
        v.numbered n (omega (arith, below, v.count)) ∙ omega (arith, v.count, at, below) in
      let rest : copy_kills p (u32 (seq + 1)) n ≡ last_events history n =
        copy_kills-next n seq (λ more. omega (arith, more, at, v.low))
        ∙ copy_kills_lem n (seq + 1) (omega (arith, small)) (omega (arith, below))
            (omega (arith, at)) in
      ground (arith, found, number, rest)

  copied :
      (n : ℕ)
      → n ≡ min event_ring p.event_seq
      → copy_kills p (u32 (p.event_seq - n + 1)) n ≡ last_events history n
  copied n is =
      let first : u32 (p.event_seq - n + 1) ≡ p.event_seq - n + 1 = omega (arith, is, v.low) in
      ap (λ (seq : ℕ). copy_kills p seq n) first
      ∙ copy_kills_lem n (p.event_seq - n + 1) (omega (arith, is)) (omega (arith, is))
          (omega (arith, is))

  taken :
      (events : List Event)
      → length events ≤ event_ring
      → take (if ltb event_ring (length events) then event_ring else length events) events ≡ events
  taken events small =
      take_all (if ltb event_ring (length events) then event_ring else length events) events
        (ground (arith, small))

  pub kill_snapshot_lem :
      snapshot_events (kill_snapshot p) ≡ last_events history (min event_ring p.event_seq)
  unfolding snapshot_events kill_snapshot
  kill_snapshot_lem =
      let available : ℕ = if ltb p.event_seq event_ring then p.event_seq else event_ring in
      let is : available ≡ min event_ring p.event_seq = ground arith in
      ap
        (λ (events : List Event).
          take (if ltb event_ring (length events) then event_ring else length events) events)
        (copied available is)
      ∙ taken (last_events history available)
          (omega (arith, length-last_events history available, is))
      ∙ ap (last_events history) is

  event_number :
      (n : ℕ) → suc n ≤ length history → (get_or history n no_kill).seq ≡ length history - n
  event_number n below = v.numbered n (omega (arith, below))

  logged :
      (n : ℕ)
      → suc n ≤ length history
      → log_event (get_or history n no_kill) (log_of (drop (suc n) history))
        ≡ log_of (drop n history)
  logged n below = ap log_of (sym (drop-get history n below))
    where
      drop-get :
          (events : List Event) (n : ℕ)
          → suc n ≤ length events
          → drop n events ≡ get_or events n no_kill ∷ drop (suc n) events
      drop-get [] n below = absurd (omega (arith, below))
      drop-get (e ∷ events) zero below = refl
      drop-get (e ∷ events) (suc n) below = drop-get events n (omega (arith, below))

  -- A log that is `behind` events late is brought up to date by the last events.
  pub log_events-last :
      (n previous behind : ℕ)
      → n ≤ length history
      → previous + behind ≡ length history
      → log_events previous (last_events history n) (log_of (drop (min n behind) history))
        ≡ log_of history
  unfolding log_events last_events
  log_events-last zero previous behind below at =
      let none_left : min 0 behind ≡ 0 = omega arith in
      ap (λ (k : ℕ). log_of (drop k history)) none_left
  log_events-last (suc n) previous behind below at =
      let e : Event = get_or history n no_kill in
      let seq = event_number n below in
      let rest = log_events-last n previous behind (omega (arith, below)) at in
      if-cases (λ (log : List Entry). log ≡ log_of history) (ltb previous e.seq) _ _
        (λ t.
          let fresh : n < behind = ground (arith, t, seq, at) in
          let here : min (suc n) behind ≡ suc n = omega (arith, fresh) in
          let next : n ≡ min n behind = omega (arith, fresh) in
          ap
            (λ (k : ℕ).
              log_events previous (last_events history n) (log_event e (log_of (drop k history))))
            here
          ∙ ap (log_events previous (last_events history n)) (logged n below)
          ∙ ap (λ (k : ℕ). log_events previous (last_events history n) (log_of (drop k history)))
              next
          ∙ rest)
        (λ f.
          let old : min (suc n) behind ≡ min n behind = ground (arith, f, seq, at) in
          ap (λ (k : ℕ). log_events previous (last_events history n) (log_of (drop k history))) old
          ∙ rest)

  -- And so is the client's sequence number.
  pub push_events-last :
      (n previous behind latest : ℕ) (w : Window)
      → n ≤ length history
      → previous + behind ≡ length history
      → latest + min n behind ≡ length history
      → (push_events previous (last_events history n) latest w).0 ≡ length history
  unfolding push_events last_events
  push_events-last zero previous behind latest w below at now = omega (arith, now)
  push_events-last (suc n) previous behind latest w below at now =
      let e : Event = get_or history n no_kill in
      let seq = event_number n below in
      if-cases (λ (r : ℕ × Window). r.0 ≡ length history) (not (e.seq == 0) && ltb previous e.seq) _
        _
        (λ t.
          let fresh : n < behind = ground (arith, t, seq, at) in
          push_events-last n previous behind e.seq (death_window_compat_push_event e w)
            (omega (arith, below)) at (omega (arith, seq, fresh, below)))
        (λ f.
          let late : behind ≤ n = ground (arith, f, seq, at, below) in
          push_events-last n previous behind latest w (omega (arith, below)) at
            (omega (arith, late, now)))
