-- ===== src/Bridge/GangZone/Mirror/Session.antt =====
-- Messages that reach the adapter, and a client that follows it by snapshots.
use libsamp.Common.{
  ℕ, zero, suc, ◌+◌, ◌-◌, ◌*◌, ◌%◌, ◌^◌, ◌<◌, ◌≤◌, ◌≡◌, ◌≢◌, ◌⊎◌, refl, sym, ap, subst, ◌∙◌, arith,
  Bool, true, false, Option, none, some, List, [], ◌∷◌, length, get_or, set, ltb, leb, ◌==◌,
  if◌then◌else◌, length-set, get_or-set_self, get_or-set_ne, if-cases, inl, inr,
}
use native.Mathlib.Decide.{ℕ_discrete}
use libsamp.Bridge.GangZone.{
  Bounds, Zones, Event, State, max_gang_zones, event_ring, gang_zone_compat_update_from_snapshot,
}
use libsamp.Bridge.GangZone.Adapter.{
  Probe, no_event, bump_seq, queue_event, queue_gang_zone_event, decode_action,
  decode_gang_zone_payload, snapshot_of,
}
use libsamp.Bridge.GangZone.Mirror.{mirror, IsDecoded, next_states}
use libsamp.Bridge.GangZone.Mirror.History.{IsHistory, states_from, update_from_snapshot-IsCurrent}

-- The history with one event more.
abbrev recorded : (ℕ → Event) → Event → ℕ → Event
recorded event_at e k = if k == e.seq then e else event_at k

recorded-ne :
    (event_at : ℕ → Event) (e : Event) (k : ℕ) → k ≢ e.seq → recorded event_at e k ≡ event_at k
recorded-ne event_at e k ne = ground (arith, ne)

recorded-eq : (event_at : ℕ → Event) (e : Event) (k : ℕ) → k ≡ e.seq → recorded event_at e k ≡ e
recorded-eq event_at e k q = ground (arith, q)

states_from-recorded :
    (event_at : ℕ → Event) (e : Event) (k : ℕ)
    → k < e.seq
    → states_from (recorded event_at e) k ≡ states_from event_at k
states_from-recorded event_at e zero l = refl
states_from-recorded event_at e (suc k) l = rw (
  recorded-ne event_at e (suc k) (λ q. omega (arith, l, q)),
  states_from-recorded event_at e k (omega (arith, l)),
)

-- The client shows the state of the adapter at a sequence number that it passed.
pub record Follows (p : Probe) (z : Zones) : Type 0 where
  pub event_at : ℕ → Event
  pub history : IsHistory p event_at
  pub reached : z.event_seq ≤ p.event_seq
  pub shown : z.slots ≡ mirror (states_from event_at z.event_seq)

-- The latest states, and an entry of the ring, after an event more.
module _ (p : Probe) (event_at : ℕ → Event) (e : Event) (v : IsHistory p event_at)
    (next : e.seq ≡ suc p.event_seq) where
  latest-recorded : next_states e p.states ≡ states_from (recorded event_at e) e.seq
  latest-recorded =
      ap (λ (xs : List State). next_states e xs)
        (v.latest ∙ sym (states_from-recorded event_at e p.event_seq (omega (arith, next))))
      ∙ ap (λ (x : Event). next_states x (states_from (recorded event_at e) p.event_seq))
          (sym (recorded-eq event_at e (suc p.event_seq) (sym next)))
      ∙ ap (λ (k : ℕ). states_from (recorded event_at e) k) (sym next)

  abbrev IsEntry : Event → Type 0
  IsEntry x = (x.seq ≡ 0) ⊎ ((x ≡ recorded event_at e x.seq) × (x.seq ≤ e.seq))

  old-IsEntry :
      (x : Event) → (x.seq ≡ 0) ⊎ ((x ≡ event_at x.seq) × (x.seq ≤ p.event_seq)) → IsEntry x
  old-IsEntry x (inl z) = inl z
  old-IsEntry x (inr (same, low)) = inr (
    same ∙ sym (recorded-ne event_at e x.seq (λ q. omega (arith, q, low, next))),
    omega (arith, low, next),
  )

  ring-recorded : (i : ℕ) → IsEntry (get_or (set p.events ((e.seq - 1) % event_ring) e) i no_event)
  ring-recorded i =
      let j : ℕ = (e.seq - 1) % event_ring in
      elim (ℕ_discrete j i) [
        | yes q ↦
            subst IsEntry
              (sym (get_or-set_self p.events j e no_event (omega (arith, v.ring_size)))
                ∙ ap (λ (k : ℕ). get_or (set p.events j e) k no_event) q)
              (inr (sym (recorded-eq event_at e e.seq refl), omega arith))
        | no ne ↦
            subst IsEntry (sym (get_or-set_ne p.events j i e no_event ne))
              (old-IsEntry (get_or p.events i no_event) (v.ring i))
      ]

queue_event-IsHistory :
    (p : Probe) (event_at : ℕ → Event) (e : Event)
    → IsHistory p event_at
    → e.seq ≡ suc p.event_seq
    → e.seq + 1 < 2 ^ 32
    → IsDecoded e
    → IsHistory (queue_event e p) (recorded event_at e)
unfolding queue_event
queue_event-IsHistory p event_at e v next low d = rw inside (record {
  low = low;
  numbered = λ k.
      if-cases (λ (x : Event). x.seq ≡ k) (k == e.seq) e (event_at k) (λ t. ground (arith, t))
        (λ t. v.numbered k);
  decoded = λ k. if-cases IsDecoded (k == e.seq) e (event_at k) (λ t. d) (λ t. v.decoded k);
  latest = latest-recorded p event_at e v next;
  ring_size = length-set p.events ((e.seq - 1) % event_ring) e ∙ v.ring_size;
  same_seq = refl;
  ring = ring-recorded p event_at e v next;
})
  where
    inside : ltb e.zone_id max_gang_zones ≡ true
    inside = ground (arith, d.zone_low)

queue_event-event_seq : (e : Event) (p : Probe) → (queue_event e p).event_seq ≡ e.seq
unfolding queue_event
queue_event-event_seq e p = ground arith

queue_event-Follows :
    (p : Probe) (e : Event) (z : Zones)
    → Follows p z
    → e.seq ≡ suc p.event_seq
    → e.seq + 1 < 2 ^ 32
    → IsDecoded e
    → Follows (queue_event e p) z
queue_event-Follows p e z f next low d = record {
  event_at = recorded f.event_at e;
  history = queue_event-IsHistory p f.event_at e f.history next low d;
  reached = omega (arith, queue_event-event_seq e p, next, f.reached);
  shown =
      f.shown
      ∙ ap mirror
          (sym (states_from-recorded f.event_at e z.event_seq (omega (arith, next, f.reached))));
}

decode_action-IsDecoded :
    (rpc_id : ℕ) (payload : List ℕ) (action : ℕ) (bounds : Bounds) (color zone_id seq : ℕ)
    → decode_action rpc_id payload ≡ some (action, bounds, color)
    → zone_id < max_gang_zones
    → IsDecoded
        (record { seq = seq; zone_id = zone_id; action = action; bounds = bounds; color = color })
unfolding decode_action
decode_action-IsDecoded rpc_id payload action bounds color zone_id seq e low = record {
  zone_low = low;
  known = ground (arith, e);
  plausible = λ c. ground (arith, e, c);
}

-- What holds after a message, if it holds of a probe that is left alone and of one with the event.
decode-cases :
    (P : Probe → Type 0) (rpc_id : ℕ) (payload : List ℕ) (p : Probe)
    → P p
    → ((e : Event) → IsDecoded e → e.seq ≡ bump_seq p.event_seq → P (queue_event e p))
    → P (decode_gang_zone_payload rpc_id payload p).1
unfolding decode_gang_zone_payload queue_gang_zone_event
decode-cases P rpc_id payload p left queued =
    let zone_id : ℕ = get_or payload 0 0 + 256 * get_or payload 1 0 in
    if-cases (λ (x : Bool × Probe). P x.1) (ltb (length payload) 2) _ _ (λ t. left)
      λ t.
        if-cases (λ (x : Bool × Probe). P x.1) (leb max_gang_zones zone_id) _ _ (λ l. left)
          λ l. by_action zone_id (ground (arith, l)) (decode_action rpc_id payload) refl
  where
    by_action :
        (zone_id : ℕ)
        → zone_id < max_gang_zones
        → (o : Option (ℕ × Bounds × ℕ)) → decode_action rpc_id payload ≡ o
        → P
            (elim o as (λ x. Bool × Probe) [
              | none ↦ (false, p)
              | some (action, bounds, color) ↦
                  (true, queue_gang_zone_event action zone_id bounds color p)
            ]).1
    by_action zone_id low none e = left
    by_action zone_id low (some (action, bounds, color)) e =
        queued
          (record {
            seq = bump_seq p.event_seq;
            zone_id = zone_id;
            action = action;
            bounds = bounds;
            color = color;
          })
          (decode_action-IsDecoded rpc_id payload action bounds color zone_id (bump_seq p.event_seq)
            e low)
          refl

bump_seq-suc : (n : ℕ) → n + 2 < 2 ^ 32 → bump_seq n ≡ suc n
unfolding bump_seq
bump_seq-suc n low = ground (arith, low)

decode-Follows :
    (rpc_id : ℕ) (payload : List ℕ) (p : Probe) (z : Zones)
    → Follows p z
    → p.event_seq + 2 < 2 ^ 32
    → Follows (decode_gang_zone_payload rpc_id payload p).1 z
decode-Follows rpc_id payload p z f low =
    decode-cases (λ x. Follows x z) rpc_id payload p f
      λ e d q.
        let next : e.seq ≡ suc p.event_seq = q ∙ bump_seq-suc p.event_seq low in
        queue_event-Follows p e z f next (omega (arith, next, low)) d

decode-event_seq :
    (rpc_id : ℕ) (payload : List ℕ) (p : Probe)
    → p.event_seq + 2 < 2 ^ 32
    → (decode_gang_zone_payload rpc_id payload p).1.event_seq ≤ suc p.event_seq
decode-event_seq rpc_id payload p low =
    decode-cases (λ x. x.event_seq ≤ suc p.event_seq) rpc_id payload p (omega arith)
      λ e d q. omega (arith, queue_event-event_seq e p, q, bump_seq-suc p.event_seq low)

-- The messages that arrive between two snapshots, each with its id and its payload.
unfoldable pub receive : List (ℕ × List ℕ) → Probe → Probe
receive [] p = p
receive ((rpc_id, payload) ∷ messages) p =
    receive messages (decode_gang_zone_payload rpc_id payload p).1

receive-Follows :
    (messages : List (ℕ × List ℕ)) (p : Probe) (z : Zones)
    → Follows p z
    → p.event_seq + length messages + 1 < 2 ^ 32
    → Follows (receive messages p) z
unfolding receive
receive-Follows [] p z f low = f
receive-Follows ((rpc_id, payload) ∷ messages) p z f low =
    let here : p.event_seq + 2 < 2 ^ 32 = omega (arith, low) in
    receive-Follows messages (decode_gang_zone_payload rpc_id payload p).1 z
      (decode-Follows rpc_id payload p z f here)
      (omega (arith, low, decode-event_seq rpc_id payload p here))

-- A client that follows the adapter shows its present gang zones after the next snapshot, whatever
-- messages arrived in between, well or badly formed, and however many: those that the ring of 128
-- events still holds are applied one by one, and past a gap the states are copied. It then follows
-- the adapter again. The sequence numbers stay below 2^32.
pub update-receive :
    (messages : List (ℕ × List ℕ)) (p : Probe) (z : Zones)
    → Follows p z
    → p.event_seq + length messages + 1 < 2 ^ 32
    → (let p' = receive messages p in
        let z' = gang_zone_compat_update_from_snapshot (snapshot_of p') z in
        (z'.slots ≡ mirror p'.states)
        × (z'.event_seq ≡ p'.state_seq)
        × (z'.synced ≡ true)
        × Follows p' z')
update-receive messages p z f low =
    let p' : Probe = receive messages p in
    let z' : Zones = gang_zone_compat_update_from_snapshot (snapshot_of p') z in
    let f' : Follows p' z = receive-Follows messages p z f low in
    let now = update_from_snapshot-IsCurrent p' f'.event_at f'.history z (inr (inr f'.shown)) in
    let at_now : z'.event_seq ≡ p'.event_seq = now.1 ∙ f'.history.same_seq in
    (
      now.0,
      now.1,
      now.2,
      record {
        event_at = f'.event_at;
        history = f'.history;
        reached = omega (arith, at_now);
        shown =
            now.0
            ∙ ap mirror f'.history.latest
            ∙ ap (λ (k : ℕ). mirror (states_from f'.event_at k)) (sym at_now);
      },
    )
