-- ===== src/Bridge/GangZone/Mirror.antt =====
-- The client's gang zones (runtime_bridge.c) against those of the adapter
-- (raknet_client_adapter.cpp): the client shows what the server last said.
pub mod History
pub mod Session
use libsamp.Common.{
  ℕ, zero, suc, ◌+◌, ◌-◌, ◌*◌, ◌%◌, ◌^◌, ◌<◌, ◌≤◌, ◌≡◌, ◌≢◌, ◌⊎◌, refl, sym, ap, subst, ◌∙◌, arith,
  Bool, true, false, not, ◌&&◌, ◌||◌, Option, none, some, List, [], ◌∷◌, map, length, get_or, set,
  take, ltb, leb, ◌==◌, if◌then◌else◌, length-set, map-set, get_or-map, set-get_or, sub32, if-cases,
  inl, inr, u32,
}
use Prim.Native.Nat.{compare, Ordering}
use libsamp.Bridge.GangZone.{
  Bounds, Zones, Slot, Event, State, Snapshot, cleared, max_gang_zones, event_ring, put_slot,
  created, action_create, action_destroy, action_flash, action_stop_flash, slot_of_state,
  apply_events, after_events, snapshot_events, gang_zone_compat_bounds_plausible,
  gang_zone_compat_apply_event, gang_zone_compat_resync_from_snapshot,
  gang_zone_compat_update_from_snapshot,
}
use libsamp.Bridge.GangZone.Adapter.{
  Probe, no_event, no_state, next_state, queue_event, copy_events, snapshot_of,
}

abbrev pub mirror : List State → List Slot
mirror = map slot_of_state

-- What the adapter's decoder lets through.
pub record IsDecoded (e : Event) : Type 0 where
  pub zone_low : e.zone_id < max_gang_zones
  pub known : (action_create ≤ e.action) × (e.action ≤ action_stop_flash)
  pub plausible : e.action ≡ action_create → gang_zone_compat_bounds_plausible e.bounds ≡ true

abbrev pub next_states : Event → List State → List State
next_states e states = set states e.zone_id (next_state e (get_or states e.zone_id no_state))

slot_of_no_state : slot_of_state no_state ≡ cleared
unfolding slot_of_state
slot_of_no_state = refl

slot-create :
    (e : Event) (s : State)
    → e.action ≡ action_create
    → gang_zone_compat_bounds_plausible e.bounds ≡ true
    → created e ≡ slot_of_state (next_state e s)
unfolding created next_state slot_of_state
slot-create e s a p = ground (arith, a, p)

slot-destroy :
    (e : Event) (s : State) → e.action ≡ action_destroy → cleared ≡ slot_of_state (next_state e s)
unfolding next_state slot_of_state
slot-destroy e s a = ground (arith, a)

slot-flash :
    (e : Event) (s : State)
    → e.action ≡ action_flash
    → (slot_of_state s).active ≡ true
    → record (slot_of_state s) { revision = e.seq; alternate_color = e.color }
      ≡ slot_of_state (next_state e s)
unfolding next_state slot_of_state
slot-flash e s a on = ground (arith, a, on)

slot-stop_flash :
    (e : Event) (s : State)
    → e.action ≡ action_stop_flash
    → (slot_of_state s).active ≡ true
    → record (slot_of_state s) { revision = e.seq; alternate_color = (slot_of_state s).base_color }
      ≡ slot_of_state (next_state e s)
unfolding next_state slot_of_state
slot-stop_flash e s a on = ground (arith, a, on)

slot-off :
    (e : Event) (s : State)
    → action_destroy < e.action
    → (slot_of_state s).active ≡ false
    → slot_of_state s ≡ slot_of_state (next_state e s)
unfolding next_state slot_of_state
slot-off e s a off = ground (arith, a, off)

module _ (e : Event) (z : Zones) (s : State) (d : IsDecoded e) where
  abbrev old : Slot
  old = get_or z.slots e.zone_id cleared

  abbrev Goal : Zones → Type 0
  Goal z' = z'.slots ≡ set z.slots e.zone_id (slot_of_state (next_state e s))

  -- An event on a zone turns the slot of its state into the slot of the next state.
  apply_event-set : e.seq ≢ 0 → old ≡ slot_of_state s → Goal (gang_zone_compat_apply_event e z)
  unfolding gang_zone_compat_apply_event put_slot
  apply_event-set nonzero same =
      let write : (x : Slot)
          → x ≡ slot_of_state (next_state e s)
          → set z.slots e.zone_id x ≡ set z.slots e.zone_id (slot_of_state (next_state e s)) =
        λ x q. ap (λ (y : Slot). set z.slots e.zone_id y) q in
      let on : old.active ≡ true → (slot_of_state s).active ≡ true =
        λ t. ap (λ (y : Slot). y.active) (sym same) ∙ t in
      let kept : action_destroy < e.action → old.active ≡ false → Goal z = λ l t.
        sym (set-get_or z.slots e.zone_id cleared)
        ∙ write old (same ∙ slot-off e s l (ap (λ (y : Slot). y.active) (sym same) ∙ t)) in
      if-cases Goal (leb max_gang_zones e.zone_id || e.seq == 0) _ _
        (λ t. absurd (ground (arith, t, d.zone_low)))
        λ inside.
          if-cases Goal (e.action == action_create) _ _
            (λ t.
              let a : e.action ≡ action_create = ground (arith, t) in
              if-cases Goal (gang_zone_compat_bounds_plausible e.bounds) _ _
                (λ p. write (created e) (slot-create e s a p))
                (λ p. absurd (ground (arith, p, d.plausible a))))
            λ nc.
              if-cases Goal (e.action == action_destroy) _ _
                (λ t. write cleared (slot-destroy e s (ground (arith, t))))
                λ nd.
                  let late : action_destroy < e.action = ground (arith, nc, nd, d.known) in
                  if-cases Goal (e.action == action_flash) _ _
                    (λ t.
                      if-cases Goal old.active _ _
                        (λ q.
                          write (record old { revision = e.seq; alternate_color = e.color })
                            (ap
                                (λ (y : Slot). record y {
                                  revision = e.seq;
                                  alternate_color = e.color;
                                })
                                same
                              ∙ slot-flash e s (ground (arith, t)) (on q)))
                        (λ q. kept late q))
                    λ nf.
                      if-cases Goal (e.action == action_stop_flash) _ _
                        (λ t.
                          if-cases Goal old.active _ _
                            (λ q.
                              write
                                (record old { revision = e.seq; alternate_color = old.base_color })
                                (ap
                                    (λ (y : Slot). record y {
                                      revision = e.seq;
                                      alternate_color = y.base_color;
                                    })
                                    same
                                  ∙ slot-stop_flash e s (ground (arith, t)) (on q)))
                            (λ q. kept late q))
                        (λ ns. absurd (ground (arith, nf, ns, late, d.known)))

pub apply_event-mirror :
    (e : Event) (z : Zones) (states : List State)
    → IsDecoded e
    → e.seq ≢ 0
    → z.slots ≡ mirror states
    → (gang_zone_compat_apply_event e z).slots ≡ mirror (next_states e states)
unfolding slot_of_state
apply_event-mirror e z states d nonzero same =
    let s : State = get_or states e.zone_id no_state in
    apply_event-set e z s d nonzero (
      ap (λ (xs : List Slot). get_or xs e.zone_id cleared) same
      ∙ get_or-map slot_of_state states e.zone_id no_state)
    ∙ ap (λ (xs : List Slot). set xs e.zone_id (slot_of_state (next_state e s))) same
    ∙ sym (map-set slot_of_state states e.zone_id (next_state e s))

pub apply_event-synced :
    (e : Event) (z : Zones) → (gang_zone_compat_apply_event e z).synced ≡ z.synced
unfolding gang_zone_compat_apply_event put_slot
apply_event-synced e z = ground arith
