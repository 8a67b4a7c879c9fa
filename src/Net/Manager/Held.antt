-- ===== src/Net/Manager/Held.antt =====
-- Theorems on tcp_bootstrap_manager.c: the manager's socket is open as long as it runs.
use libsamp.Common.{
  ℕ, ◌≡◌, ◌≢◌, ◌⊎◌, refl, sym, ◌∙◌, subst, arith, Bool, true, false, Option, none, some, List, ◌∷◌,
  Bool-cases, inl, inr,
}
use libsamp.Net.World.{
  Winsock, World, invalid_socket, run, samp_net_close_socket, samp_net_runtime_shutdown,
}
use libsamp.Net.Sockets.{samp_net_ipv4_tcp_listen, samp_net_ipv4_getsockname_port}
use libsamp.Net.Sockets.Balance.{IsBalanced, tcp_listen-IsBalanced, close-opened}
use libsamp.Net.Manager.{
  Manager, Adapter, blank, start_on, start_with, samp_net_mgr_start_listener, disconnect_client,
  destroy_client, samp_net_mgr_stop, samp_net_mgr_destroy,
}

-- Besides the sockets of others, only the listener of a manager that runs is open.
abbrev pub IsHeld : {Os : Type 0} → List ℕ → Manager × World Os → Type 0
IsHeld others (m, w) =
    ((m.running ≡ true)
      × (m.listen_socket ≢ invalid_socket)
      × (w.opened ≡ m.listen_socket ∷ others))
    ⊎ ((m.running ≡ false) × (m.listen_socket ≡ invalid_socket) × (w.opened ≡ others))

module _ {Os : Type 0} (api : Winsock Os) (adapter : Adapter Os) where
  getsockname-opened :
      (s : ℕ) (w : World Os) → (samp_net_ipv4_getsockname_port api s w).1.opened ≡ w.opened
  unfolding samp_net_ipv4_getsockname_port
  getsockname-opened s w = ground arith

  disconnect-opened :
      (client : Option ℕ) (w : World Os)
      → (disconnect_client api adapter client w).opened ≡ w.opened
  unfolding disconnect_client
  disconnect-opened none w = refl
  disconnect-opened (some c) w = refl

  destroy-opened :
      (client : Option ℕ) (w : World Os) → (destroy_client api adapter client w).opened ≡ w.opened
  unfolding destroy_client
  destroy-opened none w = refl
  destroy-opened (some c) w = refl

  start_on-IsHeld :
      (s : ℕ) (port : Option ℕ) (m : Manager) (w : World Os) (others : List ℕ)
      → s ≢ invalid_socket
      → w.opened ≡ s ∷ others
      → m.running ≡ false
      → m.listen_socket ≡ invalid_socket
      → IsHeld others (start_on api adapter s port (m, w)).1
  unfolding start_on
  start_on-IsHeld s none m w others valid e idle unset =
      inr (idle, unset, close-opened api s w others valid e)
  start_on-IsHeld s (some port) m w others valid e idle unset = inl (refl, valid, e)

  start_with-IsHeld :
      (s : Option ℕ) (m : Manager) (w : World Os) (others : List ℕ)
      → IsBalanced others (s, w)
      → m.running ≡ false
      → m.listen_socket ≡ invalid_socket
      → IsHeld others (start_with api adapter s (m, w)).1
  unfolding start_with
  start_with-IsHeld none m w others e idle unset = inr (idle, unset, e)
  start_with-IsHeld (some s) m w others (valid, e) idle unset =
      let r = samp_net_ipv4_getsockname_port api s w in
      start_on-IsHeld s r.0 m r.1 others valid (getsockname-opened s w ∙ e) idle unset

  start-refused :
      (port backlog : ℕ) (m : Manager) (w : World Os)
      → (m.initialized ≡ false) ⊎ (m.running ≡ true)
      → samp_net_mgr_start_listener api adapter port backlog (m, w) ≡ (false, (m, w))
  unfolding samp_net_mgr_start_listener
  start-refused port backlog m w (inl n) = ground (arith, n)
  start-refused port backlog m w (inr r) = elim (Bool-cases m.initialized) [
    | inl i ↦ ground (arith, i, r)
    | inr n ↦ ground (arith, n)
  ]

  start-runs :
      (port backlog : ℕ) (m : Manager) (w : World Os)
      → m.initialized ≡ true
      → m.running ≡ false
      → samp_net_mgr_start_listener api adapter port backlog (m, w)
        ≡ start_with api adapter
            (samp_net_ipv4_tcp_listen api port backlog w).0
            (m, (samp_net_ipv4_tcp_listen api port backlog w).1)
  unfolding samp_net_mgr_start_listener
  start-runs port backlog m w i r = ground (arith, i, r)

  -- Starting a listener, whether it succeeds or fails, keeps the open sockets in step with the
  -- manager: while it runs its listener is open besides the others', else none of its own is.
  pub start_listener-IsHeld :
      (port backlog : ℕ) (m : Manager) (w : World Os) (others : List ℕ)
      → IsHeld others (m, w)
      → IsHeld others (samp_net_mgr_start_listener api adapter port backlog (m, w)).1
  start_listener-IsHeld port backlog m w others (inl held) =
      subst (λ (x : Bool × (Manager × World Os)). IsHeld others x.1)
        (sym (start-refused port backlog m w (inr held.0))) (inl held)
  start_listener-IsHeld port backlog m w others (inr (idle, unset, e)) =
      elim (Bool-cases m.initialized) [
        | inr n ↦
            subst (λ (x : Bool × (Manager × World Os)). IsHeld others x.1)
              (sym (start-refused port backlog m w (inl n))) (inr (idle, unset, e))
        | inl i ↦
            let l = samp_net_ipv4_tcp_listen api port backlog w in
            subst (λ (x : Bool × (Manager × World Os)). IsHeld others x.1)
              (sym (start-runs port backlog m w i idle))
              (start_with-IsHeld l.0 m l.1 others
                (subst (λ (opened : List ℕ). IsBalanced opened l) e
                  (tcp_listen-IsBalanced api port backlog w))
                idle unset)
      ]

  stop-opened :
      (m : Manager) (w : World Os) (others : List ℕ)
      → m.initialized ≡ true
      → IsHeld others (m, w)
      → (let x = samp_net_mgr_stop api adapter (m, w) in
          (x.0 ≡ true)
          × (x.1.0.running ≡ false)
          × (x.1.0.listen_socket ≡ invalid_socket)
          × (x.1.1.opened ≡ others))
  unfolding samp_net_mgr_stop
  stop-opened m w others i (inl (run, valid, e)) = ground (
    arith,
    i,
    disconnect-opened m.raknet_client (samp_net_close_socket api m.listen_socket w),
    close-opened api m.listen_socket w others valid e,
  )
  stop-opened m w others i (inr (idle, unset, e)) =
      ground (arith, i, disconnect-opened m.raknet_client w)

  -- Stopping an initialized manager, running or not, succeeds and leaves open just the others'
  -- sockets.
  stop_lem :
      (m : Manager) (w : World Os) (others : List ℕ)
      → m.initialized ≡ true
      → IsHeld others (m, w)
      → (let x = samp_net_mgr_stop api adapter (m, w) in
          (x.0 ≡ true) × IsHeld others x.1 × (x.1.0.running ≡ false) × (x.1.1.opened ≡ others))
  stop_lem m w others i held =
      let s = stop-opened m w others i held in (s.0, inr (s.1, s.2, s.3), s.1, s.3)

  -- Destroying an initialized manager leaves open just the others' sockets and a blank manager, on
  -- which a second destruction does nothing.
  pub destroy-destroy :
      (m : Manager) (w : World Os) (others : List ℕ)
      → m.initialized ≡ true
      → IsHeld others (m, w)
      → (let x = samp_net_mgr_destroy api adapter (m, w) in
          (x.0 ≡ true)
          × (x.1.0 ≡ blank)
          × (x.1.1.opened ≡ others)
          × (samp_net_mgr_destroy api adapter x.1 ≡ (true, x.1)))
  unfolding samp_net_mgr_destroy samp_net_runtime_shutdown
  destroy-destroy m w others i held =
      let s = samp_net_mgr_stop api adapter (m, w) in
      simp i (
        refl,
        refl,
        destroy-opened s.1.0.raknet_client s.1.1 ∙ (stop-opened m w others i held).3,
        refl,
      )
