-- ===== src/Net/Sockets/Balance.antt =====
-- Theorems on ipv4_socket_compat.c: a function that opens a socket either hands it out or closes it.
use libsamp.Common.{
  ℕ, ◌≡◌, ◌≢◌, refl, ap, ◌∙◌, arith, Bool, true, false, not, Option, none, some, List, [], ◌∷◌,
  ◌==◌, if◌then◌else◌, Bool-cases, inl, inr,
}
use native.Mathlib.Decide.{ℕ_discrete}
use libsamp.Net.World.{
  Winsock, World, remove, invalid_socket, run, call, open_socket, samp_net_close_socket,
  samp_net_runtime_init,
}
use libsamp.Net.Sockets.{
  sock_dgram, sock_stream, so_reuseaddr, tune, bind_address, host_address, connect_socket,
  connect_address, resolve_and_connect, when_ready, with_socket, bind_udp, bind_and_listen,
  samp_net_ipv4_create_udp_bound, samp_net_ipv4_tcp_listen, samp_net_ipv4_tcp_connect,
  samp_net_ipv4_resolve_first,
}

-- The sockets that are open after a call that answers with a socket or with none.
abbrev pub IsBalanced : {Os : Type 0} → List ℕ → Option ℕ × World Os → Type 0
IsBalanced opened (none, w) = w.opened ≡ opened
IsBalanced opened (some s, w) = (s ≢ invalid_socket) × (w.opened ≡ s ∷ opened)

remove-cons : (s : ℕ) (xs : List ℕ) → remove s (s ∷ xs) ≡ xs
unfolding remove
remove-cons s xs = ground arith

module _ {Os : Type 0} (api : Winsock Os) where
  pub runtime_init-opened : (w : World Os) → (samp_net_runtime_init api w).1.opened ≡ w.opened
  unfolding samp_net_runtime_init
  runtime_init-opened w = ground arith

  tune-opened : (s : ℕ) (w : World Os) → (tune api s w).opened ≡ w.opened
  unfolding tune
  tune-opened s w = refl

  pub close-opened :
      (s : ℕ) (w : World Os) (opened : List ℕ)
      → s ≢ invalid_socket
      → w.opened ≡ s ∷ opened
      → (samp_net_close_socket api s w).opened ≡ opened
  unfolding samp_net_close_socket
  close-opened s w opened valid e = ground (arith, remove-cons s opened)

  open_socket-opened :
      (kind : ℕ) (w : World Os)
      → (open_socket api kind w).0 ≢ invalid_socket
      → (open_socket api kind w).1.opened ≡ (open_socket api kind w).0 ∷ w.opened
  unfolding open_socket
  open_socket-opened kind w h = ground arith

  open_socket-failed :
      (kind : ℕ) (w : World Os)
      → (open_socket api kind w).0 ≡ invalid_socket
      → (open_socket api kind w).1.opened ≡ w.opened
  unfolding open_socket
  open_socket-failed kind w h = ground arith

  -- The rest of a function once its socket is open.
  pub with_socket-IsBalanced :
      (kind : ℕ) (w : World Os) (opened : List ℕ) (rest : ℕ → World Os → Option ℕ × World Os)
      → w.opened ≡ opened
      → ((s : ℕ) (w' : World Os)
          → s ≢ invalid_socket
          → w'.opened ≡ s ∷ opened
          → IsBalanced opened (rest s w'))
      → IsBalanced opened (with_socket api kind rest w)
  unfolding with_socket
  with_socket-IsBalanced kind w opened rest e good =
      elim (ℕ_discrete (open_socket api kind w).0 invalid_socket) [
        | yes i ↦ rw (==-true (open_socket api kind w).0 i) (open_socket-failed kind w i ∙ e)
        | no n ↦ rw (==-false (open_socket api kind w).0 n) (
            good (open_socket api kind w).0 (open_socket api kind w).1 n
              (open_socket-opened kind w n ∙ ap (λ (l : List ℕ). (open_socket api kind w).0 ∷ l) e))
      ]
    where
      ==-true : (s : ℕ) → s ≡ invalid_socket → (s == invalid_socket) ≡ true
      ==-true s h = ground arith

      ==-false : (s : ℕ) → s ≢ invalid_socket → (s == invalid_socket) ≡ false
      ==-false s h = ground arith

  -- The step that closes the socket when it fails.
  pub or_closes :
      (ok : Bool) (s : ℕ) (w : World Os) (opened : List ℕ) (rest : Option ℕ × World Os)
      → s ≢ invalid_socket
      → w.opened ≡ s ∷ opened
      → IsBalanced opened rest
      → IsBalanced opened (if not ok then (none, samp_net_close_socket api s w) else rest)
  or_closes true s w opened rest valid e good = good
  or_closes false s w opened rest valid e good = close-opened s w opened valid e

  pub kept :
      (ok : Bool) (s : ℕ) (w : World Os) (opened : List ℕ)
      → s ≢ invalid_socket
      → w.opened ≡ s ∷ opened
      → IsBalanced opened (if not ok then (none, samp_net_close_socket api s w) else (some s, w))
  kept ok s w opened valid e = or_closes ok s w opened (some s, w) valid e (valid, e)

  pub when_ready-IsBalanced :
      (w : World Os) (rest : World Os → Option ℕ × World Os)
      → ((w' : World Os) → w'.opened ≡ w.opened → IsBalanced w.opened (rest w'))
      → IsBalanced w.opened (when_ready api rest w)
  unfolding when_ready
  when_ready-IsBalanced w rest good = elim (Bool-cases (samp_net_runtime_init api w).0) [
    | inl t ↦ rw t (good (samp_net_runtime_init api w).1 (runtime_init-opened w))
    | inr t ↦ rw t (runtime_init-opened w)
  ]

  bind_and_listen-IsBalanced :
      (port backlog s : ℕ) (w : World Os) (opened : List ℕ)
      → s ≢ invalid_socket
      → w.opened ≡ s ∷ opened
      → IsBalanced opened (bind_and_listen api port backlog s w)
  unfolding bind_and_listen
  bind_and_listen-IsBalanced port backlog s w opened valid e =
      let w1 = run api (api.setsockopt s so_reuseaddr 1) w in
      let (bound, w2) = call api (api.bind s 0 port) w1 in
      let (ok, w3) = call api (api.listen s (if backlog == 0 then 1 else backlog)) w2 in
      or_closes bound s w2 opened
        (if not ok then (none, samp_net_close_socket api s w3) else (some s, w3)) valid e
        (kept ok s w3 opened valid e)

  -- A listener that cannot be set up leaves no socket open behind it; one that can is the one socket
  -- more that is open.
  pub tcp_listen-IsBalanced :
      (port backlog : ℕ) (w : World Os)
      → IsBalanced w.opened (samp_net_ipv4_tcp_listen api port backlog w)
  unfolding samp_net_ipv4_tcp_listen
  tcp_listen-IsBalanced port backlog w =
      let rest = bind_and_listen api port backlog in
      when_ready-IsBalanced w (with_socket api sock_stream rest) (λ w1 e1.
        with_socket-IsBalanced sock_stream w1 w.opened rest e1
          (λ s w2 valid e2. bind_and_listen-IsBalanced port backlog s w2 w.opened valid e2))

  bind_udp-IsBalanced :
      (port : ℕ) (bind_ip : Option (List ℕ)) (nonblocking : Bool) (s : ℕ) (w : World Os)
      (opened : List ℕ)
      → s ≢ invalid_socket
      → w.opened ≡ s ∷ opened
      → IsBalanced opened (bind_udp api port bind_ip nonblocking s w)
  unfolding bind_udp tune
  bind_udp-IsBalanced port bind_ip true s w opened valid e =
      let (set, w2) = call api (api.set_blocking s false) (tune api s w) in
      let (ok, w3) = call api (api.bind s (bind_address api bind_ip) port) w2 in
      or_closes set s w2 opened
        (if not ok then (none, samp_net_close_socket api s w3) else (some s, w3)) valid e
        (kept ok s w3 opened valid e)
  bind_udp-IsBalanced port bind_ip false s w opened valid e =
      let (ok, w3) = call api (api.bind s (bind_address api bind_ip) port) (tune api s w) in
      kept ok s w3 opened valid e

  -- A datagram socket whose mode or address is refused is closed again; one that is answered is the
  -- one socket more that is open.
  pub create_udp_bound-IsBalanced :
      (port : ℕ) (bind_ip : Option (List ℕ)) (nonblocking : Bool) (w : World Os)
      → IsBalanced w.opened (samp_net_ipv4_create_udp_bound api port bind_ip nonblocking w)
  unfolding samp_net_ipv4_create_udp_bound
  create_udp_bound-IsBalanced port bind_ip nonblocking w =
      let rest = bind_udp api port bind_ip nonblocking in
      when_ready-IsBalanced w (with_socket api sock_dgram rest) (λ w1 e1.
        with_socket-IsBalanced sock_dgram w1 w.opened rest e1
          (λ s w2 valid e2. bind_udp-IsBalanced port bind_ip nonblocking s w2 w.opened valid e2))

  connect_socket-IsBalanced :
      (address port s : ℕ) (w : World Os) (opened : List ℕ)
      → s ≢ invalid_socket
      → w.opened ≡ s ∷ opened
      → IsBalanced opened (connect_socket api address port s w)
  unfolding connect_socket
  connect_socket-IsBalanced address port s w opened valid e =
      let (ok, w1) = call api (api.connect s address port) w in kept ok s w1 opened valid e

  host_address-opened :
      (c : ℕ) (host : List ℕ) (w : World Os) → (host_address api (c ∷ host) w).1.opened ≡ w.opened
  unfolding host_address samp_net_ipv4_resolve_first
  host_address-opened c host w = ground arith

  connect_address-IsBalanced :
      (port : ℕ) (address : Option ℕ) (w : World Os) (opened : List ℕ)
      → w.opened ≡ opened
      → IsBalanced opened (connect_address api port address w)
  unfolding connect_address
  connect_address-IsBalanced port none w opened e = e
  connect_address-IsBalanced port (some a) w opened e =
      with_socket-IsBalanced sock_stream w opened (connect_socket api a port) e
        (λ s w2 valid e2. connect_socket-IsBalanced a port s w2 opened valid e2)

  resolve_and_connect-IsBalanced :
      (c : ℕ) (host : List ℕ) (port : ℕ) (w : World Os) (opened : List ℕ)
      → w.opened ≡ opened
      → IsBalanced opened (resolve_and_connect api (c ∷ host) port w)
  unfolding resolve_and_connect
  resolve_and_connect-IsBalanced c host port w opened e =
      let r = host_address api (c ∷ host) w in
      connect_address-IsBalanced port r.0 r.1 opened (host_address-opened c host w ∙ e)

  -- A connection that is refused, or whose host has no address, leaves no socket open behind it; one
  -- that is made is the one socket more that is open.
  pub tcp_connect-IsBalanced :
      (host : Option (List ℕ)) (port : ℕ) (w : World Os)
      → IsBalanced w.opened (samp_net_ipv4_tcp_connect api host port w)
  unfolding samp_net_ipv4_tcp_connect
  tcp_connect-IsBalanced none port w = refl
  tcp_connect-IsBalanced (some []) port w = refl
  tcp_connect-IsBalanced (some (c ∷ host)) port w =
      when_ready-IsBalanced w (resolve_and_connect api (c ∷ host) port)
        (λ w1 e1. resolve_and_connect-IsBalanced c host port w1 w.opened e1)
