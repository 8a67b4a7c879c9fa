-- ===== src/Net/Sockets.antt =====
-- The IPv4 socket functions of ipv4_socket_compat.c. A function that answers -1 without a socket is
-- `none`; the output pointers are not null.
pub mod Balance
pub mod Retry
use libsamp.Common.{
  ℕ, zero, suc, ◌+◌, ◌≤◌, Bool, true, false, ◌&&◌, ◌||◌, not, Option, none, some, List, [], ◌∷◌,
  length, take, ltb, leb, ◌==◌, if◌then◌else◌,
}
use libsamp.Common.Int.{ℤ, pos, negsuc}
use libsamp.Net.World.{
  Winsock, World, Datagram, invalid_socket, run, call, open_socket, samp_net_close_socket,
  samp_net_runtime_init,
}

abbrev pub sock_stream : ℕ
sock_stream = 1

abbrev pub sock_dgram : ℕ
sock_dgram = 2

abbrev pub so_reuseaddr : ℕ
so_reuseaddr = 0x4

abbrev pub so_broadcast : ℕ
so_broadcast = 0x20

abbrev pub so_sndbuf : ℕ
so_sndbuf = 0x1001

abbrev pub so_rcvbuf : ℕ
so_rcvbuf = 0x1002

abbrev pub inaddr_none : ℕ
inaddr_none = 0xFFFFFFFF

-- `is_wouldblock_error`: WSAEWOULDBLOCK, WSAEINPROGRESS, WSAEALREADY.
unfoldable pub is_wouldblock_error : ℕ → Bool
is_wouldblock_error err = err == 10035 || err == 10036 || err == 10037

-- What a receive answers: a datagram, nothing to read yet, or a failure.
pub data Received : Type 0 where
  packet : Datagram → Received
  would_block hard_error : Received

module _ {Os : Type 0} (api : Winsock Os) where
  unfoldable pub bind_address : Option (List ℕ) → ℕ
  bind_address none = 0
  bind_address (some []) = 0
  bind_address (some (c ∷ text)) = api.inet_addr (c ∷ text)

  -- The four options of a datagram socket.
  unfoldable pub tune : ℕ → World Os → World Os
  tune s w = run api (api.setsockopt s so_broadcast 1) (
      run api (api.setsockopt s so_sndbuf 0x4000) (
        run api (api.setsockopt s so_rcvbuf 0x40000) (run api (api.setsockopt s so_reuseaddr 1) w)))

  -- The rest of a function, once Winsock is started; `none` if it is not.
  unfoldable pub when_ready : (World Os → Option ℕ × World Os) → World Os → Option ℕ × World Os
  when_ready rest w =
      let (ready, w1) = samp_net_runtime_init api w in if not ready then (none, w1) else rest w1

  -- The rest of a function, once it has its socket; `none` if there is none.
  unfoldable pub with_socket :
      ℕ → (ℕ → World Os → Option ℕ × World Os) → World Os → Option ℕ × World Os
  with_socket kind rest w =
      let (s, w1) = open_socket api kind w in if s == invalid_socket then (none, w1) else rest s w1

  unfoldable pub bind_udp : ℕ → Option (List ℕ) → Bool → ℕ → World Os → Option ℕ × World Os
  bind_udp port bind_ip nonblocking s w =
      let w1 = tune s w in
      let (set, w2) = if nonblocking then call api (api.set_blocking s false) w1 else (true, w1) in
      if not set
      then (none, samp_net_close_socket api s w2)
      else let (bound, w3) = call api (api.bind s (bind_address bind_ip) port) w2 in
        if not bound then (none, samp_net_close_socket api s w3) else (some s, w3)

  unfoldable pub samp_net_ipv4_create_udp_bound :
      ℕ → Option (List ℕ) → Bool → World Os → Option ℕ × World Os
  samp_net_ipv4_create_udp_bound port bind_ip nonblocking w =
      when_ready (with_socket sock_dgram (bind_udp port bind_ip nonblocking)) w

  unfoldable pub bind_and_listen : ℕ → ℕ → ℕ → World Os → Option ℕ × World Os
  bind_and_listen port backlog s w =
      let w1 = run api (api.setsockopt s so_reuseaddr 1) w in
      let (bound, w2) = call api (api.bind s 0 port) w1 in
      if not bound
      then (none, samp_net_close_socket api s w2)
      else let (listening, w3) = call api (api.listen s (if backlog == 0 then 1 else backlog)) w2 in
        if not listening then (none, samp_net_close_socket api s w3) else (some s, w3)

  unfoldable pub samp_net_ipv4_tcp_listen : ℕ → ℕ → World Os → Option ℕ × World Os
  samp_net_ipv4_tcp_listen port backlog w =
      when_ready (with_socket sock_stream (bind_and_listen port backlog)) w

  unfoldable pub samp_net_ipv4_resolve_first : Option (List ℕ) → World Os → Option ℕ × World Os
  samp_net_ipv4_resolve_first none w = (none, w)
  samp_net_ipv4_resolve_first (some []) w = (none, w)
  samp_net_ipv4_resolve_first (some (c ∷ host)) w =
      let (ent, w1) = call api (api.gethostbyname (c ∷ host)) w in
      elim ent [
        | none ↦ (none, w1)
        | some addresses ↦ elim addresses [ [] ↦ (none, w1) | a ∷ more ↦ (some a, w1) ]
      ]

  -- The address of a host: its text, or else what the resolver says.
  unfoldable pub host_address : List ℕ → World Os → Option ℕ × World Os
  host_address host w =
      if api.inet_addr host == inaddr_none
      then samp_net_ipv4_resolve_first (some host) w
      else (some (api.inet_addr host), w)

  unfoldable pub connect_socket : ℕ → ℕ → ℕ → World Os → Option ℕ × World Os
  connect_socket address port s w =
      let (connected, w1) = call api (api.connect s address port) w in
      if not connected then (none, samp_net_close_socket api s w1) else (some s, w1)

  unfoldable pub connect_address : ℕ → Option ℕ → World Os → Option ℕ × World Os
  connect_address port none w = (none, w)
  connect_address port (some a) w = with_socket sock_stream (connect_socket a port) w

  unfoldable pub resolve_and_connect : List ℕ → ℕ → World Os → Option ℕ × World Os
  resolve_and_connect host port w =
      let (address, w1) = host_address host w in connect_address port address w1

  unfoldable pub samp_net_ipv4_tcp_connect : Option (List ℕ) → ℕ → World Os → Option ℕ × World Os
  samp_net_ipv4_tcp_connect none port w = (none, w)
  samp_net_ipv4_tcp_connect (some []) port w = (none, w)
  samp_net_ipv4_tcp_connect (some (c ∷ host)) port w =
      when_ready (resolve_and_connect (c ∷ host) port) w

  -- The sends that are made again while they answer 0, `attempts` at most after the first.
  unfoldable pub send_again : ℕ → ℕ → List ℕ → ℕ → ℕ → World Os → ℤ × World Os
  send_again zero s payload address port w = call api (api.sendto s payload address port) w
  send_again (suc attempts) s payload address port w =
      let (rc, w1) = call api (api.sendto s payload address port) w in
      let again = send_again attempts s payload address port w1 in
      elim rc [ negsuc n ↦ (negsuc n, w1) | pos n ↦ if n == 0 then again else (pos n, w1) ]

  -- The answer, with the error that is stored when it is negative.
  unfoldable pub samp_net_ipv4_sendto :
      ℕ → Option (List ℕ) → ℕ → ℕ → World Os → (ℤ × Option ℕ) × World Os
  samp_net_ipv4_sendto s none address port w = ((negsuc 0, none), w)
  samp_net_ipv4_sendto s (some payload) address port w =
      if s == invalid_socket || length payload == 0 || ltb 0x7FFFFFFF (length payload)
      then ((negsuc 0, none), w)
      else let (rc, w1) = send_again 15 s payload address port w in
        elim rc [
          | pos n ↦ ((pos n, none), w1)
          | negsuc n ↦ ((negsuc n, some (api.last_error w1.os)), w1)
        ]

  unfoldable pub samp_net_ipv4_recvfrom : ℕ → ℕ → World Os → Received × World Os
  samp_net_ipv4_recvfrom s buffer_size w =
      if s == invalid_socket || buffer_size == 0
      then (hard_error, w)
      else let (got, w1) = call api (api.recvfrom s buffer_size) w in
        elim got [
          | none ↦
              (if is_wouldblock_error (api.last_error w1.os) then would_block else hard_error, w1)
          | some d ↦ (packet d, w1)
        ]

  unfoldable pub samp_net_ipv4_getsockname_port : ℕ → World Os → Option ℕ × World Os
  samp_net_ipv4_getsockname_port s w =
      if s == invalid_socket then (none, w) else call api (api.getsockname s) w
