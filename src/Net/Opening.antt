-- ===== src/Net/Opening.antt =====
-- The four functions of ipv4_socket_compat.c and dual_stack.c that open a socket.
use libsamp.Common.{ℕ, Bool, Option, List}
use libsamp.Net.World.{World, Winsock}
use libsamp.Net.Sockets.{
  samp_net_ipv4_create_udp_bound, samp_net_ipv4_tcp_listen, samp_net_ipv4_tcp_connect,
}
use libsamp.Net.Sockets.Balance.{
  IsBalanced, tcp_listen-IsBalanced, create_udp_bound-IsBalanced, tcp_connect-IsBalanced,
}
use libsamp.Net.DualStack.{Resolver, samp_net_connect_dual_stack, connect_dual_stack-IsBalanced}

pub data Opening : Type 0 where
  listen : ℕ → ℕ → Opening
  datagrams : ℕ → Option (List ℕ) → Bool → Opening
  connect : Option (List ℕ) → ℕ → Opening
  connect_dual_stack : Option (List ℕ) → ℕ → ℕ → Opening

module _ {Os : Type 0} (api : Winsock Os) (resolver : Resolver Os) where
  -- The call, with what it answers.
  abbrev pub open_with : Opening → World Os → Option ℕ × World Os
  open_with (listen port backlog) w = samp_net_ipv4_tcp_listen api port backlog w
  open_with (datagrams port bind_ip nonblocking) w =
      samp_net_ipv4_create_udp_bound api port bind_ip nonblocking w
  open_with (connect host port) w = samp_net_ipv4_tcp_connect api host port w
  open_with (connect_dual_stack host port timeout) w =
      samp_net_connect_dual_stack api resolver host port timeout w

  -- Whichever function is asked for a socket, and whatever the system answers: with a socket, it is a
  -- valid one and the one socket more that is open; without, every socket that was opened on the way,
  -- one for each address of the host, is closed again.
  pub open_with-IsBalanced : (o : Opening) (w : World Os) → IsBalanced w.opened (open_with o w)
  open_with-IsBalanced (listen port backlog) w = tcp_listen-IsBalanced api port backlog w
  open_with-IsBalanced (datagrams port bind_ip nonblocking) w =
      create_udp_bound-IsBalanced api port bind_ip nonblocking w
  open_with-IsBalanced (connect host port) w = tcp_connect-IsBalanced api host port w
  open_with-IsBalanced (connect_dual_stack host port timeout) w =
      connect_dual_stack-IsBalanced api resolver host port timeout w
