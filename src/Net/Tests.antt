-- ===== src/Net/Tests.antt =====
-- The socket functions over concrete answers of Winsock.
use libsamp.Net.Endpoint.{samp_net_parse_hostport}
use libsamp.Net.Endpoint.Forms.{port_text, parse_hostport-bracketed, parse_hostport-plain}
use libsamp.Common.{
  replicate, ◌++◌, refl, inl, inr, ◌≡◌, ℕ, ◌+◌, ◌-◌, arith, true, false, none, some, [], ◌∷◌,
}
use libsamp.Common.Int.{pos}
use libsamp.Net.World.{Winsock, World}
use libsamp.Net.Sockets.{samp_net_ipv4_sendto}
use libsamp.Net.Sockets.Balance.{IsBalanced}
use libsamp.Net.DualStack.{Resolver}
use libsamp.Net.Opening.{connect_dual_stack, open_with, open_with-IsBalanced}
use libsamp.Net.LocalAddrs.{
  Names, samp_net_ipv4_collect_local_addrs, IsCollected, collect_local_addrs-IsCollected,
}
use libsamp.Net.Manager.{Manager, Adapter, blank, samp_net_mgr_start_listener, samp_net_mgr_destroy}
use libsamp.Net.Manager.Held.{IsHeld, start_listener-IsHeld, destroy-destroy}
use libsamp.Net.Sockets.Retry.{IsSent, sendto-IsSent}

-- Winsock with the number of calls as its state: sockets are numbered from it, a connection is
-- refused, and a send answers 0 until the fifth call.
abbrev test_api : Winsock ℕ
test_api = record {
  startup = λ os. (true, os + 1);
  cleanup = λ os. os;
  socket = λ kind os. (os + 1, os + 1);
  setsockopt = λ s option value os. os + 1;
  set_blocking = λ s blocking os. (true, os + 1);
  bind = λ s address port os. (true, os + 1);
  listen = λ s backlog os. (true, os + 1);
  connect = λ s address port os. (false, os + 1);
  closesocket = λ s os. os + 1;
  sendto = λ s payload address port os. (pos (os - 4), os + 1);
  recvfrom = λ s size os. (none, os + 1);
  getsockname = λ s os. (some 7777, os + 1);
  last_error = λ os. 10035;
  inet_addr = λ text. 0xFFFFFFFF;
  gethostbyname = λ host os. (some (0x0100007F ∷ []), os + 1);
}

abbrev fresh_world : World ℕ
fresh_world = record { os = 0; initialized = false; opened = [] }

-- A resolver with two addresses, neither of which can be connected to.
abbrev test_resolver : Resolver ℕ
test_resolver = record {
  getaddrinfo = λ host port os. (
    some (record { kind = 1; address = 1 ∷ [] } ∷ record { kind = 2; address = 2 ∷ [] } ∷ []),
    os + 1,
  );
  freeaddrinfo = λ os. os + 1;
  connect = λ s address os. (false, os + 1);
  select = λ s timeout os. (false, os + 1);
  socket_error = λ s os. (none, os + 1);
}

-- "lh", with a second to wait
open_with-IsBalanced_example : IsBalanced [] (
    open_with test_api test_resolver
      (connect_dual_stack (some (108 ∷ 104 ∷ [])) 7777 1000)
      fresh_world)
open_with-IsBalanced_example =
    open_with-IsBalanced test_api test_resolver
      (connect_dual_stack (some (108 ∷ 104 ∷ [])) 7777 1000) fresh_world

-- Every address reads as a text of 20 characters.
abbrev test_names : Names ℕ
test_names = record {
  gethostname = λ os. (some (104 ∷ []), os);
  inet_ntoa = λ address. some (replicate 20 49);
}

collect_local_addrs-IsCollected_example :
    IsCollected 3 [] (samp_net_ipv4_collect_local_addrs test_api test_names true 3 fresh_world)
collect_local_addrs-IsCollected_example =
    collect_local_addrs-IsCollected test_api test_names true 3 fresh_world

sendto-IsSent_example : IsSent test_api 3 (1 ∷ 2 ∷ []) 0x0100007F 7777 16 fresh_world (
  (samp_net_ipv4_sendto test_api 3 (some (1 ∷ 2 ∷ [])) 0x0100007F 7777 fresh_world).0.0,
  (samp_net_ipv4_sendto test_api 3 (some (1 ∷ 2 ∷ [])) 0x0100007F 7777 fresh_world).1,
)
sendto-IsSent_example =
    sendto-IsSent test_api 3 (1 ∷ 2 ∷ []) 0x0100007F 7777 fresh_world (λ e. omega arith)
      (λ e. omega arith) (omega arith)

-- An adapter whose client never connects.
abbrev test_adapter : Adapter ℕ
test_adapter = record {
  available = true;
  create = λ os. ((true, some 9), os + 1);
  destroy = λ client os. os + 1;
  connect = λ client host port client_port timer os. (false, os + 1);
  disconnect = λ client duration channel os. os + 1;
  is_connected = λ client os. pos 0;
  drain_packets = λ client max_packets os. (pos 0, os + 1);
}

-- A manager that listens on socket 2, with socket 5 open besides.
abbrev listening : Manager
listening = record blank {
  initialized = true;
  running = true;
  init_count = 1;
  start_count = 1;
  listen_socket = 2;
  listen_port = 7777;
  raknet_client = some 9;
}

abbrev busy_world : World ℕ
busy_world = record { os = 8; initialized = true; opened = 2 ∷ 5 ∷ [] }

listening-IsHeld : IsHeld (5 ∷ []) (listening, busy_world)
listening-IsHeld = inl (refl, (λ e. omega arith), refl)

start_listener-IsHeld_example :
    IsHeld []
      (samp_net_mgr_start_listener test_api test_adapter 7777 5
        (record blank { initialized = true }, fresh_world)).1
start_listener-IsHeld_example =
    start_listener-IsHeld test_api test_adapter 7777 5 (record blank { initialized = true })
      fresh_world [] (inr (refl, refl, refl))

destroy-destroy_example :
    (let x = samp_net_mgr_destroy test_api test_adapter (listening, busy_world) in
      (x.0 ≡ true)
      × (x.1.0 ≡ blank)
      × (x.1.1.opened ≡ 5 ∷ [])
      × (samp_net_mgr_destroy test_api test_adapter x.1 ≡ (true, x.1)))
destroy-destroy_example =
    destroy-destroy test_api test_adapter listening busy_world (5 ∷ []) refl listening-IsHeld

-- "[::1]:7777"
parse_hostport-bracketed_example :
    samp_net_parse_hostport (some (91 ∷ ((58 ∷ 58 ∷ 49 ∷ []) ++ (93 ∷ 58 ∷ port_text 7777)))) 80
    ≡ some (record { host = 58 ∷ 58 ∷ 49 ∷ []; port = 7777 })
parse_hostport-bracketed_example =
    parse_hostport-bracketed (58 ∷ 58 ∷ 49 ∷ []) 7777 80
      ((λ e. omega arith), ((λ e. omega arith), ((λ e. omega arith), tt))) (λ e. omega arith)
      (omega arith) (omega arith)

-- "lh:7777"
parse_hostport-plain_example :
    samp_net_parse_hostport (some ((108 ∷ 104 ∷ []) ++ (58 ∷ port_text 7777))) 80
    ≡ some (record { host = 108 ∷ 104 ∷ []; port = 7777 })
parse_hostport-plain_example =
    parse_hostport-plain 108 (104 ∷ []) 7777 80 (λ e. omega arith)
      ((λ e. omega arith), ((λ e. omega arith), tt)) (omega arith) (omega arith)
