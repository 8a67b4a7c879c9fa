-- ===== src/Net/Manager.antt =====
-- The bootstrap manager of tcp_bootstrap_manager.c: its state and its operations, on a manager that
-- is not NULL. An answer 0 is `true`, an answer -1 `false`.
pub mod Held
use libsamp.Common.{
  ℕ, zero, suc, ◌+◌, Bool, true, false, ◌&&◌, not, Option, none, some, List, [], ◌∷◌, u32, ◌==◌,
  if◌then◌else◌,
}
use libsamp.Common.Int.{ℤ, negsuc}
use libsamp.Net.World.{
  Winsock, World, invalid_socket, run, call, samp_net_close_socket, samp_net_runtime_init,
  samp_net_runtime_shutdown,
}
use libsamp.Net.Sockets.{
  samp_net_ipv4_tcp_listen, samp_net_ipv4_tcp_connect, samp_net_ipv4_getsockname_port,
}

-- `samp_tcp_bootstrap_manager`
pub record Manager : Type 0 where
  pub initialized : Bool
  pub running : Bool
  pub use_raknet_client : Bool
  pub init_count : ℕ
  pub start_count : ℕ
  pub stop_count : ℕ
  pub listen_socket : ℕ
  pub listen_port : ℕ
  pub raknet_client : Option ℕ
  pub raknet_client_port : ℕ

-- The functions of raknet_client_adapter.h that the manager calls. A client is a number; `create`
-- answers whether it returned 0, and what it stored.
pub record Adapter (Os : Type 0) : Type 0 where
  pub available : Bool
  pub create : Os → (Bool × Option ℕ) × Os
  pub destroy : ℕ → Os → Os
  pub connect : ℕ → List ℕ → ℕ → ℕ → ℤ → Os → Bool × Os
  pub disconnect : ℕ → ℕ → ℕ → Os → Os
  pub is_connected : ℕ → Os → ℤ
  pub drain_packets : ℕ → ℤ → Os → ℤ × Os

-- `memset(manager, 0, sizeof(*manager))` and the invalid socket.
abbrev pub blank : Manager
blank = record {
  initialized = false;
  running = false;
  use_raknet_client = false;
  init_count = 0;
  start_count = 0;
  stop_count = 0;
  listen_socket = invalid_socket;
  listen_port = 0;
  raknet_client = none;
  raknet_client_port = 0;
}

unfoldable pub is_some : Option ℕ → Bool
is_some none = false
is_some (some client) = true

module _ {Os : Type 0} (api : Winsock Os) (adapter : Adapter Os) where
  unfoldable pub samp_net_mgr_init : Manager × World Os → Bool × (Manager × World Os)
  samp_net_mgr_init (m, w) =
      if m.initialized
      then (true, (m, w))
      else let (ready, w1) = samp_net_runtime_init api w in
        if not ready
        then (false, (blank, w1))
        else let (made, w2) =
            if adapter.available then call api adapter.create w1 else ((false, none), w1) in
          (
            true,
            (
              record blank {
                initialized = true;
                init_count = 1;
                raknet_client = made.1;
                use_raknet_client = made.0 && is_some made.1;
              },
              w2,
            ),
          )

  -- The listener that was set up, and its port.
  unfoldable pub start_on : ℕ → Option ℕ → Manager × World Os → Bool × (Manager × World Os)
  start_on s none (m, w) = (false, (m, samp_net_close_socket api s w))
  start_on s (some port) (m, w) = (
    true,
    (
      record m {
        listen_socket = s;
        listen_port = port;
        running = true;
        start_count = u32 (m.start_count + 1);
      },
      w,
    ),
  )

  unfoldable pub start_with : Option ℕ → Manager × World Os → Bool × (Manager × World Os)
  start_with none (m, w) = (false, (m, w))
  start_with (some s) (m, w) =
      let (port, w1) = samp_net_ipv4_getsockname_port api s w in start_on s port (m, w1)

  unfoldable pub samp_net_mgr_start_listener :
      ℕ → ℕ → Manager × World Os → Bool × (Manager × World Os)
  samp_net_mgr_start_listener port backlog (m, w) =
      if not m.initialized
      then (false, (m, w))
      else if m.running
      then (false, (m, w))
      else let (s, w1) = samp_net_ipv4_tcp_listen api port backlog w in start_with s (m, w1)

  unfoldable pub samp_net_mgr_connect :
      Option (List ℕ) → ℕ → Manager × World Os → Option ℕ × (Manager × World Os)
  samp_net_mgr_connect host port (m, w) =
      if not m.initialized
      then (none, (m, w))
      else let (s, w1) = samp_net_ipv4_tcp_connect api host port w in (s, (m, w1))

  -- The client, where the manager may use one.
  unfoldable pub usable_client : Manager → Option ℕ
  usable_client m = if m.initialized && m.use_raknet_client then m.raknet_client else none

  unfoldable pub samp_net_mgr_connect_raknet :
      List ℕ → ℕ → ℕ → ℤ → Manager × World Os → Bool × (Manager × World Os)
  samp_net_mgr_connect_raknet host port client_port thread_sleep_timer (m, w) =
      elim (usable_client m) [
        | none ↦ (false, (m, w))
        | some client ↦
            let (ok, w1) =
              call api (adapter.connect client host port client_port thread_sleep_timer) w in
            (ok, (record m { raknet_client_port = client_port }, w1))
      ]

  unfoldable pub samp_net_mgr_raknet_is_connected : Manager × World Os → ℤ
  samp_net_mgr_raknet_is_connected (m, w) = elim (usable_client m) [
    | none ↦ ℤ.pos 0
    | some client ↦ adapter.is_connected client w.os
  ]

  unfoldable pub samp_net_mgr_raknet_pump : ℤ → Manager × World Os → ℤ × (Manager × World Os)
  samp_net_mgr_raknet_pump max_packets (m, w) = elim (usable_client m) [
    | none ↦ (negsuc 0, (m, w))
    | some client ↦
        let (n, w1) = call api (adapter.drain_packets client max_packets) w in (n, (m, w1))
  ]

  unfoldable pub samp_net_mgr_uses_raknet : Manager → Bool
  samp_net_mgr_uses_raknet m = m.initialized && m.use_raknet_client

  -- The disconnection of a client, if there is one.
  unfoldable pub disconnect_client : Option ℕ → World Os → World Os
  disconnect_client none w = w
  disconnect_client (some client) w = run api (adapter.disconnect client 0 0) w

  unfoldable pub destroy_client : Option ℕ → World Os → World Os
  destroy_client none w = w
  destroy_client (some client) w = run api (adapter.destroy client) w

  unfoldable pub samp_net_mgr_stop : Manager × World Os → Bool × (Manager × World Os)
  samp_net_mgr_stop (m, w) =
      if not m.initialized
      then (false, (m, w))
      else let w1 =
          if m.listen_socket == invalid_socket
          then w
          else samp_net_close_socket api m.listen_socket w in
        (
          true,
          (
            record m {
              listen_socket = invalid_socket;
              running = false;
              listen_port = 0;
              stop_count = u32 (m.stop_count + 1);
            },
            disconnect_client m.raknet_client w1,
          ),
        )

  unfoldable pub samp_net_mgr_destroy : Manager × World Os → Bool × (Manager × World Os)
  samp_net_mgr_destroy (m, w) =
      if not m.initialized
      then (true, (m, w))
      else let (m1, w1) = (samp_net_mgr_stop (m, w)).1 in
        (true, (blank, samp_net_runtime_shutdown api (destroy_client m1.raknet_client w1)))
