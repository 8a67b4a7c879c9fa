-- ===== src/Net.antt =====
-- The sockets layer (reimpl/src/net/ipv4_socket_compat.c and
-- tcp_bootstrap_manager.c, and what they call in dual_stack.c).
pub mod World
pub mod DualStack
pub mod Opening
pub mod LocalAddrs
pub mod Endpoint
pub mod Sockets
pub mod Manager
mod Tests
